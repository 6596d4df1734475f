-- ===== src/Keeper/Queries/Pages.antt =====
-- keeper/grpc_query.go: the queries that answer a page of the store's entries.
use alliance.Prelude.{◌&&◌, Option, none, some, List, ◌==◌}
use alliance.Prelude.Map.{Map, range, nat_key, pair_key}
use alliance.Sdk.{Sdk, AccAddress, ValAddress}
use alliance.Sdk.Result.{err, external, not_found, invalid_argument, internal}
use alliance.Types.{AllianceAsset, AllianceValidatorInfo, Delegation}
use alliance.Keeper.State.{State, DelegationKey}
use alliance.Keeper.Call.{Call, pure, raise, lift, gets, found_or, ◌>>=◌}
use alliance.Keeper.Validators.{get_alliance_validator}
use alliance.Keeper.Queries.{
  Paginate, DelegationResponse, QueryAllianceValidatorResponse, or_status, collect,
  delegation_response, validator_response,
}

module _ {W PageRequest PageResponse : Type 0} (k : Sdk W)
    (paginate : Paginate PageRequest PageResponse) where
  -- `query.Paginate` with a function that gathers one result for each entry.
  unfoldable pub paged :
      {K V B : Type 0} → (K × V → Call W B) → PageRequest → Map K V → Call W (List B × PageResponse)
  unfolding collect
  paged {K} {V} f req m = do
    (entries, page) ← lift (paginate (K × V) req m)
    results ← collect f entries
    pure (results, page)

  -- The entry of a page of delegations.
  unfoldable pub entry_response : DelegationKey × Delegation → Call W DelegationResponse
  unfolding delegation_response
  entry_response (key, delegation) = delegation_response k delegation

  unfoldable pub all_alliances_delegations :
      Option PageRequest → Call W (List DelegationResponse × PageResponse)
  unfolding paged entry_response
  all_alliances_delegations none = raise invalid_argument
  all_alliances_delegations (some req) = do
    delegations ← gets (λ s. s.delegations)
    paged entry_response req delegations

  unfoldable pub validator_entry :
      ValAddress × AllianceValidatorInfo → Call W QueryAllianceValidatorResponse
  unfolding validator_response
  validator_entry (val_addr, info) = do
    val ← get_alliance_validator k val_addr
    validator_response k val_addr val

  unfoldable pub all_alliance_validators :
      Option PageRequest → Call W (List QueryAllianceValidatorResponse × PageResponse)
  unfolding paged validator_entry
  all_alliance_validators none = raise invalid_argument
  all_alliance_validators (some req) = do
    infos ← gets (λ s. s.validator_infos)
    paged validator_entry req infos

  unfoldable pub alliances : Option PageRequest → Call W (List AllianceAsset × PageResponse)
  unfolding paged
  alliances none = raise invalid_argument
  alliances (some req) = do
    assets ← gets (λ s. s.assets)
    or_status (err internal) (paged (λ e. pure e.1) req assets)

  -- The entries under GetDelegationsKey, and under GetDelegationsKeyForAllDenoms.
  unfoldable pub delegations_by : AccAddress → State W → Map DelegationKey Delegation
  unfolding range
  delegations_by del s = range (λ key. key.0 == del) s.delegations

  unfoldable pub delegations_by_to :
      AccAddress → ValAddress → State W → Map DelegationKey Delegation
  unfolding range
  delegations_by_to del val s = range (λ key. key.0 == del && key.1.0 == val) s.delegations

  unfoldable pub alliances_delegation :
      AccAddress → PageRequest → Call W (List DelegationResponse × PageResponse)
  unfolding paged entry_response delegations_by
  alliances_delegation delegator_addr req = do
    del ← found_or (external 0) (k.acc_address_from_bech32 delegator_addr)
    delegations ← gets (delegations_by del)
    paged entry_response req delegations

  unfoldable pub alliances_delegation_by_validator :
      AccAddress → ValAddress → PageRequest → Call W (List DelegationResponse × PageResponse)
  unfolding paged entry_response delegations_by_to
  alliances_delegation_by_validator delegator_addr validator_addr req = do
    del ← found_or (external 0) (k.acc_address_from_bech32 delegator_addr)
    val_addr ← found_or (external 0) (k.val_address_from_bech32 validator_addr)
    known ← gets (λ s. k.get_validator val_addr s.world)
    validator ← found_or not_found known
    delegations ← gets (delegations_by_to del val_addr)
    paged entry_response req delegations
