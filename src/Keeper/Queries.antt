-- ===== src/Keeper/Queries.antt =====
-- keeper/grpc_query.go: the queries. `query.Paginate` and `url.QueryUnescape` are other code, and
-- so is the making of a denomination of "ibc/" and a hash. A query is a call: looking a validator
-- up may write its record.
pub mod Pages
pub mod Rewards
pub mod Untouched
pub mod Owned
use alliance.Prelude.{
  Bool, true, false, ◌&&◌, Option, none, some, List, [], ◌∷◌, ◌++◌, ◌==◌, if◌then◌else◌,
}
use alliance.Prelude.Int.{pos}
use alliance.Prelude.Map.{Map, range}
use alliance.Sdk.{Sdk, Denom, AccAddress, ValAddress, Coin, Coins, DecCoin, DecCoins, Context}
use alliance.Sdk.Result.{
  Result, ok, err, panic, or_panic, external, not_found, invalid_argument, internal, unknown_asset,
  no_delegation,
}
use alliance.Sdk.Result
use alliance.Types.{
  AllianceAsset, AllianceValidator, AllianceValidatorInfo, Delegation, Params, get_operator,
  new_delegation,
}
use alliance.Types.Shares.{get_delegation_tokens}
use alliance.Types.Validator.{total_tokens_with_asset}
use alliance.Keeper.State.{State, DelegationKey}
use alliance.Keeper.Call.{Call, pure, raise, lift, gets, found_or, ◌>>=◌, ◌>>◌}
use alliance.Keeper.Store.{get_asset_by_denom, get_delegation_of}
use alliance.Keeper.Validators.{get_alliance_validator}
use alliance.Keeper.Rewards.{claim_delegation_rewards}

pub record DelegationResponse : Type 0 where
  pub delegation : Delegation
  pub balance : Coin

pub record QueryAllianceValidatorResponse : Type 0 where
  pub validator_addr : ValAddress
  pub total_delegation_shares : DecCoins
  pub validator_shares : DecCoins
  pub total_staked : DecCoins

-- A request that names a delegation; `Hash` is where the deprecated ones have the denomination.
pub record DelegationRequest : Type 0 where
  pub delegator_addr : AccAddress
  pub validator_addr : ValAddress
  pub denom : Denom

-- The page that a request selects of the entries of a store, and what is answered about it.
abbrev pub Paginate : Type 0 → Type 0 → Type 1
Paginate PageRequest PageResponse =
    (V : Type 0) → PageRequest → List V → Result (List V × PageResponse)

-- The unescaped denomination, where it unescapes.
abbrev pub decoded : Option Denom → Denom → Denom
decoded none denom = denom
decoded (some denom') denom = denom'

-- An error becomes another status.
abbrev pub with_status : {A : Type 0} → Result A → Result A → Result A
with_status status (ok a) = ok a
with_status status (err e) = status
with_status status panic = panic

module _ {W : Type 0} where
  abbrev pub or_status : {A : Type 0} → Result A → Call W A → Call W A
  or_status status m s = let (r, s') = m s in (with_status status r, s')

  -- The results of a function at each entry, which ends at its first error.
  unfoldable pub collect : {A B : Type 0} → (A → Call W B) → List A → Call W (List B)
  collect f [] = pure []
  collect f (a ∷ entries) = f a >>= λ b. collect f entries >>= λ bs. pure (b ∷ bs)

module _ {W : Type 0} (k : Sdk W) where
  -- What the pages of delegations hold of each.
  unfoldable pub delegation_response : Delegation → Call W DelegationResponse
  delegation_response delegation = do
    known ← gets (get_asset_by_denom delegation.denom)
    asset ← found_or unknown_asset known
    validator ← get_alliance_validator k delegation.validator_address
    balance ← lift (get_delegation_tokens k delegation validator asset)
    pure (record { delegation = delegation; balance = balance })

  -- The tokens behind each share of a validator; an asset that is gone is left out.
  abbrev pub staked_coin : AllianceValidator → Denom → Option AllianceAsset → Result DecCoins
  staked_coin val denom none = ok []
  staked_coin val denom (some asset) = Result.◌>>=◌ (total_tokens_with_asset k val asset) λ tokens.
      Result.◌>>=◌ (or_panic (k.new_dec_coin_from_dec denom tokens)) (λ coin. ok (coin ∷ []))

  unfoldable pub total_staked : AllianceValidator → State W → DecCoins → Result DecCoins
  total_staked val s [] = ok []
  total_staked val s (share ∷ shares) =
      Result.◌>>=◌ (staked_coin val share.denom (get_asset_by_denom share.denom s))
        λ coin. Result.◌>>=◌ (total_staked val s shares) (λ coins. ok (coin ++ coins))

  unfoldable pub validator_response :
      ValAddress → AllianceValidator → Call W QueryAllianceValidatorResponse
  unfolding total_staked
  validator_response val_addr val = do
    state ← gets (λ s. s)
    staked ← lift (total_staked val state val.info.validator_shares)
    pure (record {
      validator_addr = val_addr;
      total_delegation_shares = val.info.total_delegator_shares;
      validator_shares = val.info.validator_shares;
      total_staked = staked;
    })

  -- QueryServer.AllianceValidator; a request may be nil.
  unfoldable pub alliance_validator : Option ValAddress → Call W QueryAllianceValidatorResponse
  unfolding validator_response
  alliance_validator none = raise invalid_argument
  alliance_validator (some validator_addr) = do
    val_addr ← found_or invalid_argument (k.val_address_from_bech32 validator_addr)
    val ← or_status (err not_found) (get_alliance_validator k val_addr)
    validator_response validator_addr val

  unfoldable pub query_params : Call W Params
  query_params = gets (λ s. s.params)

  module _ (query_unescape : Denom → Option Denom) (ibc_denom : Denom → Denom) where
    -- QueryServer.Alliance and IBCAlliance
    unfoldable pub query_alliance : Denom → Call W AllianceAsset
    query_alliance denom = do
      known ← gets (get_asset_by_denom (decoded (query_unescape denom) denom))
      found_or unknown_asset known

    unfoldable pub ibc_alliance : Denom → Call W AllianceAsset
    unfolding query_alliance
    ibc_alliance hash = query_alliance (ibc_denom hash)

    module _ (ctx : Context) where
      unfoldable pub alliance_delegation_rewards : DelegationRequest → Call W Coins
      alliance_delegation_rewards req = do
        let denom = decoded (query_unescape req.denom) req.denom
        del ← found_or (external 0) (k.acc_address_from_bech32 req.delegator_addr)
        val_addr ← found_or (external 0) (k.val_address_from_bech32 req.validator_addr)
        known ← gets (get_asset_by_denom denom)
        asset ← found_or unknown_asset known
        val ← get_alliance_validator k val_addr
        found ← gets (get_delegation_of del (get_operator val) denom)
        delegation ← found_or no_delegation found
        (rewards, val') ← claim_delegation_rewards k ctx del val denom
        pure rewards

      unfoldable pub ibc_alliance_delegation_rewards : DelegationRequest → Call W Coins
      unfolding alliance_delegation_rewards
      ibc_alliance_delegation_rewards request =
          alliance_delegation_rewards (record request { denom = ibc_denom request.denom })

      -- The answer of AllianceDelegation: a delegation of no shares where there is none.
      unfoldable pub found_response :
          AccAddress
          → ValAddress
          → Denom
          → AllianceValidator
          → AllianceAsset
          → Option Delegation
          → Result DelegationResponse
      unfolding new_delegation
      found_response del val_addr denom validator asset none =
          Result.◌>>=◌ (or_panic (k.new_coin denom (pos 0))) λ balance. ok (record {
            delegation = new_delegation ctx del val_addr denom k.zero_dec [];
            balance = balance;
          })
      found_response del val_addr denom validator asset (some delegation) =
          Result.◌>>=◌ (get_delegation_tokens k delegation validator asset)
            (λ balance. ok (record { delegation = delegation; balance = balance }))

      unfoldable pub alliance_delegation : DelegationRequest → Call W DelegationResponse
      unfolding found_response
      alliance_delegation req = do
        let denom = decoded (query_unescape req.denom) req.denom
        del ← found_or (external 0) (k.acc_address_from_bech32 req.delegator_addr)
        val_addr ← found_or (external 0) (k.val_address_from_bech32 req.validator_addr)
        validator ← or_status (err not_found) (get_alliance_validator k val_addr)
        known ← gets (get_asset_by_denom denom)
        asset ← found_or not_found known
        found ← gets (get_delegation_of del (get_operator validator) denom)
        lift (found_response del val_addr denom validator asset found)

      unfoldable pub ibc_alliance_delegation : DelegationRequest → Call W DelegationResponse
      unfolding alliance_delegation
      ibc_alliance_delegation request =
          alliance_delegation (record request { denom = ibc_denom request.denom })
