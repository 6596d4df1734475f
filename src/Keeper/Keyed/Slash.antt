-- ===== src/Keeper/Keyed/Slash.antt =====
-- keeper/slash.go and keeper/hooks.go: a slash keeps records under their keys.
use mathlib.Core.Path.{subst}
use alliance.Prelude.{◌≡◌, refl, sym, ◌∙◌, Option, none, some, List, [], ◌∷◌}
use alliance.Prelude.Int.{ltb_ℤ}
use alliance.Prelude.Map.{insert, lookup, nat_key, int_key, pair_key}
use alliance.Sdk.{
  Sdk, Denom, SdkDec, AccAddress, ValAddress, DecCoins, Context, StakingHook,
  after_validator_created, before_validator_modified, after_validator_removed,
  after_validator_bonded, after_validator_begin_unbonding, before_delegation_created,
  before_delegation_shares_modified, before_delegation_removed, after_delegation_modified,
  before_validator_slashed,
}
use alliance.Types.{
  AllianceAsset, AllianceValidator, Delegation, Redelegation, Undelegation, get_operator,
}
use alliance.Keeper.State.{RedelegationIndexKey, UnbondingIndexKey}
use alliance.Keeper.Call.{Call, gets, modify, ◌>>=◌}
use alliance.Keeper.Call.Keeps.{
  Keeps, Keeps-pure, Keeps-bind, Keeps-if, Keeps-gets_bind, Keeps-post_bind, Yields, Yields-pure,
  Yields-bind, Yields-post_bind, keeps_rules,
}
use alliance.Keeper.Store.{get_asset_by_denom}
use alliance.Keeper.Queues.{entries_or_nil}
use alliance.Keeper.Slash.{
  undelegation_key_of_index, slash_shares, slash_entry, slash_entries, slash_delegation,
  slash_delegation_if_found, slash_redelegation, slash_undelegation, slash_validator,
}
use alliance.Keeper.Hooks.{staking_hook, staking_hooks}
use alliance.Keeper.Keyed.{
  WellKeyed, IsOf, AllOf, OwnQueue, OwnAsset, Everywhere-insert, Everywhere-lookup,
  set_undelegations-Keeps, setters_keep,
}
use alliance.Keeper.Keyed.Claims.{get_alliance_validator-Keeps, set_validator-Keeps}
use alliance.Keeper.Keyed.Queues.{stored_queue-AllOf}
use alliance.Keeper.Keyed.Delegations.{with_shares-IsOf, found_bind, claim_bind}

module _ {W : Type 0} (k : Sdk W) where
  slash_shares-Keeps :
      (fraction : SdkDec) (shares slashed : DecCoins)
      → Keeps WellKeyed (slash_shares k fraction shares slashed)
  unfolding slash_shares
  slash_shares-Keeps fraction [] slashed = Keeps-pure slashed
  slash_shares-Keeps fraction (share ∷ shares) slashed =
      search (keeps_rules, setters_keep, slash_shares-Keeps fraction shares) depth 12

  slash_entry-Keeps :
      (fraction : SdkDec) (u : Undelegation) → Keeps WellKeyed (slash_entry k fraction u)
  unfolding slash_entry
  slash_entry-Keeps fraction u = search (keeps_rules, setters_keep) depth 12

  slash_entries-Keeps :
      (fraction : SdkDec) (entries : List Undelegation)
      → Keeps WellKeyed (slash_entries k fraction entries)
  unfolding slash_entries
  slash_entries-Keeps fraction [] = Keeps-pure []
  slash_entries-Keeps fraction (u ∷ entries) =
      Keeps-bind _ _ (slash_entry-Keeps fraction u)
        (λ u'. Keeps-bind _ _ (slash_entries-Keeps fraction entries) (λ us. Keeps-pure _))

  -- The slashed entries are of the delegator of the entries.
  slash_entry-delegator :
      (fraction : SdkDec) (u : Undelegation)
      → Yields (λ u'. u'.delegator_address ≡ u.delegator_address) (slash_entry k fraction u)
  unfolding slash_entry
  slash_entry-delegator fraction u = search (Yields-bind, Yields-pure) depth 12

  slash_entries-AllOf :
      (fraction : SdkDec) (del : AccAddress) (entries : List Undelegation)
      → AllOf del entries
      → Yields (AllOf del) (slash_entries k fraction entries)
  unfolding slash_entries
  slash_entries-AllOf fraction del [] all = Yields-pure [] tt
  slash_entries-AllOf fraction del (u ∷ entries) (own, all) =
      Yields-post_bind (λ u'. u'.delegator_address ≡ u.delegator_address) (slash_entry k fraction u)
        _ (slash_entry-delegator fraction u)
        λ u' same.
          Yields-post_bind (AllOf del) (slash_entries k fraction entries) _
            (slash_entries-AllOf fraction del entries all)
            (λ us all'. Yields-pure _ (same ∙ own, all'))

  module _ (ctx : Context) where
    slash_delegation-Keeps :
        (fraction : SdkDec) (dst : AllianceValidator) (r : Redelegation) (asset : AllianceAsset)
        (d : Delegation)
        → IsOf r.delegator_address (get_operator dst) asset.denom d
        → Keeps WellKeyed (slash_delegation k ctx fraction dst r asset d)
    unfolding slash_delegation
    slash_delegation-Keeps fraction dst r asset d own =
        search (keeps_rules, set_validator-Keeps, setters_keep, with_shares-IsOf) depth 20

    slash_if_found-Keeps :
        (fraction : SdkDec) (dst : AllianceValidator) (r : Redelegation) (od : Option Delegation)
        (oa : Option AllianceAsset)
        → ((d : Delegation)
            → od ≡ some d
            → IsOf r.delegator_address (get_operator dst) r.balance.denom d)
        → ((a : AllianceAsset) → oa ≡ some a → a.denom ≡ r.balance.denom)
        → Keeps WellKeyed (slash_delegation_if_found k ctx fraction dst r od oa)
    slash_if_found-Keeps fraction dst r none oa hd ha = Keeps-pure tt
    slash_if_found-Keeps fraction dst r (some d) none hd ha = Keeps-pure tt
    slash_if_found-Keeps fraction dst r (some d) (some a) hd ha =
        slash_delegation-Keeps fraction dst r a d (
          subst (λ n. IsOf r.delegator_address (get_operator dst) n d) (sym (ha a refl))
            (hd d refl))

    asset_bind :
        (denom : Denom) (f : Option AllianceAsset → Call W (Unit {0}))
        → ((o : Option AllianceAsset)
            → ((a : AllianceAsset) → o ≡ some a → a.denom ≡ denom)
            → Keeps WellKeyed (f o))
        → Keeps WellKeyed (gets (get_asset_by_denom denom) >>= f)
    unfolding get_asset_by_denom
    asset_bind denom f kf =
        Keeps-gets_bind (λ o. (a : AllianceAsset) → o ≡ some a → a.denom ≡ denom)
          (λ s. lookup denom s.assets) f (λ s h. Everywhere-lookup OwnAsset denom s.assets h.assets)
          kf

    slash_redelegation-Keeps :
        (fraction : SdkDec) (index : RedelegationIndexKey)
        → Keeps WellKeyed (slash_redelegation k ctx fraction index)
    unfolding slash_redelegation
    slash_redelegation-Keeps fraction index =
        search
          (
            found_bind, asset_bind, claim_bind, slash_if_found-Keeps, keeps_rules,
            get_alliance_validator-Keeps,
          )
          depth 20

    set_slashed-Keeps :
        (index : UnbondingIndexKey) (entries : List Undelegation)
        → AllOf index.1.1.1 entries
        → Keeps WellKeyed (
            modify {W = W} λ s. record s {
              undelegation_queue =
                  insert (undelegation_key_of_index index) entries s.undelegation_queue;
            })
    set_slashed-Keeps index entries all =
        set_undelegations-Keeps _ (λ s. refl) (λ s. refl) (λ s. refl)
          (λ s h.
            Everywhere-insert OwnQueue (undelegation_key_of_index index) entries
              s.undelegation_queue all h.undelegations)

    slash_undelegation-Keeps :
        (fraction : SdkDec) (index : UnbondingIndexKey)
        → Keeps WellKeyed (slash_undelegation k ctx fraction index)
    unfolding slash_undelegation
    slash_undelegation-Keeps fraction index =
        Keeps-if (ltb_ℤ index.1.0 ctx.block_time) _ _ (Keeps-pure tt) (
          Keeps-gets_bind (AllOf index.1.1.1)
            (λ s. entries_or_nil (lookup (undelegation_key_of_index index) s.undelegation_queue)) _
            (stored_queue-AllOf index.1.0 index.1.1.1)
            λ queue all.
              Keeps-post_bind (AllOf index.1.1.1) (slash_entries k fraction queue) _
                (slash_entries-Keeps fraction queue)
                (λ s h. (slash_entries-AllOf fraction index.1.1.1 queue all).at s)
                (set_slashed-Keeps index))

    pub slash_validator-Keeps :
        (val : ValAddress) (fraction : SdkDec)
        → Keeps WellKeyed (slash_validator k ctx val fraction)
    unfolding slash_validator
    slash_validator-Keeps val fraction =
        search
          (
            keeps_rules, get_alliance_validator-Keeps, set_validator-Keeps, slash_shares-Keeps,
            slash_redelegation-Keeps, slash_undelegation-Keeps,
          )
          depth 20

    pub staking_hook-Keeps : (hook : StakingHook) → Keeps WellKeyed (staking_hook k ctx hook)
    unfolding staking_hook
    staking_hook-Keeps after_validator_created = Keeps-pure tt
    staking_hook-Keeps before_validator_modified = Keeps-pure tt
    staking_hook-Keeps after_validator_removed = search setters_keep
    staking_hook-Keeps after_validator_bonded = search setters_keep
    staking_hook-Keeps after_validator_begin_unbonding = search setters_keep
    staking_hook-Keeps before_delegation_created = Keeps-pure tt
    staking_hook-Keeps before_delegation_shares_modified = Keeps-pure tt
    staking_hook-Keeps before_delegation_removed = Keeps-pure tt
    staking_hook-Keeps after_delegation_modified = search setters_keep
    staking_hook-Keeps (before_validator_slashed val fraction) =
        search (keeps_rules, slash_validator-Keeps, setters_keep)

    pub staking_hooks-Keeps :
        (hooks : List StakingHook) → Keeps WellKeyed (staking_hooks k ctx hooks)
    unfolding staking_hooks
    staking_hooks-Keeps hooks = search (keeps_rules, staking_hook-Keeps)
