-- ===== src/Keeper/Keyed/Delegations.antt =====
-- keeper/delegation.go: Delegate, Undelegate and Redelegate keep records under their keys.
use mathlib.Core.Path.{subst}
use alliance.Prelude.{ap, ◌≡◌, refl, sym, Option, none, some}
use alliance.Sdk.{Sdk, Denom, SdkDec, AccAddress, ValAddress, Coin, Coins, Context}
use alliance.Sdk.Result.{or_panic, or_panic-eq-ok, transitive_redelegation}
use alliance.Types.{AllianceAsset, AllianceValidator, Delegation, get_operator, new_delegation}
use alliance.Keeper.State.{State}
use alliance.Keeper.Call.{Call, gets, lift, guard_not, ◌>>=◌, ◌>>◌}
use alliance.Keeper.Call.Post.{OnOk, OnOk-mono}
use alliance.Keeper.Call.Keeps.{
  Keeps, Keeps-gets_bind, Keeps-lift_bind, Keeps-post_bind, keeps_rules,
}
use alliance.Keeper.Store.{get_delegation_of}
use alliance.Keeper.Rewards.{claim_delegation_rewards}
use alliance.Keeper.Rewards.Kept.{claim_delegation_rewards-Keeps}
use alliance.Keeper.Dust.{
  with_new_shares, upsert_delegation_with_new_tokens, reduce_delegation_shares,
  reset_asset_and_validators, clear_worthless, clear_dust_delegation,
}
use alliance.Keeper.Delegations.{
  claim_if_found, add_delegation, delegate, shares_to_remove, remove_delegation, undelegate,
  move_delegation, redelegate,
}
use alliance.Keeper.Queues.{has_redelegation}
use alliance.Keeper.Keyed.{WellKeyed, IsOf, get_delegation_of-IsOf, setters_keep}
use alliance.Keeper.Keyed.Claims.{
  set_validator-Keeps, update_validator_shares-Keeps, claim_delegation_rewards-Keyed,
}
use alliance.Keeper.Keyed.Queues.{AddKeepsDenom, add_redelegation-Keeps, queue_undelegation-Keeps}

pub with_shares-IsOf :
    {del : AccAddress} {val : ValAddress} {denom : Denom} (d : Delegation) (shares : SdkDec)
    → IsOf del val denom d
    → IsOf del val denom (record d { shares = shares })
with_shares-IsOf d shares own = record {
  delegator = own.delegator;
  validator = own.validator;
  denomination = own.denomination;
}

module _ {W : Type 0} (k : Sdk W) where
  with_new_shares-IsOf :
      (ctx : Context) (del : AccAddress) (val : AllianceValidator) (coin : Coin) (shares : SdkDec)
      (o : Option Delegation)
      → ((d : Delegation) → o ≡ some d → IsOf del (get_operator val) coin.denom d)
      → IsOf del (get_operator val) coin.denom (with_new_shares k ctx del val coin shares o)
  unfolding new_delegation
  with_new_shares-IsOf ctx del val coin shares none own = record {
    delegator = refl;
    validator = refl;
    denomination = refl;
  }
  with_new_shares-IsOf ctx del val coin shares (some d) own = with_shares-IsOf d _ (own d refl)

  pub found_bind :
      {B : Type 0} (del : AccAddress) (val : ValAddress) (denom : Denom)
      (f : Option Delegation → Call W B)
      → ((o : Option Delegation)
          → ((d : Delegation) → o ≡ some d → IsOf del val denom d)
          → Keeps WellKeyed (f o))
      → Keeps WellKeyed (gets (get_delegation_of del val denom) >>= f)
  found_bind del val denom f kf =
      Keeps-gets_bind (λ o. (d : Delegation) → o ≡ some d → IsOf del val denom d)
        (get_delegation_of del val denom) f (get_delegation_of-IsOf del val denom) kf

  upsert-Keeps :
      (ctx : Context) (del : AccAddress) (val : AllianceValidator) (coin : Coin)
      (asset : AllianceAsset)
      → Keeps WellKeyed (upsert_delegation_with_new_tokens k ctx del val coin asset)
  unfolding upsert_delegation_with_new_tokens
  upsert-Keeps ctx del val coin asset =
      search (found_bind, with_new_shares-IsOf, keeps_rules, setters_keep) depth 12

  reduce-Keeps :
      (del : AccAddress) (val : AllianceValidator) (coin : Coin) (shares : SdkDec) (d : Delegation)
      (v : ValAddress)
      → get_operator val ≡ v
      → IsOf del v coin.denom d
      → Keeps WellKeyed (reduce_delegation_shares k del val coin shares d)
  unfolding reduce_delegation_shares
  reduce-Keeps del val coin shares d v same own =
      let own' = subst (λ x. IsOf del x coin.denom d) (sym same) own in
      search (keeps_rules, setters_keep, with_shares-IsOf) depth 12

  reset-Keeps : (asset : AllianceAsset) → Keeps WellKeyed (reset_asset_and_validators k asset)
  unfolding reset_asset_and_validators
  reset-Keeps asset = search (keeps_rules, setters_keep) depth 12

  clear_worthless-Keeps :
      (del : AccAddress) (val : AllianceValidator) (asset : AllianceAsset) (o : Option Delegation)
      → Keeps WellKeyed (clear_worthless k del val asset o)
  unfolding clear_worthless
  clear_worthless-Keeps del val asset none = search keeps_rules
  clear_worthless-Keeps del val asset (some d) = search (keeps_rules, setters_keep) depth 12

  clear_dust-Keeps :
      (del : AccAddress) (val : AllianceValidator) (asset : AllianceAsset)
      → Keeps WellKeyed (clear_dust_delegation k del val asset)
  unfolding clear_dust_delegation
  clear_dust-Keeps del val asset =
      search (keeps_rules, clear_worthless-Keeps, set_validator-Keeps, reset-Keeps) depth 16

  module _ (ctx : Context) where
    operator_of_claim :
        (del : AccAddress) (val : AllianceValidator) (denom : Denom) (s : State W)
        → OnOk
            (λ r _. get_operator r.1 ≡ get_operator val)
            (claim_delegation_rewards k ctx del val denom s)
    operator_of_claim del val denom s =
        OnOk-mono _ _ (claim_delegation_rewards k ctx del val denom s)
          (claim_delegation_rewards-Keeps k ctx del val denom s)
          (λ r s' kept. ap (λ v. v.operator) kept.0)

    -- After a claim the validator has the address it had before.
    pub claim_bind :
        {B : Type 0} (del : AccAddress) (val : AllianceValidator) (denom : Denom)
        (f : Coins × AllianceValidator → Call W B)
        → ((r : Coins × AllianceValidator)
            → get_operator r.1 ≡ get_operator val
            → Keeps WellKeyed (f r))
        → Keeps WellKeyed (claim_delegation_rewards k ctx del val denom >>= f)
    claim_bind del val denom f kf =
        Keeps-post_bind (λ r. get_operator r.1 ≡ get_operator val)
          (claim_delegation_rewards k ctx del val denom) f
          (claim_delegation_rewards-Keyed k ctx del val denom)
          (λ s h. operator_of_claim del val denom s) kf

    claim_if_found-Keeps :
        (del : AccAddress) (val : AllianceValidator) (coin : Coin) (o : Option Delegation)
        → Keeps WellKeyed (claim_if_found k ctx del val coin o)
    unfolding claim_if_found
    claim_if_found-Keeps del val coin none = search keeps_rules
    claim_if_found-Keeps del val coin (some d) =
        search (keeps_rules, claim_delegation_rewards-Keyed) depth 12

    add_delegation-Keeps :
        (del : AccAddress) (val : AllianceValidator) (coin : Coin) (asset : AllianceAsset)
        → Keeps WellKeyed (add_delegation k ctx del val coin asset)
    unfolding add_delegation
    add_delegation-Keeps del val coin asset =
        search (keeps_rules, setters_keep, upsert-Keeps, update_validator_shares-Keeps) depth 20

    pub delegate-Keyed :
        (del : AccAddress) (val : AllianceValidator) (coin : Coin)
        → Keeps WellKeyed (delegate k ctx del val coin)
    unfolding delegate
    delegate-Keyed del val coin =
        search (keeps_rules, setters_keep, claim_if_found-Keeps, add_delegation-Keeps) depth 20

    shares_to_remove-Keeps :
        (val : AllianceValidator) (coin : Coin) (asset : AllianceAsset) (d : Delegation)
        → Keeps WellKeyed (shares_to_remove k ctx val coin asset d)
    unfolding shares_to_remove
    shares_to_remove-Keeps val coin asset d = search keeps_rules depth 12

    -- A delegation that is looked up, where a missing one is a panic.
    after_bind :
        {B : Type 0} (del : AccAddress) (val : ValAddress) (denom : Denom)
        (f : Delegation → Call W B)
        → ((d : Delegation) → IsOf del val denom d → Keeps WellKeyed (f d))
        → Keeps WellKeyed (gets (get_delegation_of del val denom) >>= λ o. lift (or_panic o) >>= f)
    after_bind del val denom f kf =
        found_bind del val denom (λ o. lift (or_panic o) >>= f)
          λ o own. Keeps-lift_bind (or_panic o) f (λ d found. kf d (own d (or_panic-eq-ok o found)))

    remove_delegation-Keeps :
        (del : AccAddress) (val : AllianceValidator) (coin : Coin) (asset : AllianceAsset)
        (d : Delegation) (shares : SdkDec) (v : ValAddress)
        → get_operator val ≡ v
        → IsOf del v coin.denom d
        → Keeps WellKeyed (remove_delegation k ctx del val coin asset d shares)
    unfolding remove_delegation
    remove_delegation-Keeps del val coin asset d shares v same own =
        search
          (
            keeps_rules, setters_keep, reduce-Keeps, update_validator_shares-Keeps,
            clear_dust-Keeps, queue_undelegation-Keeps,
          )
          depth 24

    remove_after_claim :
        (del : AccAddress) (val val' : AllianceValidator) (coin : Coin) (asset : AllianceAsset)
        (d : Delegation)
        → get_operator val' ≡ get_operator val
        → IsOf del (get_operator val) coin.denom d
        → Keeps WellKeyed (
            shares_to_remove k ctx val' coin asset d >>= λ shares.
            remove_delegation k ctx del val' coin asset d shares)
    remove_after_claim del val val' coin asset d same own =
        search (keeps_rules, shares_to_remove-Keeps, remove_delegation-Keeps) depth 12

    pub undelegate-Keyed :
        (del : AccAddress) (val : AllianceValidator) (coin : Coin)
        → Keeps WellKeyed (undelegate k ctx del val coin)
    unfolding undelegate
    undelegate-Keyed del val coin =
        search (claim_bind, after_bind, remove_after_claim, keeps_rules) depth 12

    module _ (same_denom : AddKeepsDenom k) where
      move_delegation-Keeps :
          (del : AccAddress) (src dst : AllianceValidator) (coin : Coin) (asset : AllianceAsset)
          (d : Delegation) (shares : SdkDec) (v : ValAddress)
          → get_operator src ≡ v
          → IsOf del v coin.denom d
          → Keeps WellKeyed (move_delegation k ctx del src dst coin asset d shares)
      unfolding move_delegation
      move_delegation-Keeps del src dst coin asset d shares v same own =
          search
            (
              keeps_rules,
              setters_keep,
              reduce-Keeps,
              update_validator_shares-Keeps,
              clear_dust-Keeps,
              upsert-Keeps,
              add_redelegation-Keeps k same_denom,
            )
            depth 30

      move_after_claim :
          (del : AccAddress) (src src' dst : AllianceValidator) (coin : Coin)
          (asset : AllianceAsset) (d : Delegation)
          → get_operator src' ≡ get_operator src
          → IsOf del (get_operator src) coin.denom d
          → Keeps WellKeyed (
              gets (get_delegation_of del (get_operator dst) coin.denom) >>= λ at_dst.
              claim_if_found k ctx del dst coin at_dst >>= λ dst'.
              shares_to_remove k ctx src' coin asset d >>= λ shares.
              gets (has_redelegation del (get_operator src) coin.denom) >>= λ transitive.
              guard_not transitive transitive_redelegation
              >> move_delegation k ctx del src' dst' coin asset d shares)
      move_after_claim del src src' dst coin asset d same own =
          search (keeps_rules, claim_if_found-Keeps, shares_to_remove-Keeps, move_delegation-Keeps)
            depth 20

      pub redelegate-Keyed :
          (del : AccAddress) (src dst : AllianceValidator) (coin : Coin)
          → Keeps WellKeyed (redelegate k ctx del src dst coin)
      unfolding redelegate
      redelegate-Keyed del src dst coin =
          search (claim_bind, after_bind, move_after_claim, keeps_rules) depth 12
