-- ===== src/Keeper/Queues/Transitive.antt =====
-- keeper/delegation.go: Redelegate and HasRedelegation.
use alliance.Prelude.{
  ◌≡◌, refl, sym, ap, ◌∙◌, Bool, true, false, Option, none, some, [], ◌∷◌, ◌==◌, ◌&&◌, arith,
  if◌then◌else◌, Bool-cases, inl, inr, ◌⊎◌,
}
use alliance.Prelude.Int.{ltb_ℤ, eqb_ℤ}
use alliance.Prelude.Map.{Map, lookup, nat_key, int_key, pair_key, lookup-insert_self}
use alliance.Sdk.{Sdk, Denom, AccAddress, ValAddress, SdkDec, Time, Coin, Context, StakingValidator}
use alliance.Sdk.Result.{
  Error, ok, or_panic, fail_if, not_found, invalid_argument, no_delegator_for_address,
  transitive_redelegation,
}
use alliance.Types.{AllianceAsset, AllianceValidator, Delegation, Redelegation, get_operator}
use alliance.Types.Asset.{get_validator_shares}
use alliance.Types.Shares.{get_delegation_tokens_with_shares}
use alliance.Keeper.State.{State, RedelegationKey}
use alliance.Keeper.Call.{Call, lift, resume, guard_not, found_or}
use alliance.Keeper.Call.Post.{
  OnOk, OnOk-value, OnOk-resume, OnOk-lift, OnOk-found, OnOk-guard, OnOk-any, OnOk-mono,
}
use alliance.Keeper.Store.{get_asset_by_denom, get_delegation_of, queue_asset_rebalance_event}
use alliance.Keeper.Validators.{single_dec_coins, update_validator_shares}
use alliance.Keeper.Rewards.{claim_delegation_rewards}
use alliance.Keeper.Rewards.Kept.{rest_of, Keeps, PaysAndKeeps, claim_delegation_rewards-Keeps}
use alliance.Keeper.Dust.{
  validate_delegated_amount, reduce_delegation_shares, clear_dust_delegation,
  upsert_delegation_with_new_tokens,
}
use alliance.Keeper.Queues.{
  has_redelegation_prefix, has_redelegation, add_redelegation, merge_redelegation,
  queue_redelegation, redelegation_key,
}
use alliance.Keeper.Delegations.{claim_if_found, shares_to_remove, move_delegation, redelegate}

-- An entry under a key is found by its prefix.
found_by_prefix :
    (del d : AccAddress) (denom n : Denom) (dst v : ValAddress) (same_time rest : Bool)
    → (rest ≡ true) ⊎ ((del == d && (denom == n && (dst == v && same_time))) ≡ true)
    → (if d == del && n == denom && v == dst then true else rest) ≡ true
found_by_prefix del d denom n dst v same_time rest h = ground arith

has_prefix_of_lookup :
    (del : AccAddress) (dst : ValAddress) (denom : Denom) (t : Time)
    (m : Map RedelegationKey Redelegation) {r : Redelegation}
    → lookup (redelegation_key del denom dst t) m ≡ some r
    → has_redelegation_prefix del dst denom m ≡ true
unfolding lookup
has_prefix_of_lookup del dst denom t [] h = cc
has_prefix_of_lookup del dst denom t (((d, (n, (v, u))), w) ∷ m) h =
    found_by_prefix del d denom n dst v (eqb_ℤ t u) (has_redelegation_prefix del dst denom m)
      (elim (Bool-cases (del == d && (denom == n && (dst == v && eqb_ℤ t u)))) [
        | inl here ↦ inr here
        | inr there ↦ inl (has_prefix_of_lookup del dst denom t m (rw there at h))
      ])

module _ {W : Type 0} (k : Sdk W) (ctx : Context) where
  abbrev Never : {A : Type 0} → A → State W → Type 0
  Never a s = ⊥

  refuse :
      {A : Type 0} (b : Bool) (e : Error) (f : Unit {0} → Call W A) (s : State W)
      → b ≡ true
      → OnOk Never (resume f (fail_if b e) s)
  refuse true e f s h = tt
  refuse false e f s h = cc

  abbrev pub Same : {A : Type 0} → State W → A → State W → Type 0
  Same s a s' = rest_of k s' ≡ rest_of k s

  pub claim_if_found-Keeps :
      (del : AccAddress) (val : AllianceValidator) (coin : Coin) (found : Option Delegation)
      (s : State W)
      → OnOk (Keeps k val s) (claim_if_found k ctx del val coin found s)
  unfolding claim_if_found
  claim_if_found-Keeps del val coin none s = (refl, refl)
  claim_if_found-Keeps del val coin (some d) s =
      OnOk-resume (Keeps k val s) _ (PaysAndKeeps k val s)
        (claim_delegation_rewards k ctx del val coin.denom s)
        (claim_delegation_rewards-Keeps k ctx del val coin.denom s) (λ r s' f. f)

  pub shares_to_remove-Same :
      (val : AllianceValidator) (coin : Coin) (asset : AllianceAsset) (d : Delegation) (s : State W)
      → OnOk (Same s) (shares_to_remove k ctx val coin asset d s)
  unfolding shares_to_remove
  shares_to_remove-Same val coin asset d s =
      OnOk-lift (Same s) _ (validate_delegated_amount k d coin val asset) s λ shares e.
        OnOk-lift (Same s) _ (get_delegation_tokens_with_shares k shares val asset) s
          λ worth e'. OnOk-guard (Same s) _ (ltb_ℤ worth.amount coin.amount) _ s (λ enough. refl)

  redelegate-Never :
      (del : AccAddress) (src dst : AllianceValidator) (coin : Coin) (s : State W)
      → has_redelegation del (get_operator src) coin.denom s ≡ true
      → OnOk Never (redelegate k ctx del src dst coin s)
  unfolding redelegate has_redelegation
  redelegate-Never del src dst coin s h =
      OnOk-guard Never _ (k.validator_equal src.validator dst.validator) _ s λ differ.
        OnOk-found Never _ not_found (get_asset_by_denom coin.denom s) s λ asset e.
          OnOk-found Never _ no_delegator_for_address
            (get_delegation_of del (get_operator src) coin.denom s) s
            λ existing e'.
              OnOk-resume Never _ (PaysAndKeeps k src s)
                (claim_delegation_rewards k ctx del src coin.denom s)
                (claim_delegation_rewards-Keeps k ctx del src coin.denom s)
                λ (claimed, src') s' (same_src, kept).
                  OnOk-lift Never _
                    (or_panic (get_delegation_of del (get_operator src) coin.denom s')) s'
                    λ delegation e''.
                      OnOk-resume Never _ (Keeps k dst s')
                        (claim_if_found k ctx del dst coin
                          (get_delegation_of del (get_operator dst) coin.denom s') s')
                        (claim_if_found-Keeps del dst coin _ s')
                        λ dst' s'' (same_dst, kept').
                          OnOk-resume Never _ (Same s'')
                            (shares_to_remove k ctx src' coin asset delegation s'')
                            (shares_to_remove-Same src' coin asset delegation s'')
                            λ shares s''' kept''. refuse _ transitive_redelegation _ s''' (
                              ap
                                (λ r.
                                  has_redelegation_prefix del (get_operator src) coin.denom
                                    r.redelegations)
                                (kept'' ∙ (kept' ∙ kept))
                              ∙ h)

  -- No call of Redelegate returns while a redelegation of the delegator to the source validator,
  -- in the same denomination, is in the store: whatever the amount, the destination and the
  -- completion time of that redelegation.
  pub redelegate_transitive :
      (del : AccAddress) (src dst : AllianceValidator) (coin : Coin) (s : State W) (t : Time)
      → has_redelegation del (get_operator src) coin.denom s ≡ true
      → ¬ ((redelegate k ctx del src dst coin s).0 ≡ ok t)
  redelegate_transitive del src dst coin s t h e =
      OnOk-value Never (redelegate k ctx del src dst coin s) (redelegate-Never del src dst coin s h)
        e

  abbrev Has : {A : Type 0} → AccAddress → ValAddress → Denom → A → State W → Type 0
  Has del dst denom a s = has_redelegation del dst denom s ≡ true

  merge_redelegation-Same :
      (del : AccAddress) (src dst : ValAddress) (coin : Coin) (found : Option Redelegation)
      (s : State W)
      → OnOk (Same s) (merge_redelegation k del src dst coin found s)
  unfolding merge_redelegation
  merge_redelegation-Same del src dst coin none s = refl
  merge_redelegation-Same del src dst coin (some r) s =
      OnOk-lift (Same s) _ (or_panic (k.coin_add r.balance coin)) s (λ balance e. refl)

  add_redelegation-Has :
      (del : AccAddress) (src dst : ValAddress) (coin : Coin) (t : Time) (s : State W)
      → OnOk (Has del dst coin.denom) (add_redelegation k del src dst coin t s)
  unfolding add_redelegation queue_redelegation has_redelegation
  add_redelegation-Has del src dst coin t s =
      OnOk-resume (Has del dst coin.denom) _ (Same s)
        (merge_redelegation k del src dst coin
          (lookup (redelegation_key del coin.denom dst t) s.redelegations) s)
        (merge_redelegation-Same del src dst coin
          (lookup (redelegation_key del coin.denom dst t) s.redelegations) s)
        (λ r s' same.
          has_prefix_of_lookup del dst coin.denom t _ (lookup-insert_self _ r s'.redelegations))

  module _ (del : AccAddress) (src dst : AllianceValidator) (coin : Coin) where
    abbrev Queued : {A : Type 0} → A → State W → Type 0
    Queued a s = has_redelegation del (get_operator dst) coin.denom s ≡ true

    -- Whatever a step leaves, what follows it counts.
    onward :
        {A B : Type 0} (m : Call W A) (s : State W) (f : A → Call W B)
        → ((a : A) (s' : State W) → OnOk Queued (f a s'))
        → OnOk Queued (resume f (m s).0 (m s).1)
    onward m s f h =
        OnOk-resume Queued f (λ a s'. Unit {0}) (m s) (OnOk-any (m s)) (λ a s' u. h a s')

    move_delegation-Queued :
        (asset : AllianceAsset) (delegation : Delegation) (shares : SdkDec) (s : State W)
        → OnOk Queued (move_delegation k ctx del src dst coin asset delegation shares s)
    unfolding move_delegation queue_asset_rebalance_event has_redelegation
    move_delegation-Queued asset delegation shares s =
        onward (lift (get_validator_shares k asset coin.amount)) s _ λ changed s.
          onward (reduce_delegation_shares k del src coin shares delegation) s _ λ u s.
            onward (lift (single_dec_coins k coin.denom shares)) s _ λ d s.
              onward (lift (single_dec_coins k coin.denom changed)) s _ λ v s.
                onward (update_validator_shares k src d v false) s _ λ src' s.
                  onward (clear_dust_delegation k del src' asset) s _ λ src'' s.
                    onward (upsert_delegation_with_new_tokens k ctx del dst coin asset) s _
                      λ (added, new_shares) s.
                        onward (lift (single_dec_coins k coin.denom new_shares)) s _ λ d' s.
                          onward (lift (single_dec_coins k coin.denom changed)) s _ λ v' s.
                            onward (update_validator_shares k dst d' v' true) s _ λ dst' s.
                              OnOk-resume Queued _ Queued
                                (add_redelegation k del (get_operator src) (get_operator dst) coin _
                                  s)
                                (add_redelegation-Has del _ (get_operator dst) coin _ s)
                                (λ u s h. h)

  -- Redelegate behind the claim on the source.
  redelegate-Queued :
      (del : AccAddress) (src dst : AllianceValidator) (coin : Coin) (s : State W)
      → OnOk (Queued del src dst coin) (redelegate k ctx del src dst coin s)
  unfolding redelegate
  redelegate-Queued del src dst coin s =
      onward del src dst coin
        (guard_not (k.validator_equal src.validator dst.validator) invalid_argument) s _
        λ u s.
          onward del src dst coin (found_or not_found (get_asset_by_denom coin.denom s)) s _
            λ asset s.
              onward del src dst coin
                (found_or no_delegator_for_address
                  (get_delegation_of del (get_operator src) coin.denom s))
                s _
                λ existing s.
                  onward del src dst coin (claim_delegation_rewards k ctx del src coin.denom) s _
                    λ (claimed, src') s.
                      onward del src dst coin
                        (lift (or_panic (get_delegation_of del (get_operator src) coin.denom s))) s
                        _
                        λ delegation s.
                          OnOk-resume (Queued del src dst coin) _ (Keeps k dst s)
                            (claim_if_found k ctx del dst coin
                              (get_delegation_of del (get_operator dst) coin.denom s) s)
                            (claim_if_found-Keeps del dst coin _ s)
                            λ dst' s (same, kept).
                              onward del src dst coin
                                (shares_to_remove k ctx src' coin asset delegation) s _
                                λ shares s.
                                  onward del src dst coin
                                    (guard_not
                                      (has_redelegation del (get_operator src) coin.denom s)
                                      transitive_redelegation)
                                    s _
                                    λ u s.
                                      OnOk-mono (Queued del src' dst' coin)
                                        (Queued del src dst coin) _
                                        (move_delegation-Queued del src' dst' coin asset delegation
                                          shares s)
                                        (λ t s h.
                                          ap (λ v. has_redelegation del v.operator coin.denom s)
                                            (sym same)
                                          ∙ h)

  has_of_same :
      (del : AccAddress) (v v' : StakingValidator) (d d' : Denom) (s : State W)
      → v' ≡ v
      → d' ≡ d
      → has_redelegation del v.operator d s ≡ true
      → has_redelegation del v'.operator d' s ≡ true
  has_of_same del v v' d d' s same denom h =
      ap (λ x. has_redelegation del x.operator d' s) same
      ∙ (ap (λ x. has_redelegation del v.operator x s) denom ∙ h)

  -- Redelegations do not chain: once a redelegation to a validator has returned, no redelegation
  -- of the same delegator and denomination from that validator returns in the state it left,
  -- whatever the amount and the destination, and whatever alliance info the validator's record
  -- has.
  pub redelegate_chain :
      (del : AccAddress) (src dst next : AllianceValidator) (coin further : Coin) (s : State W)
      (dst' : AllianceValidator) {t t' : Time}
      → dst'.validator ≡ dst.validator
      → further.denom ≡ coin.denom
      → (redelegate k ctx del src dst coin s).0 ≡ ok t
      → ¬ (
          (redelegate k ctx del dst' next further (redelegate k ctx del src dst coin s).1).0
          ≡ ok t')
  redelegate_chain del src dst next coin further s dst' {t} {t'} same denom e =
      redelegate_transitive del dst' next further (redelegate k ctx del src dst coin s).1 t' (
        has_of_same del dst.validator dst'.validator coin.denom further.denom _ same denom (
          OnOk-value (Queued del src dst coin) (redelegate k ctx del src dst coin s)
            (redelegate-Queued del src dst coin s) e))
