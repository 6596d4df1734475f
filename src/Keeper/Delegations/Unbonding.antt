-- ===== src/Keeper/Delegations/Unbonding.antt =====
-- keeper/delegation.go: the assets and the queue of undelegations around Undelegate.
use alliance.Prelude.{
  ◌≡◌, refl, sym, ap, ◌∙◌, true, false, not, Option, none, some, List, [], ◌∷◌, ◌++◌, ◌==◌,
}
use mathlib.Core.Path.{subst}
use alliance.Prelude.Int.{ℤ, pos, ◌+ℤ◌, ◌-ℤ◌, eqb_ℤ}
use alliance.Prelude.Map.{
  lookup, insert, nat_key, int_key, pair_key, lookup-insert_self, lookup-insert_ne,
}
use alliance.Sdk.{Sdk, Denom, AccAddress, ValAddress, Time, SdkDec, DecCoins, Coin, Context}
use alliance.Sdk.Result.{ok, or_panic, not_found, no_delegator_for_address}
use alliance.Types.{
  AllianceAsset, AllianceValidator, AllianceValidatorInfo, Delegation, Undelegation, get_operator,
}
use alliance.Types.Asset.{get_validator_shares, is_zero}
use alliance.Types.Shares.{get_delegation_tokens_with_shares}
use alliance.Types.Validator.{total_tokens_with_asset, reduce_shares}
use alliance.Keeper.State.{State}
use alliance.Keeper.Call.{for_each, pure, ◌>>=◌, ◌>>◌}
use alliance.Keeper.Call.Post.{
  OnOk, OnOk-value, OnOk-resume, OnOk-lift, OnOk-found, OnOk-if, OnOk-mono,
}
use alliance.Keeper.Store.{
  set_asset, get_asset_by_denom, get_delegation_of, set_delegation, delete_delegation,
  queue_asset_rebalance_event, set_validator, set_validator_info,
}
use alliance.Keeper.Validators.{single_dec_coins, update_validator_shares}
use alliance.Keeper.Rewards.{claim_delegation_rewards}
use alliance.Keeper.Rewards.Kept.{PaysAndKeeps, claim_delegation_rewards-Keeps}
use alliance.Keeper.Dust.{
  reduce_delegation_shares, clear_dust_delegation, clear_worthless, reset_asset_and_validators,
  reset_validator,
}
use alliance.Keeper.Delegations.{shares_to_remove, remove_delegation, undelegate}
use alliance.Keeper.Delegations.Tokens.{some_injective}
use alliance.Keeper.Queues.Transitive.{Same, shares_to_remove-Same}
use alliance.Keeper.Queues.{
  queue_undelegation, set_queued_undelegations, set_unbonding_index_by_val, entries_or_nil,
}

module _ {W : Type 0} (k : Sdk W) where
  -- The assets and the queue of undelegations are as in `s`, and so is the time of unbonding.
  abbrev Calm : {A : Type 0} → State W → A → State W → Type 0
  Calm s a s' =
      (s'.assets ≡ s.assets) × (s'.undelegation_queue ≡ s.undelegation_queue) × (s'.world ≡ s.world)

  reduce-Calm :
      (del : AccAddress) (val : AllianceValidator) (coin : Coin) (shares : SdkDec) (d : Delegation)
      (s : State W)
      → OnOk (Calm s) (reduce_delegation_shares k del val coin shares d s)
  unfolding reduce_delegation_shares set_delegation delete_delegation
  reduce-Calm del val coin shares d s =
      OnOk-if (Calm s) (is_zero k (k.sub d.shares shares)) _ _ s (λ all. (refl, refl, refl))
        (λ some_left. (refl, refl, refl))

  update-Calm :
      (val : AllianceValidator) (d v : DecCoins) (s : State W)
      → OnOk (Calm s) (update_validator_shares k val d v false s)
  unfolding update_validator_shares set_validator set_validator_info
  update-Calm val d v s =
      OnOk-lift (Calm s) _ (reduce_shares k d v val.info) s λ info e. (refl, refl, refl)

  worthless-Calm :
      (del : AccAddress) (val : AllianceValidator) (asset : AllianceAsset)
      (found : Option Delegation) (s : State W)
      → OnOk (Calm s) (clear_worthless k del val asset found s)
  unfolding clear_worthless delete_delegation
  worthless-Calm del val asset none s = (refl, refl, refl)
  worthless-Calm del val asset (some d) s =
      OnOk-lift (Calm s) _ (get_delegation_tokens_with_shares k d.shares val asset) s λ left e.
        OnOk-if (Calm s) (not (eqb_ℤ left.amount (pos 0))) _ _ s (λ worth. (refl, refl, refl))
          (λ dust. (refl, refl, refl))

  reset_validators-Calm :
      (denom : Denom) (infos : List (ValAddress × AllianceValidatorInfo)) (s : State W)
      → OnOk (Calm s) (for_each infos (reset_validator k denom) s)
  unfolding for_each reset_validator set_validator_info
  reset_validators-Calm denom [] s = (refl, refl, refl)
  reset_validators-Calm denom ((val, info) ∷ infos) s = reset_validators-Calm denom infos _

  -- The asset under a denomination has so many tokens, and the others are as in `s`.
  abbrev Holds : {A : Type 0} → Denom → ℤ → State W → A → State W → Type 0
  Holds denom n s a s' =
      ((x : AllianceAsset) × (lookup denom s'.assets ≡ some x) × (x.total_tokens ≡ n))
      × ((d : Denom) → d == denom ≡ false → lookup d s'.assets ≡ lookup d s.assets)
      × (s'.undelegation_queue ≡ s.undelegation_queue)
      × (s'.world ≡ s.world)

  reset-Holds :
      (asset : AllianceAsset) (s0 s : State W)
      → Holds asset.denom asset.total_tokens s0 tt s
      → OnOk (Holds asset.denom asset.total_tokens s0) (reset_asset_and_validators k asset s)
  unfolding reset_asset_and_validators set_asset
  reset-Holds asset s0 s h =
      let (stored, others, queue, world) = h in
      OnOk-if (Holds asset.denom asset.total_tokens s0) (not (eqb_ℤ asset.total_tokens (pos 0))) _ _
        s (λ some_left. h)
        λ empty.
          OnOk-resume (Holds asset.denom asset.total_tokens s0) _ (Calm s)
            (for_each s.validator_infos (reset_validator k asset.denom) s)
            (reset_validators-Calm asset.denom s.validator_infos s)
            λ u s' (same_assets, same_queue, same_world). (
              (_, lookup-insert_self asset.denom _ s'.assets, refl),
              (λ d ne.
                  lookup-insert_ne d asset.denom _ s'.assets ne
                  ∙ (ap (lookup d) same_assets ∙ others d ne)),
              same_queue ∙ queue,
              same_world ∙ world,
            )

  after-Calm :
      (asset : AllianceAsset) (s0 s s' : State W)
      → Calm s tt s'
      → Holds asset.denom asset.total_tokens s0 tt s
      → Holds asset.denom asset.total_tokens s0 tt s'
  after-Calm asset s0 s s' (assets, queue, world) ((x, stored, tokens), others, queue0, world0) = (
    (x, ap (lookup asset.denom) assets ∙ stored, tokens),
    (λ d ne. ap (lookup d) assets ∙ others d ne),
    queue ∙ queue0,
    world ∙ world0,
  )

  clear_dust-Holds :
      (del : AccAddress) (val : AllianceValidator) (asset : AllianceAsset) (s0 s : State W)
      → Holds asset.denom asset.total_tokens s0 tt s
      → OnOk (Holds asset.denom asset.total_tokens s0) (clear_dust_delegation k del val asset s)
  unfolding clear_dust_delegation set_validator set_validator_info
  clear_dust-Holds del val asset s0 s h =
      OnOk-resume (Holds asset.denom asset.total_tokens s0) _ (Calm s)
        (clear_worthless k del val asset (get_delegation_of del (get_operator val) asset.denom s) s)
        (worthless-Calm del val asset _ s)
        λ shares s1 calm.
          OnOk-lift (Holds asset.denom asset.total_tokens s0) _
            (total_tokens_with_asset k val asset) s1
            λ left e1.
              OnOk-lift (Holds asset.denom asset.total_tokens s0) _
                (single_dec_coins k asset.denom shares) s1
                λ d e2.
                  OnOk-lift (Holds asset.denom asset.total_tokens s0) _
                    (single_dec_coins k asset.denom _) s1
                    λ v e3.
                      OnOk-lift (Holds asset.denom asset.total_tokens s0) _
                        (reduce_shares k d v val.info) s1
                        λ info e4.
                          OnOk-resume (Holds asset.denom asset.total_tokens s0) _
                            (Holds asset.denom asset.total_tokens s0)
                            (reset_asset_and_validators k asset _)
                            (reset-Holds asset s0 _ (after-Calm asset s0 s s1 calm h))
                            (λ u s2 h2. h2)

  module _ (ctx : Context) where
    -- The entry that an undelegation appends to the queue.
    abbrev entry : AccAddress → AllianceValidator → Coin → Undelegation
    entry del val coin = record {
      delegator_address = del;
      validator_address = get_operator val;
      balance = coin;
    }

    abbrev pub Unbonds :
        AccAddress → AllianceValidator → Coin → AllianceAsset → State W → Time → State W → Type 0
    Unbonds del val coin asset s completion s' =
        ((x : AllianceAsset) × (lookup coin.denom s'.assets ≡ some x)
          × (x.total_tokens ≡ asset.total_tokens -ℤ coin.amount))
        × ((d : Denom) → d == coin.denom ≡ false → lookup d s'.assets ≡ lookup d s.assets)
        × (lookup (completion, del) s'.undelegation_queue
            ≡ some (
                entries_or_nil (lookup (completion, del) s.undelegation_queue)
                ++ entry del val coin ∷ []))
        × (s'.rebalance_queued ≡ true)

    written-Holds :
        (asset asset' : AllianceAsset) (s : State W)
        → asset'.denom ≡ asset.denom
        → Holds asset.denom asset'.total_tokens s tt
            (record s { assets = insert asset.denom asset' s.assets })
    written-Holds asset asset' s same = (
      (asset', lookup-insert_self asset.denom asset' s.assets, refl),
      (λ d ne. lookup-insert_ne d asset.denom asset' s.assets ne),
      refl,
      refl,
    )

    unbonds :
        (del : AccAddress) (val : AllianceValidator) (coin : Coin) (asset : AllianceAsset)
        (s0 s s3 : State W)
        → asset.denom ≡ coin.denom
        → s.assets ≡ s0.assets
        → s.undelegation_queue ≡ s0.undelegation_queue
        → Holds asset.denom (asset.total_tokens -ℤ coin.amount) s tt s3
        → OnOk (Unbonds del val coin asset s0) (
            (queue_undelegation k ctx del (get_operator val) coin >>= λ completion.
            queue_asset_rebalance_event >> pure completion)
              s3)
    unfolding queue_undelegation set_queued_undelegations set_unbonding_index_by_val
        queue_asset_rebalance_event
    unbonds del val coin asset s0 s s3 keyed same queued
          ((a, stored, tokens), others, queue, world) =
        (
          (a, ap (λ n. lookup n s3.assets) (sym keyed) ∙ stored, tokens),
          (λ d ne. others d (ap (λ n. d == n) keyed ∙ ne) ∙ ap (lookup d) same),
          lookup-insert_self _ _ s3.undelegation_queue
              ∙ ap
                  (λ m. some (
                    entries_or_nil (lookup (ctx.block_time +ℤ k.unbonding_time s3.world, del) m)
                    ++ entry del val coin ∷ []))
                  (queue ∙ queued),
          refl,
        )

    remove_delegation-Unbonds :
        (del : AccAddress) (val : AllianceValidator) (coin : Coin) (asset : AllianceAsset)
        (delegation : Delegation) (shares : SdkDec) (s0 s : State W)
        → asset.denom ≡ coin.denom
        → s.assets ≡ s0.assets
        → s.undelegation_queue ≡ s0.undelegation_queue
        → OnOk
            (Unbonds del val coin asset s0)
            (remove_delegation k ctx del val coin asset delegation shares s)
    unfolding remove_delegation set_asset queue_undelegation set_queued_undelegations
        set_unbonding_index_by_val queue_asset_rebalance_event
    remove_delegation-Unbonds del val coin asset delegation shares s0 s keyed same queued =
        OnOk-lift (Unbonds del val coin asset s0) _ (get_validator_shares k asset coin.amount) s
          λ x ex.
            let asset' = record asset {
              total_tokens = asset.total_tokens -ℤ coin.amount;
              total_validator_shares = k.sub asset.total_validator_shares x;
            } in
            let written = record s { assets = insert asset.denom asset' s.assets } in
            OnOk-resume (Unbonds del val coin asset s0) _ (Calm written)
              (reduce_delegation_shares k del val coin shares delegation written)
              (reduce-Calm del val coin shares delegation written)
              λ u s1 calm1.
                OnOk-lift (Unbonds del val coin asset s0) _ (single_dec_coins k coin.denom shares)
                  s1
                  λ d e1.
                    OnOk-lift (Unbonds del val coin asset s0) _ (single_dec_coins k coin.denom x) s1
                      λ v e2.
                        OnOk-resume (Unbonds del val coin asset s0) _ (Calm s1)
                          (update_validator_shares k val d v false s1) (update-Calm val d v s1)
                          λ val' s2 calm2.
                            OnOk-resume (Unbonds del val coin asset s0) _
                              (Holds asset.denom (asset.total_tokens -ℤ coin.amount) s)
                              (clear_dust_delegation k del val' asset' s2)
                              (clear_dust-Holds del val' asset' s s2 (
                                after-Calm asset' s s1 s2 calm2 (
                                  after-Calm asset' s written s1 calm1
                                    (written-Holds asset asset' s refl))))
                              λ val'' s3 h. unbonds del val coin asset s0 s s3 keyed same queued h

    undelegate-Unbonds :
        (del : AccAddress) (val : AllianceValidator) (coin : Coin) (asset : AllianceAsset)
        (s : State W)
        → get_asset_by_denom coin.denom s ≡ some asset
        → asset.denom ≡ coin.denom
        → OnOk (Unbonds del val coin asset s) (undelegate k ctx del val coin s)
    unfolding undelegate
    undelegate-Unbonds del val coin asset s known keyed =
        OnOk-found (Unbonds del val coin asset s) _ not_found (get_asset_by_denom coin.denom s) s
          λ found e.
            OnOk-found (Unbonds del val coin asset s) _ no_delegator_for_address
              (get_delegation_of del (get_operator val) coin.denom s) s
              λ existing e1.
                OnOk-resume (Unbonds del val coin asset s) _ (PaysAndKeeps k val s)
                  (claim_delegation_rewards k ctx del val coin.denom s)
                  (claim_delegation_rewards-Keeps k ctx del val coin.denom s)
                  λ (claimed, val') s1 (same, kept).
                    OnOk-lift (Unbonds del val coin asset s) _
                      (or_panic (get_delegation_of del (get_operator val) coin.denom s1)) s1
                      λ delegation e2.
                        OnOk-resume (Unbonds del val coin asset s) _ (Same k ctx s1)
                          (shares_to_remove k ctx val' coin found delegation s1)
                          (shares_to_remove-Same k ctx val' coin found delegation s1)
                          λ shares s2 kept2.
                            OnOk-mono (Unbonds del val' coin asset s) (Unbonds del val coin asset s)
                              _
                              (subst
                                (λ a.
                                  OnOk (Unbonds del val' coin asset s)
                                    (remove_delegation k ctx del val' coin a delegation shares s2))
                                (some_injective (sym known ∙ e))
                                (remove_delegation-Unbonds del val' coin asset delegation shares s
                                  s2 keyed (ap (λ r. r.assets) (kept2 ∙ kept))
                                  (ap (λ r. r.undelegation_queue) (kept2 ∙ kept))))
                              λ t s3 (stored, others, queued, rebalanced). (
                                stored,
                                others,
                                queued
                                    ∙ ap
                                        (λ v. some (
                                          entries_or_nil (lookup (t, del) s.undelegation_queue)
                                          ++ record {
                                            delegator_address = del;
                                            validator_address = v.operator;
                                            balance = coin;
                                          }
                                            ∷ []))
                                        same,
                                rebalanced,
                              )

    -- Where an undelegation returns a completion time, and its asset is stored under its
    -- denomination, its amount has been taken from the tokens of the asset, the other assets are
    -- as before, the entry for the delegator, the validator and the amount stands last in the
    -- delegator's queue for that time, and a rebalancing is queued; whether dust was cleared on
    -- the way or not.
    pub undelegate_unbonds :
        (del : AccAddress) (val : AllianceValidator) (coin : Coin) (asset : AllianceAsset)
        (s : State W) {t : Time}
        → get_asset_by_denom coin.denom s ≡ some asset
        → asset.denom ≡ coin.denom
        → (undelegate k ctx del val coin s).0 ≡ ok t
        → let s' = (undelegate k ctx del val coin s).1 in
          ((x : AllianceAsset) × (lookup coin.denom s'.assets ≡ some x)
            × (x.total_tokens ≡ asset.total_tokens -ℤ coin.amount))
          × ((d : Denom) → d == coin.denom ≡ false → lookup d s'.assets ≡ lookup d s.assets)
          × (lookup (t, del) s'.undelegation_queue
              ≡ some (
                  entries_or_nil (lookup (t, del) s.undelegation_queue)
                  ++ record {
                    delegator_address = del;
                    validator_address = get_operator val;
                    balance = coin;
                  }
                    ∷ []))
          × (s'.rebalance_queued ≡ true)
    undelegate_unbonds del val coin asset s known keyed e =
        OnOk-value (Unbonds del val coin asset s) (undelegate k ctx del val coin s)
          (undelegate-Unbonds del val coin asset s known keyed) e
