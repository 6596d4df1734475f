-- ===== src/Keeper/Accumulate/Claims.antt =====
-- keeper/reward.go: the histories in accumulateRewards.
use alliance.Prelude.{
  ◌≡◌, refl, true, false, [], ◌∷◌, arith, ◌==◌, All, if◌then◌else◌, Bool-cases, inl, inr, ==_iff,
  ==_refl,
}
use alliance.Prelude.Int.{◌≤ℤ◌}
use alliance.Sdk.{Sdk, Denom, SdkDec, Coins}
use alliance.Sdk.Result.{
  Result, ok, err, panic, OkThen, OkThen-if, OkThen-or_panic, OkThen-bind, OkThen-value,
}
use alliance.Types.{RewardHistory, RewardHistories}
use alliance.Types.Asset.{gte}
use alliance.Types.History.{get_index_by_denom, put_index, index_or_zero}
use alliance.Types.Laws.{DecLaws}
use alliance.Keeper.Accumulate.{accumulate_history, accumulate_histories}

module _ {W : Type 0} (k : Sdk W) where
  -- The index of a denomination in a list of histories.
  abbrev pub index_of : Denom → RewardHistories → SdkDec
  index_of d hs = index_or_zero k (get_index_by_denom d hs)

  pub index_of-put_index :
      (d e : Denom) (x : SdkDec) (hs : RewardHistories)
      → index_of e (put_index d x hs) ≡ (if d == e then x else index_of e hs)
  unfolding get_index_by_denom put_index
  index_of-put_index d e x [] = ground arith
  index_of-put_index d e x (h ∷ hs) = ground (arith, index_of-put_index d e x hs)

  -- Each listed history is claimed: the index reached is not below its own.
  abbrev pub IsClaimed : RewardHistories → RewardHistories → Type 0
  IsClaimed hs latest = All (λ h. gte k (index_of h.denom hs) h.index ≡ true) latest

  accumulate_claimed :
      (tokens weight : SdkDec) (latest : RewardHistories) (rewards : Coins) (hs : RewardHistories)
      → IsClaimed hs latest
      → accumulate_histories k tokens weight latest (rewards, hs) ≡ ok (rewards, hs)
  unfolding accumulate_histories accumulate_history
  accumulate_claimed tokens weight [] rewards hs c = refl
  accumulate_claimed tokens weight (h ∷ latest) rewards hs (c, cs) =
      rw c (accumulate_claimed tokens weight latest rewards hs cs)

  module _ (laws : DecLaws k) where
    open laws use {lt_units}

    -- One round leaves no index lower, and the round's own history claimed.
    abbrev Grows : RewardHistories → RewardHistories → Type 0
    Grows hs hs' = (d : Denom) → (index_of d hs).units ≤ℤ (index_of d hs').units

    abbrev Advances : RewardHistory → RewardHistories → Coins × RewardHistories → Type 0
    Advances h hs p = Grows hs p.1 × (h.index.units ≤ℤ (index_of h.denom p.1).units)

    put-Grows :
        (h : RewardHistory) (hs : RewardHistories)
        → (index_of h.denom hs).units ≤ℤ h.index.units
        → Grows hs (put_index h.denom h.index hs)
    put-Grows h hs le d = elim (Bool-cases (h.denom == d)) [
      | inl same ↦
          rw (index_of-put_index h.denom d h.index hs, same) (rw ((==_iff h.denom d).0 same) at le)
      | inr other ↦ rw (index_of-put_index h.denom d h.index hs, other) (omega arith)
    ]

    reached :
        (h : RewardHistory) (hs : RewardHistories)
        → gte k (index_of h.denom hs) h.index ≡ true
        → h.index.units ≤ℤ (index_of h.denom hs).units
    reached h hs e = ground (arith, lt_units (index_of h.denom hs) h.index)

    passed :
        (h : RewardHistory) (hs : RewardHistories)
        → gte k (index_of h.denom hs) h.index ≡ false
        → (index_of h.denom hs).units ≤ℤ h.index.units
    passed h hs e = ground (arith, lt_units (index_of h.denom hs) h.index)

    accumulate_history-Advances :
        (tokens weight : SdkDec) (h : RewardHistory) (rewards : Coins) (hs : RewardHistories)
        → OkThen (Advances h hs) (accumulate_history k tokens weight h (rewards, hs))
    unfolding accumulate_history
    accumulate_history-Advances tokens weight h rewards hs =
        OkThen-if (Advances h hs) (gte k (index_of h.denom hs) h.index) _ _
          (λ above. (λ d. omega arith, reached h hs above))
          λ below. OkThen-or_panic (Advances h hs) (k.new_coin h.denom _) _ λ coin e. (
            put-Grows h hs (passed h hs below),
            rw (index_of-put_index h.denom h.denom h.index hs, ==_refl h.denom) (omega arith),
          )

    -- A claim leaves no index lower, and every history claimed.
    abbrev Claimed : RewardHistories → RewardHistories → Coins × RewardHistories → Type 0
    Claimed hs latest p =
        Grows hs p.1 × All (λ h. h.index.units ≤ℤ (index_of h.denom p.1).units) latest

    after_first :
        (tokens weight : SdkDec) (h : RewardHistory) (latest hs : RewardHistories)
        (q : Coins × RewardHistories) (r : Result (Coins × RewardHistories))
        → Advances h hs q
        → OkThen (Claimed q.1 latest) r
        → OkThen (Claimed hs (h ∷ latest)) r
    after_first tokens weight h latest hs q (ok p) (grows, reach) (more, claimed) =
        (λ d. omega (arith, grows d, more d), (omega (arith, reach, more h.denom), claimed))
    after_first tokens weight h latest hs q (err e) a c = tt
    after_first tokens weight h latest hs q panic a c = tt

    accumulate_histories-Claimed :
        (tokens weight : SdkDec) (latest : RewardHistories) (rewards : Coins) (hs : RewardHistories)
        → OkThen (Claimed hs latest) (accumulate_histories k tokens weight latest (rewards, hs))
    unfolding accumulate_histories
    accumulate_histories-Claimed tokens weight [] rewards hs = (λ d. omega arith, tt)
    accumulate_histories-Claimed tokens weight (h ∷ latest) rewards hs =
        OkThen-bind (Claimed hs (h ∷ latest)) (accumulate_history k tokens weight h (rewards, hs)) _
          λ q e.
            after_first tokens weight h latest hs q (accumulate_histories k tokens weight latest q)
              (OkThen-value (Advances h hs) _
                (accumulate_history-Advances tokens weight h rewards hs) e)
              (accumulate_histories-Claimed tokens weight latest q.0 q.1)

    reached-IsClaimed :
        (hs latest : RewardHistories)
        → All (λ h. h.index.units ≤ℤ (index_of h.denom hs).units) latest
        → IsClaimed hs latest
    reached-IsClaimed hs [] c = tt
    reached-IsClaimed hs (h ∷ latest) (c, cs) =
        (ground (arith, lt_units (index_of h.denom hs) h.index), reached-IsClaimed hs latest cs)

    -- Rewards are not paid twice, under the laws of decimals: once a claim up to some histories
    -- has returned, a further claim up to the same histories, for any amount of tokens and any
    -- weight, pays nothing more and leaves the delegation's histories alone; and no index of
    -- them has fallen in the first claim.
    pub accumulate_twice :
        (tokens weight tokens' weight' : SdkDec) (latest : RewardHistories)
        (rewards rewards' : Coins) (hs : RewardHistories) {p : Coins × RewardHistories}
        → accumulate_histories k tokens weight latest (rewards, hs) ≡ ok p
        → (accumulate_histories k tokens' weight' latest (rewards', p.1) ≡ ok (rewards', p.1))
          × ((d : Denom) → (index_of d hs).units ≤ℤ (index_of d p.1).units)
    accumulate_twice tokens weight tokens' weight' latest rewards rewards' hs {p} e =
        let (grows, claimed) =
          OkThen-value (Claimed hs latest) _
            (accumulate_histories-Claimed tokens weight latest rewards hs) e in
        (
          accumulate_claimed tokens' weight' latest rewards' p.1
              (reached-IsClaimed p.1 latest claimed),
          grows,
        )
