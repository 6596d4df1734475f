-- ===== src/Keeper/Accumulate/Growth.antt =====
-- keeper/reward.go: the histories in AddAssetsToRewardPool.
use alliance.Prelude.{
  ◌≡◌, Option, none, some, [], ◌∷◌, arith, ◌==◌, All, Bool-cases, inl, inr, ==_iff,
}
use alliance.Prelude.Int.{ℤ, pos, ◌≤ℤ◌, int_laws}
use alliance.Sdk.{Sdk, Denom, SdkDec, Coin, Coins}
use alliance.Sdk.Result.{Result, ok, err, panic, OkThen, OkThen-or_panic, OkThen-bind, OkThen-value}
use alliance.Types.{RewardHistory, RewardHistories}
use alliance.Types.History.{get_index_by_denom, put_index, index_or_zero}
use alliance.Types.Laws.{DecLaws}
use alliance.Keeper.Accumulate.{grown, add_reward, add_rewards}
use alliance.Keeper.Accumulate.Claims.{index_of, index_of-put_index}

module _ {W : Type 0} (k : Sdk W) (laws : DecLaws k) (total : SdkDec)
    (quo_nonneg : (n : ℤ) (q : SdkDec)
      → pos 0 ≤ℤ n
      → k.quo (k.new_dec_from_int n) total ≡ some q
      → pos 0 ≤ℤ q.units) where
  open laws use {zero_units, add_units}

  grown-ge :
      (part : SdkDec) (o : Option RewardHistory)
      → pos 0 ≤ℤ part.units
      → (index_or_zero k o).units ≤ℤ (grown k part o).units
  unfolding grown
  grown-ge part none h = rw zero_units h
  grown-ge part (some r) h = rw (add_units r.index part) (omega int_laws)

  abbrev Grows : RewardHistories → RewardHistories → Type 0
  Grows hs hs' = (d : Denom) → (index_of k d hs).units ≤ℤ (index_of k d hs').units

  put-Grows :
      (e : Denom) (x : SdkDec) (hs : RewardHistories)
      → (index_of k e hs).units ≤ℤ x.units
      → Grows hs (put_index e x hs)
  put-Grows e x hs le d = elim (Bool-cases (e == d)) [
    | inl same ↦ rw (index_of-put_index k e d x hs, same) (rw ((==_iff e d).0 same) at le)
    | inr other ↦ rw (index_of-put_index k e d x hs, other) (omega arith)
  ]

  add_reward-Grows :
      (c : Coin) (hs : RewardHistories)
      → pos 0 ≤ℤ c.amount
      → OkThen (Grows hs) (add_reward k total hs c)
  unfolding add_reward
  add_reward-Grows c hs h =
      OkThen-or_panic (Grows hs) (k.quo (k.new_dec_from_int c.amount) total) _ λ part e.
        put-Grows c.denom _ hs
          (grown-ge part (get_index_by_denom c.denom hs) (quo_nonneg c.amount part h e))

  later :
      (hs more : RewardHistories) (r : Result RewardHistories)
      → Grows hs more
      → OkThen (Grows more) r
      → OkThen (Grows hs) r
  later hs more (ok hs') g g' = λ d. omega (arith, g d, g' d)
  later hs more (err e) g g' = tt
  later hs more panic g g' = tt

  add_rewards-OkThen :
      (coins : Coins) (hs : RewardHistories)
      → All (λ c. pos 0 ≤ℤ c.amount) coins
      → OkThen (Grows hs) (add_rewards k total coins hs)
  unfolding add_rewards
  add_rewards-OkThen [] hs h = λ d. omega arith
  add_rewards-OkThen (c ∷ coins) hs (h, hs_nonneg) =
      OkThen-bind (Grows hs) (add_reward k total hs c) _ λ more e.
        later hs more (add_rewards k total coins more)
          (OkThen-value (Grows hs) _ (add_reward-Grows c hs h) e)
          (add_rewards-OkThen coins more hs_nonneg)

  -- A payment of amounts that are not negative lowers no index of the validator's reward
  -- histories, where quotients by the total asset weight are not negative.
  pub add_rewards_grow :
      (coins : Coins) (hs : RewardHistories) {hs' : RewardHistories}
      → All (λ c. pos 0 ≤ℤ c.amount) coins
      → add_rewards k total coins hs ≡ ok hs'
      → (d : Denom) → (index_of k d hs).units ≤ℤ (index_of k d hs').units
  add_rewards_grow coins hs h e =
      OkThen-value (Grows hs) (add_rewards k total coins hs) (add_rewards-OkThen coins hs h) e
