-- ===== src/Keeper/TakeRate.antt =====
-- keeper/asset.go: the take rate, which is deducted from the assets' tokens at intervals.
pub mod Conservation
use alliance.Prelude.{ℕ, Bool, true, false, ◌||◌, ◌&&◌, List, [], ◌∷◌, ◌+◌, ◌==◌, if◌then◌else◌}
use alliance.Prelude.Int.{ℤ, pos, ◌+ℤ◌, ◌-ℤ◌, ◌*ℤ◌, ltb_ℤ, eqb_ℤ, quot, time_sub, to_uint64, int64}
use alliance.Sdk.{Sdk, SdkDec, Time, Coins, Context, alliance_module, fee_collector}
use alliance.Sdk.Result.{Result, ok, panic, or_panic}
use alliance.Types.{AllianceAsset}
use alliance.Types.Asset.{lte, is_positive, rewards_started}
use alliance.Keeper.Call.{Call, pure, lift, gets, other_module, ◌>>=◌, ◌>>◌}
use alliance.Keeper.Store.{
  set_asset, last_reward_claim_time, reward_claim_interval, set_last_reward_claim_time,
}

-- What the loop over the assets carries: the deducted coins, the number of assets with a positive
-- take rate, and the assets as their pointers read.
pub record Deduction : Type 0 where
  pub coins : Coins
  pub with_take_rate : ℕ
  pub done : List AllianceAsset

module _ {W : Type 0} (k : Sdk W) (ctx : Context) where
  unfoldable pub has_take_rate : AllianceAsset → Bool
  has_take_rate asset =
      ltb_ℤ (pos 0) asset.total_tokens
      && is_positive k asset.take_rate
      && rewards_started asset ctx.block_time

  -- The tokens that are left after the intervals, before they are truncated.
  unfoldable pub reduced_amount : ℕ → AllianceAsset → SdkDec
  reduced_amount intervals asset =
      k.mul_int (k.power (k.sub k.one_dec asset.take_rate) intervals) asset.total_tokens

  unfoldable pub deduct_asset : ℕ → AllianceAsset → Coins → Call W (Coins × AllianceAsset)
  unfolding reduced_amount
  deduct_asset intervals asset coins =
      let amount = reduced_amount intervals asset in
      if lte k amount k.one_dec then pure (coins, asset) else do
        let left = k.truncate_int amount
        coin ← lift (or_panic (k.new_coin asset.denom (asset.total_tokens -ℤ left)))
        let asset' = record asset { total_tokens = left }
        set_asset asset'
        pure (k.coins_add coins (coin ∷ []), asset')

  unfoldable pub deduct_assets : ℕ → List AllianceAsset → Coins → ℕ → Call W Deduction
  unfolding deduct_asset has_take_rate
  deduct_assets intervals [] coins n =
      pure (record { coins = coins; with_take_rate = n; done = [] })
  deduct_assets intervals (asset ∷ assets) coins n =
      if has_take_rate asset
      then (deduct_asset intervals asset coins >>= λ (coins', asset').
          deduct_assets intervals assets coins' (n + 1) >>= λ d.
          pure (record d { done = asset' ∷ d.done }))
      else (deduct_assets intervals assets coins n >>= λ d.
          pure (record d { done = asset ∷ d.done }))

  abbrev pub no_coins : Coins → Bool
  no_coins [] = true
  no_coins (c ∷ cs) = false

  -- The rest of the function behind the loop.
  unfoldable pub settle_deduction : Time → ℕ → Deduction → Call W (Coins × List AllianceAsset)
  settle_deduction last_claim intervals d =
      if d.with_take_rate == 0
      then (set_last_reward_claim_time ctx.block_time >> pure (d.coins, d.done))
      else if no_coins d.coins || k.coins_is_zero d.coins
      then pure (d.coins, d.done)
      else do
        other_module (k.send_coins_from_module_to_module alliance_module fee_collector d.coins)
        interval ← gets reward_claim_interval
        set_last_reward_claim_time (last_claim +ℤ int64 (interval *ℤ int64 (pos intervals)))
        pure (d.coins, d.done)

  -- Go panics where an integer is divided by zero.
  unfoldable pub intervals_since : Time → Time → ℤ → Result ℕ
  unfolding time_sub
  intervals_since now last interval =
      if eqb_ℤ interval (pos 0) then panic else ok (to_uint64 (quot (time_sub now last) interval))

  unfoldable pub deduct_assets_with_take_rate :
      Time → List AllianceAsset → Call W (Coins × List AllianceAsset)
  unfolding deduct_assets settle_deduction intervals_since
  deduct_assets_with_take_rate last_claim assets =
      if eqb_ℤ last_claim (pos 0)
      then (set_last_reward_claim_time ctx.block_time >> pure ([], assets))
      else do
        interval ← gets reward_claim_interval
        intervals ← lift (intervals_since ctx.block_time last_claim interval)
        d ← deduct_assets intervals assets [] 0
        settle_deduction last_claim intervals d

  unfoldable pub deduct_assets_hook : List AllianceAsset → Call W (Coins × List AllianceAsset)
  unfolding deduct_assets_with_take_rate
  deduct_assets_hook assets = do
    last ← gets last_reward_claim_time
    interval ← gets reward_claim_interval
    if ltb_ℤ (last +ℤ interval) ctx.block_time
        then deduct_assets_with_take_rate last assets
        else pure ([], assets)
