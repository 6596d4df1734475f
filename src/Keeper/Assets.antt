-- ===== src/Keeper/Assets.antt =====
-- keeper/asset.go: the warm-up of an asset, and the changes of its reward weight.
pub mod Weights
pub mod Whitelist
use alliance.Prelude.{Bool, true, ◌||◌, ◌&&◌, not, List, [], ◌∷◌, if◌then◌else◌}
use alliance.Prelude.Int.{pos, ◌+ℤ◌, ◌-ℤ◌, ◌*ℤ◌, ltb_ℤ, eqb_ℤ, quot, time_sub, to_uint64, int64}
use alliance.Prelude.Map.{keys}
use alliance.Sdk.{Sdk, ValAddress, SdkDec, Time, Context}
use alliance.Sdk.Result.{unknown_asset, reward_weight_out_of_bound}
use alliance.Types.{AllianceAsset}
use alliance.Types.Asset.{gt, rewards_started}
use alliance.Keeper.Call.{Call, pure, gets, found_or, guard_not, for_each, ◌>>=◌, ◌>>◌}
use alliance.Keeper.Store.{
  set_asset, get_asset_by_denom, queue_asset_rebalance_event, set_reward_weight_change_snapshot,
  create_initial_reward_weight_change_snapshot,
}
use alliance.Keeper.Validators.{get_alliance_validator}
use alliance.Keeper.Rewards.{claim_validator_rewards}

module _ {W : Type 0} (k : Sdk W) (ctx : Context) where
  -- The list holds pointers: a hook returns the assets as it leaves them.
  unfoldable pub initialize_alliance_asset : AllianceAsset → Call W AllianceAsset
  initialize_alliance_asset asset =
      if asset.is_initialized || not (rewards_started asset ctx.block_time) then pure asset else do
        infos ← gets (λ s. s.validator_infos)
        for_each infos (λ e. create_initial_reward_weight_change_snapshot k ctx asset.denom e.0 e.1)
        let asset' = record asset { is_initialized = true }
        set_asset asset'
        pure asset'

  unfoldable pub initialize_alliance_assets : List AllianceAsset → Call W (List AllianceAsset)
  unfolding initialize_alliance_asset
  initialize_alliance_assets [] = pure []
  initialize_alliance_assets (asset ∷ assets) = initialize_alliance_asset asset >>= λ asset'.
      initialize_alliance_assets assets >>= λ assets'. pure (asset' ∷ assets')

  unfoldable pub snapshot_validator : AllianceAsset → ValAddress → Call W (Unit {0})
  snapshot_validator asset val_addr = do
    validator ← get_alliance_validator k val_addr
    (coins, validator') ← claim_validator_rewards k ctx validator
    set_reward_weight_change_snapshot ctx asset validator'

  -- A change of the reward weight: every validator claims, and keeps the old weight.
  unfoldable pub snapshot_validators : AllianceAsset → AllianceAsset → Call W (Unit {0})
  unfolding snapshot_validator
  snapshot_validators asset new_asset =
      if k.equal new_asset.reward_weight asset.reward_weight then pure tt else do
        infos ← gets (λ s. s.validator_infos)
        for_each (keys infos) (snapshot_validator asset)
        queue_asset_rebalance_event

  -- The start of the counter, where the decay changes and none was scheduled.
  unfoldable pub reward_change_start : AllianceAsset → AllianceAsset → Time
  reward_change_start asset new_asset =
      if not (k.equal new_asset.reward_change_rate asset.reward_change_rate)
        || not (eqb_ℤ new_asset.reward_change_interval asset.reward_change_interval)
      then (if k.equal asset.reward_change_rate k.one_dec
            || eqb_ℤ asset.reward_change_interval (pos 0)
          then ctx.block_time
          else new_asset.last_reward_change_time)
      else new_asset.last_reward_change_time

  abbrev pub weight_out_of_range : SdkDec → AllianceAsset → Bool
  weight_out_of_range weight asset =
      gt k asset.reward_weight_range.min weight || k.lt asset.reward_weight_range.max weight

  unfoldable pub update_alliance_asset : AllianceAsset → Call W (Unit {0})
  unfolding snapshot_validators reward_change_start
  update_alliance_asset new_asset = do
    known ← gets (get_asset_by_denom new_asset.denom)
    asset ← found_or unknown_asset known
    guard_not (weight_out_of_range new_asset.reward_weight new_asset) reward_weight_out_of_bound
    snapshot_validators asset new_asset
    set_asset (record asset {
      take_rate = new_asset.take_rate;
      reward_weight = new_asset.reward_weight;
      reward_change_rate = new_asset.reward_change_rate;
      reward_change_interval = new_asset.reward_change_interval;
      last_reward_change_time = reward_change_start asset new_asset;
    })

  -- The weight after a change, held in its range.
  unfoldable pub clamp_weight : AllianceAsset → SdkDec → SdkDec
  clamp_weight asset weight =
      let raised =
        if k.lt weight asset.reward_weight_range.min
        then asset.reward_weight_range.min
        else weight in
      if gt k raised asset.reward_weight_range.max then asset.reward_weight_range.max else raised

  unfoldable pub reward_weight_changed : AllianceAsset → AllianceAsset
  unfolding clamp_weight time_sub
  reward_weight_changed asset =
      let intervals = to_uint64 (
        quot (time_sub ctx.block_time asset.last_reward_change_time)
          asset.reward_change_interval) in
      record asset {
        reward_weight =
            clamp_weight asset
              (k.mul asset.reward_weight (k.power asset.reward_change_rate intervals));
        last_reward_change_time =
            asset.last_reward_change_time
            +ℤ int64 (asset.reward_change_interval *ℤ int64 (pos intervals));
      }

  -- Whether the asset has a change scheduled, and its time has come.
  unfoldable pub reward_change_due : AllianceAsset → Bool
  reward_change_due asset =
      not (eqb_ℤ asset.reward_change_interval (pos 0) || k.equal asset.reward_change_rate k.one_dec)
      && not (ltb_ℤ ctx.block_time (asset.last_reward_change_time +ℤ asset.reward_change_interval))

  unfoldable pub change_reward_weight : AllianceAsset → Call W AllianceAsset
  unfolding reward_weight_changed reward_change_due update_alliance_asset
  change_reward_weight asset = if not (reward_change_due asset) then pure asset else do
    let asset' = reward_weight_changed asset
    queue_asset_rebalance_event
    update_alliance_asset asset'
    pure asset'

  unfoldable pub reward_weight_change_hook : List AllianceAsset → Call W (List AllianceAsset)
  unfolding change_reward_weight
  reward_weight_change_hook [] = pure []
  reward_weight_change_hook (asset ∷ assets) = change_reward_weight asset >>= λ asset'.
      reward_weight_change_hook assets >>= λ assets'. pure (asset' ∷ assets')
