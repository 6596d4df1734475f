-- ===== src/Keeper/Assets/Weights.antt =====
-- keeper/asset.go: the reward weight in RewardWeightChangeHook.
use alliance.Prelude.{◌≡◌, refl, arith}
use alliance.Prelude.Int.{◌≤ℤ◌}
use alliance.Sdk.{Sdk, SdkDec, Context}
use alliance.Types.{AllianceAsset}
use alliance.Types.Laws.{DecLaws}
use alliance.Keeper.Assets.{clamp_weight, reward_weight_changed}

module _ {W : Type 0} (k : Sdk W) (ctx : Context) (laws : DecLaws k) where
  open laws use {lt_units}

  clamp_weight_bounds :
      (asset : AllianceAsset) (weight : SdkDec)
      → asset.reward_weight_range.min.units ≤ℤ asset.reward_weight_range.max.units
      → (asset.reward_weight_range.min.units ≤ℤ (clamp_weight k ctx asset weight).units)
        × ((clamp_weight k ctx asset weight).units ≤ℤ asset.reward_weight_range.max.units)
  unfolding clamp_weight
  clamp_weight_bounds asset weight h = ground (
    arith,
    lt_units weight asset.reward_weight_range.min,
    lt_units asset.reward_weight_range.max weight,
    lt_units asset.reward_weight_range.max asset.reward_weight_range.min,
  )

  -- However many changes are compounded, the weight ends inside the asset's range, whose minimum
  -- is not above its maximum, and the range itself, the tokens and the shares are as before;
  -- under the laws of decimals.
  pub reward_weight_changed_bounds :
      (asset : AllianceAsset)
      → asset.reward_weight_range.min.units ≤ℤ asset.reward_weight_range.max.units
      → let asset' = reward_weight_changed k ctx asset in
        (asset.reward_weight_range.min.units ≤ℤ asset'.reward_weight.units)
        × (asset'.reward_weight.units ≤ℤ asset.reward_weight_range.max.units)
        × (asset'.reward_weight_range ≡ asset.reward_weight_range)
        × (asset'.total_tokens ≡ asset.total_tokens)
        × (asset'.total_validator_shares ≡ asset.total_validator_shares)
  unfolding reward_weight_changed
  reward_weight_changed_bounds asset h =
      let (low, high) =
        clamp_weight_bounds asset (k.mul asset.reward_weight (k.power asset.reward_change_rate _))
          h in
      (low, high, refl, refl, refl)
