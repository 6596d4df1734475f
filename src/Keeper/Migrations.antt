-- ===== src/Keeper/Migrations.antt =====
-- migrations/v4/migrations.go: the range of reward weights that older assets get.
pub mod Lookups
use alliance.Prelude.{Bool, true, List, [], ◌∷◌, if◌then◌else◌}
use alliance.Prelude.Int.{pos}
use alliance.Sdk.{Sdk, Context}
use alliance.Types.{AllianceAsset}
use alliance.Types.Asset.{rewards_started}
use alliance.Keeper.Call.{Call, gets, for_each, ◌>>=◌}
use alliance.Keeper.Store.{set_asset, get_all_assets}

module _ {W : Type 0} (k : Sdk W) (ctx : Context) where
  -- `math.MaxInt` is 2^63 - 1.
  unfoldable pub with_default_range : AllianceAsset → AllianceAsset
  with_default_range asset =
      let ranged = record asset {
        reward_weight_range = record {
          min = k.zero_dec;
          max = k.new_dec_from_int (pos 9223372036854775807);
        };
      } in
      if rewards_started ranged ctx.block_time
      then record ranged { is_initialized = true }
      else ranged

  -- Migrate, and migrateAssetsWithDefaultRewardWeightRange.
  unfoldable pub migrate : Call W (Unit {0})
  unfolding with_default_range
  migrate = do
    assets ← gets get_all_assets
    for_each assets (λ asset. set_asset (with_default_range asset))
