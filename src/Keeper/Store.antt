-- ===== src/Keeper/Store.antt =====
-- The getters and setters of keeper/asset.go, keeper/delegation.go, keeper/validator.go and
-- keeper/params.go.
use alliance.Prelude.{ℕ, Bool, true, false, Option, List, ◌==◌, ◌&&◌, map, leb, ltb, if◌then◌else◌}
use alliance.Prelude.Int.{pos, ltb_ℤ}
use alliance.Prelude.Map.{lookup, insert, erase, range, nat_key, int_key, pair_key}
use alliance.Sdk.{Sdk, Denom, AccAddress, ValAddress, Time, Duration, Context}
use alliance.Sdk.Result.{asset_has_tokens}
use alliance.Types.{
  AllianceAsset, AllianceValidatorInfo, AllianceValidator, Delegation, RewardWeightChangeSnapshot,
  get_operator, new_reward_weight_change_snapshot,
}
use alliance.Keeper.State.{State, SnapshotKey}
use alliance.Keeper.Call.{Call, pure, gets, modify, guard_not, ◌>>=◌, ◌>>◌}

-- The range of IterateWeightChangeSnapshot ends before the key of the height 2^64 - 1.
abbrev pub in_snapshot_range : Denom → ValAddress → ℕ → SnapshotKey → Bool
in_snapshot_range denom val last_claim_height (d, (v, h)) =
    d == denom && v == val && leb last_claim_height h && ltb h 0xffff_ffff_ffff_ffff

module _ {W : Type 0} where
  unfoldable pub set_asset : AllianceAsset → Call W (Unit {0})
  unfolding insert
  set_asset asset = modify λ s. record s { assets = insert asset.denom asset s.assets }

  unfoldable pub get_asset_by_denom : Denom → State W → Option AllianceAsset
  get_asset_by_denom denom s = lookup denom s.assets

  unfoldable pub get_all_assets : State W → List AllianceAsset
  get_all_assets s = map (λ e. e.1) s.assets

  unfoldable pub delete_asset_key : Denom → Call W (Unit {0})
  delete_asset_key denom = modify λ s. record s { assets = erase denom s.assets }

  -- DeleteAsset
  unfoldable pub delete_asset : AllianceAsset → Call W (Unit {0})
  unfolding delete_asset_key
  delete_asset asset = do
    guard_not (ltb_ℤ (pos 0) asset.total_tokens) asset_has_tokens
    delete_asset_key asset.denom

  unfoldable pub queue_asset_rebalance_event : Call W (Unit {0})
  queue_asset_rebalance_event = modify λ s. record s { rebalance_queued = true }

  unfoldable pub consume_asset_rebalance_event : Call W Bool
  consume_asset_rebalance_event = do
    queued ← gets (λ s. s.rebalance_queued)
    if queued
        then ((modify λ s. record s { rebalance_queued = false }) >> pure true)
        else pure false

  unfoldable pub get_delegation_of : AccAddress → ValAddress → Denom → State W → Option Delegation
  get_delegation_of del val denom s = lookup (del, (val, denom)) s.delegations

  unfoldable pub set_delegation : AccAddress → ValAddress → Denom → Delegation → Call W (Unit {0})
  set_delegation del val denom d =
      modify λ s. record s { delegations = insert (del, (val, denom)) d s.delegations }

  -- `store.Delete(types.GetDelegationKey(…))`
  unfoldable pub delete_delegation : AccAddress → ValAddress → Denom → Call W (Unit {0})
  delete_delegation del val denom =
      modify λ s. record s { delegations = erase (del, (val, denom)) s.delegations }

  unfoldable pub get_alliance_validator_info : ValAddress → State W → Option AllianceValidatorInfo
  get_alliance_validator_info val s = lookup val s.validator_infos

  unfoldable pub set_validator_info : ValAddress → AllianceValidatorInfo → Call W (Unit {0})
  set_validator_info val info =
      modify λ s. record s { validator_infos = insert val info s.validator_infos }

  unfoldable pub set_validator : AllianceValidator → Call W (Unit {0})
  unfolding set_validator_info
  set_validator val = set_validator_info (get_operator val) val.info

  unfoldable pub put_reward_weight_change_snapshot :
      Denom → ValAddress → ℕ → RewardWeightChangeSnapshot → Call W (Unit {0})
  put_reward_weight_change_snapshot denom val height snapshot =
      modify λ s. record s { snapshots = insert (denom, (val, height)) snapshot s.snapshots }

  -- SetRewardWeightChangeSnapshot
  unfoldable pub set_reward_weight_change_snapshot :
      Context → AllianceAsset → AllianceValidator → Call W (Unit {0})
  unfolding put_reward_weight_change_snapshot new_reward_weight_change_snapshot
  set_reward_weight_change_snapshot ctx asset val =
      put_reward_weight_change_snapshot asset.denom (get_operator val) ctx.block_height
        (new_reward_weight_change_snapshot asset val)

  unfoldable pub create_initial_reward_weight_change_snapshot :
      Sdk W → Context → Denom → ValAddress → AllianceValidatorInfo → Call W (Unit {0})
  unfolding put_reward_weight_change_snapshot
  create_initial_reward_weight_change_snapshot k ctx denom val info =
      put_reward_weight_change_snapshot denom val ctx.block_height
        (record { prev_reward_weight = k.zero_dec; reward_histories = info.global_reward_history })

  unfoldable pub iterate_weight_change_snapshot :
      Denom → ValAddress → ℕ → State W → List (SnapshotKey × RewardWeightChangeSnapshot)
  iterate_weight_change_snapshot denom val last_claim_height s =
      range (in_snapshot_range denom val last_claim_height) s.snapshots

  unfoldable pub last_reward_claim_time : State W → Time
  last_reward_claim_time s = s.params.last_take_rate_claim_time

  unfoldable pub reward_claim_interval : State W → Duration
  reward_claim_interval s = s.params.take_rate_claim_interval

  unfoldable pub reward_delay_time : State W → Duration
  reward_delay_time s = s.params.reward_delay_time

  unfoldable pub set_last_reward_claim_time : Time → Call W (Unit {0})
  set_last_reward_claim_time t =
      modify λ s. record s { params = record s.params { last_take_rate_claim_time = t } }
