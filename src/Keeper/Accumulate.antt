-- ===== src/Keeper/Accumulate.antt =====
-- keeper/reward.go: the computations that write nothing.
pub mod Claims
pub mod Growth
use alliance.Prelude.{not, Option, none, some, List, [], ◌∷◌, if◌then◌else◌}
use alliance.Sdk.{Sdk, SdkDec, Coin, Coins, DecCoins, Context}
use alliance.Sdk.Result.{Result, ok, or_panic, ◌>>=◌}
use alliance.Types.{
  AllianceAsset, AllianceValidator, Delegation, RewardHistory, RewardHistories,
  RewardWeightChangeSnapshot, get_operator,
}
use alliance.Types.Asset.{gte, rewards_started}
use alliance.Types.Validator.{total_tokens_with_asset}
use alliance.Types.Shares.{get_delegation_tokens}
use alliance.Types.History.{get_index_by_denom, put_index, index_or_zero}
use alliance.Keeper.State.{State, SnapshotKey}
use alliance.Keeper.Store.{get_asset_by_denom, iterate_weight_change_snapshot}

module _ {W : Type 0} (k : Sdk W) where
  -- One round of the loop in accumulateRewards, on the rewards and the delegation's histories.
  unfoldable pub accumulate_history :
      SdkDec → SdkDec → RewardHistory → Coins × RewardHistories → Result (Coins × RewardHistories)
  accumulate_history tokens weight history (rewards, histories) =
      let index = index_or_zero k (get_index_by_denom history.denom histories) in
      if gte k index history.index then ok (rewards, histories) else do
        let claim_weight = k.mul tokens weight
        let total_claimable = k.mul (k.sub history.index index) claim_weight
        coin ← or_panic (k.new_coin history.denom (k.truncate_int total_claimable))
        ok (k.coins_add rewards (coin ∷ []), put_index history.denom history.index histories)

  unfoldable pub accumulate_histories :
      SdkDec → SdkDec → RewardHistories → Coins × RewardHistories → Result (Coins × RewardHistories)
  accumulate_histories tokens weight [] acc = ok acc
  accumulate_histories tokens weight (history ∷ latest) acc =
      accumulate_history tokens weight history acc >>= λ acc'.
      accumulate_histories tokens weight latest acc'

  unfoldable pub accumulate_rewards :
      RewardHistories
      → RewardHistories
      → AllianceAsset
      → SdkDec
      → Delegation
      → AllianceValidator
      → Result (Coins × RewardHistories)
  unfolding accumulate_histories accumulate_history
  accumulate_rewards latest histories asset weight delegation validator = do
    coin ← get_delegation_tokens k delegation validator asset
    accumulate_histories (k.new_dec_from_int coin.amount) weight latest ([], histories)

  -- The loop over the snapshots, then the claim up to the validator's current histories.
  unfoldable pub claim_through :
      Delegation
      → AllianceValidator
      → AllianceAsset
      → List (SnapshotKey × RewardWeightChangeSnapshot)
      → Coins × RewardHistories
      → Result (Coins × RewardHistories)
  unfolding accumulate_rewards
  claim_through delegation val asset [] (total, histories) = do
    (rewards, done) ←
        accumulate_rewards val.info.global_reward_history histories asset asset.reward_weight
          delegation val
    ok (k.coins_add total rewards, val.info.global_reward_history)
  claim_through delegation val asset ((at, snapshot) ∷ later) (total, histories) = do
    (rewards, histories') ←
        accumulate_rewards snapshot.reward_histories histories asset snapshot.prev_reward_weight
          delegation val
    claim_through delegation val asset later (k.coins_add total rewards, histories')

  unfoldable pub calculate_delegation_rewards :
      State W → Delegation → AllianceValidator → AllianceAsset → Result (Coins × RewardHistories)
  unfolding claim_through
  calculate_delegation_rewards s delegation val asset =
      claim_through delegation val asset
        (iterate_weight_change_snapshot asset.denom (get_operator val)
          delegation.last_reward_claim_height s)
        ([], delegation.reward_history)

  -- The index of a reward history after its share of a payment.
  unfoldable pub grown : SdkDec → Option RewardHistory → SdkDec
  grown part none = part
  grown part (some h) = k.add h.index part

  -- The loop of AddAssetsToRewardPool over the coins.
  unfoldable pub add_reward : SdkDec → RewardHistories → Coin → Result RewardHistories
  unfolding grown
  add_reward total histories c = do
    part ← or_panic (k.quo (k.new_dec_from_int c.amount) total)
    ok (put_index c.denom (grown part (get_index_by_denom c.denom histories)) histories)

  unfoldable pub add_rewards : SdkDec → Coins → RewardHistories → Result RewardHistories
  unfolding add_reward
  add_rewards total [] histories = ok histories
  add_rewards total (c ∷ coins) histories =
      add_reward total histories c >>= λ more. add_rewards total coins more

  -- The loop of totalAssetWeight.
  unfoldable pub add_asset_weight :
      Context → State W → AllianceValidator → SdkDec → Option AllianceAsset → Result SdkDec
  add_asset_weight ctx s val total none = ok total
  add_asset_weight ctx s val total (some asset) =
      if not (rewards_started asset ctx.block_time) then ok total else do
        tokens ← total_tokens_with_asset k val asset
        ok (k.add total (k.mul asset.reward_weight tokens))

  unfoldable pub sum_asset_weights :
      Context → State W → AllianceValidator → DecCoins → SdkDec → Result SdkDec
  unfolding add_asset_weight
  sum_asset_weights ctx s val [] total = ok total
  sum_asset_weights ctx s val (token ∷ tokens) total =
      add_asset_weight ctx s val total (get_asset_by_denom token.denom s) >>= λ total'.
      sum_asset_weights ctx s val tokens total'

  unfoldable pub total_asset_weight : Context → State W → AllianceValidator → Result SdkDec
  unfolding sum_asset_weights
  total_asset_weight ctx s val =
      sum_asset_weights ctx s val val.info.total_delegator_shares k.zero_dec
