-- ===== src/Keeper/Rewards.antt =====
-- keeper/reward.go: claiming the rewards of a validator and of a delegation.
pub mod Frame
pub mod Kept
use alliance.Prelude.{Bool, true, false, not, Option, none, some, [], ◌∷◌, if◌then◌else◌}
use alliance.Sdk.{
  Sdk, Denom, SdkDec, AccAddress, Coins, DecCoins, Context, alliance_module, rewards_pool,
}
use alliance.Sdk.Result.{no_delegator_for_address, unknown_asset}
use alliance.Types.{AllianceAsset, AllianceValidator, Delegation, get_operator}
use alliance.Types.Asset.{is_zero, rewards_started}
use alliance.Keeper.Call.{Call, pure, lift, gets, found_or, other_module, ◌>>=◌, ◌>>◌}
use alliance.Keeper.Store.{get_asset_by_denom, get_delegation_of, set_delegation, set_validator}
use alliance.Keeper.Accumulate.{calculate_delegation_rewards, add_rewards, total_asset_weight}

module _ {W : Type 0} (k : Sdk W) (ctx : Context) where
  -- The histories are one slice, which the additions write in place.
  unfoldable pub split_rewards :
      AccAddress → AllianceValidator → Coins → SdkDec → Call W AllianceValidator
  split_rewards from val coins total = do
    histories ← lift (add_rewards k total coins val.info.global_reward_history)
    let val' = record val { info = record val.info { global_reward_history = histories } }
    set_validator val'
    other_module (k.send_coins_from_account_to_module from rewards_pool coins)
    pure val'

  abbrev pub is_empty : DecCoins → Bool
  is_empty [] = true
  is_empty (c ∷ cs) = false

  unfoldable pub add_assets_to_reward_pool :
      AccAddress → AllianceValidator → Coins → Call W AllianceValidator
  unfolding split_rewards
  add_assets_to_reward_pool from val coins =
      if is_empty val.info.total_delegator_shares then pure val else do
        state ← gets (λ s. s)
        total ← lift (total_asset_weight k ctx state val)
        if is_zero k total then pure val else split_rewards from val coins total

  unfoldable pub claim_withdrawn : AllianceValidator → Coins → Call W (Coins × AllianceValidator)
  unfolding add_assets_to_reward_pool
  claim_withdrawn val coins = if k.coins_is_zero coins then pure ([], val) else do
    val' ← add_assets_to_reward_pool (k.get_module_address alliance_module) val coins
    pure (coins, val')

  abbrev pub claim_of_delegation :
      AllianceValidator → Option SdkDec → Call W (Coins × AllianceValidator)
  claim_of_delegation val none = pure ([], val)
  claim_of_delegation val (some shares) = do
    coins ←
        other_module
          (k.withdraw_delegation_rewards (k.get_module_address alliance_module) (get_operator val))
    claim_withdrawn val coins

  unfoldable pub claim_validator_rewards : AllianceValidator → Call W (Coins × AllianceValidator)
  unfolding claim_withdrawn
  claim_validator_rewards val = do
    found ←
        gets
          (λ s. k.get_delegation (k.get_module_address alliance_module) (get_operator val) s.world)
    claim_of_delegation val found

  unfoldable pub pay_rewards :
      AccAddress
      → AllianceValidator
      → Denom
      → AllianceAsset
      → Delegation
      → Call W (Coins × AllianceValidator)
  unfolding claim_validator_rewards
  pay_rewards del val denom asset delegation = do
    (claimed, val') ← claim_validator_rewards val
    state ← gets (λ s. s)
    (coins, new_indices) ← lift (calculate_delegation_rewards k state delegation val' asset)
    set_delegation del (get_operator val) denom (record delegation {
      reward_history = new_indices;
      last_reward_claim_height = ctx.block_height;
    })
    other_module (k.send_coins_from_module_to_account rewards_pool del coins)
    pure (coins, val')

  unfoldable pub claim_delegation_rewards :
      AccAddress → AllianceValidator → Denom → Call W (Coins × AllianceValidator)
  unfolding pay_rewards
  claim_delegation_rewards del val denom = do
    known ← gets (get_asset_by_denom denom)
    asset ← found_or unknown_asset known
    if not (rewards_started asset ctx.block_time) then pure ([], val) else do
      found ← gets (get_delegation_of del (get_operator val) denom)
      delegation ← found_or no_delegator_for_address found
      pay_rewards del val denom asset delegation
