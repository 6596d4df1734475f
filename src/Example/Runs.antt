-- ===== src/Example/Runs.antt =====
-- The runs that the theorems are applied to.
use alliance.Prelude.{◌≡◌, refl, true, [], ◌∷◌, ◌*◌, ◌/◌}
use alliance.Prelude.Int.{pos}
use alliance.Sdk.{Coins}
use alliance.Sdk.Result.{ok}
use alliance.Types.{AllianceAsset, RewardHistories}
use alliance.Types.Proposals.{MsgCreateAllianceProposal, validate_create}
use alliance.Keeper.Rewards.{claim_delegation_rewards}
use alliance.Keeper.Store.{
  get_asset_by_denom, get_delegation_of, iterate_weight_change_snapshot,
  queue_asset_rebalance_event, set_asset, set_delegation, set_validator,
}
use alliance.Keeper.Validators.{single_dec_coins, update_validator_shares}
use alliance.Prelude.Map.{insert, range}
use alliance.Types.Asset.{
  convert_new_share_to_dec_token, convert_new_token_to_shares, get_validator_shares,
  rewards_started,
}
use alliance.Types.History.{get_index_by_denom, put_index}
use alliance.Types.Shares.{
  get_delegation_shares_from_tokens, get_delegation_tokens, get_delegation_tokens_with_shares,
}
use alliance.Types.Validator.{
  reduce_shares, subtract_dec_coin, subtract_dec_coins_from, subtract_dec_coins_with_rounding,
  total_delegation_shares_with_denom, total_tokens_with_asset, validator_shares_with_denom,
}
use alliance.Example.World.{sdk, dec, one}
use alliance.Example.Tests.{
  ctx, asset, val, other, delegation, coin, redelegation, delegated, redelegated,
}
use alliance.Keeper.Accumulate.{
  accumulate_histories, add_rewards, accumulate_history, calculate_delegation_rewards,
  total_asset_weight,
}
use alliance.Keeper.Delegations.{delegate, undelegate, redelegate}
use alliance.Keeper.Dust.{
  validate_delegated_amount, clear_dust_delegation, reduce_delegation_shares,
  upsert_delegation_with_new_tokens,
}
use alliance.Keeper.Genesis.{init_redelegation}
use alliance.Keeper.Queues.{has_redelegation, add_redelegation, queue_undelegation}
use alliance.Keeper.TakeRate.{deduct_asset}

abbrev pub histories : RewardHistories
histories = record { denom = 9; index = dec (pos (3 * one)) } ∷ []

-- What a claim of those histories pays and leaves.
abbrev pub claimed : Coins × RewardHistories
claimed = (record { denom = 9; amount = pos 60 } ∷ [], histories)

abbrev pub proposal : MsgCreateAllianceProposal
proposal = record {
  denom = 2;
  reward_weight = dec (pos one);
  reward_weight_range = record { min = dec (pos 0); max = dec (pos (5 * one)) };
  take_rate = dec (pos (one / 10));
  reward_change_rate = dec (pos one);
  reward_change_interval = pos 0;
}

-- The asset after one interval of its take rate, and the coin that was taken.
abbrev pub deducted : Coins × AllianceAsset
deducted = (record { denom = 1; amount = pos 10 } ∷ [], record asset { total_tokens = pos 90 })

pub run_of_delegate : (delegate sdk ctx 5 val coin delegated).0 ≡ ok (dec (pos (40 * one)))
unfolding sdk calculate_delegation_rewards add_rewards total_asset_weight delegate
    upsert_delegation_with_new_tokens claim_delegation_rewards set_asset get_asset_by_denom
    queue_asset_rebalance_event get_delegation_of set_delegation set_validator
    iterate_weight_change_snapshot single_dec_coins update_validator_shares range
    convert_new_token_to_shares convert_new_share_to_dec_token get_validator_shares rewards_started
    get_index_by_denom put_index get_delegation_tokens get_delegation_shares_from_tokens
    validator_shares_with_denom total_delegation_shares_with_denom total_tokens_with_asset
run_of_delegate = refl

pub run_of_undelegate : (undelegate sdk ctx 5 val coin delegated).0 ≡ ok (pos 1100)
unfolding sdk calculate_delegation_rewards add_rewards total_asset_weight undelegate
    validate_delegated_amount reduce_delegation_shares clear_dust_delegation queue_undelegation
    claim_delegation_rewards set_asset get_asset_by_denom queue_asset_rebalance_event
    get_delegation_of set_delegation set_validator iterate_weight_change_snapshot single_dec_coins
    update_validator_shares range convert_new_token_to_shares convert_new_share_to_dec_token
    get_validator_shares rewards_started get_index_by_denom put_index
    get_delegation_tokens_with_shares get_delegation_tokens get_delegation_shares_from_tokens
    validator_shares_with_denom total_delegation_shares_with_denom total_tokens_with_asset
    subtract_dec_coin subtract_dec_coins_from subtract_dec_coins_with_rounding reduce_shares
run_of_undelegate = refl

pub run_of_redelegate : (redelegate sdk ctx 5 val other coin delegated).0 ≡ ok (pos 1100)
unfolding sdk calculate_delegation_rewards add_rewards total_asset_weight redelegate
    validate_delegated_amount upsert_delegation_with_new_tokens reduce_delegation_shares
    clear_dust_delegation add_redelegation has_redelegation claim_delegation_rewards set_asset
    get_asset_by_denom queue_asset_rebalance_event get_delegation_of set_delegation set_validator
    iterate_weight_change_snapshot single_dec_coins update_validator_shares range
    convert_new_token_to_shares convert_new_share_to_dec_token get_validator_shares rewards_started
    get_index_by_denom put_index get_delegation_tokens_with_shares get_delegation_tokens
    get_delegation_shares_from_tokens validator_shares_with_denom total_delegation_shares_with_denom
    total_tokens_with_asset subtract_dec_coin subtract_dec_coins_from
    subtract_dec_coins_with_rounding reduce_shares
run_of_redelegate = refl

pub has_redelegation_to_val : has_redelegation 5 3 1 redelegated ≡ true
unfolding has_redelegation
has_redelegation_to_val = refl

pub run_of_accumulate :
    accumulate_histories sdk (dec (pos (20 * one))) (dec (pos one)) histories ([], []) ≡ ok claimed
unfolding sdk accumulate_history accumulate_histories get_index_by_denom put_index
run_of_accumulate = refl

pub run_of_add_rewards :
    add_rewards sdk (dec (pos (20 * one))) (record { denom = 9; amount = pos 60 } ∷ []) []
    ≡ ok histories
unfolding sdk add_rewards get_index_by_denom put_index
run_of_add_rewards = refl

pub run_of_deduct : (deduct_asset sdk ctx 1 asset [] delegated).0 ≡ ok deducted
unfolding sdk set_asset deduct_asset
run_of_deduct = refl

pub run_of_validate_amount :
    validate_delegated_amount sdk delegation coin val asset ≡ ok (dec (pos (40 * one)))
unfolding sdk validate_delegated_amount convert_new_token_to_shares convert_new_share_to_dec_token
    get_delegation_shares_from_tokens validator_shares_with_denom total_delegation_shares_with_denom
    total_tokens_with_asset
run_of_validate_amount = refl

pub run_of_init_redelegation : (init_redelegation sdk (pos 900, redelegation) delegated).0 ≡ ok tt
unfolding init_redelegation add_redelegation insert
run_of_init_redelegation = refl

pub run_of_validate_create : validate_create sdk proposal ≡ ok tt
unfolding sdk validate_create
run_of_validate_create = refl
