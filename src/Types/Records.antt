-- ===== src/Types/Records.antt =====
-- Structs of x/alliance/types. A bech32 address string stands for the address that it encodes.
use alliance.Prelude.{ℕ, Bool, false, List, []}
use alliance.Prelude.Int.{ℤ, pos}
use alliance.Sdk.{
  Sdk, Denom, AccAddress, ValAddress, Time, Duration, SdkDec, Coin, DecCoins, StakingValidator,
  Context,
}

pub record RewardWeightRange : Type 0 where
  pub min : SdkDec
  pub max : SdkDec

pub record AllianceAsset : Type 0 where
  pub denom : Denom
  pub reward_weight : SdkDec
  pub take_rate : SdkDec
  pub total_tokens : ℤ
  pub total_validator_shares : SdkDec
  pub reward_start_time : Time
  pub reward_change_rate : SdkDec
  pub reward_change_interval : Duration
  pub last_reward_change_time : Time
  pub reward_weight_range : RewardWeightRange
  pub is_initialized : Bool

pub record RewardHistory : Type 0 where
  pub denom : Denom
  pub index : SdkDec

abbrev pub RewardHistories : Type 0
RewardHistories = List RewardHistory

pub record RewardWeightChangeSnapshot : Type 0 where
  pub prev_reward_weight : SdkDec
  pub reward_histories : RewardHistories

pub record Delegation : Type 0 where
  pub delegator_address : AccAddress
  pub validator_address : ValAddress
  pub denom : Denom
  pub shares : SdkDec
  pub reward_history : RewardHistories
  pub last_reward_claim_height : ℕ

pub record Redelegation : Type 0 where
  pub delegator_address : AccAddress
  pub src_validator_address : ValAddress
  pub dst_validator_address : ValAddress
  pub balance : Coin

pub record Undelegation : Type 0 where
  pub delegator_address : AccAddress
  pub validator_address : ValAddress
  pub balance : Coin

pub record AllianceValidatorInfo : Type 0 where
  pub global_reward_history : RewardHistories
  pub total_delegator_shares : DecCoins
  pub validator_shares : DecCoins

-- validator.go: both parts are pointers, so what a callee writes into `info` the caller sees. A
-- function that writes it returns the new value.
pub record AllianceValidator : Type 0 where
  pub validator : StakingValidator
  pub info : AllianceValidatorInfo

pub record Params : Type 0 where
  pub reward_delay_time : Duration
  pub take_rate_claim_interval : Duration
  pub last_take_rate_claim_time : Time

abbrev pub get_operator : AllianceValidator → ValAddress
get_operator v = v.validator.operator

-- NewAllianceValidatorInfo: `sdk.NewDecCoins()` of no coins is empty.
abbrev pub new_alliance_validator_info : AllianceValidatorInfo
new_alliance_validator_info = record {
  global_reward_history = [];
  total_delegator_shares = [];
  validator_shares = [];
}

unfoldable pub new_alliance_asset :
    {W : Type 0} → Sdk W → Denom → SdkDec → SdkDec → SdkDec → SdkDec → Time → AllianceAsset
new_alliance_asset k denom weight min_weight max_weight take_rate start = record {
  denom = denom;
  reward_weight = weight;
  take_rate = take_rate;
  total_tokens = pos 0;
  total_validator_shares = k.zero_dec;
  reward_start_time = start;
  reward_change_rate = k.one_dec;
  reward_change_interval = pos 0;
  last_reward_change_time = start;
  reward_weight_range = record { min = min_weight; max = max_weight };
  is_initialized = false;
}

unfoldable pub new_delegation :
    Context → AccAddress → ValAddress → Denom → SdkDec → RewardHistories → Delegation
new_delegation ctx del val denom shares history = record {
  delegator_address = del;
  validator_address = val;
  denom = denom;
  shares = shares;
  reward_history = history;
  last_reward_claim_height = ctx.block_height;
}

unfoldable pub new_reward_weight_change_snapshot :
    AllianceAsset → AllianceValidator → RewardWeightChangeSnapshot
new_reward_weight_change_snapshot asset val = record {
  prev_reward_weight = asset.reward_weight;
  reward_histories = val.info.global_reward_history;
}
