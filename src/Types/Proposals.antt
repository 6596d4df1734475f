-- ===== src/Types/Proposals.antt =====
-- x/alliance/types/gov.go: the proposals of governance and their ValidateBasic.
pub mod Checks
use alliance.Prelude.{Bool, ◌||◌, not, ◌==◌}
use alliance.Prelude.Int.{pos, ltb_ℤ}
use alliance.Sdk.{Sdk, Denom, SdkDec, Duration, empty_denom}
use alliance.Sdk.Result.{Result, ok, invalid_argument, external, fail_if, ◌>>◌}
use alliance.Types.Records.{RewardWeightRange}
use alliance.Types.Asset.{gt, gte, is_zero, is_negative}

pub record MsgCreateAllianceProposal : Type 0 where
  pub denom : Denom
  pub reward_weight : SdkDec
  pub reward_weight_range : RewardWeightRange
  pub take_rate : SdkDec
  pub reward_change_rate : SdkDec
  pub reward_change_interval : Duration

pub record MsgUpdateAllianceProposal : Type 0 where
  pub denom : Denom
  pub reward_weight : SdkDec
  pub take_rate : SdkDec
  pub reward_change_rate : SdkDec
  pub reward_change_interval : Duration

pub record MsgDeleteAllianceProposal : Type 0 where
  pub denom : Denom

module _ {W : Type 0} (k : Sdk W) where
  -- `x.IsNil() || x.LT(sdk.ZeroDec())`
  abbrev pub nil_or_negative : SdkDec → Bool
  nil_or_negative x = k.is_nil x || k.lt x k.zero_dec

  abbrev pub bad_take_rate : SdkDec → Bool
  bad_take_rate x = k.is_nil x || (is_negative k x || gte k x k.one_dec)

  unfoldable pub validate_create : MsgCreateAllianceProposal → Result (Unit {0})
  validate_create m = do
    fail_if (m.denom == empty_denom) invalid_argument
    fail_if (not (k.validate_denom m.denom)) (external 1)
    fail_if (nil_or_negative m.reward_weight) invalid_argument
    fail_if (nil_or_negative m.reward_weight_range.min || nil_or_negative m.reward_weight_range.max)
        invalid_argument
    fail_if (gt k m.reward_weight_range.min m.reward_weight_range.max) invalid_argument
    fail_if
        (k.lt m.reward_weight m.reward_weight_range.min
          || gt k m.reward_weight m.reward_weight_range.max)
        invalid_argument
    fail_if (bad_take_rate m.take_rate) invalid_argument
    fail_if (is_zero k m.reward_change_rate || is_negative k m.reward_change_rate) invalid_argument
    fail_if (ltb_ℤ m.reward_change_interval (pos 0)) invalid_argument
    ok tt

  unfoldable pub validate_update : MsgUpdateAllianceProposal → Result (Unit {0})
  validate_update m = do
    fail_if (m.denom == empty_denom) invalid_argument
    fail_if (nil_or_negative m.reward_weight) invalid_argument
    fail_if (bad_take_rate m.take_rate) invalid_argument
    fail_if (is_zero k m.reward_change_rate || is_negative k m.reward_change_rate) invalid_argument
    fail_if (ltb_ℤ m.reward_change_interval (pos 0)) invalid_argument
    ok tt

unfoldable pub validate_delete : MsgDeleteAllianceProposal → Result (Unit {0})
validate_delete m = fail_if (m.denom == empty_denom) invalid_argument
