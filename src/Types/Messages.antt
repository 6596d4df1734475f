-- ===== src/Types/Messages.antt =====
-- x/alliance/types/msg.go: the messages of a transaction and their ValidateBasic.
use alliance.Prelude.{not, ◌==◌}
use alliance.Prelude.Int.{pos, ltb_ℤ, leb_ℤ}
use alliance.Sdk.{Denom, Bech32, Coin, empty_denom}
use alliance.Sdk.Result.{Result, invalid_argument, fail_if}

pub record MsgDelegate : Type 0 where
  pub delegator_address : Bech32
  pub validator_address : Bech32
  pub amount : Coin

pub record MsgRedelegate : Type 0 where
  pub delegator_address : Bech32
  pub validator_src_address : Bech32
  pub validator_dst_address : Bech32
  pub amount : Coin

pub record MsgUndelegate : Type 0 where
  pub delegator_address : Bech32
  pub validator_address : Bech32
  pub amount : Coin

pub record MsgClaimDelegationRewards : Type 0 where
  pub delegator_address : Bech32
  pub validator_address : Bech32
  pub denom : Denom

unfoldable pub validate_delegate : MsgDelegate → Result (Unit {0})
validate_delegate msg = fail_if (not (ltb_ℤ (pos 0) msg.amount.amount)) invalid_argument

unfoldable pub validate_redelegate : MsgRedelegate → Result (Unit {0})
validate_redelegate msg = fail_if (leb_ℤ msg.amount.amount (pos 0)) invalid_argument

unfoldable pub validate_undelegate : MsgUndelegate → Result (Unit {0})
validate_undelegate msg = fail_if (leb_ℤ msg.amount.amount (pos 0)) invalid_argument

unfoldable pub validate_claim : MsgClaimDelegationRewards → Result (Unit {0})
validate_claim msg = fail_if (msg.denom == empty_denom) invalid_argument
