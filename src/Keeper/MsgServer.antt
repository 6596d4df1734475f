-- ===== src/Keeper/MsgServer.antt =====
-- keeper/msg_server.go: the entry points of transactions.
pub mod Guards
use alliance.Sdk.{Sdk, Context}
use alliance.Sdk.Result.{external}
use alliance.Types.Messages.{
  MsgDelegate, MsgRedelegate, MsgUndelegate, MsgClaimDelegationRewards, validate_delegate,
  validate_redelegate, validate_undelegate, validate_claim,
}
use alliance.Keeper.Call.{Call, pure, lift, found_or, ◌>>=◌, ◌>>◌}
use alliance.Keeper.Validators.{get_alliance_validator}
use alliance.Keeper.Rewards.{claim_delegation_rewards}
use alliance.Keeper.Delegations.{delegate, redelegate, undelegate}

-- The error of an address that does not decode is `external 0`.
module _ {W : Type 0} (k : Sdk W) (ctx : Context) where
  unfoldable pub serve_delegate : MsgDelegate → Call W (Unit {0})
  serve_delegate msg = do
    lift (validate_delegate msg)
    del ← found_or (external 0) (k.acc_address_from_bech32 msg.delegator_address)
    val_addr ← found_or (external 0) (k.val_address_from_bech32 msg.validator_address)
    validator ← get_alliance_validator k val_addr
    shares ← delegate k ctx del validator msg.amount
    pure tt

  unfoldable pub serve_redelegate : MsgRedelegate → Call W (Unit {0})
  serve_redelegate msg = do
    lift (validate_redelegate msg)
    del ← found_or (external 0) (k.acc_address_from_bech32 msg.delegator_address)
    src_addr ← found_or (external 0) (k.val_address_from_bech32 msg.validator_src_address)
    dst_addr ← found_or (external 0) (k.val_address_from_bech32 msg.validator_dst_address)
    src ← get_alliance_validator k src_addr
    dst ← get_alliance_validator k dst_addr
    completion ← redelegate k ctx del src dst msg.amount
    pure tt

  unfoldable pub serve_undelegate : MsgUndelegate → Call W (Unit {0})
  serve_undelegate msg = do
    lift (validate_undelegate msg)
    del ← found_or (external 0) (k.acc_address_from_bech32 msg.delegator_address)
    val_addr ← found_or (external 0) (k.val_address_from_bech32 msg.validator_address)
    validator ← get_alliance_validator k val_addr
    completion ← undelegate k ctx del validator msg.amount
    pure tt

  unfoldable pub serve_claim : MsgClaimDelegationRewards → Call W (Unit {0})
  serve_claim msg = do
    lift (validate_claim msg)
    del ← found_or (external 0) (k.acc_address_from_bech32 msg.delegator_address)
    val_addr ← found_or (external 0) (k.val_address_from_bech32 msg.validator_address)
    validator ← get_alliance_validator k val_addr
    claimed ← claim_delegation_rewards k ctx del validator msg.denom
    pure tt
