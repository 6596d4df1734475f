-- ===== src/Keeper/Delegations.antt =====
-- keeper/delegation.go: Delegate, Redelegate and Undelegate.
pub mod Shares
pub mod Tokens
pub mod Unbonding
use alliance.Prelude.{true, false, Option, none, some, [], ◌∷◌}
use alliance.Prelude.Int.{◌+ℤ◌, ◌-ℤ◌, ltb_ℤ}
use alliance.Sdk.{Sdk, AccAddress, SdkDec, Time, Coin, Context, alliance_module}
use alliance.Sdk.Result.{
  or_panic, not_found, invalid_argument, no_delegator_for_address, insufficient_tokens,
  transitive_redelegation,
}
use alliance.Types.{AllianceAsset, AllianceValidator, Delegation, get_operator}
use alliance.Types.Asset.{get_validator_shares}
use alliance.Types.Shares.{get_delegation_tokens_with_shares}
use alliance.Keeper.Call.{Call, pure, lift, gets, found_or, guard_not, other_module, ◌>>=◌, ◌>>◌}
use alliance.Keeper.Store.{
  set_asset, get_asset_by_denom, get_delegation_of, queue_asset_rebalance_event,
}
use alliance.Keeper.Validators.{single_dec_coins, update_validator_shares}
use alliance.Keeper.Rewards.{claim_delegation_rewards}
use alliance.Keeper.Dust.{
  validate_delegated_amount, upsert_delegation_with_new_tokens, reduce_delegation_shares,
  clear_dust_delegation,
}
use alliance.Keeper.Queues.{has_redelegation, add_redelegation, queue_undelegation}

module _ {W : Type 0} (k : Sdk W) (ctx : Context) where
  -- Rewards are claimed before a delegation that exists is written.
  unfoldable pub claim_if_found :
      AccAddress → AllianceValidator → Coin → Option Delegation → Call W AllianceValidator
  claim_if_found del val coin none = pure val
  claim_if_found del val coin (some d) = do
    (coins, val') ← claim_delegation_rewards k ctx del val coin.denom
    pure val'

  -- Delegate behind the claim.
  unfoldable pub add_delegation :
      AccAddress → AllianceValidator → Coin → AllianceAsset → Call W SdkDec
  add_delegation del val coin asset = do
    (delegation, new_delegation_shares) ← upsert_delegation_with_new_tokens k ctx del val coin asset
    new_validator_shares ← lift (get_validator_shares k asset coin.amount)
    set_asset (record asset {
      total_tokens = asset.total_tokens +ℤ coin.amount;
      total_validator_shares = k.add asset.total_validator_shares new_validator_shares;
    })
    d ← lift (single_dec_coins k coin.denom new_delegation_shares)
    v ← lift (single_dec_coins k coin.denom new_validator_shares)
    val' ← update_validator_shares k val d v true
    queue_asset_rebalance_event
    pure new_validator_shares

  unfoldable pub delegate : AccAddress → AllianceValidator → Coin → Call W SdkDec
  unfolding claim_if_found add_delegation
  delegate del val coin = do
    known ← gets (get_asset_by_denom coin.denom)
    asset ← found_or not_found known
    coins ← lift (or_panic (k.new_coins (coin ∷ [])))
    other_module (k.send_coins_from_account_to_module del alliance_module coins)
    found ← gets (get_delegation_of del (get_operator val) coin.denom)
    val' ← claim_if_found del val coin found
    add_delegation del val' coin asset

  -- The shares for the coin, unless they are worth less than the coin.
  unfoldable pub shares_to_remove :
      AllianceValidator → Coin → AllianceAsset → Delegation → Call W SdkDec
  shares_to_remove val coin asset delegation = do
    shares ← lift (validate_delegated_amount k delegation coin val asset)
    worth ← lift (get_delegation_tokens_with_shares k shares val asset)
    guard_not (ltb_ℤ worth.amount coin.amount) insufficient_tokens
    pure shares

  -- Undelegate behind the checks.
  unfoldable pub remove_delegation :
      AccAddress → AllianceValidator → Coin → AllianceAsset → Delegation → SdkDec → Call W Time
  remove_delegation del val coin asset delegation delegation_shares = do
    validator_shares ← lift (get_validator_shares k asset coin.amount)
    let asset' = record asset {
      total_tokens = asset.total_tokens -ℤ coin.amount;
      total_validator_shares = k.sub asset.total_validator_shares validator_shares;
    }
    set_asset asset'
    reduce_delegation_shares k del val coin delegation_shares delegation
    d ← lift (single_dec_coins k coin.denom delegation_shares)
    v ← lift (single_dec_coins k coin.denom validator_shares)
    val' ← update_validator_shares k val d v false
    val'' ← clear_dust_delegation k del val' asset'
    completion ← queue_undelegation k ctx del (get_operator val) coin
    queue_asset_rebalance_event
    pure completion

  unfoldable pub undelegate : AccAddress → AllianceValidator → Coin → Call W Time
  unfolding shares_to_remove remove_delegation
  undelegate del val coin = do
    known ← gets (get_asset_by_denom coin.denom)
    asset ← found_or not_found known
    before ← gets (get_delegation_of del (get_operator val) coin.denom)
    existing ← found_or no_delegator_for_address before
    (claimed, val') ← claim_delegation_rewards k ctx del val coin.denom
    after ← gets (get_delegation_of del (get_operator val) coin.denom)
    delegation ← lift (or_panic after)
    shares ← shares_to_remove val' coin asset delegation
    remove_delegation del val' coin asset delegation shares

  -- Redelegate behind the checks.
  unfoldable pub move_delegation :
      AccAddress
      → AllianceValidator
      → AllianceValidator
      → Coin
      → AllianceAsset
      → Delegation
      → SdkDec
      → Call W Time
  move_delegation del src dst coin asset delegation delegation_shares = do
    completion ← gets (λ s. ctx.block_time +ℤ k.unbonding_time s.world)
    changed ← lift (get_validator_shares k asset coin.amount)
    reduce_delegation_shares k del src coin delegation_shares delegation
    d ← lift (single_dec_coins k coin.denom delegation_shares)
    v ← lift (single_dec_coins k coin.denom changed)
    src' ← update_validator_shares k src d v false
    src'' ← clear_dust_delegation k del src' asset
    (added, new_shares) ← upsert_delegation_with_new_tokens k ctx del dst coin asset
    d' ← lift (single_dec_coins k coin.denom new_shares)
    v' ← lift (single_dec_coins k coin.denom changed)
    dst' ← update_validator_shares k dst d' v' true
    add_redelegation k del (get_operator src) (get_operator dst) coin completion
    queue_asset_rebalance_event
    pure completion

  unfoldable pub redelegate :
      AccAddress → AllianceValidator → AllianceValidator → Coin → Call W Time
  unfolding claim_if_found shares_to_remove move_delegation
  redelegate del src dst coin = do
    guard_not (k.validator_equal src.validator dst.validator) invalid_argument
    known ← gets (get_asset_by_denom coin.denom)
    asset ← found_or not_found known
    before ← gets (get_delegation_of del (get_operator src) coin.denom)
    existing ← found_or no_delegator_for_address before
    (claimed, src') ← claim_delegation_rewards k ctx del src coin.denom
    after ← gets (get_delegation_of del (get_operator src) coin.denom)
    delegation ← lift (or_panic after)
    at_dst ← gets (get_delegation_of del (get_operator dst) coin.denom)
    dst' ← claim_if_found del dst coin at_dst
    shares ← shares_to_remove src' coin asset delegation
    transitive ← gets (has_redelegation del (get_operator src) coin.denom)
    guard_not transitive transitive_redelegation
    move_delegation del src' dst' coin asset delegation shares
