-- ===== src/Keeper/Hooks.antt =====
-- keeper/hooks.go: what the staking module calls.
use alliance.Prelude.{List}
use alliance.Sdk.{
  Sdk, Context, StakingHook, after_validator_created, before_validator_modified,
  after_validator_removed, after_validator_bonded, after_validator_begin_unbonding,
  before_delegation_created, before_delegation_shares_modified, before_delegation_removed,
  after_delegation_modified, before_validator_slashed,
}
use alliance.Keeper.Call.{Call, pure, for_each, ◌>>◌}
use alliance.Keeper.Store.{queue_asset_rebalance_event}
use alliance.Keeper.Slash.{slash_validator}

module _ {W : Type 0} (k : Sdk W) (ctx : Context) where
  unfoldable pub staking_hook : StakingHook → Call W (Unit {0})
  staking_hook after_validator_created = pure tt
  staking_hook before_validator_modified = pure tt
  staking_hook after_validator_removed = queue_asset_rebalance_event
  staking_hook after_validator_bonded = queue_asset_rebalance_event
  staking_hook after_validator_begin_unbonding = queue_asset_rebalance_event
  staking_hook before_delegation_created = pure tt
  staking_hook before_delegation_shares_modified = pure tt
  staking_hook before_delegation_removed = pure tt
  staking_hook after_delegation_modified = queue_asset_rebalance_event
  staking_hook (before_validator_slashed val fraction) = do
    slash_validator k ctx val fraction
    queue_asset_rebalance_event

  unfoldable pub staking_hooks : List StakingHook → Call W (Unit {0})
  unfolding staking_hook
  staking_hooks hooks = for_each hooks staking_hook
