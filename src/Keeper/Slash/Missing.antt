-- ===== src/Keeper/Slash/Missing.antt =====
-- keeper/slash.go: slashRedelegations where the delegator has left the destination.
use alliance.Prelude.{◌≡◌, refl, false, none, some, Bool-cases, inl, inr, if◌then◌else◌}
use alliance.Prelude.Int.{ltb_ℤ}
use alliance.Prelude.Map.{lookup, nat_key, int_key, pair_key}
use alliance.Sdk.{Sdk, SdkDec, Context, StakingValidator}
use alliance.Sdk.Result.{ok, err, no_delegator_for_address}
use alliance.Types.{AllianceAsset, Redelegation}
use alliance.Types.Asset.{rewards_started}
use alliance.Keeper.State.{State, RedelegationIndexKey}
use alliance.Keeper.Store.{get_asset_by_denom, get_delegation_of}
use alliance.Keeper.Validators.Known.{known_validator}
use alliance.Keeper.Rewards.{claim_delegation_rewards}
use alliance.Keeper.Slash.{redelegation_key_of_index, slash_redelegation}

module _ {W : Type 0} (k : Sdk W) (ctx : Context) where
  -- For a redelegation that is not yet due, to a validator and of an asset that are known, whose
  -- delegator has no delegation at the destination any more: once the asset's rewards have
  -- started the round of the slash ends in the error of a missing delegator, and before that it
  -- skips the redelegation. In both cases the delegations are as before.
  pub slash_redelegation_missing :
      (fraction : SdkDec) (index : RedelegationIndexKey) (s : State W) (r : Redelegation)
      (v : StakingValidator) (asset : AllianceAsset)
      → ltb_ℤ index.1.0 ctx.block_time ≡ false
      → lookup (redelegation_key_of_index index) s.redelegations ≡ some r
      → k.get_validator r.dst_validator_address s.world ≡ some v
      → get_asset_by_denom r.balance.denom s ≡ some asset
      → get_delegation_of r.delegator_address v.operator r.balance.denom s ≡ none
      → ((slash_redelegation k ctx fraction index s).0
          ≡ (if rewards_started asset ctx.block_time then err no_delegator_for_address else ok tt))
        × ((slash_redelegation k ctx fraction index s).1.delegations ≡ s.delegations)
  unfolding slash_redelegation claim_delegation_rewards get_asset_by_denom get_delegation_of
  slash_redelegation_missing fraction index s r v asset due stored hw known gone =
      let (info, infos, found) = known_validator k r.dst_validator_address s hw in
      elim (Bool-cases (rewards_started asset ctx.block_time)) [
        | inl started ↦ rw (due, stored, found, known, started, gone) (refl, refl)
        | inr early ↦ rw (due, stored, found, known, early, gone) (refl, refl)
      ]
