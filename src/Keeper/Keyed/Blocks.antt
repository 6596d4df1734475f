-- ===== src/Keeper/Keyed/Blocks.antt =====
-- keeper/asset.go and abci.go: the end of a block keeps records under their keys.
use alliance.Prelude.{ℕ, refl, false, List, [], ◌∷◌}
use alliance.Prelude.Int.{ℤ}
use alliance.Sdk.{Denom, Sdk, SdkDec, ValAddress, Time, Coins, DecCoins, Context, StakingHook}
use alliance.Sdk.Result.{Result}
use alliance.Types.{AllianceAsset, AllianceValidator, AllianceValidatorInfo}
use alliance.Keeper.State.{State}
use alliance.Keeper.Call.{Call, modify}
use alliance.Keeper.Call.Keeps.{Keeps, Keeps-pure, Keeps-bind, Keeps-lift, keeps_rules}
use alliance.Keeper.Store.{
  create_initial_reward_weight_change_snapshot, set_reward_weight_change_snapshot,
  consume_asset_rebalance_event,
}
use alliance.Keeper.Assets.{
  initialize_alliance_asset, initialize_alliance_assets, snapshot_validator, snapshot_validators,
  update_alliance_asset, change_reward_weight, reward_weight_change_hook,
}
use alliance.Keeper.TakeRate.{Deduction, deduct_assets, settle_deduction, deduct_assets_hook}
use alliance.Keeper.Rebalance.{
  split_validators, staking_call, expected_for_asset, expected_bond_amount, bond_tokens,
  unbond_tokens, rebalance_validator, rebalance_hook,
}
use alliance.Keeper.EndBlock.{must, end_blocker}
use alliance.Keeper.Keyed.{WellKeyed, frame-Keeps, setters_keep}
use alliance.Keeper.Keyed.Claims.{get_alliance_validator-Keeps, claim_validator_rewards-Keyed}
use alliance.Keeper.Keyed.Queues.{complete_redelegations-Keeps, complete_undelegations-Keeps}
use alliance.Keeper.Keyed.Slash.{staking_hooks-Keeps}

must-Keeps : {W A : Type 0} {P : State W → Type 0} (m : Call W A) → Keeps P m → Keeps P (must m)
must-Keeps m km = record { at = km.at }

module _ {W : Type 0} (k : Sdk W) (ctx : Context) where
  initial_snapshot-Keeps :
      (denom : _) (val : ValAddress) (info : AllianceValidatorInfo)
      → Keeps WellKeyed (create_initial_reward_weight_change_snapshot k ctx denom val info)
  unfolding create_initial_reward_weight_change_snapshot
  initial_snapshot-Keeps denom val info =
      frame-Keeps _ (λ s. refl) (λ s. refl) (λ s. refl) (λ s. refl)

  set_snapshot-Keeps :
      (asset : AllianceAsset) (val : AllianceValidator)
      → Keeps WellKeyed (set_reward_weight_change_snapshot {W = W} ctx asset val)
  unfolding set_reward_weight_change_snapshot
  set_snapshot-Keeps asset val = frame-Keeps _ (λ s. refl) (λ s. refl) (λ s. refl) (λ s. refl)

  initialize_alliance_asset-Keeps :
      (asset : AllianceAsset) → Keeps WellKeyed (initialize_alliance_asset k ctx asset)
  unfolding initialize_alliance_asset
  initialize_alliance_asset-Keeps asset =
      search (keeps_rules, setters_keep, initial_snapshot-Keeps) depth 20

  initialize_alliance_assets-Keeps :
      (assets : List AllianceAsset) → Keeps WellKeyed (initialize_alliance_assets k ctx assets)
  unfolding initialize_alliance_assets
  initialize_alliance_assets-Keeps [] = Keeps-pure []
  initialize_alliance_assets-Keeps (asset ∷ assets) =
      Keeps-bind _ _ (initialize_alliance_asset-Keeps asset)
        (λ a. Keeps-bind _ _ (initialize_alliance_assets-Keeps assets) (λ as'. Keeps-pure _))

  snapshot_validator-Keeps :
      (asset : AllianceAsset) (val : ValAddress)
      → Keeps WellKeyed (snapshot_validator k ctx asset val)
  unfolding snapshot_validator
  snapshot_validator-Keeps asset val =
      search
        (
          keeps_rules, get_alliance_validator-Keeps, claim_validator_rewards-Keyed,
          set_snapshot-Keeps,
        )
        depth 12

  snapshot_validators-Keeps :
      (asset new_asset : AllianceAsset)
      → Keeps WellKeyed (snapshot_validators k ctx asset new_asset)
  unfolding snapshot_validators
  snapshot_validators-Keeps asset new_asset =
      search (keeps_rules, setters_keep, snapshot_validator-Keeps) depth 12

  pub update_alliance_asset-Keeps :
      (new_asset : AllianceAsset) → Keeps WellKeyed (update_alliance_asset k ctx new_asset)
  unfolding update_alliance_asset
  update_alliance_asset-Keeps new_asset =
      search (keeps_rules, setters_keep, snapshot_validators-Keeps) depth 12

  change_reward_weight-Keeps :
      (asset : AllianceAsset) → Keeps WellKeyed (change_reward_weight k ctx asset)
  unfolding change_reward_weight
  change_reward_weight-Keeps asset =
      search (keeps_rules, setters_keep, update_alliance_asset-Keeps) depth 12

  reward_weight_change_hook-Keeps :
      (assets : List AllianceAsset) → Keeps WellKeyed (reward_weight_change_hook k ctx assets)
  unfolding reward_weight_change_hook
  reward_weight_change_hook-Keeps [] = Keeps-pure []
  reward_weight_change_hook-Keeps (asset ∷ assets) =
      Keeps-bind _ _ (change_reward_weight-Keeps asset)
        (λ a. Keeps-bind _ _ (reward_weight_change_hook-Keeps assets) (λ as'. Keeps-pure _))

  deduct_assets-Keeps :
      (n : ℕ) (assets : List AllianceAsset) (coins : Coins) (taken : ℕ)
      → Keeps WellKeyed (deduct_assets k ctx n assets coins taken)
  unfolding deduct_assets
  deduct_assets-Keeps n [] coins taken = Keeps-pure _
  deduct_assets-Keeps n (asset ∷ assets) coins taken =
      search (keeps_rules, setters_keep, deduct_assets-Keeps n assets) depth 20

  settle_deduction-Keeps :
      (last : Time) (n : ℕ) (d : Deduction) → Keeps WellKeyed (settle_deduction k ctx last n d)
  unfolding settle_deduction
  settle_deduction-Keeps last n d = search (keeps_rules, setters_keep) depth 12

  deduct_assets_hook-Keeps :
      (assets : List AllianceAsset) → Keeps WellKeyed (deduct_assets_hook k ctx assets)
  unfolding deduct_assets_hook
  deduct_assets_hook-Keeps assets =
      search (keeps_rules, setters_keep, deduct_assets-Keeps, settle_deduction-Keeps) depth 20

  split_validators-Keeps :
      (vals : List ValAddress) (bonded : List AllianceValidator) (shares : DecCoins)
      → Keeps WellKeyed (split_validators k vals bonded shares)
  unfolding split_validators
  split_validators-Keeps [] bonded shares = Keeps-pure _
  split_validators-Keeps (val ∷ vals) bonded shares =
      search (keeps_rules, get_alliance_validator-Keeps, split_validators-Keeps vals) depth 12

  staking_call-Keeps :
      {A : Type 0} (f : W → Result A × List StakingHook × W)
      → Keeps WellKeyed (staking_call k ctx f)
  unfolding staking_call
  staking_call-Keeps f = record {
    at = λ s h.
        (Keeps-bind _ _ (staking_hooks-Keeps k ctx (f s.world).1)
            (λ u. Keeps-lift (f s.world).0)).at
          _
          (record {
            assets = h.assets;
            delegations = h.delegations;
            redelegations = h.redelegations;
            undelegations = h.undelegations;
          });
  }

  expected_for_asset-Keeps :
      (val : AllianceValidator) (shares : DecCoins) (native : ℤ) (asset : AllianceAsset)
      (expected : SdkDec)
      → Keeps WellKeyed (expected_for_asset k ctx val shares native asset expected)
  unfolding expected_for_asset
  expected_for_asset-Keeps val shares native asset expected =
      search (keeps_rules, setters_keep) depth 12

  expected_bond_amount-Keeps :
      (val : AllianceValidator) (shares : DecCoins) (native : ℤ) (assets : List AllianceAsset)
      (expected : SdkDec)
      → Keeps WellKeyed (expected_bond_amount k ctx val shares native assets expected)
  unfolding expected_bond_amount
  expected_bond_amount-Keeps val shares native [] expected = Keeps-pure expected
  expected_bond_amount-Keeps val shares native (asset ∷ assets) expected =
      search
        (keeps_rules, expected_for_asset-Keeps, expected_bond_amount-Keeps val shares native assets)
        depth 12

  bond_tokens-Keeps :
      (denom : Denom) (val : AllianceValidator) (amount : ℤ)
      → Keeps WellKeyed (bond_tokens k ctx denom val amount)
  unfolding bond_tokens
  bond_tokens-Keeps denom val amount =
      search (keeps_rules, setters_keep, claim_validator_rewards-Keyed, staking_call-Keeps) depth 20

  unbond_tokens-Keeps :
      (denom : Denom) (val : AllianceValidator) (amount : ℤ)
      → Keeps WellKeyed (unbond_tokens k ctx denom val amount)
  unfolding unbond_tokens
  unbond_tokens-Keeps denom val amount =
      search (keeps_rules, setters_keep, claim_validator_rewards-Keyed, staking_call-Keeps) depth 20

  rebalance_validator-Keeps :
      (denom : Denom) (shares : DecCoins) (native : ℤ) (assets : List AllianceAsset)
      (val : AllianceValidator)
      → Keeps WellKeyed (rebalance_validator k ctx denom shares native assets val)
  unfolding rebalance_validator
  rebalance_validator-Keeps denom shares native assets val =
      search (keeps_rules, expected_bond_amount-Keeps, bond_tokens-Keeps, unbond_tokens-Keeps) depth
        20

  unqueue-Keeps : Keeps WellKeyed (modify {W = W} λ s. record s { rebalance_queued = false })
  unqueue-Keeps = frame-Keeps _ (λ s. refl) (λ s. refl) (λ s. refl) (λ s. refl)

  consume-Keeps : Keeps WellKeyed (consume_asset_rebalance_event {W = W})
  unfolding consume_asset_rebalance_event
  consume-Keeps = search (keeps_rules, unqueue-Keeps) depth 12

  rebalance_hook-Keeps :
      (assets : List AllianceAsset) → Keeps WellKeyed (rebalance_hook k ctx assets)
  unfolding rebalance_hook
  rebalance_hook-Keeps assets =
      search (keeps_rules, consume-Keeps, split_validators-Keeps, rebalance_validator-Keeps) depth
        20

  pub end_blocker-Keeps : Keeps WellKeyed (end_blocker k ctx)
  unfolding end_blocker
  end_blocker-Keeps =
      search
        (
          keeps_rules, must-Keeps, complete_redelegations-Keeps, complete_undelegations-Keeps,
          initialize_alliance_assets-Keeps, deduct_assets_hook-Keeps,
          reward_weight_change_hook-Keeps, rebalance_hook-Keeps,
        )
        depth 24
