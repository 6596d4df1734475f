-- ===== src/Keeper/Rebalance.antt =====
-- keeper/asset.go: the staking tokens that the module mints and burns to keep the weights.
use alliance.Prelude.{◌&&◌, not, Option, none, some, List, [], ◌∷◌, ◌++◌, if◌then◌else◌}
use alliance.Prelude.Int.{ℤ, pos, ◌-ℤ◌, eqb_ℤ}
use alliance.Prelude.Map.{keys}
use alliance.Sdk.{
  Sdk, Denom, ValAddress, AccAddress, SdkDec, DecCoins, StakingValidator, StakingHook, Context,
  alliance_module, bonded_pool,
}
use alliance.Sdk.Result.{Result, or_panic}
use alliance.Types.{AllianceAsset, AllianceValidator, get_operator}
use alliance.Types.Asset.{gt, is_positive, rewards_started}
use alliance.Types.Validator.{validator_shares_with_denom}
use alliance.Keeper.Call.{Call, pure, lift, gets, other_module, for_each, ◌>>=◌, ◌>>◌}
use alliance.Keeper.Store.{queue_asset_rebalance_event, consume_asset_rebalance_event}
use alliance.Keeper.Validators.{get_alliance_validator}
use alliance.Keeper.Rewards.{claim_validator_rewards}
use alliance.Keeper.Hooks.{staking_hooks}

module _ {W : Type 0} (k : Sdk W) where
  abbrev pub bonded_tokens : Option StakingValidator → SdkDec → SdkDec → SdkDec
  bonded_tokens none shares total = total
  bonded_tokens (some val) shares total =
      if val.bonded then k.add total (k.tokens_from_shares_truncated val shares) else total

  unfoldable pub sum_bonded_tokens : W → List (ValAddress × SdkDec) → SdkDec → SdkDec
  sum_bonded_tokens w [] total = total
  sum_bonded_tokens w ((val, shares) ∷ delegations) total =
      sum_bonded_tokens w delegations (bonded_tokens (k.get_validator val w) shares total)

  unfoldable pub get_alliance_bonded_amount : AccAddress → W → ℤ
  unfolding sum_bonded_tokens
  get_alliance_bonded_amount delegator w =
      k.truncate_int (sum_bonded_tokens w (k.delegator_delegations delegator w) k.zero_dec)

  -- The validators that are bonded, and the shares of those that are not.
  unfoldable pub split_validators :
      List ValAddress
      → List AllianceValidator
      → DecCoins
      → Call W (List AllianceValidator × DecCoins)
  split_validators [] bonded unbonded_shares = pure (bonded, unbonded_shares)
  split_validators (val_addr ∷ val_addrs) bonded unbonded_shares = do
    val ← get_alliance_validator k val_addr
    if val.validator.bonded
        then split_validators val_addrs (bonded ++ val ∷ []) unbonded_shares
        else split_validators val_addrs bonded
            (k.dec_coins_add unbonded_shares val.info.validator_shares)

  module _ (ctx : Context) where
    -- A call of the staking module, and the hooks that it calls.
    unfoldable pub staking_call : {A : Type 0} → (W → Result A × List StakingHook × W) → Call W A
    staking_call f s =
        let (r, hooks, w) = f s.world in
        (staking_hooks k ctx hooks >>= λ _. lift r) (record s { world = w })

    -- One round over the assets: what an asset adds to the amount expected of a validator.
    unfoldable pub expected_for_asset :
        AllianceValidator → DecCoins → ℤ → AllianceAsset → SdkDec → Call W SdkDec
    expected_for_asset val unbonded_shares native_amount asset expected =
        if not (rewards_started asset ctx.block_time)
        then (queue_asset_rebalance_event >> pure expected)
        else (let val_shares = validator_shares_with_denom k val asset.denom in
            let for_asset = k.mul_int asset.reward_weight native_amount in
            let bonded_shares =
              k.sub asset.total_validator_shares
                (k.dec_coins_amount_of unbonded_shares asset.denom) in
            if is_positive k val_shares && is_positive k bonded_shares
            then (lift (or_panic (k.quo val_shares bonded_shares)) >>= λ part.
                pure (k.add expected (k.mul part for_asset)))
            else pure expected)

    unfoldable pub expected_bond_amount :
        AllianceValidator → DecCoins → ℤ → List AllianceAsset → SdkDec → Call W SdkDec
    unfolding expected_for_asset
    expected_bond_amount val unbonded_shares native_amount [] expected = pure expected
    expected_bond_amount val unbonded_shares native_amount (asset ∷ assets) expected =
        expected_for_asset val unbonded_shares native_amount asset expected >>= λ expected'.
        expected_bond_amount val unbonded_shares native_amount assets expected'

    unfoldable pub bond_tokens : Denom → AllianceValidator → ℤ → Call W (Unit {0})
    unfolding staking_call
    bond_tokens denom val amount = if eqb_ℤ amount (pos 0) then pure tt else do
      coin ← lift (or_panic (k.new_coin denom amount))
      coins ← lift (or_panic (k.new_coins (coin ∷ [])))
      other_module (k.mint_coins alliance_module coins)
      (claimed, val') ← claim_validator_rewards k ctx val
      shares ←
          staking_call
            (k.staking_delegate (k.get_module_address alliance_module) amount val.validator)
      pure tt

    unfoldable pub unbond_tokens : Denom → AllianceValidator → ℤ → Call W (Unit {0})
    unfolding staking_call
    unbond_tokens denom val amount = if eqb_ℤ amount (pos 0) then pure tt else do
      let module_addr = k.get_module_address alliance_module
      world ← gets (λ s. s.world)
      shares ← lift (k.validate_unbond_amount module_addr (get_operator val) amount world)
      (claimed, val') ← claim_validator_rewards k ctx val
      tokens ← staking_call (k.unbond module_addr (get_operator val) shares)
      coin ← lift (or_panic (k.new_coin denom tokens))
      coins ← lift (or_panic (k.new_coins (coin ∷ [])))
      other_module (k.burn_coins bonded_pool coins)

    abbrev pub bonded_by : AllianceValidator → Option SdkDec → SdkDec
    bonded_by val none = k.new_dec_from_int (pos 0)
    bonded_by val (some shares) = k.tokens_from_shares val.validator shares

    unfoldable pub rebalance_validator :
        Denom → DecCoins → ℤ → List AllianceAsset → AllianceValidator → Call W (Unit {0})
    unfolding expected_bond_amount bond_tokens unbond_tokens
    rebalance_validator denom unbonded_shares native_amount assets val = do
      found ←
          gets (λ s.
            k.get_delegation (k.get_module_address alliance_module) (get_operator val) s.world)
      let current = bonded_by val found
      expected ← expected_bond_amount val unbonded_shares native_amount assets k.zero_dec
      if gt k expected current
          then bond_tokens denom val (k.truncate_int (k.sub expected current))
          else if k.lt expected current
          then unbond_tokens denom val (k.truncate_int (k.sub current expected))
          else pure tt

    unfoldable pub rebalance_bond_token_weights : List AllianceAsset → Call W (Unit {0})
    unfolding rebalance_validator split_validators get_alliance_bonded_amount
    rebalance_bond_token_weights assets = do
      alliance_amount ←
          gets (λ s. get_alliance_bonded_amount (k.get_module_address alliance_module) s.world)
      total ← gets (λ s. k.total_bonded_tokens s.world)
      denom ← gets (λ s. k.bond_denom s.world)
      infos ← gets (λ s. s.validator_infos)
      (bonded, unbonded_shares) ← split_validators (keys infos) [] []
      for_each bonded (rebalance_validator denom unbonded_shares (total -ℤ alliance_amount) assets)

    unfoldable pub rebalance_hook : List AllianceAsset → Call W (Unit {0})
    unfolding rebalance_bond_token_weights
    rebalance_hook assets = do
      queued ← consume_asset_rebalance_event
      if queued then rebalance_bond_token_weights assets else pure tt
