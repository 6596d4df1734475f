-- ===== src/Keeper/Slash.antt =====
-- keeper/slash.go
pub mod Fraction
pub mod Entries
pub mod Missing
use alliance.Prelude.{◌||◌, Option, none, some, List, [], ◌∷◌, ◌==◌, if◌then◌else◌}
use alliance.Prelude.Int.{ℤ, ◌-ℤ◌, ltb_ℤ}
use alliance.Prelude.Map.{lookup, insert, range, keys, nat_key, int_key, pair_key}
use alliance.Sdk.{
  Sdk, ValAddress, SdkDec, DecCoin, DecCoins, Context, alliance_module, fee_collector,
}
use alliance.Sdk.Result.{or_panic, external, invalid_fraction, unknown_asset}
use alliance.Types.{
  AllianceAsset, AllianceValidator, Delegation, Redelegation, Undelegation, get_operator,
}
use alliance.Types.Asset.{lte, gt}
use alliance.Keeper.State.{
  State, RedelegationIndexKey, UnbondingIndexKey, RedelegationKey, UndelegationQueueKey,
}
use alliance.Keeper.Call.{
  Call, pure, lift, gets, modify, found_or, guard_not, other_module, for_each, ◌>>=◌, ◌>>◌,
}
use alliance.Keeper.Store.{
  set_asset, get_asset_by_denom, get_delegation_of, set_delegation, set_validator,
}
use alliance.Keeper.Validators.{get_alliance_validator, single_dec_coins}
use alliance.Keeper.Rewards.{claim_delegation_rewards}
use alliance.Keeper.Dust.{validate_delegated_amount}
use alliance.Keeper.Queues.{redelegation_key, entries_or_nil}

-- ParseRedelegationIndexForRedelegationKey and ParseUnbondingIndexKeyToUndelegationKey, on keys
-- whose parts are apart.
abbrev pub redelegation_key_of_index : RedelegationIndexKey → RedelegationKey
redelegation_key_of_index (src, (completion, (denom, (dst, del)))) =
    redelegation_key del denom dst completion

abbrev pub undelegation_key_of_index : UnbondingIndexKey → UndelegationQueueKey
undelegation_key_of_index (val, (completion, (denom, del))) = (completion, del)

module _ {W : Type 0} (k : Sdk W) where
  -- The loop over the validator's shares; `slashed` gathers what is left of them.
  unfoldable pub slash_share : SdkDec → DecCoins → DecCoin → Call W DecCoins
  slash_share fraction slashed share = do
    let shares_to_slash = k.mul share.amount fraction
    coin ←
        lift (or_panic (k.new_dec_coin_from_dec share.denom (k.sub share.amount shares_to_slash)))
    let slashed' = k.dec_coins_add slashed (coin ∷ [])
    known ← gets (get_asset_by_denom share.denom)
    asset ← found_or unknown_asset known
    set_asset (record asset {
      total_validator_shares = k.sub asset.total_validator_shares shares_to_slash;
    })
    pure slashed'

  unfoldable pub slash_shares : SdkDec → DecCoins → DecCoins → Call W DecCoins
  unfolding slash_share
  slash_shares fraction [] slashed = pure slashed
  slash_shares fraction (share ∷ shares) slashed =
      slash_share fraction slashed share >>= λ slashed'. slash_shares fraction shares slashed'

  -- `fraction.MulInt(amount).TruncateInt()`
  unfoldable pub tokens_to_slash : SdkDec → ℤ → ℤ
  tokens_to_slash fraction amount = k.truncate_int (k.mul_int fraction amount)

  unfoldable pub slash_entry : SdkDec → Undelegation → Call W Undelegation
  unfolding tokens_to_slash
  slash_entry fraction entry = do
    let tokens = tokens_to_slash fraction entry.balance.amount
    left ← lift (or_panic (k.new_coin entry.balance.denom (entry.balance.amount -ℤ tokens)))
    coin ← lift (or_panic (k.new_coin left.denom tokens))
    coins ← lift (or_panic (k.new_coins (coin ∷ [])))
    other_module (k.send_coins_from_module_to_module alliance_module fee_collector coins)
    pure (record entry { balance = left })

  unfoldable pub slash_entries : SdkDec → List Undelegation → Call W (List Undelegation)
  unfolding slash_entry
  slash_entries fraction [] = pure []
  slash_entries fraction (entry ∷ entries) = slash_entry fraction entry >>= λ entry'.
      slash_entries fraction entries >>= λ entries'. pure (entry' ∷ entries')

  module _ (ctx : Context) where
    unfoldable pub slash_delegation :
        SdkDec → AllianceValidator → Redelegation → AllianceAsset → Delegation → Call W (Unit {0})
    unfolding tokens_to_slash
    slash_delegation fraction dst redelegation asset delegation = do
      coin ← lift (
          or_panic (
            k.new_coin redelegation.balance.denom
              (tokens_to_slash fraction redelegation.balance.amount)))
      shares ← lift (validate_delegated_amount k delegation coin dst asset)
      slashed ← lift (single_dec_coins k asset.denom shares)
      total ← lift (or_panic (k.dec_coins_sub dst.info.total_delegator_shares slashed))
      set_validator (record dst { info = record dst.info { total_delegator_shares = total } })
      set_delegation redelegation.delegator_address (get_operator dst) asset.denom
          (record delegation { shares = k.sub delegation.shares shares })

    abbrev pub slash_delegation_if_found :
        SdkDec
        → AllianceValidator
        → Redelegation
        → Option Delegation
        → Option AllianceAsset
        → Call W (Unit {0})
    slash_delegation_if_found fraction dst redelegation none asset = pure tt
    slash_delegation_if_found fraction dst redelegation (some delegation) none = pure tt
    slash_delegation_if_found fraction dst redelegation (some delegation) (some asset) =
        slash_delegation fraction dst redelegation asset delegation

    -- One round over the index of a validator's redelegations. A missing redelegation is nil
    -- bytes, which unmarshal to an empty record, whose address does not decode.
    unfoldable pub slash_redelegation : SdkDec → RedelegationIndexKey → Call W (Unit {0})
    unfolding slash_delegation
    slash_redelegation fraction index = if ltb_ℤ index.1.0 ctx.block_time then pure tt else do
      stored ← gets (λ s. lookup (redelegation_key_of_index index) s.redelegations)
      redelegation ← found_or (external 0) stored
      dst ← get_alliance_validator k redelegation.dst_validator_address
      (coins, dst') ←
          claim_delegation_rewards k ctx redelegation.delegator_address dst
            redelegation.balance.denom
      delegation ← gets (
          get_delegation_of redelegation.delegator_address (get_operator dst')
            redelegation.balance.denom)
      asset ← gets (get_asset_by_denom redelegation.balance.denom)
      slash_delegation_if_found fraction dst' redelegation delegation asset

    unfoldable pub redelegations_by_src_validator : ValAddress → State W → List RedelegationIndexKey
    redelegations_by_src_validator val s = keys (range (λ key. key.0 == val) s.redelegation_index)

    unfoldable pub slash_redelegations : ValAddress → SdkDec → Call W (Unit {0})
    unfolding slash_redelegation redelegations_by_src_validator
    slash_redelegations val fraction = do
      index ← gets (redelegations_by_src_validator val)
      for_each index (slash_redelegation fraction)

    -- One round over the index of a validator's undelegations: the whole queue entry is slashed.
    unfoldable pub slash_undelegation : SdkDec → UnbondingIndexKey → Call W (Unit {0})
    unfolding slash_entries
    slash_undelegation fraction index = if ltb_ℤ index.1.0 ctx.block_time then pure tt else do
      let key = undelegation_key_of_index index
      queue ← gets (λ s. entries_or_nil (lookup key s.undelegation_queue))
      entries ← slash_entries fraction queue
      modify λ s. record s { undelegation_queue = insert key entries s.undelegation_queue }

    unfoldable pub undelegations_by_src_validator : ValAddress → State W → List UnbondingIndexKey
    undelegations_by_src_validator val s = keys (range (λ key. key.0 == val) s.unbonding_index)

    unfoldable pub slash_undelegations : ValAddress → SdkDec → Call W (Unit {0})
    unfolding slash_undelegation undelegations_by_src_validator
    slash_undelegations val fraction = do
      index ← gets (undelegations_by_src_validator val)
      for_each index (slash_undelegation fraction)

    unfoldable pub slash_validator : ValAddress → SdkDec → Call W (Unit {0})
    unfolding slash_shares slash_redelegations slash_undelegations
    slash_validator val_addr fraction = do
      guard_not (lte k fraction k.zero_dec || gt k fraction k.one_dec) invalid_fraction
      val ← get_alliance_validator k val_addr
      slashed ← slash_shares fraction val.info.validator_shares []
      set_validator (record val { info = record val.info { validator_shares = slashed } })
      slash_redelegations val_addr fraction
      slash_undelegations val_addr fraction
