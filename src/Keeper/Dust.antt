-- ===== src/Keeper/Dust.antt =====
-- keeper/delegation.go: the amount of shares that tokens stand for, and what rounding leaves over.
pub mod Bounds
use alliance.Prelude.{not, Option, none, some, [], ◌∷◌, ◌==◌, if◌then◌else◌}
use alliance.Prelude.Int.{pos, eqb_ℤ}
use alliance.Sdk.{Sdk, Denom, AccAddress, ValAddress, SdkDec, Coin, DecCoins, Context}
use alliance.Sdk.Result.{Result, ok, err, insufficient_shares}
use alliance.Sdk.Result
use alliance.Types.{
  AllianceAsset, AllianceValidator, AllianceValidatorInfo, Delegation, get_operator, new_delegation,
}
use alliance.Types.Asset.{gt, is_zero}
use alliance.Types.Validator.{total_tokens_with_asset, validator_shares_with_denom, reduce_shares}
use alliance.Types.Shares.{get_delegation_shares_from_tokens, get_delegation_tokens_with_shares}
use alliance.Keeper.Call.{Call, pure, lift, gets, for_each, ◌>>=◌, ◌>>◌}
use alliance.Keeper.Store.{
  set_asset, set_delegation, delete_delegation, get_delegation_of, set_validator,
  set_validator_info,
}
use alliance.Keeper.Validators.{single_dec_coins}

module _ {W : Type 0} (k : Sdk W) where
  -- The choice of ValidateDelegatedAmount between the shares owned and the shares wanted.
  unfoldable pub cap_shares : SdkDec → SdkDec → Result SdkDec
  cap_shares owned wanted =
      if k.lt (k.abs (k.sub owned wanted)) (k.new_dec_with_prec (pos 1) 6)
      then ok owned
      else if k.lt owned (k.truncate_dec wanted)
      then err insufficient_shares
      else if gt k wanted owned
      then ok owned
      else ok wanted

  unfoldable pub validate_delegated_amount :
      Delegation → Coin → AllianceValidator → AllianceAsset → Result SdkDec
  unfolding cap_shares
  validate_delegated_amount delegation coin val asset =
      Result.◌>>=◌ (get_delegation_shares_from_tokens k val asset coin.amount)
        (λ wanted. cap_shares delegation.shares wanted)

  abbrev pub with_new_shares :
      Context → AccAddress → AllianceValidator → Coin → SdkDec → Option Delegation → Delegation
  with_new_shares ctx del val coin shares none =
      new_delegation ctx del (get_operator val) coin.denom shares val.info.global_reward_history
  with_new_shares ctx del val coin shares (some delegation) = record delegation {
    shares = k.add delegation.shares shares;
  }

  unfoldable pub upsert_delegation_with_new_tokens :
      Context → AccAddress → AllianceValidator → Coin → AllianceAsset → Call W (Delegation × SdkDec)
  upsert_delegation_with_new_tokens ctx del val coin asset = do
    new_shares ← lift (get_delegation_shares_from_tokens k val asset coin.amount)
    found ← gets (get_delegation_of del (get_operator val) coin.denom)
    let delegation = with_new_shares ctx del val coin new_shares found
    set_delegation del (get_operator val) coin.denom delegation
    pure (delegation, new_shares)

  unfoldable pub reduce_delegation_shares :
      AccAddress → AllianceValidator → Coin → SdkDec → Delegation → Call W (Unit {0})
  reduce_delegation_shares del val coin shares delegation =
      let left = k.sub delegation.shares shares in
      if is_zero k left
      then delete_delegation del (get_operator val) coin.denom
      else set_delegation del (get_operator val) coin.denom (record delegation { shares = left })

  unfoldable pub without_denom : Denom → DecCoins → DecCoins
  without_denom denom [] = []
  without_denom denom (c ∷ cs) =
      let rest = without_denom denom cs in if c.denom == denom then rest else c ∷ rest

  unfoldable pub reset_validator : Denom → ValAddress × AllianceValidatorInfo → Call W (Unit {0})
  unfolding without_denom
  reset_validator denom (val, info) =
      set_validator_info val
        (record info { validator_shares = without_denom denom info.validator_shares })

  unfoldable pub reset_asset_and_validators : AllianceAsset → Call W (Unit {0})
  unfolding reset_validator
  reset_asset_and_validators asset = if not (eqb_ℤ asset.total_tokens (pos 0)) then pure tt else do
    infos ← gets (λ s. s.validator_infos)
    for_each infos (reset_validator asset.denom)
    set_asset (record asset { total_validator_shares = k.zero_dec })

  -- A delegation that is worth no token is deleted; its shares are what the validator loses.
  unfoldable pub clear_worthless :
      AccAddress → AllianceValidator → AllianceAsset → Option Delegation → Call W SdkDec
  clear_worthless del val asset none = pure k.zero_dec
  clear_worthless del val asset (some delegation) = do
    tokens_left ← lift (get_delegation_tokens_with_shares k delegation.shares val asset)
    if not (eqb_ℤ tokens_left.amount (pos 0)) then pure k.zero_dec else do
      delete_delegation delegation.delegator_address (get_operator val) asset.denom
      pure delegation.shares

  unfoldable pub clear_dust_delegation :
      AccAddress → AllianceValidator → AllianceAsset → Call W AllianceValidator
  unfolding clear_worthless reset_asset_and_validators
  clear_dust_delegation del val asset = do
    found ← gets (get_delegation_of del (get_operator val) asset.denom)
    delegator_shares ← clear_worthless del val asset found
    validator_tokens_left ← lift (total_tokens_with_asset k val asset)
    let validator_shares =
        if is_zero k validator_tokens_left
        then validator_shares_with_denom k val asset.denom
        else k.zero_dec
    d ← lift (single_dec_coins k asset.denom delegator_shares)
    v ← lift (single_dec_coins k asset.denom validator_shares)
    info ← lift (reduce_shares k d v val.info)
    let val' = record val { info = info }
    set_validator val'
    reset_asset_and_validators asset
    pure val'
