-- ===== src/Types/Validator.antt =====
-- x/alliance/types/validator.go: the shares that a validator holds.
use alliance.Prelude.{◌&&◌, [], ◌∷◌, ◌==◌, if◌then◌else◌}
use alliance.Sdk.{Sdk, Denom, SdkDec, DecCoin, DecCoins}
use alliance.Sdk.Result.{Result, ok, or_panic, ◌>>=◌}
use alliance.Types.Records.{AllianceAsset, AllianceValidator, AllianceValidatorInfo}
use alliance.Types.Asset.{gt, convert_new_share_to_dec_token}

module _ {W : Type 0} (k : Sdk W) where
  unfoldable pub validator_shares_in : Denom → DecCoins → SdkDec
  validator_shares_in denom [] = k.zero_dec
  validator_shares_in denom (c ∷ cs) =
      if c.denom == denom then c.amount else validator_shares_in denom cs

  unfoldable pub validator_shares_with_denom : AllianceValidator → Denom → SdkDec
  unfolding validator_shares_in
  validator_shares_with_denom v denom = validator_shares_in denom v.info.validator_shares

  unfoldable pub total_delegation_shares_with_denom : AllianceValidator → Denom → SdkDec
  total_delegation_shares_with_denom v denom =
      k.dec_coins_amount_of v.info.total_delegator_shares denom

  unfoldable pub total_tokens_with_asset : AllianceValidator → AllianceAsset → Result SdkDec
  total_tokens_with_asset v asset =
      convert_new_share_to_dec_token k (k.new_dec_from_int asset.total_tokens)
        asset.total_validator_shares (validator_shares_with_denom v asset.denom)

  -- One round of SubtractDecCoinsWithRounding: `d1s` is the first list, `rest` what is left of it.
  unfoldable pub subtract_dec_coin : DecCoins → DecCoins → DecCoin → Result DecCoins
  subtract_dec_coin d1s rest d2 =
      let a1 = k.dec_coins_amount_of d1s d2.denom in
      do
        taken ←
            if gt k d2.amount a1 && k.lt (k.sub d2.amount a1) k.one_dec
            then or_panic (k.new_dec_coin_from_dec d2.denom a1)
            else ok d2
        coins ← or_panic (k.new_dec_coins (taken ∷ []))
        or_panic (k.dec_coins_sub rest coins)

  unfoldable pub subtract_dec_coins_from : DecCoins → DecCoins → DecCoins → Result DecCoins
  subtract_dec_coins_from d1s rest [] = ok rest
  subtract_dec_coins_from d1s rest (d2 ∷ d2s) = do
    less ← subtract_dec_coin d1s rest d2
    subtract_dec_coins_from d1s less d2s

  unfoldable pub subtract_dec_coins_with_rounding : DecCoins → DecCoins → Result DecCoins
  subtract_dec_coins_with_rounding d1s d2s = do
    d1_copy ← or_panic (k.new_dec_coins d1s)
    subtract_dec_coins_from d1s d1_copy d2s

  unfoldable pub add_shares : DecCoins → DecCoins → AllianceValidatorInfo → AllianceValidatorInfo
  add_shares delegation_shares validator_shares v = record v {
    total_delegator_shares = k.dec_coins_add v.total_delegator_shares delegation_shares;
    validator_shares = k.dec_coins_add v.validator_shares validator_shares;
  }

  unfoldable pub reduce_shares :
      DecCoins → DecCoins → AllianceValidatorInfo → Result AllianceValidatorInfo
  reduce_shares delegation_shares validator_shares v = do
    delegator ← subtract_dec_coins_with_rounding v.total_delegator_shares delegation_shares
    validator ← subtract_dec_coins_with_rounding v.validator_shares validator_shares
    ok (record v { total_delegator_shares = delegator; validator_shares = validator })
