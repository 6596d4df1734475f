-- ===== src/Types/Shares.antt =====
-- x/alliance/types/asset.go: what a delegation is worth, and the shares that tokens buy.
use alliance.Prelude.{if◌then◌else◌}
use alliance.Prelude.Int.{ℤ, pos, eqb_ℤ}
use alliance.Sdk.{Sdk, SdkDec, Coin}
use alliance.Sdk.Result.{Result, ok, or_panic, ◌>>=◌}
use alliance.Types.Records.{AllianceAsset, AllianceValidator, Delegation}
use alliance.Types.Asset.{convert_new_share_to_dec_token, convert_new_token_to_shares}
use alliance.Types.Validator.{total_tokens_with_asset, total_delegation_shares_with_denom}

module _ {W : Type 0} (k : Sdk W) where
  -- The epsilon `sdk.NewDecWithPrec(1, 6)` lifts 9.999999 to 10 before the truncation.
  unfoldable pub get_delegation_tokens_with_shares :
      SdkDec → AllianceValidator → AllianceAsset → Result Coin
  get_delegation_tokens_with_shares delegator_shares val asset = do
    val_tokens ← total_tokens_with_asset k val asset
    let total_shares = total_delegation_shares_with_denom k val asset.denom
    del_tokens ← convert_new_share_to_dec_token k val_tokens total_shares delegator_shares
    let lifted = k.add del_tokens (k.new_dec_with_prec (pos 1) 6)
    or_panic (k.new_coin asset.denom (k.truncate_int lifted))

  unfoldable pub get_delegation_tokens :
      Delegation → AllianceValidator → AllianceAsset → Result Coin
  get_delegation_tokens del val asset = do
    val_tokens ← total_tokens_with_asset k val asset
    let total_shares = total_delegation_shares_with_denom k val asset.denom
    del_tokens ← convert_new_share_to_dec_token k val_tokens total_shares del.shares
    let lifted = k.add del_tokens (k.new_dec_with_prec (pos 1) 6)
    or_panic (k.new_coin asset.denom (k.truncate_int lifted))

  unfoldable pub get_delegation_shares_from_tokens :
      AllianceValidator → AllianceAsset → ℤ → Result SdkDec
  get_delegation_shares_from_tokens val asset token = do
    val_tokens ← total_tokens_with_asset k val asset
    let total_shares = total_delegation_shares_with_denom k val asset.denom
    if eqb_ℤ (k.truncate_int total_shares) (pos 0)
        then ok (k.new_dec_from_int token)
        else convert_new_token_to_shares k val_tokens total_shares token
