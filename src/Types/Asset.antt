-- ===== src/Types/Asset.antt =====
-- x/alliance/types/asset.go: shares and tokens of an asset.
use alliance.Prelude.{Bool, ◌&&◌, ◌||◌, not, if◌then◌else◌}
use alliance.Prelude.Int.{ℤ, pos, ltb_ℤ, eqb_ℤ}
use alliance.Sdk.{Sdk, SdkDec, Time}
use alliance.Sdk.Result.{Result, ok, or_panic, ◌>>=◌}
use alliance.Types.Records.{AllianceAsset}

module _ {W : Type 0} (k : Sdk W) where
  -- The comparisons of sdk.SdkDec that come down to `LT` and `Equal`.
  abbrev pub gt : SdkDec → SdkDec → Bool
  gt a b = k.lt b a

  abbrev pub lte : SdkDec → SdkDec → Bool
  lte a b = not (k.lt b a)

  abbrev pub gte : SdkDec → SdkDec → Bool
  gte a b = not (k.lt a b)

  abbrev pub is_zero : SdkDec → Bool
  is_zero a = k.equal a k.zero_dec

  abbrev pub is_positive : SdkDec → Bool
  is_positive a = k.lt k.zero_dec a

  abbrev pub is_negative : SdkDec → Bool
  is_negative a = k.lt a k.zero_dec

  unfoldable pub convert_new_token_to_shares : SdkDec → SdkDec → ℤ → Result SdkDec
  convert_new_token_to_shares total_tokens total_shares new_tokens =
      if is_zero total_shares
      then ok (k.new_dec_from_int new_tokens)
      else do rate ← or_panic (k.quo total_shares total_tokens); ok (k.mul_int rate new_tokens)

  unfoldable pub convert_new_share_to_dec_token : SdkDec → SdkDec → SdkDec → Result SdkDec
  convert_new_share_to_dec_token total_tokens total_shares shares =
      if is_zero total_shares
      then ok total_tokens
      else do part ← or_panic (k.quo shares total_shares); ok (k.mul part total_tokens)

  unfoldable pub get_validator_shares : AllianceAsset → ℤ → Result SdkDec
  get_validator_shares asset token =
      convert_new_token_to_shares (k.new_dec_from_int asset.total_tokens)
        asset.total_validator_shares token

  unfoldable pub has_positive_decay : AllianceAsset → Bool
  has_positive_decay a = ltb_ℤ (pos 0) a.reward_change_interval && is_positive a.reward_change_rate

-- `blockTime.After(start) || blockTime.Equal(start)`
unfoldable pub rewards_started : AllianceAsset → Time → Bool
rewards_started a block_time =
    ltb_ℤ a.reward_start_time block_time || eqb_ℤ block_time a.reward_start_time
