-- ===== src/Keeper/Validators.antt =====
-- keeper/validator.go, and the updates of a validator's shares in keeper/delegation.go.
pub mod Balance
pub mod Known
use alliance.Prelude.{Bool, true, false, Option, none, some, [], ◌∷◌}
use alliance.Sdk.{Sdk, Denom, SdkDec, ValAddress, DecCoins}
use alliance.Sdk.Result.{Result, ok, or_panic, validator_does_not_exist}
use alliance.Sdk.Result
use alliance.Types.{AllianceValidator, AllianceValidatorInfo, new_alliance_validator_info}
use alliance.Types.Validator.{add_shares, reduce_shares}
use alliance.Keeper.Call.{Call, pure, lift, gets, found_or, ◌>>=◌, ◌>>◌}
use alliance.Keeper.Store.{get_alliance_validator_info, set_validator_info, set_validator}

module _ {W : Type 0} where
  unfoldable pub create_alliance_validator_info : ValAddress → Call W AllianceValidatorInfo
  create_alliance_validator_info val = do
    set_validator_info val new_alliance_validator_info
    pure new_alliance_validator_info

  unfoldable pub info_or_new :
      ValAddress → Option AllianceValidatorInfo → Call W AllianceValidatorInfo
  unfolding create_alliance_validator_info
  info_or_new val none = create_alliance_validator_info val
  info_or_new val (some info) = pure info

  unfoldable pub get_alliance_validator : Sdk W → ValAddress → Call W AllianceValidator
  unfolding info_or_new
  get_alliance_validator k val = do
    found ← gets (λ s. k.get_validator val s.world)
    validator ← found_or validator_does_not_exist found
    stored ← gets (get_alliance_validator_info val)
    info ← info_or_new val stored
    pure (record { validator = validator; info = info })

  -- `sdk.NewDecCoins(sdk.NewDecCoinFromDec(denom, amount))`
  unfoldable pub single_dec_coins : Sdk W → Denom → SdkDec → Result DecCoins
  single_dec_coins k denom amount =
      Result.◌>>=◌ (or_panic (k.new_dec_coin_from_dec denom amount))
        (λ coin. or_panic (k.new_dec_coins (coin ∷ [])))

  abbrev pub added :
      Sdk W → DecCoins → DecCoins → AllianceValidatorInfo → Bool → Result AllianceValidatorInfo
  added k delegation_shares validator_shares info true =
      ok (add_shares k delegation_shares validator_shares info)
  added k delegation_shares validator_shares info false =
      reduce_shares k delegation_shares validator_shares info

  -- The validator comes back as the pointer's target reads after the call.
  unfoldable pub update_validator_shares :
      Sdk W → AllianceValidator → DecCoins → DecCoins → Bool → Call W AllianceValidator
  update_validator_shares k val delegation_shares validator_shares is_add = do
    info ← lift (added k delegation_shares validator_shares val.info is_add)
    let val' = record val { info = info }
    set_validator val'
    pure val'
