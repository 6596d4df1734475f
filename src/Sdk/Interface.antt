-- ===== src/Sdk/Interface.antt =====
-- The operations of the SDK that the module calls. `W` is the state of the other modules.
use alliance.Prelude.{ℕ, Bool, List, Option}
use alliance.Prelude.Int.{ℤ}
use alliance.Sdk.Base.{
  Denom, AccAddress, ValAddress, Bech32, Duration, SdkDec, Coin, DecCoin, Coins, DecCoins,
  StakingValidator, ModuleName, StakingHook,
}
use alliance.Sdk.Result.{Result}

pub record Sdk (W : Type 0) : Type 0 where
  -- sdk.Dec. `Quo` panics at the divisor zero.
  pub zero_dec : SdkDec
  pub one_dec : SdkDec
  pub new_dec_from_int : ℤ → SdkDec
  pub new_dec_with_prec : ℤ → ℕ → SdkDec
  pub add : SdkDec → SdkDec → SdkDec
  pub sub : SdkDec → SdkDec → SdkDec
  pub mul : SdkDec → SdkDec → SdkDec
  pub mul_int : SdkDec → ℤ → SdkDec
  pub quo : SdkDec → SdkDec → Option SdkDec
  pub power : SdkDec → ℕ → SdkDec
  pub abs : SdkDec → SdkDec
  pub truncate_int : SdkDec → ℤ
  pub truncate_dec : SdkDec → SdkDec
  pub lt : SdkDec → SdkDec → Bool
  pub equal : SdkDec → SdkDec → Bool
  pub is_nil : SdkDec → Bool
  -- sdk.Coin and sdk.Coins. The constructors panic at a negative amount or a bad denomination,
  -- `coin_add` at two denominations.
  pub new_coin : Denom → ℤ → Option Coin
  pub coin_add : Coin → Coin → Option Coin
  pub new_coins : List Coin → Option Coins
  pub coins_add : Coins → Coins → Coins
  pub coins_is_zero : Coins → Bool
  -- sdk.DecCoin and sdk.DecCoins. `Sub` panics where an amount gets negative.
  pub new_dec_coin_from_dec : Denom → SdkDec → Option DecCoin
  pub new_dec_coins : List DecCoin → Option DecCoins
  pub dec_coins_is_valid : DecCoins → Bool
  pub dec_coins_add : DecCoins → DecCoins → DecCoins
  pub dec_coins_sub : DecCoins → DecCoins → Option DecCoins
  pub dec_coins_amount_of : DecCoins → Denom → SdkDec
  -- sdk.ValidateDenom, sdk.AccAddressFromBech32 and sdk.ValAddressFromBech32
  pub validate_denom : Denom → Bool
  pub acc_address_from_bech32 : Bech32 → Option AccAddress
  pub val_address_from_bech32 : Bech32 → Option ValAddress
  -- BankKeeper
  pub mint_coins : ModuleName → Coins → W → Result (Unit {0}) × W
  pub burn_coins : ModuleName → Coins → W → Result (Unit {0}) × W
  pub send_coins_from_module_to_module : ModuleName → ModuleName → Coins → W → Result (Unit {0}) × W
  pub send_coins_from_account_to_module :
      AccAddress → ModuleName → Coins → W → Result (Unit {0}) × W
  pub send_coins_from_module_to_account :
      ModuleName → AccAddress → Coins → W → Result (Unit {0}) × W
  pub get_balance : AccAddress → Denom → W → Coin
  -- AccountKeeper
  pub get_module_address : ModuleName → AccAddress
  -- DistributionKeeper
  pub withdraw_delegation_rewards : AccAddress → ValAddress → W → Result Coins × W
  -- StakingKeeper. A delegation is read for its shares. `Delegate` and `Unbond` call the staking
  -- hooks, which come back in the order of the calls.
  pub unbonding_time : W → Duration
  pub bond_denom : W → Denom
  pub get_validator : ValAddress → W → Option StakingValidator
  pub get_delegation : AccAddress → ValAddress → W → Option SdkDec
  pub delegator_delegations : AccAddress → W → List (ValAddress × SdkDec)
  pub total_bonded_tokens : W → ℤ
  pub staking_delegate :
      AccAddress → ℤ → StakingValidator → W → Result SdkDec × List StakingHook × W
  pub validate_unbond_amount : AccAddress → ValAddress → ℤ → W → Result SdkDec
  pub unbond : AccAddress → ValAddress → SdkDec → W → Result ℤ × List StakingHook × W
  -- stakingtypes.Validator
  pub validator_equal : StakingValidator → StakingValidator → Bool
  pub tokens_from_shares : StakingValidator → SdkDec → SdkDec
  pub tokens_from_shares_truncated : StakingValidator → SdkDec → SdkDec
