-- ===== src/Sdk/Base.antt =====
-- The data that the SDK's interfaces exchange.
use alliance.Prelude.{ℕ, Bool, List}
use alliance.Prelude.Int.{ℤ}

-- Denominations and addresses are only compared, so they are numbered, in the order of their
-- bytes as store keys.
abbrev pub Denom : Type 0
Denom = ℕ

abbrev pub AccAddress : Type 0
AccAddress = ℕ

abbrev pub ValAddress : Type 0
ValAddress = ℕ

-- The text of an address in a message.
abbrev pub Bech32 : Type 0
Bech32 = ℕ

-- The denomination "" is the first in the order of bytes.
abbrev pub empty_denom : Denom
empty_denom = 0

-- time.Time in nanoseconds since the zero time, and time.Duration in nanoseconds.
abbrev pub Time : Type 0
Time = ℤ

abbrev pub Duration : Type 0
Duration = ℤ

-- sdk.Dec: a decimal with 18 places, by the integer number of its units of 10^-18.
pub record SdkDec : Type 0 where
  pub units : ℤ

pub record Coin : Type 0 where
  pub denom : Denom
  pub amount : ℤ

pub record DecCoin : Type 0 where
  pub denom : Denom
  pub amount : SdkDec

abbrev pub Coins : Type 0
Coins = List Coin

abbrev pub DecCoins : Type 0
DecCoins = List DecCoin

-- The parts of stakingtypes.Validator that this module reads.
pub record StakingValidator : Type 0 where
  pub operator : ValAddress
  pub bonded : Bool
  pub tokens : ℤ
  pub delegator_shares : SdkDec

-- The block that a call runs in: its time and its height.
pub record Context : Type 0 where
  pub block_time : Time
  pub block_height : ℕ

-- The accounts that x/alliance moves coins between.
pub data ModuleName : Type 0 where
  alliance_module rewards_pool fee_collector bonded_pool : ModuleName

-- The calls that the staking module makes back into its hooks.
pub data StakingHook : Type 0 where
  after_validator_created before_validator_modified after_validator_removed : StakingHook
  after_validator_bonded after_validator_begin_unbonding : StakingHook
  before_delegation_created before_delegation_shares_modified : StakingHook
  before_delegation_removed after_delegation_modified : StakingHook
  before_validator_slashed : ValAddress → SdkDec → StakingHook
