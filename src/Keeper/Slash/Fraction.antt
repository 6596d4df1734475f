-- ===== src/Keeper/Slash/Fraction.antt =====
-- keeper/slash.go: the guard of SlashValidator.
use alliance.Prelude.{◌≡◌, refl, true, ◌||◌, arith, ◌⊎◌}
use alliance.Prelude.Int.{pos, ◌≤ℤ◌, ltb_ℤ}
use alliance.Prelude.Map.{nat_key, int_key, pair_key}
use alliance.Sdk.{Sdk, ValAddress, SdkDec, Context}
use alliance.Sdk.Result.{err, invalid_fraction}
use alliance.Types.Asset.{lte, gt}
use alliance.Types.Laws.{DecLaws}
use alliance.Keeper.State.{State}
use alliance.Keeper.Slash.{slash_validator}

module _ {W : Type 0} (k : Sdk W) (ctx : Context) where
  fraction_out_of_range :
      (laws : DecLaws k) (fraction : SdkDec)
      → (fraction.units ≤ℤ pos 0) ⊎ (ltb_ℤ (pos 1000000000000000000) fraction.units ≡ true)
      → (lte k fraction k.zero_dec || gt k fraction k.one_dec) ≡ true
  fraction_out_of_range laws fraction h = ground (
    arith,
    laws.lt_units k.zero_dec fraction,
    laws.lt_units k.one_dec fraction,
    laws.zero_units,
    laws.one_units,
  )

  -- Under the laws of decimals, a fraction that is zero, negative or above one is refused, and
  -- nothing is written.
  pub slash_validator_out_of_range :
      (laws : DecLaws k) (val : ValAddress) (fraction : SdkDec) (s : State W)
      → (fraction.units ≤ℤ pos 0) ⊎ (ltb_ℤ (pos 1000000000000000000) fraction.units ≡ true)
      → slash_validator k ctx val fraction s ≡ (err invalid_fraction, s)
  unfolding slash_validator
  slash_validator_out_of_range laws val fraction s h =
      rw (fraction_out_of_range laws fraction h) refl
