-- ===== src/Types/Laws.antt =====
-- What the SDK documents of its decimals and coins, as hypotheses of the theorems that use it.
use alliance.Prelude.{◌≡◌, ◌^◌, true, some, [], ◌∷◌}
use alliance.Prelude.Int.{ℤ, pos, ◌*ℤ◌, quot, ◌+ℤ◌, ◌-ℤ◌, ltb_ℤ, eqb_ℤ}
use alliance.Sdk.{Sdk, Denom, SdkDec, DecCoin, DecCoins}
use alliance.Types.Validator.{validator_shares_in}

-- Sums, differences and comparisons of decimals are exact, in units of 10^-18; what is truncated
-- of a decimal that is not negative is not negative, and no more.
pub record DecLaws {W : Type 0} (k : Sdk W) : Type 0 where
  pub zero_units : k.zero_dec.units ≡ pos 0
  pub one_units : k.one_dec.units ≡ pos (10 ^ 18)
  pub add_units : (a b : SdkDec) → (k.add a b).units ≡ a.units +ℤ b.units
  pub sub_units : (a b : SdkDec) → (k.sub a b).units ≡ a.units -ℤ b.units
  pub lt_units : (a b : SdkDec) → k.lt a b ≡ ltb_ℤ a.units b.units
  pub equal_units : (a b : SdkDec) → k.equal a b ≡ eqb_ℤ a.units b.units

-- A decimal times an integer is exact, and a decimal is truncated toward zero.
pub record TruncationLaws {W : Type 0} (k : Sdk W) : Type 0 where
  pub mul_int_units : (a : SdkDec) (n : ℤ) → (k.mul_int a n).units ≡ a.units *ℤ n
  pub truncate_units : (a : SdkDec) → k.truncate_int a ≡ quot a.units (pos (10 ^ 18))
  pub from_int_units : (n : ℤ) → (k.new_dec_from_int n).units ≡ n *ℤ pos (10 ^ 18)

-- Sets of coins add and subtract by denomination, and what is not listed counts as zero.
-- `NewDecCoins` gives a valid set back, and `AmountOf` reads the one entry for its denomination.
pub record CoinLaws {W : Type 0} (k : Sdk W) : Type 0 where
  pub nil_valid : k.dec_coins_is_valid [] ≡ true
  pub new_dec_coin :
      (d : Denom) (x : SdkDec) {c : DecCoin}
      → k.new_dec_coin_from_dec d x ≡ some c
      → c ≡ record { denom = d; amount = x }
  pub new_dec_coins-valid :
      (cs : DecCoins) → k.dec_coins_is_valid cs ≡ true → k.new_dec_coins cs ≡ some cs
  pub new_dec_coins_single :
      (c : DecCoin) {cs : DecCoins}
      → k.new_dec_coins (c ∷ []) ≡ some cs
      → (k.dec_coins_is_valid cs ≡ true)
        × ((d : Denom)
            → (validator_shares_in k d cs).units ≡ (validator_shares_in k d (c ∷ [])).units)
  pub add_valid :
      (a b : DecCoins)
      → k.dec_coins_is_valid a ≡ true
      → k.dec_coins_is_valid b ≡ true
      → k.dec_coins_is_valid (k.dec_coins_add a b) ≡ true
  pub add_amount :
      (a b : DecCoins) (d : Denom)
      → k.dec_coins_is_valid a ≡ true
      → k.dec_coins_is_valid b ≡ true
      → (validator_shares_in k d (k.dec_coins_add a b)).units
        ≡ (validator_shares_in k d a).units +ℤ (validator_shares_in k d b).units
