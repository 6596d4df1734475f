-- ===== src/Example/Laws.antt =====
-- The laws of decimals and coins, for the example.
use alliance.Prelude.{
  ◌≡◌, refl, sym, ◌∙◌, ap, Bool, true, false, ◌||◌, Option, none, some, [], ◌∷◌, ◌==◌,
  if◌then◌else◌, arith, Bool-cases, inl, inr, ==_iff,
}
use alliance.Prelude.Int.{ℤ, pos, ◌+ℤ◌, ltb_ℤ, int_laws}
use alliance.Sdk.{Coin, SdkDec, DecCoin, DecCoins, Denom}
use alliance.Types.Validator.{validator_shares_in}
use alliance.Types.Laws.{DecLaws, TruncationLaws, CoinLaws}
use alliance.Example.World.{sdk, amount_in, put_coin, add_coins, lists, distinct}

pub sdk-DecLaws : DecLaws sdk
unfolding sdk
sdk-DecLaws = record {
  zero_units = refl;
  one_units = refl;
  add_units = λ a b. refl;
  sub_units = λ a b. refl;
  lt_units = λ a b. refl;
  equal_units = λ a b. refl;
}

pub sdk-TruncationLaws : TruncationLaws sdk
unfolding sdk
sdk-TruncationLaws = record {
  mul_int_units = λ a n. refl;
  truncate_units = λ a. refl;
  from_int_units = λ n. refl;
}

lists-put_coin :
    (d : Denom) (c : DecCoin) (a : DecCoins)
    → lists d (put_coin c a) ≡ (lists d a || (c.denom == d))
unfolding lists put_coin
lists-put_coin d c [] = ground arith
lists-put_coin d c (x ∷ a) = ground (arith, lists-put_coin d c a)

put_coin-distinct :
    (c : DecCoin) (a : DecCoins) → distinct a ≡ true → distinct (put_coin c a) ≡ true
unfolding distinct put_coin lists
put_coin-distinct c [] h = ground arith
put_coin-distinct c (x ∷ a) h = ground (arith, put_coin-distinct c a, lists-put_coin x.denom c a)

add_coins-distinct : (a b : DecCoins) → distinct a ≡ true → distinct (add_coins a b) ≡ true
unfolding add_coins
add_coins-distinct a [] h = h
add_coins-distinct a (c ∷ b) h = add_coins-distinct (put_coin c a) b (put_coin-distinct c a h)

-- The units of one coin in a denomination.
abbrev units_in : Denom → DecCoin → ℤ
units_in d c = if c.denom == d then c.amount.units else pos 0

amount_in-put_coin :
    (d : Denom) (c : DecCoin) (a : DecCoins)
    → (amount_in d (put_coin c a)).units ≡ (amount_in d a).units +ℤ units_in d c
unfolding amount_in put_coin
amount_in-put_coin d c [] = elim (Bool-cases (c.denom == d)) [
  | inl same ↦ rw same (omega int_laws)
  | inr other ↦ rw other (omega int_laws)
]
amount_in-put_coin d c (x ∷ a) = grind (int_laws, arith, amount_in-put_coin d c a)

amount_in_unlisted : (d : Denom) (b : DecCoins) → lists d b ≡ false → (amount_in d b).units ≡ pos 0
unfolding amount_in lists
amount_in_unlisted d [] h = refl
amount_in_unlisted d (c ∷ b) h = grind (arith, amount_in_unlisted d b)

amount_in-add_coins :
    (d : Denom) (a b : DecCoins)
    → distinct b ≡ true
    → (amount_in d (add_coins a b)).units ≡ (amount_in d a).units +ℤ (amount_in d b).units
unfolding amount_in add_coins distinct
amount_in-add_coins d a [] h = omega int_laws
amount_in-add_coins d a (c ∷ b) h = grind (
  arith,
  int_laws,
  amount_in-add_coins d (put_coin c a) b,
  amount_in-put_coin d c a,
  amount_in_unlisted d b,
  (==_iff c.denom d).0,
)

shares_are_amounts : (d : Denom) (a : DecCoins) → validator_shares_in sdk d a ≡ amount_in d a
unfolding validator_shares_in amount_in sdk
shares_are_amounts d [] = refl
shares_are_amounts d (c ∷ a) = rw (shares_are_amounts d a) refl

new_coin_lem :
    (d : Denom) (x : SdkDec) (negative : Bool) {c : DecCoin}
    → (if negative then none else some (record { denom = d; amount = x })) ≡ some c
    → c ≡ record { denom = d; amount = x }
new_coin_lem d x true h = cc
new_coin_lem d x false h = cc

single_lem :
    (c : DecCoin) (cs : DecCoins)
    → c ∷ [] ≡ cs
    → (distinct cs ≡ true)
      × ((d : Denom)
          → (validator_shares_in sdk d cs).units ≡ (validator_shares_in sdk d (c ∷ [])).units)
unfolding distinct lists
single_lem c cs h =
    (ap distinct (sym h), λ d. ap (λ x. (validator_shares_in sdk d x).units) (sym h))

abbrev coins_or_nil : Option DecCoins → DecCoins
coins_or_nil none = []
coins_or_nil (some cs) = cs

pub sdk-CoinLaws : CoinLaws sdk
unfolding sdk distinct
sdk-CoinLaws = record {
  nil_valid = refl;
  new_dec_coin = λ d x {c} h. new_coin_lem d x (ltb_ℤ x.units (pos 0)) h;
  new_dec_coins-valid = λ cs h. refl;
  new_dec_coins_single = λ c {cs} h. single_lem c cs (ap coins_or_nil h);
  add_valid = λ a b h h'. add_coins-distinct a b h;
  add_amount = λ a b d h h'.
      ap (λ x. x.units) (shares_are_amounts d (add_coins a b))
      ∙ (amount_in-add_coins d a b h' ∙ rw (shares_are_amounts d a, shares_are_amounts d b) refl);
}

sdk_coin :
    (d : Denom) (n : ℤ) (negative : Bool) (c : Coin)
    → (if negative then none else some (record { denom = d; amount = n })) ≡ some c
    → c ≡ record { denom = d; amount = n }
sdk_coin d n true c h = cc
sdk_coin d n false c h = cc

pub sdk-new_coin :
    (d : Denom) (n : ℤ) (c : Coin)
    → sdk.new_coin d n ≡ some c
    → c ≡ record { denom = d; amount = n }
unfolding sdk
sdk-new_coin d n c h = sdk_coin d n (ltb_ℤ n (pos 0)) c h
