-- ===== src/Example/World.antt =====
-- Decimals as integers of 10^-18, coins as association lists, a bank that logs every transfer,
-- and validators that are bonded.
use alliance.Prelude.{
  ℕ, zero, suc, ◌^◌, Bool, true, false, not, Option, none, some, List, [], ◌∷◌, ◌++◌, ◌==◌, ◌*◌,
  ◌-◌, if◌then◌else◌,
}
use alliance.Prelude.Int.{ℤ, pos, ◌+ℤ◌, ◌-ℤ◌, ◌*ℤ◌, ltb_ℤ, eqb_ℤ, quot}
use alliance.Sdk.{
  Sdk, SdkDec, DecCoin, Coins, DecCoins, Denom, AccAddress, ValAddress, StakingValidator,
  ModuleName, after_delegation_modified,
}
use alliance.Sdk.Result.{Result, ok}

-- An account of a delegator, or of a module.
pub data Account : Type 0 where
  user : AccAddress → Account
  module_account : ModuleName → Account
  supply : Account

pub record Transfer : Type 0 where
  pub from : Account
  pub to : Account
  pub coins : Coins

abbrev pub Log : Type 0
Log = List Transfer

abbrev pub one : ℕ
one = 10 ^ 18

-- A decimal of a whole number of units.
abbrev pub dec : ℤ → SdkDec
dec n = record { units = n }

abbrev pub log : Account → Account → Coins → Log → Result (Unit {0}) × Log
log from to coins w = (ok tt, w ++ record { from = from; to = to; coins = coins } ∷ [])

unfoldable pub amount_in : Denom → DecCoins → SdkDec
amount_in d [] = dec (pos 0)
amount_in d (c ∷ cs) = if c.denom == d then c.amount else amount_in d cs

-- Adds one coin to a set.
unfoldable pub put_coin : DecCoin → DecCoins → DecCoins
unfolding ◌+ℤ◌
put_coin c [] = c ∷ []
put_coin c (x ∷ a) =
    if x.denom == c.denom
    then record x { amount = dec (x.amount.units +ℤ c.amount.units) } ∷ a
    else x ∷ put_coin c a

unfoldable pub add_coins : DecCoins → DecCoins → DecCoins
unfolding put_coin
add_coins a [] = a
add_coins a (c ∷ b) = add_coins (put_coin c a) b

-- No denomination is listed twice.
unfoldable pub lists : Denom → DecCoins → Bool
lists d [] = false
lists d (c ∷ cs) = let rest = lists d cs in if c.denom == d then true else rest

unfoldable pub distinct : DecCoins → Bool
unfolding lists
distinct [] = true
distinct (c ∷ cs) = let rest = distinct cs in if lists c.denom cs then false else rest

unfoldable pub negate_coins : DecCoins → DecCoins
unfolding ◌-ℤ◌
negate_coins [] = []
negate_coins (c ∷ cs) =
    record { denom = c.denom; amount = dec (pos 0 -ℤ c.amount.units) } ∷ negate_coins cs

unfoldable pub has_negative : DecCoins → Bool
has_negative [] = false
has_negative (c ∷ cs) =
    let rest = has_negative cs in if ltb_ℤ c.amount.units (pos 0) then true else rest

unfoldable pub sub_coins : DecCoins → DecCoins → Option DecCoins
unfolding add_coins negate_coins has_negative
sub_coins a b =
    let less = add_coins a (negate_coins b) in if has_negative less then none else some less

unfoldable pub coins_of : Denom → Coins → ℤ
coins_of d [] = pos 0
coins_of d (c ∷ cs) = if c.denom == d then c.amount else coins_of d cs

unfoldable pub plus_coins : Coins → Coins → Coins
unfolding ◌+ℤ◌ coins_of
plus_coins [] b = b
plus_coins (c ∷ a) b =
    record { denom = c.denom; amount = c.amount +ℤ coins_of c.denom b } ∷ plus_coins a b

unfoldable pub all_zero : Coins → Bool
all_zero [] = true
all_zero (c ∷ cs) = let rest = all_zero cs in if eqb_ℤ c.amount (pos 0) then rest else false

unfoldable pub power_of : SdkDec → ℕ → SdkDec
unfolding quot ◌*ℤ◌
power_of a zero = dec (pos one)
power_of a (suc n) = dec (quot (a.units *ℤ (power_of a n).units) (pos one))

abbrev pub validator_at : ValAddress → StakingValidator
validator_at v = record {
  operator = v;
  bonded = true;
  tokens = pos 1000;
  delegator_shares = dec (pos (1000 * one));
}

unfoldable pub sdk : Sdk Log
unfolding ◌+ℤ◌ ◌-ℤ◌ ◌*ℤ◌ quot amount_in add_coins distinct sub_coins plus_coins all_zero power_of
sdk = record {
  zero_dec = dec (pos 0);
  one_dec = dec (pos one);
  new_dec_from_int = λ n. dec (n *ℤ pos one);
  new_dec_with_prec = λ n p. dec (n *ℤ pos (10 ^ (18 - p)));
  add = λ a b. dec (a.units +ℤ b.units);
  sub = λ a b. dec (a.units -ℤ b.units);
  mul = λ a b. dec (quot (a.units *ℤ b.units) (pos one));
  mul_int = λ a n. dec (a.units *ℤ n);
  quo =
      λ a b. if eqb_ℤ b.units (pos 0) then none else some (dec (quot (a.units *ℤ pos one) b.units));
  power = power_of;
  abs = λ a. dec (if ltb_ℤ a.units (pos 0) then pos 0 -ℤ a.units else a.units);
  truncate_int = λ a. quot a.units (pos one);
  truncate_dec = λ a. dec (quot a.units (pos one) *ℤ pos one);
  lt = λ a b. ltb_ℤ a.units b.units;
  equal = λ a b. eqb_ℤ a.units b.units;
  is_nil = λ a. false;
  new_coin = λ d n. if ltb_ℤ n (pos 0) then none else some (record { denom = d; amount = n });
  coin_add = λ a b.
      if a.denom == b.denom
      then some (record { denom = a.denom; amount = a.amount +ℤ b.amount })
      else none;
  new_coins = λ cs. some cs;
  coins_add = plus_coins;
  coins_is_zero = all_zero;
  new_dec_coin_from_dec =
      λ d a. if ltb_ℤ a.units (pos 0) then none else some (record { denom = d; amount = a });
  new_dec_coins = λ cs. some cs;
  dec_coins_is_valid = distinct;
  dec_coins_add = add_coins;
  dec_coins_sub = sub_coins;
  dec_coins_amount_of = λ cs d. amount_in d cs;
  validate_denom = λ d. not (d == 0);
  acc_address_from_bech32 = λ a. if a == 0 then none else some a;
  val_address_from_bech32 = λ a. if a == 0 then none else some a;
  mint_coins = λ m cs w. log supply (module_account m) cs w;
  burn_coins = λ m cs w. log (module_account m) supply cs w;
  send_coins_from_module_to_module = λ m n cs w. log (module_account m) (module_account n) cs w;
  send_coins_from_account_to_module = λ a m cs w. log (user a) (module_account m) cs w;
  send_coins_from_module_to_account = λ m a cs w. log (module_account m) (user a) cs w;
  get_balance = λ a d w. record { denom = d; amount = pos 0 };
  get_module_address = λ m. 77;
  withdraw_delegation_rewards = λ a v w. (ok (record { denom = 9; amount = pos 50 } ∷ []), w);
  unbonding_time = λ w. pos 100;
  bond_denom = λ w. 9;
  get_validator = λ v w. if v == 0 then none else some (validator_at v);
  get_delegation = λ a v w. some (dec (pos (10 * one)));
  delegator_delegations = λ a w. (1, dec (pos (10 * one))) ∷ [];
  total_bonded_tokens = λ w. pos 1000;
  staking_delegate = λ a n v w. (ok (dec (n *ℤ pos one)), after_delegation_modified ∷ [], w);
  validate_unbond_amount = λ a v n w. ok (dec (n *ℤ pos one));
  unbond = λ a v s w. (ok (quot s.units (pos one)), after_delegation_modified ∷ [], w);
  validator_equal = λ a b. a.operator == b.operator;
  tokens_from_shares = λ v s. s;
  tokens_from_shares_truncated = λ v s. s;
}
