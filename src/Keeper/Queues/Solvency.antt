-- ===== src/Keeper/Queues/Solvency.antt =====
-- keeper/delegation.go: when the bank can pay the entries of undelegation queues.
use mathlib.Core.Path.{subst}
use alliance.Prelude.{
  ◌≡◌, Bool, true, some, List, [], ◌∷◌, ◌==◌, ==_refl, All, if◌then◌else◌, Bool-cases, inl, inr,
  arith,
}
use alliance.Prelude.Int.{ℤ, pos, ◌+ℤ◌, ◌-ℤ◌, ◌≤ℤ◌, int_laws}
use alliance.Prelude.Map.{Map}
use alliance.Sdk.{Sdk, Denom, AccAddress, Coin, Coins, alliance_module}
use alliance.Sdk.Result.{ok}
use alliance.Types.{Undelegation}
use alliance.Keeper.State.{UndelegationQueueKey}

-- What the module's account has of a denomination.
abbrev pub held : {W : Type 0} → Sdk W → Denom → W → ℤ
held k d w = (k.get_balance (k.get_module_address alliance_module) d w).amount

-- A coin of a valid denomination, not negative, which the module's account can pay.
pub record Payable {W : Type 0} (k : Sdk W) (c : Coin) (w : W) : Type 0 where
  pub valid : k.validate_denom c.denom ≡ true
  pub not_negative : pos 0 ≤ℤ c.amount
  pub covered : c.amount ≤ℤ held k c.denom w

-- What the bank documents. `NewCoins` makes a set of a valid coin. The module's account can send
-- what it has to an address that accepts coins, which a blocked address and the account itself
-- do not, and it has that much less afterwards; it can burn what it has. A balance is of the
-- denomination asked for and not negative, and the bond denomination is valid.
pub record BankLaws {W : Type 0} (k : Sdk W) (accepts : AccAddress → Bool) : Type 0 where
  pub make : Coin → Coins
  pub made :
      (c : Coin)
      → k.validate_denom c.denom ≡ true
      → pos 0 ≤ℤ c.amount
      → k.new_coins (c ∷ []) ≡ some (make c)
  pub sent :
      (to : AccAddress) (c : Coin) (w : W)
      → accepts to ≡ true
      → Payable k c w
      → (k.send_coins_from_module_to_account alliance_module to (make c) w).0 ≡ ok tt
  pub left :
      (to : AccAddress) (c : Coin) (w : W)
      → accepts to ≡ true
      → Payable k c w
      → (d : Denom)
      → held k d (k.send_coins_from_module_to_account alliance_module to (make c) w).1
        ≡ (if d == c.denom then held k d w -ℤ c.amount else held k d w)
  pub burnt :
      (c : Coin) (w : W) → Payable k c w → (k.burn_coins alliance_module (make c) w).0 ≡ ok tt
  pub balance_denom :
      (d : Denom) (w : W) → (k.get_balance (k.get_module_address alliance_module) d w).denom ≡ d
  pub balance_not_negative : (d : Denom) (w : W) → pos 0 ≤ℤ held k d w
  pub bond_denom_valid : (w : W) → k.validate_denom (k.bond_denom w) ≡ true

-- An entry that can be paid where there are tokens for it.
pub record Entry {W : Type 0} (k : Sdk W) (accepts : AccAddress → Bool) (u : Undelegation)
    : Type 0 where
  pub accepted : accepts u.delegator_address ≡ true
  pub valid : k.validate_denom u.balance.denom ≡ true
  pub not_negative : pos 0 ≤ℤ u.balance.amount

-- What entries owe in a denomination.
unfoldable pub owed : Denom → List Undelegation → ℤ
owed d [] = pos 0
owed d (u ∷ entries) =
    let rest = owed d entries in if d == u.balance.denom then u.balance.amount +ℤ rest else rest

unfoldable pub owed_all : Denom → Map UndelegationQueueKey (List Undelegation) → ℤ
unfolding owed
owed_all d [] = pos 0
owed_all d ((key, entries) ∷ q) = owed d entries +ℤ owed_all d q

-- What a payment of an entry leaves.
abbrev pub paid :
    {W : Type 0} (k : Sdk W) {accepts : AccAddress → Bool}
    → BankLaws k accepts
    → Undelegation
    → W
    → W
paid k bank u w =
    (k.send_coins_from_module_to_account alliance_module u.delegator_address (bank.make u.balance)
      w).1

plus_not_negative : (a b : ℤ) → pos 0 ≤ℤ a → pos 0 ≤ℤ b → pos 0 ≤ℤ a +ℤ b
plus_not_negative a b h i = omega int_laws

first_covered : (a b c all : ℤ) → pos 0 ≤ℤ b → pos 0 ≤ℤ c → (a +ℤ b) +ℤ c ≤ℤ all → a ≤ℤ all
first_covered a b c all h i j = omega int_laws

rest_covered : (a b c all : ℤ) → (a +ℤ b) +ℤ c ≤ℤ all → b +ℤ c ≤ℤ all -ℤ a
rest_covered a b c all h = omega int_laws

module _ {W : Type 0} (k : Sdk W) (accepts : AccAddress → Bool) where
  owed-not_negative :
      (d : Denom) (entries : List Undelegation)
      → All (Entry k accepts) entries
      → pos 0 ≤ℤ owed d entries
  unfolding owed
  owed-not_negative d [] all = omega arith
  owed-not_negative d (u ∷ entries) (e, all) = elim (Bool-cases (d == u.balance.denom)) [
    | inl same ↦ rw same (plus_not_negative _ _ e.not_negative (owed-not_negative d entries all))
    | inr other ↦ rw other (owed-not_negative d entries all)
  ]

  pub owed_all-not_negative :
      (d : Denom) (q : Map UndelegationQueueKey (List Undelegation))
      → All (λ e. All (Entry k accepts) e.1) q
      → pos 0 ≤ℤ owed_all d q
  unfolding owed_all
  owed_all-not_negative d [] all = omega arith
  owed_all-not_negative d ((key, entries) ∷ q) (e, all) =
      plus_not_negative _ _ (owed-not_negative d entries e) (owed_all-not_negative d q all)

  -- The account has what entries owe, and an amount beside that.
  abbrev pub Covers : List Undelegation → (Denom → ℤ) → W → Type 0
  Covers entries more w = (d : Denom) → owed d entries +ℤ more d ≤ℤ held k d w

  own_covers :
      (u : Undelegation) (entries : List Undelegation) (more : Denom → ℤ) (w : W)
      → Covers (u ∷ entries) more w
      → (u.balance.amount +ℤ owed u.balance.denom entries) +ℤ more u.balance.denom
        ≤ℤ held k u.balance.denom w
  unfolding owed
  own_covers u entries more w covers =
      subst
        (λ b.
          (if b
              then u.balance.amount +ℤ owed u.balance.denom entries
              else owed u.balance.denom entries)
            +ℤ more u.balance.denom
          ≤ℤ held k u.balance.denom w)
        (==_refl u.balance.denom) (covers u.balance.denom)

  pub Entry-Payable :
      (u : Undelegation) (entries : List Undelegation) (more : Denom → ℤ) (w : W)
      → Entry k accepts u
      → All (Entry k accepts) entries
      → ((d : Denom) → pos 0 ≤ℤ more d)
      → Covers (u ∷ entries) more w
      → Payable k u.balance w
  Entry-Payable u entries more w e all positive covers = record {
    valid = e.valid;
    not_negative = e.not_negative;
    covered =
        first_covered u.balance.amount (owed u.balance.denom entries) (more u.balance.denom)
          (held k u.balance.denom w) (owed-not_negative u.balance.denom entries all)
          (positive u.balance.denom) (own_covers u entries more w covers);
  }

  -- A payment leaves enough for the entries behind it.
  pub paid-Covers :
      (bank : BankLaws k accepts) (u : Undelegation) (entries : List Undelegation)
      (more : Denom → ℤ) (w : W)
      → Entry k accepts u
      → Payable k u.balance w
      → Covers (u ∷ entries) more w
      → Covers entries more (paid k bank u w)
  unfolding owed
  paid-Covers bank u entries more w e payable covers d = elim (Bool-cases (d == u.balance.denom)) [
    | inl same ↦
        rw (bank.left u.delegator_address u.balance w e.accepted payable d, same)
          (rest_covered u.balance.amount (owed d entries) (more d) (held k d w)
            (rw same at (covers d)))
    | inr other ↦
        rw (bank.left u.delegator_address u.balance w e.accepted payable d, other)
          (rw other at (covers d))
  ]
