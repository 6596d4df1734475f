-- ===== src/Prelude/Map.antt =====
-- A prefix of the key-value store: the entries in the order of their keys. A key stands for the
-- bytes that x/alliance/types/keys.go makes of it; `before` is the order of those bytes.
use alliance.Prelude.{
  ℕ, ◌≡◌, refl, Bool, true, false, ◌&&◌, ◌||◌, Option, none, some, List, [], ◌∷◌, arith, ltb, ◌==◌,
  if◌then◌else◌, ==_iff, ==_refl, Option-cases, Bool-cases, inl, inr,
}
use alliance.Prelude.Int.{ℤ, pos, ◌+ℤ◌, int_laws, ltb_ℤ, eqb_ℤ, eqb_ℤ_iff, eqb_ℤ_refl}

pub record Key (K : Type 0) : Type 0 where
  pub equal : K → K → Bool
  pub before : K → K → Bool
  pub equal_refl : (a : K) → equal a a ≡ true
  pub eq_of_equal : (a b : K) → equal a b ≡ true → a ≡ b

instance abbrev pub nat_key : Key ℕ
nat_key = record {
  equal = λ a b. a == b;
  before = ltb;
  equal_refl = ==_refl;
  eq_of_equal = λ a b. (==_iff a b).0;
}

instance abbrev pub int_key : Key ℤ
int_key = record { equal = eqb_ℤ; before = ltb_ℤ; equal_refl = eqb_ℤ_refl; eq_of_equal = eqb_ℤ_iff }

module _ {A B : Type 0} ⦃ka : Key A⦄ ⦃kb : Key B⦄ where
  abbrev pub equal_pair : A × B → A × B → Bool
  equal_pair (a, b) (c, d) = ka.equal a c && kb.equal b d

  abbrev pub before_pair : A × B → A × B → Bool
  before_pair (a, b) (c, d) = ka.before a c || (ka.equal a c && kb.before b d)

  pub equal_pair_refl : (p : A × B) → equal_pair p p ≡ true
  equal_pair_refl (a, b) = ground (arith, ka.equal_refl a, kb.equal_refl b)

  pub eq_of_equal_pair : (p q : A × B) → equal_pair p q ≡ true → p ≡ q
  eq_of_equal_pair (a, b) (c, d) h = ground (arith, ka.eq_of_equal a c, kb.eq_of_equal b d)

  -- Keys of several parts compare from the left.
  instance abbrev pub pair_key : Key (A × B)
  pair_key = record {
    equal = equal_pair;
    before = before_pair;
    equal_refl = equal_pair_refl;
    eq_of_equal = eq_of_equal_pair;
  }

abbrev pub Map : Type 0 → Type 0 → Type 0
Map K V = List (K × V)

-- The keys that an iterator goes through.
abbrev pub keys : {K V : Type 0} → Map K V → List K
keys [] = []
keys ((j, w) ∷ m) = j ∷ keys m

-- What is left of a value where another one says that it is taken.
abbrev or_none : {V : Type 0} → Option V → Option V → Option V
or_none none o = o
or_none (some u) o = none

or_none-none : {V : Type 0} (o : Option V) → or_none o none ≡ none
or_none-none none = refl
or_none-none (some v) = refl

or_none_if :
    {V : Type 0} (b : Bool) (o : Option V)
    → or_none (if b then o else none) o ≡ (if b then none else o)
or_none_if true none = refl
or_none_if true (some v) = refl
or_none_if false o = refl

module _ {K V : Type 0} ⦃key : Key K⦄ where
  -- `store.Get`: no value is nil.
  unfoldable pub lookup : K → Map K V → Option V
  lookup k [] = none
  lookup k ((j, v) ∷ m) = if key.equal k j then some v else lookup k m

  -- A key that is not there yet, at its place.
  unfoldable pub place : K → V → Map K V → Map K V
  place k v [] = (k, v) ∷ []
  place k v ((j, w) ∷ m) = if key.before k j then (k, v) ∷ (j, w) ∷ m else (j, w) ∷ place k v m

  -- The value of a key that is there.
  unfoldable pub replace : K → V → Map K V → Map K V
  replace k v [] = []
  replace k v ((j, w) ∷ m) = if key.equal k j then (k, v) ∷ m else (j, w) ∷ replace k v m

  -- `store.Set`
  unfoldable pub insert : K → V → Map K V → Map K V
  unfolding place replace lookup
  insert k v m = elim (lookup k m) [ none ↦ place k v m | some old ↦ replace k v m ]

  -- `store.Delete`
  unfoldable pub erase : K → Map K V → Map K V
  erase k [] = []
  erase k ((j, w) ∷ m) = let rest = erase k m in if key.equal k j then rest else (j, w) ∷ rest

  -- The entries whose keys pass a test, in the order of the keys: an iterator over a range.
  unfoldable pub range : (K → Bool) → Map K V → Map K V
  range test [] = []
  range test ((j, w) ∷ m) = let rest = range test m in if test j then (j, w) ∷ rest else rest

  lookup-place_self :
      (k : K) (v : V) (m : Map K V) → lookup k m ≡ none → lookup k (place k v m) ≡ some v
  unfolding lookup place
  lookup-place_self k v [] h = ground (arith, key.equal_refl k)
  lookup-place_self k v ((j, w) ∷ m) h = ground (arith, key.equal_refl k, lookup-place_self k v m)

  lookup-replace_self :
      (k : K) (v old : V) (m : Map K V) → lookup k m ≡ some old → lookup k (replace k v m) ≡ some v
  unfolding lookup replace
  lookup-replace_self k v old [] h = cc
  lookup-replace_self k v old ((j, w) ∷ m) h =
      ground (arith, key.equal_refl k, lookup-replace_self k v old m)

  lookup-place_ne :
      (j k : K) (v : V) (m : Map K V) → key.equal j k ≡ false → lookup j (place k v m) ≡ lookup j m
  unfolding lookup place
  lookup-place_ne j k v [] h = ground arith
  lookup-place_ne j k v ((i, w) ∷ m) h = ground (arith, lookup-place_ne j k v m h)

  lookup-replace_ne :
      (j k : K) (v : V) (m : Map K V)
      → key.equal j k ≡ false
      → lookup j (replace k v m) ≡ lookup j m
  unfolding lookup replace
  lookup-replace_ne j k v [] h = refl
  lookup-replace_ne j k v ((i, w) ∷ m) h =
      ground (arith, key.eq_of_equal k i, lookup-replace_ne j k v m h)

  pub lookup-insert_self : (k : K) (v : V) (m : Map K V) → lookup k (insert k v m) ≡ some v
  unfolding insert
  lookup-insert_self k v m = elim (Option-cases (lookup k m)) [
    | inl new ↦ rw (new, insert) (lookup-place_self k v m new)
    | inr (old, e) ↦ rw (e, insert) (lookup-replace_self k v old m e)
  ]

  pub lookup-insert_ne :
      (j k : K) (v : V) (m : Map K V) → key.equal j k ≡ false → lookup j (insert k v m) ≡ lookup j m
  unfolding insert
  lookup-insert_ne j k v m h = elim (Option-cases (lookup k m)) [
    | inl new ↦ rw (new, insert) (lookup-place_ne j k v m h)
    | inr (old, e) ↦ rw (e, insert) (lookup-replace_ne j k v m h)
  ]

  -- A sum over the values of a map.
  module _ (f : V → ℤ) where
    unfoldable pub total : Map K V → ℤ
    total [] = pos 0
    total ((j, w) ∷ m) = f w +ℤ total m

    total-place : (k : K) (v : V) (m : Map K V) → total (place k v m) ≡ total m +ℤ f v
    unfolding total place
    total-place k v [] = omega int_laws
    total-place k v ((j, w) ∷ m) = grind (int_laws, total-place k v m)

    total-replace :
        (k : K) (v old : V) (m : Map K V)
        → lookup k m ≡ some old
        → total (replace k v m) +ℤ f old ≡ total m +ℤ f v
    unfolding total replace lookup
    total-replace k v old [] h = cc
    total-replace k v old ((j, w) ∷ m) h = grind (int_laws, total-replace k v old m)

    -- Setting a key exchanges its value in the sum.
    pub total-insert :
        (k : K) (v old : V) (m : Map K V)
        → lookup k m ≡ some old
        → total (insert k v m) +ℤ f old ≡ total m +ℤ f v
    unfolding insert
    total-insert k v old m h = rw (h, insert) (total-replace k v old m h)

    pub total-insert_new :
        (k : K) (v : V) (m : Map K V) → lookup k m ≡ none → total (insert k v m) ≡ total m +ℤ f v
    unfolding insert
    total-insert_new k v m h = rw (h, insert) (total-place k v m)

  pub lookup-erase_self : (k : K) (m : Map K V) → lookup k (erase k m) ≡ none
  unfolding lookup erase
  lookup-erase_self k [] = refl
  lookup-erase_self k ((j, w) ∷ m) = ground (arith, lookup-erase_self k m)

  pub lookup-erase_ne :
      (j k : K) (m : Map K V) → key.equal j k ≡ false → lookup j (erase k m) ≡ lookup j m
  unfolding lookup erase
  lookup-erase_ne j k [] h = refl
  lookup-erase_ne j k ((i, w) ∷ m) h = ground (arith, key.eq_of_equal k i, lookup-erase_ne j k m h)

  pub lookup-erase :
      (j k : K) (m : Map K V) → lookup j (erase k m) ≡ (if key.equal j k then none else lookup j m)
  unfolding lookup erase
  lookup-erase j k [] = ground arith
  lookup-erase j k ((i, w) ∷ m) =
      ground (arith, key.eq_of_equal k i, key.eq_of_equal j k, key.equal_refl k, lookup-erase j k m)

  pub lookup-range :
      (test : K → Bool) (j : K) (m : Map K V)
      → lookup j (range test m) ≡ (if test j then lookup j m else none)
  unfolding lookup range
  lookup-range test j [] = ground arith
  lookup-range test j ((i, w) ∷ m) = ground (arith, key.eq_of_equal j i, lookup-range test j m)

  -- The deletion of each key that an iterator went through.
  unfoldable pub erase_keys : Map K V → Map K V → Map K V
  unfolding erase
  erase_keys [] m = m
  erase_keys ((j, w) ∷ q) m = erase_keys q (erase j m)

  lookup-erase_keys :
      (j : K) (q m : Map K V) → lookup j (erase_keys q m) ≡ or_none (lookup j q) (lookup j m)
  unfolding erase_keys lookup
  lookup-erase_keys j [] m = refl
  lookup-erase_keys j ((i, w) ∷ q) m = elim (Bool-cases (key.equal j i)) [
    | inl same ↦
        rw (lookup-erase_keys j q (erase i m), lookup-erase j i m, same) (or_none-none (lookup j q))
    | inr other ↦ rw (lookup-erase_keys j q (erase i m), lookup-erase j i m, other)
  ]

  -- Deleting the keys of a range leaves the other keys.
  pub lookup-erase_range :
      (test : K → Bool) (j : K) (m : Map K V)
      → lookup j (erase_keys (range test m) m) ≡ (if test j then none else lookup j m)
  lookup-erase_range test j m =
      rw (lookup-erase_keys j (range test m) m, lookup-range test j m)
        (or_none_if (test j) (lookup j m))
