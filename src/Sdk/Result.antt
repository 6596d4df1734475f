-- ===== src/Sdk/Result.antt =====
-- How a Go call ends: with a value, with an error, or in a panic.
use mathlib.Core.Path.{subst}
use alliance.Prelude.{ℕ, ◌≡◌, refl, Bool, true, false, Option, none, some, if◌then◌else◌}

pub data Error : Type 0 where
  -- status.Errorf(codes.NotFound), (codes.AlreadyExists), (codes.InvalidArgument), (codes.Internal)
  not_found already_exists invalid_argument internal : Error
  -- x/alliance/types/errors.go
  insufficient_tokens unknown_asset reward_weight_out_of_bound : Error
  -- stakingtypes
  no_delegator_for_address no_delegation insufficient_shares transitive_redelegation : Error
  -- fmt.Errorf: an unknown validator, a slash fraction out of range, tokens left in an asset
  validator_does_not_exist invalid_fraction asset_has_tokens : Error
  -- an error of another module
  external : ℕ → Error

pub data Result (A : Type 0) : Type 0 where
  ok : A → Result A
  err : Error → Result A
  panic : Result A

infixl 5 ◌>>=◌ ◌>>◌
abbrev pub ◌>>=◌ : {A B : Type 0} → Result A → (A → Result B) → Result B
panic >>= next = panic
err failure >>= next = err failure
ok value >>= next = next value

abbrev pub ◌>>◌ : {A : Type 0} → Result (Unit {0}) → Result A → Result A
check >> next = check >>= λ u. next

-- A library function that panics where it has no value.
abbrev pub or_panic : {A : Type 0} → Option A → Result A
or_panic none = panic
or_panic (some a) = ok a

-- A guard that returns an error where the test holds.
abbrev pub fail_if : Bool → Error → Result (Unit {0})
fail_if true e = err e
fail_if false e = ok tt

-- The two halves of a chain that ends with a value.
pub >>=-parts :
    {A B : Type 0} (step : Result A) (next : A → Result B) {end : B}
    → (step >>= next) ≡ ok end
    → (mid : A) × (step ≡ ok mid) × (next mid ≡ ok end)
>>=-parts panic next e = cc
>>=-parts (err failure) next e = cc
>>=-parts (ok value) next e = (value, refl, e)

pub or_panic-eq-ok : {A : Type 0} (o : Option A) {a : A} → or_panic o ≡ ok a → o ≡ some a
or_panic-eq-ok none h = cc
or_panic-eq-ok (some b) h = cc

-- What holds of a result that is a value.
abbrev pub OkThen : {A : Type 0} → (A → Type 0) → Result A → Type 0
OkThen Q (ok a) = Q a
OkThen Q (err e) = Unit
OkThen Q panic = Unit

pub OkThen-bind :
    {A B : Type 0} (Q : B → Type 0) (m : Result A) (f : A → Result B)
    → ((a : A) → m ≡ ok a → OkThen Q (f a))
    → OkThen Q (m >>= f)
OkThen-bind Q (ok a) f h = h a refl
OkThen-bind Q (err e) f h = tt
OkThen-bind Q panic f h = tt

pub OkThen-or_panic :
    {A B : Type 0} (Q : B → Type 0) (o : Option A) (f : A → Result B)
    → ((a : A) → o ≡ some a → OkThen Q (f a))
    → OkThen Q (or_panic o >>= f)
OkThen-or_panic Q none f h = tt
OkThen-or_panic Q (some a) f h = h a refl

pub OkThen-if :
    {A : Type 0} (Q : A → Type 0) (b : Bool) (r s : Result A)
    → (b ≡ true → OkThen Q r)
    → (b ≡ false → OkThen Q s)
    → OkThen Q (if b then r else s)
OkThen-if Q true r s h g = h refl
OkThen-if Q false r s h g = g refl

pub OkThen-value :
    {A : Type 0} (Q : A → Type 0) (r : Result A) {a : A} → OkThen Q r → r ≡ ok a → Q a
OkThen-value Q (ok b) h e = subst Q (cc) h
OkThen-value Q (err e') h e = cc
OkThen-value Q panic h e = cc
