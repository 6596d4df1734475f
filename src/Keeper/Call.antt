-- ===== src/Keeper/Call.antt =====
-- A call of the keeper: a Go function that writes the store. What was written stays written when
-- it ends in an error; that a transaction is rolled back is the caller's doing.
pub mod Post
pub mod Keeps
use alliance.Prelude.{Bool, Option, none, some, List, [], ◌∷◌}
use alliance.Sdk.Result.{Error, Result, ok, err, panic, fail_if}
use alliance.Keeper.State.{State}

abbrev pub Call : Type 0 → Type 0 → Type 0
Call W A = State W → Result A × State W

module _ {W : Type 0} where
  abbrev pub pure : {A : Type 0} → A → Call W A
  pure a s = (ok a, s)

  abbrev pub raise : {A : Type 0} → Error → Call W A
  raise e s = (err e, s)

  abbrev pub lift : {A : Type 0} → Result A → Call W A
  lift r s = (r, s)

  abbrev pub gets : {A : Type 0} → (State W → A) → Call W A
  gets f s = (ok (f s), s)

  abbrev pub modify : (State W → State W) → Call W (Unit {0})
  modify f s = (ok tt, f s)

  -- The result of a lookup that the code turns into an error where nothing is found.
  abbrev pub found_or : {A : Type 0} → Error → Option A → Call W A
  found_or e none = raise e
  found_or e (some a) = pure a

  abbrev pub guard_not : Bool → Error → Call W (Unit {0})
  guard_not b e s = (fail_if b e, s)

  -- What comes after a call that may have ended early.
  abbrev pub resume : {A B : Type 0} → (A → Call W B) → Result A → Call W B
  resume f (ok a) = f a
  resume f (err e) = raise e
  resume f panic = lift panic

  infixl 5 ◌>>=◌ ◌>>◌
  abbrev pub ◌>>=◌ : {A B : Type 0} → Call W A → (A → Call W B) → Call W B
  ◌>>=◌ m f s = let (r, s') = m s in resume f r s'

  abbrev pub ◌>>◌ : {B : Type 0} → Call W (Unit {0}) → Call W B → Call W B
  m >> f = m >>= λ _. f

  -- A call of another module, on its own state.
  abbrev pub other_module : {A : Type 0} → (W → Result A × W) → Call W A
  other_module f s = let (r, w) = f s.world in (r, record s { world = w })

  -- A loop over a list that stops at the first error.
  unfoldable pub for_each : {A : Type 0} → List A → (A → Call W (Unit {0})) → Call W (Unit {0})
  for_each [] f = pure tt
  for_each (a ∷ as') f = f a >>= λ _. for_each as' f
