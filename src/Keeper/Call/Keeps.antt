-- ===== src/Keeper/Call/Keeps.antt =====
-- What a call keeps, also where it ends in an error or in a panic, and a rule for each form of a
-- step.
use alliance.Prelude.{
  ◌≡◌, refl, Bool, true, false, Option, none, some, List, [], ◌∷◌, if◌then◌else◌,
}
use alliance.Sdk.Result.{Error, Result, ok, err, panic}
use alliance.Keeper.Call.Post.{OnOk}
use alliance.Keeper.State.{State}
use alliance.Keeper.Call.{
  Call, pure, raise, lift, gets, modify, found_or, guard_not, resume, for_each, ◌>>=◌,
}

pub record Keeps {W A : Type 0} (P : State W → Type 0) (m : Call W A) : Type 0 where
  pub at : (s : State W) → P s → P (m s).1

module _ {W A : Type 0} {P : State W → Type 0} where
  pub Keeps-pure : (a : A) → Keeps P (pure a)
  Keeps-pure a = record { at = λ s h. h }

  pub Keeps-raise : (e : Error) → Keeps P (raise {A = A} e)
  Keeps-raise e = record { at = λ s h. h }

  pub Keeps-lift : (r : Result A) → Keeps P (lift r)
  Keeps-lift r = record { at = λ s h. h }

  pub Keeps-gets : (f : State W → A) → Keeps P (gets f)
  Keeps-gets f = record { at = λ s h. h }

  pub Keeps-found_or : (e : Error) (o : Option A) → Keeps P (found_or e o)
  Keeps-found_or e none = record { at = λ s h. h }
  Keeps-found_or e (some a) = record { at = λ s h. h }

  pub Keeps-if : (b : Bool) (m n : Call W A) → Keeps P m → Keeps P n → Keeps P (if b then m else n)
  Keeps-if true m n km kn = km
  Keeps-if false m n km kn = kn

module _ {W A B : Type 0} {P : State W → Type 0} where
  pub Keeps-bind :
      (m : Call W A) (f : A → Call W B) → Keeps P m → ((a : A) → Keeps P (f a)) → Keeps P (m >>= f)
  Keeps-bind m f km kf = record { at = λ s h. resumed (m s).0 (m s).1 (km.at s h) }
    where
      resumed : (r : Result A) (s' : State W) → P s' → P (resume f r s').1
      resumed (ok a) s' h = (kf a).at s' h
      resumed (err e) s' h = h
      resumed panic s' h = h

module _ {W : Type 0} {P : State W → Type 0} where
  pub Keeps-guard_not : (b : Bool) (e : Error) → Keeps P (guard_not b e)
  Keeps-guard_not b e = record { at = λ s h. h }

  pub Keeps-modify : (f : State W → State W) → ((s : State W) → P s → P (f s)) → Keeps P (modify f)
  Keeps-modify f h = record { at = h }

  pub Keeps-for_each :
      {A : Type 0} (entries : List A) (f : A → Call W (Unit {0}))
      → ((a : A) → Keeps P (f a))
      → Keeps P (for_each entries f)
  unfolding for_each
  Keeps-for_each [] f kf = Keeps-pure tt
  Keeps-for_each (a ∷ entries) f kf =
      Keeps-bind (f a) (λ _. for_each entries f) (kf a) (λ _. Keeps-for_each entries f kf)

module _ {W A B : Type 0} {P : State W → Type 0} where
  -- What follows a reading may use what the invariant says of it.
  pub Keeps-gets_bind :
      (Q : A → Type 0) (g : State W → A) (f : A → Call W B)
      → ((s : State W) → P s → Q (g s))
      → ((a : A) → Q a → Keeps P (f a))
      → Keeps P (gets g >>= f)
  Keeps-gets_bind Q g f known kf = record { at = λ s h. (kf (g s) (known s h)).at s h }

  pub Keeps-found_bind :
      (e : Error) (o : Option A) (f : A → Call W B)
      → ((a : A) → o ≡ some a → Keeps P (f a))
      → Keeps P (found_or e o >>= f)
  Keeps-found_bind e none f kf = record { at = λ s h. h }
  Keeps-found_bind e (some a) f kf = kf a refl

  pub Keeps-lift_bind :
      (r : Result A) (f : A → Call W B)
      → ((a : A) → r ≡ ok a → Keeps P (f a))
      → Keeps P (lift r >>= f)
  Keeps-lift_bind (ok a) f kf = kf a refl
  Keeps-lift_bind (err e) f kf = record { at = λ s h. h }
  Keeps-lift_bind panic f kf = record { at = λ s h. h }

  -- What follows a call may use what is shown of its value.
  pub Keeps-post_bind :
      (Q : A → Type 0) (m : Call W A) (f : A → Call W B)
      → Keeps P m
      → ((s : State W) → P s → OnOk (λ a _. Q a) (m s))
      → ((a : A) → Q a → Keeps P (f a))
      → Keeps P (m >>= f)
  Keeps-post_bind Q m f km q kf = record { at = λ s h. resumed (m s).0 (m s).1 (km.at s h) (q s h) }
    where
      resumed :
          (r : Result A) (s' : State W) → P s' → OnOk (λ a _. Q a) (r, s') → P (resume f r s').1
      resumed (ok a) s' h q' = (kf a q').at s' h
      resumed (err e) s' h q' = h
      resumed panic s' h q' = h

-- What is shown of every value that a call ends with.
pub record Yields {W A : Type 0} (Q : A → Type 0) (m : Call W A) : Type 0 where
  pub at : (s : State W) → OnOk (λ a _. Q a) (m s)

pub Yields-pure : {W A : Type 0} {Q : A → Type 0} (a : A) → Q a → Yields {W = W} Q (pure a)
Yields-pure a q = record { at = λ s. q }

module _ {W A B : Type 0} {Q : B → Type 0} where
  pub Yields-bind :
      (m : Call W A) (f : A → Call W B) → ((a : A) → Yields Q (f a)) → Yields Q (m >>= f)
  Yields-bind m f yf = record { at = λ s. resumed (m s).0 (m s).1 }
    where
      resumed : (r : Result A) (s : State W) → OnOk (λ a _. Q a) (resume f r s)
      resumed (ok a) s = (yf a).at s
      resumed (err e) s = tt
      resumed panic s = tt

  pub Yields-lift_bind :
      (r : Result A) (f : A → Call W B)
      → ((a : A) → r ≡ ok a → Yields Q (f a))
      → Yields Q (lift r >>= f)
  Yields-lift_bind (ok a) f yf = yf a refl
  Yields-lift_bind (err e) f yf = record { at = λ s. tt }
  Yields-lift_bind panic f yf = record { at = λ s. tt }

  pub Yields-post_bind :
      (R : A → Type 0) (m : Call W A) (f : A → Call W B)
      → Yields R m
      → ((a : A) → R a → Yields Q (f a))
      → Yields Q (m >>= f)
  Yields-post_bind R m f ym yf = record { at = λ s. resumed (m s).0 (m s).1 (ym.at s) }
    where
      resumed :
          (r : Result A) (s : State W) → OnOk (λ a _. R a) (r, s) → OnOk (λ a _. Q a) (resume f r s)
      resumed (ok a) s q = (yf a q).at s
      resumed (err e) s q = tt
      resumed panic s q = tt

pub ruleset keeps_rules = (
  Keeps-pure, Keeps-raise, Keeps-lift, Keeps-gets, Keeps-found_or, Keeps-guard_not, Keeps-if,
  Keeps-bind, Keeps-for_each,
)
