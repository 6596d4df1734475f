-- ===== src/Keeper/Call/Post.antt =====
-- What a call leaves where it ends with a value, and a rule for each form of a step.
use alliance.Prelude.{◌≡◌, refl, Bool, true, false, Option, none, some, if◌then◌else◌}
use mathlib.Core.Path.{subst}
use alliance.Sdk.Result.{Error, Result, ok, err, panic, fail_if}
use alliance.Keeper.State.{State}
use alliance.Keeper.Call.{Call, resume, found_or}

module _ {W A : Type 0} where
  abbrev pub OnOk : (A → State W → Type 0) → Result A × State W → Type 0
  OnOk Q (ok a, s) = Q a s
  OnOk Q (err e, s) = Unit
  OnOk Q (panic, s) = Unit

  -- A call that ended with a value has what is shown of such ends.
  pub OnOk-value :
      (Q : A → State W → Type 0) (p : Result A × State W) {a : A} → OnOk Q p → p.0 ≡ ok a → Q a p.1
  OnOk-value Q (ok b, s) q h = subst (λ x. Q x s) (cc) q
  OnOk-value Q (err e, s) q h = cc
  OnOk-value Q (panic, s) q h = cc

  pub OnOk-any : (p : Result A × State W) → OnOk (λ a s. Unit {0}) p
  OnOk-any (ok a, s) = tt
  OnOk-any (err e, s) = tt
  OnOk-any (panic, s) = tt

  pub OnOk-mono :
      (P Q : A → State W → Type 0) (p : Result A × State W)
      → OnOk P p
      → ((a : A) (s : State W) → P a s → Q a s)
      → OnOk Q p
  OnOk-mono P Q (ok b, s) q h = h b s q
  OnOk-mono P Q (err e, s) q h = tt
  OnOk-mono P Q (panic, s) q h = tt

  pub OnOk-if :
      (R : A → State W → Type 0) (b : Bool) (m n : Call W A) (s : State W)
      → (b ≡ true → OnOk R (m s))
      → (b ≡ false → OnOk R (n s))
      → OnOk R ((if b then m else n) s)
  OnOk-if R true m n s yes_ no_ = yes_ refl
  OnOk-if R false m n s yes_ no_ = no_ refl

module _ {W A B : Type 0} (R : B → State W → Type 0) (f : A → Call W B) where
  -- The rule for what follows a call.
  pub OnOk-resume :
      (Q : A → State W → Type 0) (p : Result A × State W)
      → OnOk Q p
      → ((a : A) (s : State W) → Q a s → OnOk R (f a s))
      → OnOk R (resume f p.0 p.1)
  OnOk-resume Q (ok a, s) q h = h a s q
  OnOk-resume Q (err e, s) q h = tt
  OnOk-resume Q (panic, s) q h = tt

  -- `lift r`, and a call of another module.
  pub OnOk-lift :
      (r : Result A) (s : State W) → ((a : A) → r ≡ ok a → OnOk R (f a s)) → OnOk R (resume f r s)
  OnOk-lift (ok a) s h = h a refl
  OnOk-lift (err e) s h = tt
  OnOk-lift panic s h = tt

  pub OnOk-other_module :
      (g : W → Result A × W) (s : State W)
      → ((a : A) (w : W) → OnOk R (f a (record s { world = w })))
      → OnOk R (resume f (g s.world).0 (record s { world = (g s.world).1 }))
  OnOk-other_module g s h = OnOk-lift (g s.world).0 _ (λ a e. h a (g s.world).1)

  pub OnOk-found :
      (e : Error) (o : Option A) (s : State W)
      → ((a : A) → o ≡ some a → OnOk R (f a s))
      → OnOk R (resume f (found_or e o s).0 (found_or e o s).1)
  OnOk-found e none s h = tt
  OnOk-found e (some a) s h = h a refl

pub OnOk-guard :
    {W B : Type 0} (R : B → State W → Type 0) (f : Unit {0} → Call W B) (b : Bool) (e : Error)
    (s : State W)
    → (b ≡ false → OnOk R (f tt s))
    → OnOk R (resume f (fail_if b e) s)
OnOk-guard R f true e s h = tt
OnOk-guard R f false e s h = h refl

module _ {W A : Type 0} where
  -- A call that ends with a value, of which something holds.
  abbrev pub Returns : (A → State W → Type 0) → Result A × State W → Type 0
  Returns Q (ok a, s) = Q a s
  Returns Q (err e, s) = ⊥
  Returns Q (panic, s) = ⊥

  pub Returns-value :
      (Q : A → State W → Type 0) (p : Result A × State W)
      → Returns Q p
      → (a : A) × (p.0 ≡ ok a) × Q a p.1
  Returns-value Q (ok a, s) q = (a, refl, q)
  Returns-value Q (err e, s) q = elim q [ ]
  Returns-value Q (panic, s) q = elim q [ ]

  pub Returns-mono :
      (P Q : A → State W → Type 0) (p : Result A × State W)
      → Returns P p
      → ((a : A) (s : State W) → P a s → Q a s)
      → Returns Q p
  Returns-mono P Q (ok a, s) q h = h a s q
  Returns-mono P Q (err e, s) q h = elim q [ ]
  Returns-mono P Q (panic, s) q h = elim q [ ]

pub Returns-resume :
    {W A B : Type 0} (R : B → State W → Type 0) (f : A → Call W B) (Q : A → State W → Type 0)
    (p : Result A × State W)
    → Returns Q p
    → ((a : A) (s : State W) → Q a s → Returns R (f a s))
    → Returns R (resume f p.0 p.1)
Returns-resume R f Q (ok a, s) q h = h a s q
Returns-resume R f Q (err e, s) q h = elim q [ ]
Returns-resume R f Q (panic, s) q h = elim q [ ]
