-- ===== src/Prelude/Results.antt =====
-- A Go function that returns a value and an `error` returns an `Outcome`.
use mathlib.Core.Path.{◌≡◌, refl}
use mathlib.Core.Bool.{Bool, true, false}
use mathlib.Core.Logic.{◌⊎◌, inl, inr}

pub data Outcome {ℓ} (E : Type 0) (A : Type ℓ) : Type ℓ where
  err : E → Outcome E A
  ok : A → Outcome E A

module _ {E : Type 0} where
  -- `if bad { return e }`
  abbrev pub reject : Bool → E → Outcome E (Unit {0})
  reject false e = ok tt
  reject true e = err e

  pub reject-eq-ok : (b : Bool) (e : E) {u : Unit {0}} → reject b e ≡ ok u → b ≡ false
  reject-eq-ok false e h = refl
  reject-eq-ok true e h = cc

  pub Outcome-cases {ℓ} :
      {A : Type ℓ} (r : Outcome E A) → ((e : E) × (r ≡ err e)) ⊎ ((a : A) × (r ≡ ok a))
  Outcome-cases (ok a) = inr (a, refl)
  Outcome-cases (err e) = inl (e, refl)

module _ {ℓ κ} {E : Type 0} {A : Type ℓ} {B : Type κ} where
  infixl 5 ◌>>=◌
  abbrev pub ◌>>=◌ : Outcome E A → (A → Outcome E B) → Outcome E B
  err e >>= f = err e
  ok a >>= f = f a

  -- A chain succeeds only where its first step does.
  pub >>=-eq-ok :
      (m : Outcome E A) (f : A → Outcome E B) {b : B}
      → (m >>= f) ≡ ok b
      → (a : A) × (m ≡ ok a) × (f a ≡ ok b)
  >>=-eq-ok (err e) f h = cc
  >>=-eq-ok (ok a) f h = (a, refl, h)

infixl 5 ◌>>◌
abbrev pub ◌>>◌ {ℓ} : {E : Type 0} {B : Type ℓ} → Outcome E (Unit {0}) → Outcome E B → Outcome E B
m >> k = m >>= λ _. k
