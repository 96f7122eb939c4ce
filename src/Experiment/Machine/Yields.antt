-- ===== src/Experiment/Machine/Yields.antt =====
-- What holds of the state after an action, which depends on whether it returns or fails.
use infernex_agent.Prelude.{◌≡◌, refl, Bool, true, false, if◌then◌else◌, Outcome, ok, err}
use infernex_agent.Experiment.{ExperimentError}
use infernex_agent.Experiment.Machine.{State, Act, pure, fail, gets, continue, ◌>>=◌, modify}
use infernex_agent.Experiment.Machine.Keeps.{Moves, Keeps}

module _ {World A : Type 0} where
  -- Q of a result and R of a failure.
  abbrev pub Verdict :
      (A → State World → Type 0)
      → (State World → Type 0)
      → Outcome ExperimentError A
      → State World
      → Type 0
  Verdict Q R (ok x) s = Q x s
  Verdict Q R (err e) s = R s

pub record Yields {World A : Type 0} (P : State World → Type 0) (Q : A → State World → Type 0)
    (R : State World → Type 0) (m : Act World A) : Type 0 where
  pub at : (s : State World) → P s → Verdict Q R (m s).0 (m s).1

module _ {World A : Type 0} (Q Q' : A → State World → Type 0) (R : State World → Type 0) where
  to_Verdict :
      (r : Outcome ExperimentError A) (s : State World)
      → ((x : A) → Q' x s → Q x s)
      → Verdict Q' R r s
      → Verdict Q R r s
  to_Verdict (ok x) s weaken h = weaken x h
  to_Verdict (err e) s weaken h = h

module _ {World A : Type 0} (Q : A → State World → Type 0) (R : State World → Type 0) where
  as_Verdict :
      (P : State World → Type 0) (r : Outcome ExperimentError A) (s : State World)
      → ((x : A) → P s → Q x s)
      → (P s → R s)
      → P s
      → Verdict Q R r s
  as_Verdict P (ok x) s weaken fails h = weaken x h
  as_Verdict P (err e) s weaken fails h = fails h

  of_Verdict :
      (r : Outcome ExperimentError A) (s : State World)
      → ((x : A) → Q x s → R s)
      → Verdict Q R r s
      → R s
  of_Verdict (ok x) s weaken h = weaken x h
  of_Verdict (err e) s weaken h = h

module _ {World A B : Type 0} {R : State World → Type 0} {Q : A → State World → Type 0}
    {S : B → State World → Type 0} where
  continue-Verdict :
      (r : Outcome ExperimentError A) (f : A → Act World B) (s : State World)
      → ((x : A) → Yields (Q x) S R (f x))
      → Verdict Q R r s
      → Verdict S R (continue r f s).0 (continue r f s).1
  continue-Verdict (ok x) f s k h = (k x).at s h
  continue-Verdict (err e) f s k h = h

module _ {World A : Type 0} {P : State World → Type 0} {Q : A → State World → Type 0}
    {R : State World → Type 0} where
  pub Yields-pure : (x : A) → ((s : State World) → P s → Q x s) → Yields P Q R (pure x)
  unfolding pure
  Yields-pure x k = record { at = k }

  pub Yields-to :
      {Q' : A → State World → Type 0} (m : Act World A)
      → ((x : A) (s : State World) → Q' x s → Q x s)
      → Yields P Q' R m
      → Yields P Q R m
  Yields-to {Q' = Q'} m weaken k = record {
    at = λ s h. to_Verdict Q Q' R (m s).0 (m s).1 (λ x. weaken x (m s).1) (k.at s h);
  }

  pub Yields-fail :
      (e : ExperimentError) → ((s : State World) → P s → R s) → Yields P Q R (fail {A = A} e)
  unfolding fail
  Yields-fail e k = record { at = k }

  pub Yields-if :
      (b : Bool) (m n : Act World A)
      → (b ≡ true → Yields P Q R m)
      → (b ≡ false → Yields P Q R n)
      → Yields P Q R (if b then m else n)
  Yields-if true m n km kn = km refl
  Yields-if false m n km kn = kn refl

  pub Yields-from :
      {P' : State World → Type 0} (m : Act World A)
      → ((s : State World) → P' s → P s)
      → Yields P Q R m
      → Yields P' Q R m
  Yields-from m weaken k = record { at = λ s h. k.at s (weaken s h) }

  pub Moves-Yields :
      (m : Act World A) → ((x : A) (s : State World) → R s → Q x s) → Moves P R m → Yields P Q R m
  Moves-Yields m weaken k = record {
    at = λ s h. as_Verdict Q R R (m s).0 (m s).1 (λ x. weaken x (m s).1) (λ r. r) (k.at s h);
  }

  pub Yields-Moves :
      (m : Act World A) → ((x : A) (s : State World) → Q x s → R s) → Yields P Q R m → Moves P R m
  Yields-Moves m weaken k = record {
    at = λ s h. of_Verdict Q R (m s).0 (m s).1 (λ x. weaken x (m s).1) (k.at s h);
  }

module _ {World A B : Type 0} {P R : State World → Type 0} {Q : A → State World → Type 0}
    {S : B → State World → Type 0} where
  pub Yields-bind :
      (m : Act World A) (f : A → Act World B)
      → Yields P Q R m
      → ((x : A) → Yields (Q x) S R (f x))
      → Yields P S R (m >>= f)
  unfolding ◌>>=◌
  Yields-bind m f km kf = record { at = λ s h. continue-Verdict (m s).0 f (m s).1 kf (km.at s h) }

module _ {World A B : Type 0} {P R : State World → Type 0} {S : B → State World → Type 0} where
  -- The first action keeps P, and where it fails R follows from P.
  pub Keeps-Yields :
      (m : Act World A) (f : A → Act World B)
      → ((s : State World) → P s → R s)
      → Keeps P m
      → ((x : A) → Yields P S R (f x))
      → Yields P S R (m >>= f)
  Keeps-Yields m f weaken km kf =
      Yields-bind {Q = λ _. P} m f
        (record {
          at = λ s h.
              as_Verdict (λ _. P) R P (m s).0 (m s).1 (λ x k. k) (weaken (m s).1) (km.at s h);
        })
        kf

  -- What is read of the state is known.
  pub Yields-gets :
      (g : State World → A) (f : A → Act World B)
      → ((s : State World) → P s → Yields (λ t. P t × (g t ≡ g s)) S R (f (g s)))
      → Yields P S R (gets g >>= f)
  unfolding gets ◌>>=◌
  Yields-gets g f k = record { at = λ s h. (k s h).at s (h, refl) }

module _ {World : Type 0} {P R : State World → Type 0} {Q : Unit {0} → State World → Type 0} where
  pub Yields-modify :
      (f : State World → State World)
      → ((s : State World) → P s → Q tt (f s))
      → Yields P Q R (modify f)
  unfolding modify
  Yields-modify f k = record { at = k }
