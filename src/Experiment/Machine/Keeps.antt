-- ===== src/Experiment/Machine/Keeps.antt =====
-- What holds of the state after an action, whether it returns or fails.
use infernex_agent.Prelude.{Bool, true, false, if◌then◌else◌, Outcome, ok, err}
use infernex_agent.Experiment.{ExperimentError}
use infernex_agent.Experiment.Machine.{
  State, Act, pure, fail, gets, attempt, or_else, continue, ◌>>=◌, modify,
}

pub record Moves {World A : Type 0} (P Q : State World → Type 0) (m : Act World A) : Type 0 where
  pub at : (s : State World) → P s → Q (m s).1

abbrev pub Keeps : {World A : Type 0} → (State World → Type 0) → Act World A → Type 0
Keeps P m = Moves P P m

module _ {World A : Type 0} {P : State World → Type 0} where
  pub Keeps-pure : (x : A) → Keeps P (pure x)
  unfolding pure
  Keeps-pure x = record { at = λ s h. h }

  pub Keeps-fail : (e : ExperimentError) → Keeps P (fail {A = A} e)
  unfolding fail
  Keeps-fail e = record { at = λ s h. h }

  pub Keeps-gets : (f : State World → A) → Keeps P (gets f)
  unfolding gets
  Keeps-gets f = record { at = λ s h. h }

  pub Keeps-attempt : (m : Act World A) → Keeps P m → Keeps P (attempt m)
  unfolding attempt
  Keeps-attempt m k = record { at = λ s h. k.at s h }

  pub Keeps-or_else :
      {E : Type 0} (e : ExperimentError) (r : Outcome E A) → Keeps P (or_else {World = World} e r)
  unfolding pure fail
  Keeps-or_else e (ok x) = record { at = λ s h. h }
  Keeps-or_else e (err _) = record { at = λ s h. h }

module _ {World A : Type 0} {P Q : State World → Type 0} where
  pub Moves-if :
      (b : Bool) (m n : Act World A) → Moves P Q m → Moves P Q n → Moves P Q (if b then m else n)
  Moves-if true m n km kn = km
  Moves-if false m n km kn = kn

module _ {World A B : Type 0} {Q : State World → Type 0} where
  continue-Keeps :
      (r : Outcome ExperimentError A) (f : A → Act World B)
      → ((x : A) → Keeps Q (f x))
      → Keeps Q (continue r f)
  continue-Keeps (ok x) f k = record { at = (k x).at }
  continue-Keeps (err e) f k = record { at = λ s h. h }

module _ {World A B : Type 0} {P Q : State World → Type 0} where
  continue-Moves :
      (r : Outcome ExperimentError A) (f : A → Act World B)
      → ((s : State World) → P s → Q s)
      → ((x : A) → Moves P Q (f x))
      → Moves P Q (continue r f)
  continue-Moves (ok x) f weaken k = record { at = (k x).at }
  continue-Moves (err e) f weaken k = record { at = weaken }

  -- The first action keeps P, and where it fails Q follows from P.
  pub Moves-bind :
      (m : Act World A) (f : A → Act World B)
      → ((s : State World) → P s → Q s)
      → Keeps P m
      → ((x : A) → Moves P Q (f x))
      → Moves P Q (m >>= f)
  unfolding ◌>>=◌
  Moves-bind m f weaken km kf = record {
    at = λ s h. let (r, s') = m s in (continue-Moves r f weaken kf).at s' (km.at s h);
  }

  -- What is read of the state is known to satisfy P.
  pub Moves-gets :
      (g : State World → A) (f : A → Act World B)
      → ((s : State World) → P s → Moves P Q (f (g s)))
      → Moves P Q (gets g >>= f)
  unfolding gets ◌>>=◌
  Moves-gets g f k = record { at = λ s h. (k s h).at s h }

  -- Nothing is left to show of the first action but Q.
  pub Moves-before :
      (m : Act World A) (f : A → Act World B)
      → Moves P Q m
      → ((x : A) → Keeps Q (f x))
      → Moves P Q (m >>= f)
  unfolding ◌>>=◌
  Moves-before m f km kf = record {
    at = λ s h. let (r, s') = m s in (continue-Keeps r f kf).at s' (km.at s h);
  }

module _ {World A B : Type 0} {P Q R : State World → Type 0} where
  pub Moves-then :
      (m : Act World A) (f : A → Act World B)
      → ((s : State World) → Q s → R s)
      → Moves P Q m
      → ((x : A) → Moves Q R (f x))
      → Moves P R (m >>= f)
  unfolding ◌>>=◌
  Moves-then m f weaken km kf = record {
    at = λ s h. let (r, s') = m s in (continue-Moves r f weaken kf).at s' (km.at s h);
  }

module _ {World A B : Type 0} {P : State World → Type 0} where
  pub Keeps-bind :
      (m : Act World A) (f : A → Act World B)
      → Keeps P m
      → ((x : A) → Keeps P (f x))
      → Keeps P (m >>= f)
  Keeps-bind m f km kf = Moves-bind m f (λ s h. h) km kf

module _ {World : Type 0} {P Q : State World → Type 0} where
  pub Moves-modify :
      (f : State World → State World) → ((s : State World) → P s → Q (f s)) → Moves P Q (modify f)
  unfolding modify
  Moves-modify f k = record { at = k }

pub ruleset keeps_rules =
    (Keeps-pure, Keeps-fail, Keeps-gets, Keeps-attempt, Keeps-or_else, Moves-if, Keeps-bind)
