-- ===== src/Experiment/Progress/Diagnosed.antt =====
-- A diagnosis of the monitoring: the comparison that a stage takes is the one of its two services.
use mathlib.Core.Path.{subst}
use infernex_agent.Prelude.{
  ℕ, ◌≡◌, refl, sym, ap, Bool, true, false, not, String, arith, Outcome, ok, err, if◌then◌else◌,
}
use infernex_agent.Diagnostics.{Report, Comparison}
use infernex_agent.Experiment.{Stage, Api}
use infernex_agent.Experiment.Machine.{State, Act, call, ◌>>=◌, with_stage}
use infernex_agent.Experiment.Machine.Yields.{
  Yields, Yields-if, Yields-from, Yields-bind, Yields-gets, Yields-modify,
}
use infernex_agent.Experiment.Progress.{Terms, IsComparisonOf, AnyStage, Open}
use infernex_agent.Experiment.Progress.Reads.{IsReadable}
use infernex_agent.Experiment.Progress.Chain.{Open-IsSound}
use infernex_agent.Experiment.Progress.Saved.{
  Running, Running-IsReadable, Running-known, with_stage-Running, save_plan-Running,
}
use infernex_agent.Experiment.Monitor.{judged, retry_diagnosis, compared, diagnose}
use infernex_agent.Experiment.Progress.Soaked.{Rounds, Rounds-failed, Rounds-bind, Rounds-some}

module _ {World A : Type 0} {P R : State World → Type 0} {Q : A → State World → Type 0} where
  -- A fact that does not depend on the state.
  given : {F : Type 0} (m : Act World A) → (F → Yields P Q R m) → Yields (λ s. P s × F) Q R m
  given m k = record { at = λ s h. (k h.1).at s h.0 }

module _ {World : Type 0} {P R : State World → Type 0} {Q : Unit {0} → State World → Type 0} where
  with_message-Yields :
      (ready : Bool) (f g : Stage → Stage)
      → Yields P Q R (with_stage f)
      → Yields P Q R (with_stage g)
      → Yields P Q R (with_stage (λ t. if ready then f t else g t))
  with_message-Yields true f g k l = record { at = k.at }
  with_message-Yields false f g k l = record { at = l.at }

module _ (a : Api) where
  open a use {World}

  abbrev ask : String → String → World → Outcome String Report × World
  ask namespace name w = a.diagnose namespace name a.settings.diagnostics_minutes w

  -- The diagnoser has just answered x.
  abbrev HasAnswered : String → String → Outcome String Report → State World → Type 0
  HasAnswered namespace name x s =
      (w : World) × ((ask namespace name w).0 ≡ x) × (s.world ≡ (ask namespace name w).1)

  -- The diagnoser has answered x for the baseline, and right after it y for the candidate.
  abbrev AnsweredBoth :
      String → String → String → Outcome String Report → Outcome String Report → Type 0
  AnsweredBoth namespace baseline candidate x y =
      (w : World) × ((ask namespace baseline w).0 ≡ x)
      × ((ask namespace candidate (ask namespace baseline w).1).0 ≡ y)

  module _ {P R : State World → Type 0} (reads : IsReadable P)
      (namespace baseline candidate : String) where
    ask-first :
        Yields P
          (λ x s. P s × (HasAnswered namespace baseline x s))
          R
          (call (ask namespace baseline))
    unfolding call
    ask-first = record { at = λ s h. (reads.on_world s _ h, (s.world, refl, refl)) }

    ask-second :
        (x : Outcome String Report)
        → Yields
            (λ s. P s × (HasAnswered namespace baseline x s))
            (λ y s. P s × (AnsweredBoth namespace baseline candidate x y))
            R
            (call (ask namespace candidate))
    unfolding call
    ask-second x = record {
      at = λ s h. (
        reads.on_world s _ h.0,
        (h.1.0, h.1.1, ap (λ w. (ask namespace candidate w).0) (sym h.1.2)),
      );
    }

  renamed :
      {n n' b b' c c' : String} {k : Comparison}
      → n' ≡ n
      → b' ≡ b
      → c' ≡ c
      → IsComparisonOf a n b c k
      → IsComparisonOf a n' b' c' k
  renamed {n = n} {b = b} {b' = b'} {c = c} {c' = c'} {k = k} e f g h =
      subst (λ x. IsComparisonOf a x b' c' k) (sym e)
        (subst (λ x. IsComparisonOf a n x c' k) (sym f)
          (subst (λ x. IsComparisonOf a n b x k) (sym g) h))

module _ (a : Api) (id namespace baseline candidate : String) where
  open a use {World}

  -- The held stage may go on, and has these names.
  abbrev Named : Terms → Stage → Type 0
  Named terms t =
      Open a terms t
      × (terms.namespace ≡ namespace)
      × (t.baseline_name ≡ baseline)
      × (t.candidate_name ≡ candidate)

  judged-Rounds :
      (now : ℕ) (ready : Bool) (c : Comparison)
      → IsComparisonOf a namespace baseline candidate c
      → Rounds a id Named (judged a now ready c)
  unfolding judged
  judged-Rounds now ready c k =
      Yields-if (not c.healthy) _ _
        (λ _.
          Yields-bind {Q = λ _. Running a id AnyStage} _ _
            (Yields-modify _
              (with_stage-Running a id Named _ (λ t. (refl, refl, refl)) (λ g t h. tt)))
            (λ _. Rounds-failed a id AnyStage _))
        λ healthy.
          Yields-bind {Q = λ _. Running a id (Open a)} _ _
            (with_message-Yields ready _ _
              (Yields-modify _ (
                with_stage-Running a id Named _ (λ t. (refl, refl, refl))
                  (λ g t h. (h.0.0, (ground arith, renamed a h.1 h.2 h.3 k)))))
              (Yields-modify _
                (with_stage-Running a id Named _ (λ t. (refl, refl, refl)) (λ g t h. h.0))))
            λ _.
              Rounds-bind a id _ _ (save_plan-Running a id (Open a) (Open-IsSound a))
                (λ _. Rounds-some a id _)

  retry_diagnosis-Rounds :
      (now : ℕ) (x y : Outcome String Report) → Rounds a id Named (retry_diagnosis a now x y)
  unfolding retry_diagnosis
  retry_diagnosis-Rounds now x y =
      Yields-bind {Q = λ _. Running a id (Open a)} _ _
        (Yields-modify _
          (with_stage-Running a id Named _ (λ t. (refl, refl, refl)) (λ g t h. (h.0.0, tt))))
        λ _.
          Rounds-bind a id _ _ (save_plan-Running a id (Open a) (Open-IsSound a))
            (λ _. Rounds-some a id _)

  compared-Rounds :
      (now : ℕ) (ready : Bool) (x y : Outcome String Report)
      → AnsweredBoth a namespace baseline candidate x y
      → Rounds a id Named (compared a now ready x y)
  unfolding compared
  compared-Rounds now ready (ok x) (ok y) (w, first, second) = judged-Rounds now ready _ (record {
    world = w;
    baseline_report = x;
    candidate_report = y;
    of_baseline = first;
    of_candidate = second;
    compares = refl;
  })
  compared-Rounds now ready (ok x) (err y) h = retry_diagnosis-Rounds now _ _
  compared-Rounds now ready (err x) y h = retry_diagnosis-Rounds now _ _

  asked-Rounds :
      (now : ℕ) (ready : Bool)
      → Rounds a id Named (do
        x ← call (a.diagnose namespace baseline a.settings.diagnostics_minutes)
        y ← call (a.diagnose namespace candidate a.settings.diagnostics_minutes)
        compared a now ready x y)
  asked-Rounds now ready =
      Yields-bind _ _ (ask-first a (Running-IsReadable a id Named) namespace baseline candidate)
        λ x.
          Yields-bind _ _
            (ask-second a (Running-IsReadable a id Named) namespace baseline candidate x)
            λ y. given _ (compared-Rounds now ready x y)

module _ (a : Api) (id : String) where
  -- A round that diagnoses a stage leaves it open, with the comparison of its services where the
  -- comparison was healthy, or ends it.
  pub diagnose-Rounds : (now : ℕ) (ready : Bool) → Rounds a id (Open a) (diagnose a now ready)
  unfolding diagnose
  diagnose-Rounds now ready = Yields-gets _ _ λ s h.
      Yields-from _
        (λ t k.
          Running-known a id (Open a) t
            (
              k.0.held,
              ap (λ (u : State a.World). u.plan.namespace) k.1,
              ap (λ (u : State a.World). u.stage.baseline_name) k.1,
              ap (λ (u : State a.World). u.stage.candidate_name) k.1,
            )
            k.0)
        (asked-Rounds a id s.plan.namespace s.stage.baseline_name s.stage.candidate_name now ready)
