-- ===== src/Experiment/Progress/Attempts.antt =====
-- runStage: a stage that is gone past, stopped or attempted.
use mathlib.Core.Path.{subst}
use infernex_agent.Prelude.{
  ℕ, suc, ◌+◌, ◌≡◌, refl, sym, ap, ◌∙◌, true, false, String, arith, str_eq, eq_iff, Outcome, ok,
  err,
}
use infernex_agent.Experiment.{Stage, ExperimentError, Api}
use infernex_agent.Experiment.Machine.{State, Act, attempt, ◌>>=◌, ◌>>◌, with_plan, set, save_plan}
use infernex_agent.Experiment.Machine.Keeps.{
  Moves, Keeps, Keeps-attempt, Moves-bind, Moves-modify, Moves-then,
}
use infernex_agent.Experiment.Machine.Yields.{
  Yields, Yields-from, Yields-if, Yields-gets, Moves-Yields, Yields-Moves,
}
use infernex_agent.Experiment.Candidate.{ensure_candidate}
use infernex_agent.Experiment.Plans.{after_ensure, run_stage}
use infernex_agent.Experiment.Progress.{Terms, PassedFirst, stable_after, IsSound, Open}
use infernex_agent.Experiment.Progress.Chain.{passed-PassedFirst, passed-stable_after, texts_differ}
use infernex_agent.Experiment.Progress.Saved.{
  Running, LogSafe, Savable, Running-LogSafe, Running-known, with_plan-Running, save_plan-Running,
  save_plan-LogSafe,
}
use infernex_agent.Experiment.Progress.Placed.{ensure_candidate-Running}
use infernex_agent.Experiment.Progress.Ended.{fail_stage-Moves}
use infernex_agent.Experiment.Progress.Rounds.{monitor_stage-Moves}

module _ (a : Api) (id : String) where
  open a use {World}

  after_ensure-Moves :
      (fuel : ℕ) (r : Outcome ExperimentError (Unit {0}))
      → Moves (Running a id (Open a)) (LogSafe a id) (after_ensure a fuel r)
  unfolding after_ensure
  after_ensure-Moves fuel (ok _) = monitor_stage-Moves a id fuel
  after_ensure-Moves fuel (err e) = fail_stage-Moves a id (Open a) _

  -- A held stage that has passed already is gone past.
  abbrev Passing : State World → Type 0
  Passing s = Running a id (IsSound a) s × (s.stage.status ≡ "passed")

  skip-Savable :
      (s : State World)
      → Passing s
      → Savable a id (record s {
        plan = record s.plan {
          stable_service = s.stage.candidate_name;
          current_stage = s.index + 1;
        };
      })
  skip-Savable s (h, status) =
      let next : s.index + 1 ≡ suc s.index = omega arith in
      (
        record {
          progressive = record {
            linked = h.progressive.linked;
            passed =
                subst (λ n. PassedFirst n (set s.plan.stages s.index s.stage)) (sym next)
                  (passed-PassedFirst s.plan.stages s.index s.stage s.stage h.in_range status (
                    subst (λ n. PassedFirst n (set s.plan.stages s.index s.stage)) h.current
                      h.progressive.passed));
            stable = sym (
                ap (λ n. stable_after n s.plan.baseline_name (set s.plan.stages s.index s.stage))
                  next
                ∙ passed-stable_after s.plan.baseline_name s.plan.stages s.index s.stage
                    h.in_range);
            all_passed = λ e. absurd (h.unfinished e);
          };
          sound = h.others _ h.held;
        },
        h.safe,
      )

  -- What the stage is read as.
  abbrev Seen : Stage → State World → Type 0
  Seen t s = Running a id (IsSound a) s × (s.stage ≡ t)

  Seen-Passing :
      (t : Stage) → str_eq t.status "passed" ≡ true → (s : State World) → Seen t s → Passing s
  Seen-Passing t passed s (h, same) =
      (h, ap (λ (u : Stage). u.status) same ∙ (eq_iff t.status "passed").0 passed)

  Seen-Open :
      (t : Stage)
      → str_eq t.status "passed" ≡ false
      → str_eq t.status "rolled-back" ≡ false
      → (s : State World) → Seen t s
      → Running a id (Open a) s
  Seen-Open t passed stopped s (h, same) =
      let status = ap (λ (u : Stage). u.status) same in
      Running-known a id (IsSound a) s
        (
          λ e. texts_differ t.status "passed" passed (sym status ∙ e),
          h.held.healthy (λ e. texts_differ t.status "rolled-back" stopped (sym status ∙ e)),
        )
        h

  -- What keeps the invariant leaves a safe log.
  ends :
      {A : Type 0} {E : Terms → Stage → Type 0} (m : Act World A)
      → Keeps (Running a id E) m
      → Moves (Running a id E) (LogSafe a id) m
  ends m k = record { at = λ s h. (k.at s h).safe }

  rolled_back-Moves :
      (message : String)
      → Moves
          (Running a id (IsSound a))
          (LogSafe a id)
          (with_plan (λ p. record p { status = "failed"; message = message }) >> save_plan a)
  rolled_back-Moves message =
      Moves-bind _ _ (Running-LogSafe a id (IsSound a))
        (with_plan-Running a id (IsSound a) (λ _. "failed") (λ _. message) (λ p. p.updated_at)
          (λ p h. texts_differ "failed" "completed" refl))
        λ _. ends _ (save_plan-Running a id (IsSound a) (λ g t h. h))

  attempt_stage-Moves :
      (fuel : ℕ)
      → Moves
          (Running a id (Open a))
          (LogSafe a id)
          (attempt (ensure_candidate a) >>= after_ensure a fuel)
  attempt_stage-Moves fuel =
      Moves-bind _ _ (Running-LogSafe a id (Open a))
        (Keeps-attempt _ (ensure_candidate-Running a id)) (after_ensure-Moves fuel)

  -- Every action that leaves the log safe, where it starts as the stage was read.
  from :
      {P P' : State World → Type 0} (m : Act World (Unit {0}))
      → ((s : State World) → P' s → P s)
      → Moves P (LogSafe a id) m
      → Yields P' (λ _. LogSafe a id) (LogSafe a id) m
  from m weaken k = Yields-from m weaken (Moves-Yields m (λ _ s h. h) k)

  pub run_stage-Moves :
      (fuel : ℕ) → Moves (Running a id (IsSound a)) (LogSafe a id) (run_stage a fuel)
  unfolding run_stage
  run_stage-Moves fuel =
      Yields-Moves {Q = λ _. LogSafe a id} _ (λ _ s h. h)
        (Yields-gets _ _ λ s h.
          Yields-if (str_eq s.stage.status "passed") _ _
            (λ passed. from _ (Seen-Passing s.stage passed) (
              Moves-then _ _ (λ t k. k.1) (Moves-modify _ skip-Savable)
                (λ _. save_plan-LogSafe a id)))
            λ passed.
              Yields-if (str_eq s.stage.status "rolled-back") _ _
                (λ _. from _ (λ t k. k.0) (rolled_back-Moves _))
                (λ stopped. from _ (Seen-Open s.stage passed stopped) (attempt_stage-Moves fuel)))
