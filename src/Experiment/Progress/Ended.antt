-- ===== src/Experiment/Progress/Ended.antt =====
-- A stage that ends, failed or passed.
use mathlib.Core.Path.{subst}
use infernex_agent.Prelude.{ℕ, suc, ◌+◌, ◌≡◌, refl, sym, ap, ◌∙◌, String, arith, Outcome, ok, err}
use infernex_agent.Changes.Record.{ChangeRecord}
use infernex_agent.Experiment.{Stage, ExperimentError, Api}
use infernex_agent.Experiment.Machine.{State, set}
use infernex_agent.Experiment.Machine.Keeps.{
  Moves, Keeps, Keeps-pure, Keeps-gets, Keeps-attempt, Moves-bind, Moves-modify, Moves-then,
  keeps_rules,
}
use infernex_agent.Experiment.Machine.Yields.{
  Yields, Yields-pure, Yields-fail, Yields-bind, Yields-from, Yields-Moves, Yields-gets,
  Yields-modify, Keeps-Yields,
}
use infernex_agent.Experiment.Stages.{
  close_change, stop_message, rethrow, record_failure, fail_stage, finish_stage, after_commit,
  commit_stage, pass_stage,
}
use infernex_agent.Experiment.Progress.{
  Terms, PassedFirst, stable_after, IsEarned, AnyStage, Open, Stopped,
}
use infernex_agent.Experiment.Progress.Reads.{call-Keeps, read_time-Keeps}
use infernex_agent.Experiment.Progress.Chain.{
  passed-PassedFirst, passed-stable_after, set-Linked, texts_differ, Stopped-IsSound,
}
use infernex_agent.Experiment.Progress.Saved.{
  Running, LogSafe, Savable, Running-LogSafe, Running-IsReadable, with_plan-Running,
  with_stage-Running, save_plan-Running, save_plan-LogSafe,
}
use infernex_agent.Experiment.Progress.Owned.{delete_owned_candidate-Running}

-- A stage that may pass.
abbrev pub Earning : Api → Terms → Stage → Type 0
Earning a terms t = Open a terms t × IsEarned a terms t

abbrev stopped : ℕ → String → Stage → Stage
stopped time reason t = record t { status = "rolled-back"; completed_at = time; message = reason }

module _ (a : Api) (id : String) where
  open a use {World}

  module _ (E : Terms → Stage → Type 0) where
    close_change-Running :
        (reason : String) (rollback : Outcome ExperimentError (Unit {0}))
        (loaded : Outcome String ChangeRecord)
        → Keeps (Running a id E) (close_change a reason rollback loaded)
    unfolding close_change
    close_change-Running reason rollback (err _) = Keeps-pure _
    close_change-Running reason rollback (ok r) =
        search (keeps_rules, Running-IsReadable, call-Keeps, read_time-Keeps) depth 8

    rethrow-Yields :
        (rollback : Outcome ExperimentError (Unit {0}))
        → Yields (Running a id E) (λ _. Running a id E) (LogSafe a id) (rethrow a rollback)
    unfolding rethrow
    rethrow-Yields (ok _) = Yields-pure _ (λ s h. h)
    rethrow-Yields (err e) = Yields-fail e (Running-LogSafe a id E)

  record_failure-Yields :
      (E : Terms → Stage → Type 0) (reason : String) (rollback : Outcome ExperimentError (Unit {0}))
      → Yields
          (Running a id E)
          (λ _. Running a id Stopped)
          (LogSafe a id)
          (record_failure a reason rollback)
  unfolding record_failure
  record_failure-Yields E reason rollback =
      Keeps-Yields _ _ (Running-LogSafe a id E) (read_time-Keeps a (Running-IsReadable a id E))
        λ time.
          Yields-bind _ _
            (Yields-modify _ (
              with_stage-Running a id E (stopped time reason) (λ t. (refl, refl, refl))
                (λ g t h. refl)))
            λ _.
              Keeps-Yields _ _ (Running-LogSafe a id Stopped)
                (with_plan-Running a id Stopped (λ _. "failed") (λ _. stop_message a rollback)
                  (λ p. p.updated_at) (λ p h. texts_differ "failed" "completed" refl))
                λ _.
                  Keeps-Yields _ _ (Running-LogSafe a id Stopped)
                    (save_plan-Running a id Stopped (Stopped-IsSound a))
                    (λ _. rethrow-Yields Stopped rollback)

  -- A stage that fails is rolled back, whatever was known of it; the candidate is deleted only if
  -- the experiment owns it.
  pub fail_stage-Yields :
      (E : Terms → Stage → Type 0) (reason : String)
      → Yields (Running a id E) (λ _. Running a id Stopped) (LogSafe a id) (fail_stage a reason)
  unfolding fail_stage
  fail_stage-Yields E reason =
      Yields-bind {Q = λ _. Running a id AnyStage} _ _
        (Yields-modify _ (with_stage-Running a id E _ (λ t. (refl, refl, refl)) (λ g t h. tt)))
        λ _. Yields-gets _ _ λ s h.
          Yields-from _ (λ t k. k.0)
            (Keeps-Yields _ _ (Running-LogSafe a id AnyStage)
              (Keeps-attempt _ (delete_owned_candidate-Running a id AnyStage _ _ _ _ h.same_id))
              λ rollback.
                Keeps-Yields _ _ (Running-LogSafe a id AnyStage)
                  (call-Keeps a (Running-IsReadable a id AnyStage) _)
                  λ loaded.
                    Keeps-Yields _ _ (Running-LogSafe a id AnyStage)
                      (close_change-Running AnyStage reason rollback loaded)
                      λ _. record_failure-Yields AnyStage reason rollback)

  pub fail_stage-Moves :
      (E : Terms → Stage → Type 0) (reason : String)
      → Moves (Running a id E) (LogSafe a id) (fail_stage a reason)
  fail_stage-Moves E reason =
      Yields-Moves _ (λ x. Running-LogSafe a id Stopped) (fail_stage-Yields E reason)

  -- The stage has passed, and the plan is ready to be saved.
  finish-Savable :
      (time : ℕ) (message : String) (s : State World)
      → Running a id (Earning a) s
      → Savable a id (record s {
        stage = record s.stage { status = "passed"; completed_at = time; message = message };
        plan = record s.plan {
          stable_service = s.stage.candidate_name;
          current_stage = s.stage.index + 1;
        };
      })
  finish-Savable time message s h =
      let t = s.stage in
      let u = record s.stage { status = "passed"; completed_at = time; message = message } in
      let next : s.stage.index + 1 ≡ suc s.index = let e = h.placed in omega arith in
      (
        record {
          progressive = record {
            linked =
                set-Linked 0 s.plan.baseline_name s.plan.stages s.index t u (refl, refl, refl)
                  h.progressive.linked;
            passed =
                subst (λ n. PassedFirst n (set s.plan.stages s.index u)) (sym next)
                  (passed-PassedFirst s.plan.stages s.index t u h.in_range refl (
                    subst (λ n. PassedFirst n (set s.plan.stages s.index t)) h.current
                      h.progressive.passed));
            stable = sym (
                ap (λ n. stable_after n s.plan.baseline_name (set s.plan.stages s.index u)) next
                ∙ passed-stable_after s.plan.baseline_name s.plan.stages s.index u h.in_range);
            all_passed = λ e. absurd (h.unfinished e);
          };
          sound = h.others u (record { healthy = λ _. h.held.0.1; earned = λ _. h.held.1 });
        },
        h.safe,
      )

  finish_stage-Moves : Moves (Running a id (Earning a)) (LogSafe a id) (finish_stage a)
  unfolding finish_stage
  finish_stage-Moves =
      Moves-bind _ _ (Running-LogSafe a id (Earning a))
        (read_time-Keeps a (Running-IsReadable a id (Earning a)))
        λ time.
          Moves-then _ _ (λ s h. h.1) (Moves-modify _ (finish-Savable time _))
            (λ _. save_plan-LogSafe a id)

  after_commit-Moves :
      (stored : Outcome String (Unit {0}))
      → Moves (Running a id (Earning a)) (LogSafe a id) (after_commit a stored)
  unfolding after_commit
  after_commit-Moves (ok _) = finish_stage-Moves
  after_commit-Moves (err text) = fail_stage-Moves (Earning a) _

  commit_stage-Moves :
      (loaded : Outcome String ChangeRecord)
      → Moves (Running a id (Earning a)) (LogSafe a id) (commit_stage a loaded)
  unfolding commit_stage
  commit_stage-Moves (err text) = fail_stage-Moves (Earning a) _
  commit_stage-Moves (ok r) =
      Moves-bind _ _ (Running-LogSafe a id (Earning a))
        (read_time-Keeps a (Running-IsReadable a id (Earning a)))
        λ time.
          Moves-bind _ _ (Running-LogSafe a id (Earning a))
            (call-Keeps a (Running-IsReadable a id (Earning a)) _)
            λ stored. after_commit-Moves stored

  -- A stage that passes leaves a safe log.
  pub pass_stage-Moves : Moves (Running a id (Earning a)) (LogSafe a id) (pass_stage a)
  unfolding pass_stage
  pass_stage-Moves = Moves-bind _ _ (Running-LogSafe a id (Earning a)) (Keeps-gets _) λ change_id.
      Moves-bind _ _ (Running-LogSafe a id (Earning a))
        (call-Keeps a (Running-IsReadable a id (Earning a)) _) λ loaded. commit_stage-Moves loaded
