-- ===== src/Experiment/Stages.antt =====
-- The end of a stage in controller.go: passStage and failStage.
use Prim.Native.String.{◌++◌ as add_text}
use infernex_agent.Prelude.{
  ℕ, ◌+◌, Option, none, some, String, str_eq, if◌then◌else◌, Outcome, ok, err,
}
use infernex_agent.Changes.Record.{ChangeRecord}
use infernex_agent.Experiment.{SloResult, ExperimentError, Api}
use infernex_agent.Experiment.Machine.{
  Act, pure, fail, gets, attempt, call, ◌>>=◌, ◌>>◌, modify, with_plan, with_stage, read_time,
  save_plan,
}
use infernex_agent.Experiment.Candidate.{delete_owned_candidate, event}

-- A measurement that passed does not count in a stage that fails.
abbrev pub withdrawn : String → Option SloResult → Option SloResult
withdrawn reason none = none
withdrawn reason (some r) =
    if str_eq r.decision "passed"
    then some (record r { decision = "inconclusive"; reason = reason })
    else some r

module _ (a : Api) where
  open a use {World}

  unfoldable pub closing :
      ChangeRecord → ℕ → String → Outcome ExperimentError (Unit {0}) → ChangeRecord
  closing r time reason (ok _) = event a r "rolled-back" time reason
  closing r time reason (err e) =
      event a r "rollback-failed" time
        (add_text reason (add_text "; rollback failed: " (a.error_text e)))

  unfoldable pub close_change :
      String
      → Outcome ExperimentError (Unit {0})
      → Outcome String ChangeRecord
      → Act World (Unit {0})
  unfolding closing
  close_change reason rollback (err _) = pure tt
  close_change reason rollback (ok r) = do
    time ← read_time a
    _ ← call (a.append_change (closing r time reason rollback))
    pure tt

  unfoldable pub stop_message : Outcome ExperimentError (Unit {0}) → String
  stop_message (ok _) = "experiment stopped; previous stable service retained"
  stop_message (err e) =
      add_text "experiment stopped and automatic candidate rollback failed: " (a.error_text e)

  unfoldable pub rethrow : Outcome ExperimentError (Unit {0}) → Act World (Unit {0})
  rethrow (ok _) = pure tt
  rethrow (err e) = fail e

  unfoldable pub record_failure : String → Outcome ExperimentError (Unit {0}) → Act World (Unit {0})
  unfolding stop_message
  record_failure reason rollback = do
    time ← read_time a
    with_stage (λ t. record t { status = "rolled-back"; completed_at = time; message = reason })
    with_plan (λ p. record p { status = "failed"; message = stop_message rollback })
    save_plan a
    rethrow rollback

  unfoldable pub fail_stage : String → Act World (Unit {0})
  fail_stage reason = do
    with_stage (λ t. record t { slo = withdrawn reason t.slo })
    s ← gets (λ s. s)
    rollback ← attempt (
        delete_owned_candidate a s.plan.namespace s.stage.candidate_name s.plan.id
          s.stage.change_id)
    loaded ← call (a.latest_change s.stage.change_id)
    close_change reason rollback loaded
    record_failure reason rollback

  unfoldable pub finish_stage : Act World (Unit {0})
  finish_stage = do
    time ← read_time a
    modify (λ s. record s {
      stage = record s.stage {
        status = "passed";
        completed_at = time;
        message = "feature stage passed; candidate is the next stable baseline";
      };
      plan = record s.plan {
        stable_service = s.stage.candidate_name;
        current_stage = s.stage.index + 1;
      };
    })
    save_plan a

  unfoldable pub after_commit : Outcome String (Unit {0}) → Act World (Unit {0})
  after_commit (ok _) = finish_stage
  after_commit (err text) = fail_stage (add_text "cannot persist stage commit: " text)

  unfoldable pub commit_stage : Outcome String ChangeRecord → Act World (Unit {0})
  commit_stage (err text) = fail_stage (add_text "cannot load stage change record: " text)
  commit_stage (ok r) = do
    time ← read_time a
    stored ← call (
        a.append_change (
          event a r "committed" time
            "candidate passed readiness, baseline comparison, and soak gates"))
    after_commit stored

  unfoldable pub pass_stage : Act World (Unit {0})
  pass_stage = do
    id ← gets (λ s. s.stage.change_id)
    loaded ← call (a.latest_change id)
    commit_stage loaded
