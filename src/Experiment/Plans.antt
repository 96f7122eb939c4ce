-- ===== src/Experiment/Plans.antt =====
-- runStage and runPlan of controller.go. A plan is read from the store of plans in every pass of
-- the loop of runPlan.
use infernex_agent.Prelude.{
  ℕ, zero, suc, ◌+◌, leb, Bool, true, false, ◌||◌, Option, none, some, String, List, [], ◌∷◌,
  str_eq, length, if◌then◌else◌, Outcome, ok, err,
}
use infernex_agent.Experiment.{Stage, Plan, ExperimentError, plan_unread, out_of_fuel, Api}
use infernex_agent.Experiment.Machine.{
  Event, read, deleted, created, saved, Act, pure, fail, gets, attempt, call, ◌>>=◌, ◌>>◌, modify,
  with_plan, check_context, save_plan,
}
use infernex_agent.Experiment.Candidate.{ensure_candidate}
use infernex_agent.Experiment.Stages.{fail_stage}
use infernex_agent.Experiment.Monitor.{monitor_stage}

-- Latest of the store of plans: the plan that was saved last.
unfoldable pub find_plan : String → List Event → Option Plan
find_plan id [] = none
find_plan id (saved p ∷ log) = if str_eq p.id id then some p else find_plan id log
find_plan id (read namespace name found ∷ log) = find_plan id log
find_plan id (deleted s ∷ log) = find_plan id log
find_plan id (created s ∷ log) = find_plan id log

unfoldable pub get_elem? : List Stage → ℕ → Option Stage
get_elem? [] i = none
get_elem? (t ∷ stages) zero = some t
get_elem? (t ∷ stages) (suc i) = get_elem? stages i

module _ (a : Api) where
  open a use {World}

  unfoldable pub after_ensure : ℕ → Outcome ExperimentError (Unit {0}) → Act World (Unit {0})
  after_ensure fuel (ok _) = monitor_stage a fuel
  after_ensure fuel (err e) = fail_stage a (a.error_text e)

  unfoldable pub run_stage : ℕ → Act World (Unit {0})
  run_stage fuel = do
    t ← gets (λ s. s.stage)
    if str_eq t.status "passed"
        then (modify (λ s. record s {
          plan = record s.plan {
            stable_service = s.stage.candidate_name;
            current_stage = s.index + 1;
          };
        })
            >> save_plan a)
        else if str_eq t.status "rolled-back"
        then (with_plan (λ p. record p {
          status = "failed";
          message =
              "experiment stopped after a failed stage; the previous stable service was retained";
        })
            >> save_plan a)
        else (attempt (ensure_candidate a) >>= after_ensure fuel)

  -- No stage is held yet: the index is past the stages.
  unfoldable pub hold_plan : Plan → Act World (Unit {0})
  hold_plan p = modify (λ s. record s { plan = p; index = length p.stages })

  unfoldable pub hold_stage : ℕ → Stage → Act World (Unit {0})
  hold_stage i t = modify (λ s. record s { index = i; stage = t })

  unfoldable pub after_load : Bool → Option Plan → Act World Plan
  after_load true (some p) = pure p
  after_load true none = fail plan_unread
  after_load false found = fail plan_unread

  unfoldable pub load_plan : String → Act World Plan
  unfolding find_plan
  load_plan id = do
    loaded ← call (a.can_load id)
    found ← gets (λ s. find_plan id s.log)
    after_load loaded found

  unfoldable pub resume_if_planned : Act World (Unit {0})
  resume_if_planned = do
    p ← gets (λ s. s.plan)
    if str_eq p.status "planned"
        then (with_plan (λ p. record p {
          status = "running";
          message = "resumed experiment after Agent restart";
        })
            >> save_plan a)
        else pure tt

  -- The stage is there, since the index is below the length.
  unfoldable pub run_current : ℕ → ℕ → Option Stage → Act World Bool
  run_current fuel i none = fail plan_unread
  run_current fuel i (some t) = do hold_stage i t; run_stage fuel; pure true

  unfoldable pub advance : ℕ → Act World Bool
  unfolding get_elem?
  advance fuel = do
    p ← gets (λ s. s.plan)
    if leb (length p.stages) p.current_stage
        then (with_plan (λ p. record p {
          status = "completed";
          message =
              "all approved feature stages passed readiness, diagnostics comparison, and soak gates";
        })
            >> save_plan a
            >> pure false)
        else run_current fuel p.current_stage (get_elem? p.stages p.current_stage)

  -- One pass of the loop; false where the function returns.
  unfoldable pub pass : ℕ → String → Act World Bool
  pass fuel id = do
    check_context a
    p ← load_plan id
    if str_eq p.status "completed" || str_eq p.status "failed"
        then pure false
        else (hold_plan p >> resume_if_planned >> advance fuel)

  -- The loop, on fuel; another fuel is for each stage's rounds.
  unfoldable pub run_plan : ℕ → ℕ → String → Act World (Unit {0})
  run_plan zero fuel id = fail out_of_fuel
  run_plan (suc passes) fuel id =
      pass fuel id >>= λ more. elim more [ true ↦ run_plan passes fuel id | false ↦ pure tt ]
