-- ===== src/Experiment/Progress/Rounds.antt =====
-- The rounds of the monitoring of a stage.
use infernex_agent.Prelude.{ℕ, zero, suc, Bool, Option, none, some, String, Outcome, ok, err}
use infernex_agent.Experiment.{
  Service, ReadError, not_found, failed, ExperimentError, out_of_fuel, Api,
}
use infernex_agent.Experiment.Machine.{Act, pure}
use infernex_agent.Experiment.Machine.Keeps.{Moves, Keeps-gets, Keeps-attempt, Moves-bind}
use infernex_agent.Experiment.Machine.Yields.{
  Yields, Yields-pure, Yields-fail, Yields-bind, Yields-Moves, Moves-Yields,
}
use infernex_agent.Experiment.Candidate.{terminal_degraded}
use infernex_agent.Experiment.Progress.{Open}
use infernex_agent.Experiment.Progress.Reads.{
  read_time-Keeps, check_context-Keeps, get_service-Keeps, get_ready_baseline-Keeps,
  verify_owned_candidate-Keeps,
}
use infernex_agent.Experiment.Progress.Saved.{Running, LogSafe, Running-LogSafe, Running-IsReadable}
use infernex_agent.Experiment.Monitor.{
  unready, settle, diagnose_if_due, with_owned, with_candidate, with_baseline, watch, round, rounds,
  monitor_stage,
}
use infernex_agent.Experiment.Progress.Diagnosed.{diagnose-Rounds}
use infernex_agent.Experiment.Progress.Soaked.{
  RoundResult, RoundFrom, Rounds, Rounds-failed, Rounds-bind, Rounds-some, Rounds-if, poll-Rounds,
  soak-Rounds,
}

module _ (a : Api) (id : String) where
  open a use {World}

  unready-Rounds : (next : ℕ) → Rounds a id (Open a) (unready a next)
  unfolding unready
  unready-Rounds next =
      Rounds-bind a id _ _ (Keeps-gets _)
        λ t. Rounds-if a id _ _ _ (Rounds-failed a id (Open a) _) (poll-Rounds a id next)

  settle-Rounds :
      (now : ℕ) (baseline candidate : Service) (next : ℕ)
      → Rounds a id (Open a) (settle a now baseline candidate (some next))
  unfolding settle
  settle-Rounds now baseline candidate next =
      Rounds-if a id _ _ _ (soak-Rounds a id now next baseline candidate) (unready-Rounds next)

  diagnose_if_due-Rounds :
      (now next : ℕ) (ready : Bool) → Rounds a id (Open a) (diagnose_if_due a now next ready)
  unfolding diagnose_if_due
  diagnose_if_due-Rounds now next ready =
      Rounds-if a id _ _ _ (diagnose-Rounds a id now ready) (Rounds-some a id next)

  -- A round that has ended is not gone on with.
  after_diagnosis :
      (now : ℕ) (baseline candidate : Service) (r : Option ℕ)
      → RoundFrom a id (RoundResult a id r) (settle a now baseline candidate r)
  unfolding settle
  after_diagnosis now baseline candidate none = Yields-pure none (λ s h. h)
  after_diagnosis now baseline candidate (some next) = settle-Rounds now baseline candidate next

  with_owned-Rounds :
      (now next : ℕ) (baseline candidate : Service) (owned : Outcome ExperimentError (Unit {0}))
      → Rounds a id (Open a) (with_owned a now next baseline candidate owned)
  unfolding with_owned
  with_owned-Rounds now next baseline candidate (err e) = Rounds-failed a id (Open a) _
  with_owned-Rounds now next baseline candidate (ok _) =
      Rounds-if a id (terminal_degraded candidate) _ _ (Rounds-failed a id (Open a) _) (
        Yields-bind _ _ (diagnose_if_due-Rounds now next _)
          (after_diagnosis now baseline candidate))

  with_candidate-Rounds :
      (now next : ℕ) (baseline : Service) (found : Outcome ReadError Service)
      → Rounds a id (Open a) (with_candidate a now next baseline found)
  unfolding with_candidate
  with_candidate-Rounds now next baseline (err (not_found _)) = Rounds-failed a id (Open a) _
  with_candidate-Rounds now next baseline (err (failed _)) = poll-Rounds a id next
  with_candidate-Rounds now next baseline (ok candidate) = Rounds-bind a id _ _ (Keeps-gets _) λ s.
      Rounds-bind a id _ _
        (Keeps-attempt _
          (verify_owned_candidate-Keeps a (Running-IsReadable a id (Open a)) candidate _ _))
        λ owned. with_owned-Rounds now next baseline candidate owned

  with_baseline-Rounds :
      (now next : ℕ) (baseline : Outcome ExperimentError Service)
      → Rounds a id (Open a) (with_baseline a now next baseline)
  unfolding with_baseline
  with_baseline-Rounds now next (err e) = Rounds-failed a id (Open a) _
  with_baseline-Rounds now next (ok baseline) = Rounds-bind a id _ _ (Keeps-gets _) λ s.
      Rounds-bind a id _ _ (get_service-Keeps a (Running-IsReadable a id (Open a)) _ _)
        λ found. with_candidate-Rounds now next baseline found

  watch-Rounds : (now next : ℕ) → Rounds a id (Open a) (watch a now next)
  unfolding watch
  watch-Rounds now next = Rounds-bind a id _ _ (Keeps-gets _) λ s.
      Rounds-bind a id _ _
        (Keeps-attempt _ (get_ready_baseline-Keeps a (Running-IsReadable a id (Open a)) _ _))
        λ baseline. with_baseline-Rounds now next baseline

  round-Rounds : (deadline next : ℕ) → Rounds a id (Open a) (round a deadline next)
  unfolding round
  round-Rounds deadline next =
      Rounds-bind a id _ _ (check_context-Keeps a (Running-IsReadable a id (Open a))) λ _.
        Rounds-bind a id _ _ (read_time-Keeps a (Running-IsReadable a id (Open a)))
          λ now. Rounds-if a id _ _ _ (Rounds-failed a id (Open a) _) (watch-Rounds now next)

  -- What the loop does with a round.
  rounds_after :
      (r : Option ℕ) (go_on : ℕ → Act World (Unit {0}))
      → ((next : ℕ) → Moves (Running a id (Open a)) (LogSafe a id) (go_on next))
      → Yields
          (RoundResult a id r)
          (λ _. LogSafe a id)
          (LogSafe a id)
          (elim r [ none ↦ pure tt | some n ↦ go_on n ])
  rounds_after none go_on k = Yields-pure tt (λ s h. h)
  rounds_after (some next) go_on k = Moves-Yields _ (λ _ s h. h) (k next)

  rounds-Moves :
      (fuel deadline next : ℕ)
      → Moves (Running a id (Open a)) (LogSafe a id) (rounds a fuel deadline next)
  unfolding rounds
  rounds-Moves zero deadline next =
      Yields-Moves {Q = λ _. LogSafe a id} _ (λ _ s h. h)
        (Yields-fail out_of_fuel (Running-LogSafe a id (Open a)))
  rounds-Moves (suc fuel) deadline next =
      Yields-Moves {Q = λ _. LogSafe a id} _ (λ _ s h. h)
        (Yields-bind _ _ (round-Rounds deadline next)
          (λ r. rounds_after r (rounds a fuel deadline) (rounds-Moves fuel deadline)))

  -- monitorStage, started on an open stage, leaves a safe log on every branch.
  pub monitor_stage-Moves :
      (fuel : ℕ) → Moves (Running a id (Open a)) (LogSafe a id) (monitor_stage a fuel)
  unfolding monitor_stage
  monitor_stage-Moves fuel =
      Moves-bind _ _ (Running-LogSafe a id (Open a)) (Keeps-gets _) (λ t. rounds-Moves fuel _ 0)
