-- ===== src/Experiment/Monitor.antt =====
-- monitorStage of controller.go. A round is one pass of its loop; it returns the time of the next
-- diagnosis, or none where the function returns.
use Prim.Native.String.{◌++◌ as add_text}
use infernex_agent.Prelude.{
  ℕ, zero, suc, ◌+◌, ◌==◌, ltb, Bool, true, false, not, ◌&&◌, ◌||◌, Option, none, some, String,
  List, [], ◌∷◌, str_eq, if◌then◌else◌, Outcome, ok, err,
}
use infernex_agent.Prelude.Int.{ltb_ℤ}
use infernex_agent.Diagnostics.{Report, Comparison, compare}
use infernex_agent.Experiment.{
  Service, SloProfile, Stage, Plan, ReadError, not_found, failed, ExperimentError, out_of_fuel, Api,
}
use infernex_agent.Experiment.Machine.{
  Act, pure, fail, gets, attempt, call, ◌>>=◌, ◌>>◌, with_stage, read_time, check_context,
  wait_context, get_service, save_plan,
}
use infernex_agent.Experiment.Candidate.{
  get_ready_baseline, terminal_degraded, verify_owned_candidate,
}
use infernex_agent.Experiment.Stages.{fail_stage, pass_stage}
use infernex_agent.Experiment.Gate.{run_slo_gate}

-- strings.Join(texts, ", ")
unfoldable pub join : List String → String
join [] = ""
join (s ∷ []) = s
join (s ∷ t ∷ texts) = add_text s (add_text ", " (join (t ∷ texts)))

-- %v of an error
abbrev pub show_error : {A : Type 0} → Outcome String A → String
show_error (ok _) = "<nil>"
show_error (err text) = text

-- The SLO gate is required.
abbrev pub is_gated : Plan → Bool
is_gated p = str_eq p.slo_gate_mode "required" || not (str_eq p.slo_profile "")

abbrev pub is_compared : Option Comparison → Bool
is_compared none = false
is_compared (some _) = true

-- The candidate is Ready at its current generation.
abbrev pub is_candidate_ready : Service → Bool
is_candidate_ready c = c.is_ready && not (ltb_ℤ c.observed_generation c.generation)

module _ (a : Api) where
  open a use {World}

  -- return c.failStage(...)
  unfoldable pub ended : Act World (Unit {0}) → Act World (Option ℕ)
  ended m = m >> pure none

  unfoldable pub poll : ℕ → Act World (Option ℕ)
  poll next = wait_context a a.settings.poll_interval >> pure (some next)

  unfoldable pub gated : SloProfile → Service → Service → Act World (Option ℕ)
  gated profile baseline candidate = do
    run_slo_gate a profile baseline candidate
    s ← gets (λ s. s)
    if str_eq s.stage.status "rolled-back" || str_eq s.plan.status "failed"
        then pure none
        else ended (pass_stage a)

  unfoldable pub gate_of : Option SloProfile → Service → Service → Act World (Option ℕ)
  gate_of none baseline candidate =
      ended (fail_stage a "required SLO gate configuration is unavailable")
  gate_of (some profile) baseline candidate =
      if not a.settings.has_slo_runner
      then ended (fail_stage a "required SLO gate configuration is unavailable")
      else gated profile baseline candidate

  unfoldable pub complete : Service → Service → Act World (Option ℕ)
  complete baseline candidate = do
    p ← gets (λ s. s.plan)
    if is_gated p then gate_of p.slo_snapshot baseline candidate else ended (pass_stage a)

  unfoldable pub soak_if_new : ℕ → Act World (Unit {0})
  soak_if_new now = do
    t ← gets (λ s. s.stage)
    if t.ready_at == 0
        then (with_stage (λ t. record t {
          ready_at = now;
          comparison = none;
          status = "soaking";
          message = add_text "candidate is Ready; comparing it with " (
              add_text t.baseline_name
                (add_text " for " (a.show_duration a.settings.soak_duration)));
        })
            >> save_plan a)
        else pure tt

  abbrev pub is_soaked : ℕ → Stage → Bool
  is_soaked now t =
      is_compared t.comparison && not (ltb now (t.ready_at + a.settings.soak_duration))

  unfoldable pub soak : ℕ → ℕ → Service → Service → Act World (Option ℕ)
  soak now next baseline candidate = do
    soak_if_new now
    t ← gets (λ s. s.stage)
    if is_soaked now t then complete baseline candidate else poll next

  unfoldable pub unready : ℕ → Act World (Option ℕ)
  unready next = do
    t ← gets (λ s. s.stage)
    if not (t.ready_at == 0)
        then ended (fail_stage a "candidate lost readiness during the soak window")
        else poll next

  unfoldable pub settle : ℕ → Service → Service → Option ℕ → Act World (Option ℕ)
  settle now baseline candidate none = pure none
  settle now baseline candidate (some next) =
      if is_candidate_ready candidate then soak now next baseline candidate else unready next

  unfoldable pub judged : ℕ → Bool → Comparison → Act World (Option ℕ)
  unfolding join
  judged now ready c =
      if not c.healthy
      then (with_stage (λ t. record t { comparison = some c })
          >> ended (
              fail_stage a (
                add_text "candidate introduced critical diagnostic categories: "
                  (join c.regression_categories))))
      else (do
        with_stage (λ t.
            (if ready
              then record t {
                comparison = some c;
                message =
                    "candidate remains Ready with no critical diagnostic regression against the stable baseline";
              }
              else record t {
                message =
                    "candidate is not Ready yet; pre-readiness diagnostics show no critical regression";
              }))
        save_plan a
        pure (some (now + a.settings.diagnostic_interval)))

  unfoldable pub retry_diagnosis :
      ℕ → Outcome String Report → Outcome String Report → Act World (Option ℕ)
  retry_diagnosis now x y = do
    with_stage (λ t. record t {
      comparison = none;
      message =
          add_text "diagnostic comparison will retry: baseline="
            (add_text (show_error x) (add_text " candidate=" (show_error y)));
    })
    save_plan a
    pure (some (now + a.settings.diagnostic_interval))

  unfoldable pub compared :
      ℕ → Bool → Outcome String Report → Outcome String Report → Act World (Option ℕ)
  compared now ready (ok x) (ok y) = judged now ready (compare x y)
  compared now ready (ok x) (err y) = retry_diagnosis now (ok x) (err y)
  compared now ready (err x) y = retry_diagnosis now (err x) y

  unfoldable pub diagnose : ℕ → Bool → Act World (Option ℕ)
  diagnose now ready = do
    s ← gets (λ s. s)
    x ← call (a.diagnose s.plan.namespace s.stage.baseline_name a.settings.diagnostics_minutes)
    y ← call (a.diagnose s.plan.namespace s.stage.candidate_name a.settings.diagnostics_minutes)
    compared now ready x y

  unfoldable pub diagnose_if_due : ℕ → ℕ → Bool → Act World (Option ℕ)
  diagnose_if_due now next ready =
      if next == 0 || not (ltb now next) then diagnose now ready else pure (some next)

  unfoldable pub with_owned :
      ℕ → ℕ → Service → Service → Outcome ExperimentError (Unit {0}) → Act World (Option ℕ)
  unfolding terminal_degraded
  with_owned now next baseline candidate (err e) = ended (fail_stage a (a.error_text e))
  with_owned now next baseline candidate (ok _) =
      if terminal_degraded candidate
      then ended (fail_stage a "candidate reported a terminal Degraded condition")
      else diagnose_if_due now next (is_candidate_ready candidate) >>= settle now baseline candidate

  unfoldable pub with_candidate : ℕ → ℕ → Service → Outcome ReadError Service → Act World (Option ℕ)
  with_candidate now next baseline (err (not_found _)) =
      ended (fail_stage a "candidate disappeared before the experiment completed")
  with_candidate now next baseline (err (failed _)) = poll next
  with_candidate now next baseline (ok candidate) = do
    s ← gets (λ s. s)
    owned ← attempt (verify_owned_candidate a candidate s.plan.id s.stage.change_id)
    with_owned now next baseline candidate owned

  unfoldable pub with_baseline : ℕ → ℕ → Outcome ExperimentError Service → Act World (Option ℕ)
  with_baseline now next (err e) = ended (
      fail_stage a (
        add_text "baseline became unhealthy; experiment result is inconclusive: " (a.error_text e)))
  with_baseline now next (ok baseline) = do
    s ← gets (λ s. s)
    found ← get_service a s.plan.namespace s.stage.candidate_name
    with_candidate now next baseline found

  unfoldable pub watch : ℕ → ℕ → Act World (Option ℕ)
  watch now next = do
    s ← gets (λ s. s)
    baseline ← attempt (get_ready_baseline a s.plan.namespace s.stage.baseline_name)
    with_baseline now next baseline

  unfoldable pub round : ℕ → ℕ → Act World (Option ℕ)
  round deadline next = do
    check_context a
    now ← read_time a
    if not (ltb now deadline)
        then ended (
            fail_stage a (
              add_text "candidate did not pass all gates within "
                (a.show_duration a.settings.readiness_timeout)))
        else watch now next

  -- The loop, on fuel.
  unfoldable pub rounds : ℕ → ℕ → ℕ → Act World (Unit {0})
  rounds zero deadline next = fail out_of_fuel
  rounds (suc fuel) deadline next =
      round deadline next >>= λ r. elim r [ none ↦ pure tt | some n ↦ rounds fuel deadline n ]

  unfoldable pub monitor_stage : ℕ → Act World (Unit {0})
  monitor_stage fuel = do
    t ← gets (λ s. s.stage)
    rounds fuel (t.started_at + a.settings.readiness_timeout) 0
