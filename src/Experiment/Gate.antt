-- ===== src/Experiment/Gate.antt =====
-- The SLO gate of a stage in controller.go: runSLOGate, recheckSLOIdentity and the identities that
-- they compare.
pub mod Templates
use Prim.Native.String.{◌++◌ as add_text}
use infernex_agent.Prelude.{
  ℕ, ◌+◌, Bool, true, false, not, ◌&&◌, ◌||◌, Option, none, some, String, List, [], ◌∷◌, str_eq,
  if◌then◌else◌, Outcome, ok, err,
}
use infernex_agent.Prelude.Int.{ltb_ℤ}
use infernex_agent.Experiment.{
  Service, SloResult, SloProfile, SloIdentity, RunRequest, Stage, Plan, ReadError, ExperimentError,
  feature_drifted, not_encoded, slo_failed, Api,
}
use infernex_agent.Experiment.Machine.{
  State, Act, pure, fail, gets, attempt, call, ◌>>=◌, ◌>>◌, refuse, modify, with_stage,
  check_context, new_id, get_service, save_plan,
}
use infernex_agent.Experiment.Candidate.{get_approved_feature, is_stable}
use infernex_agent.Experiment.Stages.{fail_stage}
use infernex_agent.Experiment.Gate.Templates.{check_template_fingerprints}

abbrev pub same_identity : SloIdentity → SloIdentity → Bool
same_identity x y =
    str_eq x.namespace y.namespace
    && str_eq x.name y.name
    && str_eq x.uid y.uid
    && str_eq x.spec_sha256 y.spec_sha256

abbrev pub with_decision : String → SloResult → SloResult
with_decision decision r = record r { decision = decision }

module _ (a : Api) where
  open a use {World}

  abbrev pub service_identity : Service → Option SloIdentity
  service_identity s = elim (a.encode_spec s.spec) [
    | none ↦ none
    | some raw ↦
        some
          (record { namespace = s.namespace; name = s.name; uid = s.uid; spec_sha256 = a.sum raw })
  ]

  unfoldable pub identity_or_fail : Service → Act World SloIdentity
  identity_or_fail s = elim (service_identity s) [ none ↦ fail not_encoded | some i ↦ pure i ]

  unfoldable pub check_feature_identity : Act World (Unit {0})
  check_feature_identity = do
    t ← gets (λ s. s.stage)
    feature ← get_approved_feature a t.feature_profile
    refuse
        (not (str_eq feature.uid t.feature_uid)
          || not (str_eq (a.config_sha256 feature.spec) t.feature_spec_sha256))
        feature_drifted

  -- Whether the identity is the prior one; none where it has none.
  abbrev pub is_prior : SloIdentity → Service → Bool
  is_prior prior s = elim (service_identity s) [ none ↦ false | some i ↦ same_identity i prior ]

  -- recheckSLOIdentity. `rest` is what follows where the service is as it was.
  unfoldable pub recheck :
      SloIdentity → Act World (Unit {0}) → Outcome ReadError Service → Act World (Unit {0})
  unfolding is_stable
  recheck prior rest (err _) = fail_stage a "SLO identity recheck inconclusive"
  recheck prior rest (ok current) =
      if not (is_prior prior current)
      then fail_stage a "SLO identity or spec drifted during measurement"
      else if not (is_stable current)
      then fail_stage a "SLO target lost readiness during measurement"
      else rest

  unfoldable pub recheck_slo_identity : List SloIdentity → Act World (Unit {0})
  recheck_slo_identity [] = pure tt
  recheck_slo_identity (prior ∷ priors) =
      get_service a prior.namespace prior.name >>= recheck prior (recheck_slo_identity priors)

  -- The stage fails where the check does.
  unfoldable pub or_fail_stage :
      String → Outcome ExperimentError (Unit {0}) → Act World (Unit {0}) → Act World (Unit {0})
  or_fail_stage reason (ok _) rest = rest
  or_fail_stage reason (err _) rest = fail_stage a reason

  -- Both checks of the references, before and after the measurement.
  unfoldable pub checked :
      String → String → Service → Service → Act World (Unit {0}) → Act World (Unit {0})
  checked feature_reason template_reason baseline candidate rest = do
    feature ← attempt check_feature_identity
    or_fail_stage feature_reason feature (
        attempt (check_template_fingerprints a baseline candidate) >>= λ templates.
        or_fail_stage template_reason templates rest)

  unfoldable pub after_slo_run :
      SloIdentity
      → SloIdentity
      → Service
      → Service
      → Outcome String SloResult
      → Act World (Unit {0})
  after_slo_run b c baseline candidate (err text) = do
    with_stage (λ t. record t {
      slo = elim t.slo [ none ↦ none | some r ↦ some (with_decision "inconclusive" r) ];
    })
    fail_stage a (add_text "SLO run inconclusive: " text)
  after_slo_run b c baseline candidate (ok result) = do
    with_stage (λ t. record t { slo = some result })
    save_plan a
    if not (str_eq result.decision "passed")
        then fail_stage a (add_text "SLO " (add_text result.decision (add_text ": " result.reason)))
        else checked "SLO feature profile changed during measurement"
            "SLO referenced template changed during measurement" baseline candidate
            (recheck_slo_identity (b ∷ c ∷ []))

  abbrev pub run_request :
      State World → String → SloProfile → SloIdentity → SloIdentity → RunRequest
  run_request s run_id profile b c = record {
    run_id = run_id;
    experiment_id = s.plan.id;
    stage_index = s.stage.index;
    change_id = s.stage.change_id;
    profile = profile;
    profile_sha256 = s.plan.slo_profile_sha256;
    baseline = b;
    candidate = c;
    deadline = s.stage.started_at + a.settings.readiness_timeout;
  }

  unfoldable pub measure : SloProfile → Service → Service → Act World (Unit {0})
  measure profile baseline candidate = do
    b ← identity_or_fail baseline
    c ← identity_or_fail candidate
    run_id ← new_id a
    with_stage (λ t. record t {
      slo = some (record { run_id = run_id; decision = "running"; reason = ""; evidence = "" });
      message = "SLO evidence run started";
    })
    save_plan a
    s ← gets (λ s. s)
    result ← call (a.run_slo (run_request s run_id profile b c))
    check_context a
    after_slo_run b c baseline candidate result

  -- A measurement that a restart has cut off is not used again.
  unfoldable pub unmeasured :
      SloProfile → Service → Service → Option SloResult → Act World (Unit {0})
  unmeasured profile baseline candidate (some r) = do
    with_stage (λ t. record t { slo = some (with_decision "inconclusive" r) })
    fail_stage a "SLO stage resumed before commit; prior measurement cannot be safely reused"
  unmeasured profile baseline candidate none =
      checked "SLO feature profile changed before measurement"
        "SLO referenced template changed before measurement" baseline candidate
        (measure profile baseline candidate)

  abbrev pub parsed_hash : String → Option String → Bool
  parsed_hash sha256 none = false
  parsed_hash sha256 (some h) = str_eq h sha256

  unfoldable pub with_snapshot :
      SloProfile → Service → Service → Option String → Act World (Unit {0})
  with_snapshot profile baseline candidate none = fail_stage a "SLO profile snapshot is invalid"
  with_snapshot profile baseline candidate (some json) = do
    s ← gets (λ s. s)
    if not (parsed_hash s.plan.slo_profile_sha256 (a.parse_profile json))
        then fail_stage a "SLO profile snapshot drifted; result inconclusive"
        else unmeasured profile baseline candidate s.stage.slo

  unfoldable pub run_slo_gate : SloProfile → Service → Service → Act World (Unit {0})
  run_slo_gate profile baseline candidate = with_snapshot profile baseline candidate profile.encoded
