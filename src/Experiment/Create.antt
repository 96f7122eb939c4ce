-- ===== src/Experiment/Create.antt =====
-- Create, Get, List and Start of controller.go. A lock is held throughout Create.
use Prim.Native.String.{◌++◌ as add_text}
use infernex_agent.Prelude.{
  ℕ, ◌+◌, ltb, Bool, not, ◌||◌, Option, none, some, String, List, [], ◌∷◌, str_eq, any, is_nil,
  if◌then◌else◌, Outcome, ok, err,
}
use infernex_agent.Prelude.Text.{trim_space, show_number}
use infernex_agent.Prelude.Dict.{Dict, lookup}
use infernex_agent.Experiment.{
  Service, ServiceConfig, SloProfile, Request, Stage, Plan, ReadError, not_found, failed,
  ExperimentError, already_active, not_listed, invalid_candidate, slo_disabled, slo_unknown,
  no_baseline_endpoint, no_candidate_endpoint, same_endpoint, candidate_exists, target_unchecked,
  Api,
}
use infernex_agent.Experiment.Machine.{
  Event, read, deleted, created, saved, Act, pure, fail, gets, call, or_else, ◌>>=◌, ◌>>◌, refuse,
  read_time, new_id, get_service, append_plan,
}
use infernex_agent.Experiment.Validate.{validate_request}
use infernex_agent.Experiment.Candidate.{
  get_ready_baseline, validate_baseline_spec, get_approved_feature,
}
use infernex_agent.Experiment.Gate.Templates.{template_fingerprints}
use infernex_agent.Experiment.Plans.{load_plan}

-- List of the store of plans: of each id the plan that was saved last, but for their order.
unfoldable pub latest_plans : List String → List Event → List Plan
unfolding any
latest_plans seen [] = []
latest_plans seen (saved p ∷ log) =
    let rest = latest_plans (p.id ∷ seen) log in
    let skipped = latest_plans seen log in if any (str_eq p.id) seen then skipped else p ∷ rest
latest_plans seen (read namespace name found ∷ log) = latest_plans seen log
latest_plans seen (deleted s ∷ log) = latest_plans seen log
latest_plans seen (created s ∷ log) = latest_plans seen log

abbrev pub is_active : Plan → Bool
is_active p = str_eq p.status "planned" || str_eq p.status "running"

-- Pending of the store of plans.
unfoldable pub active_plans : List Plan → List Plan
active_plans [] = []
active_plans (p ∷ plans) = let rest = active_plans plans in if is_active p then p ∷ rest else rest

unfoldable pub candidate_name : String → ℕ → String
unfolding show_number
candidate_name prefix index =
    add_text prefix (add_text (if ltb index 9 then "-s0" else "-s") (show_number (index + 1)))

abbrev pub public_plan : Plan → Plan
public_plan p = record p { slo_snapshot = none }

module _ (a : Api) where
  open a use {World}

  unfoldable pub load_active : Act World (List Plan)
  unfolding active_plans latest_plans
  load_active = do
    listed ← call a.can_list
    log ← gets (λ s. s.log)
    if listed then pure (active_plans (latest_plans [] log)) else fail not_listed

  unfoldable pub get_features : List String → Act World (List (String × ServiceConfig))
  get_features [] = pure []
  get_features (profile ∷ profiles) = do
    feature ← get_approved_feature a profile
    features ← get_features profiles
    pure ((profile, feature) ∷ features)

  unfoldable pub select_profile : String → Act World (Option (SloProfile × String))
  select_profile name =
      if str_eq name ""
      then pure none
      else if not a.settings.has_slo_profiles || not a.settings.has_slo_runner
      then fail slo_disabled
      else or_else slo_unknown (a.slo_profile name) >>= λ p. pure (some p)

  abbrev endpoint_of : SloProfile → String → String → Option String
  unfolding lookup
  endpoint_of p namespace name = lookup (add_text namespace (add_text "/" name)) p.endpoints

  unfoldable pub check_endpoints : Option String → Option String → Act World (Unit {0})
  check_endpoints none y = fail no_baseline_endpoint
  check_endpoints (some x) none = fail no_candidate_endpoint
  check_endpoints (some x) (some y) =
      refuse (str_eq (a.canonical_endpoint x) (a.canonical_endpoint y)) same_endpoint

  unfoldable pub check_mapping :
      Option (SloProfile × String) → String → String → String → Act World (Unit {0})
  unfolding endpoint_of
  check_mapping none namespace stable name = pure tt
  check_mapping (some (p, hash)) namespace stable name =
      check_endpoints (endpoint_of p namespace stable) (endpoint_of p namespace name)

  unfoldable pub absent : Outcome ReadError Service → Act World (Unit {0})
  absent (ok _) = fail candidate_exists
  absent (err (not_found _)) = pure tt
  absent (err (failed _)) = fail target_unchecked

  unfoldable pub require_absent : String → String → Act World (Unit {0})
  require_absent namespace name = get_service a namespace name >>= absent

  unfoldable pub fingerprints_if :
      Option (SloProfile × String) → List String → Act World (Dict String)
  fingerprints_if none refs = pure []
  fingerprints_if (some p) refs = template_fingerprints a refs

  abbrev pub new_stage : ℕ → String → String → String → ServiceConfig → Dict String → Stage
  new_stage index stable name profile feature fingerprints = record {
    feature_uid = feature.uid;
    feature_spec_sha256 = a.config_sha256 feature.spec;
    template_fingerprints = fingerprints;
    slo = none;
    index = index;
    feature_profile = profile;
    baseline_name = stable;
    candidate_name = name;
    status = "pending";
    change_id = "";
    started_at = 0;
    ready_at = 0;
    completed_at = 0;
    message = "";
    comparison = none;
  }

  -- The loop over the profiles. The features stand in their order, since no profile is there twice.
  unfoldable pub plan_stages :
      Request
      → Option (SloProfile × String)
      → ℕ
      → String
      → List String
      → List (String × ServiceConfig)
      → Act World (List Stage)
  unfolding candidate_name
  plan_stages request selected index stable refs [] = pure []
  plan_stages request selected index stable refs ((profile, feature) ∷ features) = do
    let name = candidate_name request.candidate_prefix index
    check_mapping selected request.namespace stable name
    refuse (not (a.is_dns_subdomain name)) invalid_candidate
    require_absent request.namespace name
    fingerprints ← fingerprints_if selected (profile ∷ refs)
    stages ← plan_stages request selected (index + 1) name (profile ∷ refs) features
    pure (new_stage index stable name profile feature fingerprints ∷ stages)

  abbrev pub planned : Request → Option (SloProfile × String) → String → ℕ → List Stage → Plan
  planned request selected id time stages = record {
    slo_gate_mode = elim selected [ none ↦ "disabled" | some p ↦ "required" ];
    slo_profile = request.slo_profile;
    slo_profile_sha256 = elim selected [ none ↦ "" | some p ↦ p.1 ];
    slo_snapshot = elim selected [ none ↦ none | some p ↦ some p.0 ];
    id = id;
    namespace = request.namespace;
    baseline_name = request.baseline_name;
    candidate_prefix = request.candidate_prefix;
    feature_profiles = request.feature_profiles;
    status = "planned";
    current_stage = 0;
    stable_service = request.baseline_name;
    created_at = time;
    updated_at = time;
    message = "experiment plan validated; no resource has been created yet";
    stages = stages;
  }

  -- Both events of a new plan.
  unfoldable pub start_plan : Plan → Act World Plan
  start_plan p = do
    append_plan a p
    time ← read_time a
    let running = record p {
      status = "running";
      updated_at = time;
      message = "experiment is running; one approved feature will be evaluated at a time";
    }
    append_plan a running
    pure (public_plan running)

  unfoldable pub create_valid : Request → Act World Plan
  create_valid request = do
    active ← load_active
    refuse (not (is_nil active)) already_active
    baseline ← get_ready_baseline a request.namespace request.baseline_name
    validate_baseline_spec a baseline
    features ← get_features request.feature_profiles
    selected ← select_profile request.slo_profile
    id ← new_id a
    time ← read_time a
    stages ← plan_stages request selected 0 request.baseline_name baseline.spec.base_refs features
    start_plan (planned request selected id time stages)

  unfoldable pub validated : Outcome ExperimentError Request → Act World Plan
  validated (err e) = fail e
  validated (ok request) = create_valid request

  unfoldable pub create : Request → Act World Plan
  create request = validated (validate_request a request)

  -- Get.
  unfoldable pub get : String → Act World Plan
  unfolding trim_space
  get id = load_plan a (trim_space id) >>= λ p. pure (public_plan p)
