-- ===== src/Experiment/Examples.antt =====
-- A cluster with a baseline that is Ready and a feature that is approved, and a plan of one stage.
use infernex_agent.Prelude.{
  ℕ, ◌+◌, ◌≡◌, ◌↔◌, refl, true, false, if◌then◌else◌, Option, none, some, String, [], ◌∷◌, str_eq,
  Outcome, ok, err,
}
use infernex_agent.Prelude.Int.{pos}
use infernex_agent.Changes.Record.{ChangeRecord}
use infernex_agent.Diagnostics.{Report, compare}
use infernex_agent.Experiment.{
  Service, ServiceConfig, Settings, Request, Stage, Plan, ReadError, not_found, ExperimentError,
  Api,
}
use infernex_agent.Experiment.Machine.{
  saved, State, pure, fail, gets, attempt, call, ◌>>=◌, modify, set, read_time, check_context,
  wait_context, new_id, get_service, create_service, append_plan, save_plan,
}
use infernex_agent.Experiment.Candidate.{
  value_at, is_true, terminal_degraded, is_stable, is_owned, after_baseline, get_ready_baseline,
  validate_baseline_spec, get_approved_feature, verify_owned_candidate, candidate_service,
  start_stage, start_if_new, await_readiness, after_applied, after_creation, journal,
  create_candidate, adopt_or_create, encoded, place_candidate, ensure_candidate,
}
use infernex_agent.Experiment.Stages.{finish_stage, after_commit, commit_stage, pass_stage}
use infernex_agent.Experiment.Monitor.{
  ended, poll, complete, soak_if_new, soak, settle, judged, compared, diagnose, diagnose_if_due,
  with_owned, with_candidate, with_baseline, watch, round, rounds, monitor_stage,
}
use infernex_agent.Experiment.Plans.{
  find_plan, get_elem?, after_ensure, run_stage, hold_plan, hold_stage, after_load, load_plan,
  resume_if_planned, run_current, advance, pass, run_plan,
}
use infernex_agent.Experiment.Validate.{trim_profiles, validate_request}
use infernex_agent.Experiment.Validate.Sound.{trimmed, IsValid, validate_request-ok_iff}
use infernex_agent.Experiment.Create.{
  load_active, get_features, select_profile, check_mapping, absent, require_absent, fingerprints_if,
  plan_stages, start_plan, create_valid, validated, create,
}
use infernex_agent.Experiment.Created.{writes, IsCreated}
use infernex_agent.Experiment.Created.Requests.{create-IsCreated}
use infernex_agent.Experiment.Progress.{terms_of, Linked, IsProgressive, IsKept, IsSafe}
use infernex_agent.Experiment.Progress.Runs.{run_plan-IsSafe}
use infernex_agent.Experiment.Progress.Completed.{AllEarned, last_candidate, run_plan-AllEarned}

abbrev baseline : Service
baseline = record {
  namespace = "models";
  name = "chat";
  uid = "u1";
  generation = pos 1;
  observed_generation = pos 1;
  is_ready = true;
  conditions = [];
  labels = [];
  annotations = [];
  spec = record {
    base_refs = "base" ∷ [];
    has_engine = false;
    has_components = false;
    has_routing = false;
    rest = "";
  };
}

abbrev feature : ServiceConfig
feature = record {
  uid = "f1";
  labels = ("agent.infernex.io/approved-experiment-feature", "true") ∷ [];
  spec = record { has_source_ref = false; has_model = false; base_refs = []; rest = "cache" };
}

abbrev settings : Settings
settings = record {
  has_slo_profiles = false;
  has_slo_runner = false;
  template_namespace = "templates";
  readiness_timeout = 100;
  soak_duration = 10;
  poll_interval = 5;
  diagnostic_interval = 20;
  diagnostics_minutes = 15;
}

abbrev report : Report
report = record { service = record { namespace = "models"; name = "chat" }; incidents = [] }

-- The world is a clock and the candidate, which is Ready as soon as it is created.
abbrev World : Type 0
World = ℕ × Option Service

abbrev found : String → World → Outcome ReadError Service
found name (time, candidate) =
    if str_eq name "chat"
    then ok baseline
    else elim candidate [ none ↦ err (not_found "not found") | some s ↦ ok s ]

abbrev change : ChangeRecord
change = record {
  api_version = "agent.infernex.io/v1alpha1";
  kind = "InferNexChange";
  id = "c1";
  action = "experiment-stage";
  status = "planned";
  target = record { api_version = "v1"; kind = ""; namespace = "models"; name = ""; uid = "" };
  before = "";
  desired = "{}";
  occurred_at = pos 2;
  message = "";
}

abbrev cluster : Api
cluster = record {
  World = World;
  settings = settings;
  get_service = λ namespace name w. (found name w, w);
  get_config = λ namespace name w. (ok feature, w);
  create = λ s w. (ok tt, (w.0, some (record s { uid = "u2"; is_ready = true })));
  delete = λ s w. (ok tt, (w.0, none));
  new_id = λ w. (ok "c1", w);
  now = λ w. (w.0, w);
  wait = λ duration w. (w.0 + duration, w.1);
  is_cancelled = λ w. false;
  append_change = λ r w. (ok tt, w);
  latest_change = λ id w. (ok change, w);
  can_save = λ p w. (true, w);
  can_load = λ id w. (true, w);
  can_list = λ w. (true, w);
  diagnose = λ namespace name minutes w. (ok report, w);
  run_slo = λ r w. (err "no runner", w);
  is_dns_label = λ s. true;
  is_dns_subdomain = λ s. true;
  group_version = "v1";
  same_spec = λ x y. str_eq x.rest y.rest;
  encode_service = λ s. some "{}";
  encode_spec = λ s. some "{}";
  sum = λ s. s;
  config_sha256 = λ s. s.rest;
  slo_profile = λ name. err "unknown";
  canonical_endpoint = λ s. s;
  parse_profile = λ s. none;
  show_duration = λ d. "a while";
  error_text = λ e. "failed";
}

abbrev stage : Stage
stage = record {
  feature_uid = "f1";
  feature_spec_sha256 = "cache";
  template_fingerprints = [];
  slo = none;
  index = 0;
  feature_profile = "prefix-cache";
  baseline_name = "chat";
  candidate_name = "trial-s01";
  status = "pending";
  change_id = "";
  started_at = 0;
  ready_at = 0;
  completed_at = 0;
  message = "";
  comparison = none;
}

abbrev plan : Plan
plan = record {
  slo_gate_mode = "disabled";
  slo_profile = "";
  slo_profile_sha256 = "";
  slo_snapshot = none;
  id = "e1";
  namespace = "models";
  baseline_name = "chat";
  candidate_prefix = "trial";
  feature_profiles = "prefix-cache" ∷ [];
  status = "running";
  current_stage = 0;
  stable_service = "chat";
  created_at = 1;
  updated_at = 1;
  message = "";
  stages = stage ∷ [];
}

abbrev at_start : State World
at_start = record {
  world = (2, none);
  log = saved plan ∷ [];
  plan = plan;
  index = 0;
  stage = stage;
}

plan-IsProgressive : IsProgressive plan
plan-IsProgressive = record {
  linked = (refl, refl, tt);
  passed = tt;
  stable = refl;
  all_passed = λ e. cc;
}

plan-IsKept : IsKept cluster plan
plan-IsKept = record {
  progressive = plan-IsProgressive;
  sound = (record { healthy = λ _. tt; earned = λ e. cc }, tt);
}

run_plan-IsSafe_example : IsSafe cluster "e1" (run_plan cluster 3 30 "e1" at_start).1.log
run_plan-IsSafe_example = run_plan-IsSafe cluster "e1" 3 30 at_start (plan-IsKept, tt)

-- The plan as the run leaves it.
abbrev final_stage : Stage
final_stage = record stage {
  status = "passed";
  change_id = "c1";
  started_at = 2;
  ready_at = 2;
  completed_at = 22;
  message = "feature stage passed; candidate is the next stable baseline";
  comparison = some (record {
    healthy = true;
    baseline_critical = 0;
    candidate_critical = 0;
    regression_categories = [];
    baseline = record { namespace = "models"; name = "chat" };
    candidate = record { namespace = "models"; name = "chat" };
  });
}

abbrev final_plan : Plan
final_plan = record plan {
  status = "completed";
  current_stage = 1;
  stable_service = "trial-s01";
  updated_at = 22;
  message = "all approved feature stages passed readiness, diagnostics comparison, and soak gates";
  stages = final_stage ∷ [];
}

run_plan-final : find_plan "e1" (run_plan cluster 3 30 "e1" at_start).1.log ≡ some final_plan
unfolding pure fail gets attempt call ◌>>=◌ modify set read_time check_context wait_context new_id
    get_service create_service append_plan save_plan value_at is_true terminal_degraded is_stable
    is_owned after_baseline get_ready_baseline validate_baseline_spec get_approved_feature
    verify_owned_candidate candidate_service start_stage start_if_new await_readiness after_applied
    after_creation journal create_candidate adopt_or_create encoded place_candidate ensure_candidate
    finish_stage after_commit commit_stage pass_stage ended poll complete soak_if_new soak settle
    judged compared diagnose diagnose_if_due with_owned with_candidate with_baseline watch round
    rounds monitor_stage find_plan get_elem? after_ensure run_stage hold_plan hold_stage after_load
    load_plan resume_if_planned run_current advance pass run_plan compare
run_plan-final = refl

run_plan-AllEarned_example :
    AllEarned cluster (terms_of final_plan) final_plan.stages
    × Linked 0 "chat" final_plan.stages
    × (final_plan.stable_service ≡ last_candidate "chat" final_plan.stages)
run_plan-AllEarned_example =
    run_plan-AllEarned cluster "e1" 3 30 at_start final_plan (plan-IsKept, tt) run_plan-final refl

abbrev request : Request
request = record {
  namespace = " models";
  baseline_name = "chat";
  candidate_prefix = "trial";
  slo_profile = "";
  feature_profiles = "prefix-cache" ∷ [];
  confirm = true;
}

abbrev at_first : State World
at_first = record at_start { log = [] }

abbrev after_create : Outcome ExperimentError Plan × State World
after_create = create cluster request at_first

abbrev created_plan : Plan
created_plan = record plan {
  id = "c1";
  created_at = 2;
  updated_at = 2;
  message = "experiment is running; one approved feature will be evaluated at a time";
}

create-IsCreated_example :
    (IsSafe cluster "c1" after_create.1.log × (writes after_create.1.log ≡ 0))
    × IsCreated cluster request [] created_plan after_create.1.log
unfolding create validated validate_request trim_profiles create_valid ◌>>=◌ load_active call gets
    pure fail get_ready_baseline get_service modify after_baseline is_stable terminal_degraded
    validate_baseline_spec get_features get_approved_feature is_true value_at select_profile new_id
    read_time plan_stages check_mapping require_absent absent fingerprints_if start_plan append_plan
create-IsCreated_example = create-IsCreated cluster "c1" request at_first tt

validate_request-ok_iff_example :
    (validate_request cluster request ≡ ok (trimmed request))
    ↔ ((trimmed request ≡ trimmed request) × IsValid cluster (trimmed request))
validate_request-ok_iff_example = validate_request-ok_iff cluster request (trimmed request)
