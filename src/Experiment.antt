-- ===== src/Experiment.antt =====
-- The experiment controller, component/InferNex-Agent/internal/experiment: the types of types.go
-- and what controller.go calls. A time is a number of nanoseconds since the zero time, and a
-- duration is positive, as New makes it.
pub mod Machine
pub mod Validate
pub mod Candidate
pub mod Stages
pub mod Gate
pub mod Monitor
pub mod Plans
pub mod Create
pub mod Created
pub mod Progress
mod Examples
use infernex_agent.Prelude.{ℕ, Bool, Option, String, List, Outcome}
use infernex_agent.Prelude.Dict.{Dict}
use infernex_agent.Prelude.Int.{ℤ}
use infernex_agent.Changes.Record.{ChangeRecord}
use infernex_agent.Diagnostics.{Report, Comparison}

-- The parts of InferNexServiceSpec that the code reads; `rest` stands for the others.
pub record Spec : Type 0 where
  pub base_refs : List String
  pub has_engine : Bool
  pub has_components : Bool
  pub has_routing : Bool
  pub rest : String

pub record Service : Type 0 where
  pub namespace : String
  pub name : String
  pub uid : String
  pub generation : ℤ
  pub observed_generation : ℤ
  pub is_ready : Bool
  pub conditions : List (String × String)
  pub labels : Dict String
  pub annotations : Dict String
  pub spec : Spec

-- InferNexServiceConfig, a feature profile or a template.
pub record ConfigSpec : Type 0 where
  pub has_source_ref : Bool
  pub has_model : Bool
  pub base_refs : List String
  pub rest : String

pub record ServiceConfig : Type 0 where
  pub uid : String
  pub labels : Dict String
  pub spec : ConfigSpec

pub record Request : Type 0 where
  pub slo_profile : String
  pub namespace : String
  pub baseline_name : String
  pub candidate_prefix : String
  pub feature_profiles : List String
  pub confirm : Bool

-- slo.Result without its measurements, which are in `evidence`.
pub record SloResult : Type 0 where
  pub run_id : String
  pub decision : String
  pub reason : String
  pub evidence : String

-- slo.Profile, with its encoding.
pub record SloProfile : Type 0 where
  pub endpoints : Dict String
  pub encoded : Option String

pub record SloIdentity : Type 0 where
  pub namespace : String
  pub name : String
  pub uid : String
  pub spec_sha256 : String

pub record Stage : Type 0 where
  pub feature_uid : String
  pub feature_spec_sha256 : String
  pub template_fingerprints : Dict String
  pub slo : Option SloResult
  pub index : ℕ
  pub feature_profile : String
  pub baseline_name : String
  pub candidate_name : String
  pub status : String
  pub change_id : String
  pub started_at : ℕ
  pub ready_at : ℕ
  pub completed_at : ℕ
  pub message : String
  pub comparison : Option Comparison

pub record Plan : Type 0 where
  pub slo_gate_mode : String
  pub slo_profile : String
  pub slo_profile_sha256 : String
  pub slo_snapshot : Option SloProfile
  pub id : String
  pub namespace : String
  pub baseline_name : String
  pub candidate_prefix : String
  pub feature_profiles : List String
  pub status : String
  pub current_stage : ℕ
  pub stable_service : String
  pub created_at : ℕ
  pub updated_at : ℕ
  pub message : String
  pub stages : List Stage

-- Config, as New leaves it.
pub record Settings : Type 0 where
  pub has_slo_profiles : Bool
  pub has_slo_runner : Bool
  pub template_namespace : String
  pub readiness_timeout : ℕ
  pub soak_duration : ℕ
  pub poll_interval : ℕ
  pub diagnostic_interval : ℕ
  pub diagnostics_minutes : ℕ

-- The text is that of the error.
pub data ReadError : Type 0 where
  not_found failed : String → ReadError

pub data ExperimentError : Type 0 where
  invalid_namespace invalid_baseline invalid_prefix invalid_count invalid_profile : ExperimentError
  duplicated not_confirmed already_active not_listed invalid_candidate : ExperimentError
  slo_disabled slo_unknown no_baseline_endpoint no_candidate_endpoint same_endpoint :
      ExperimentError
  candidate_exists target_unchecked : ExperimentError
  baseline_unread baseline_not_ready no_base_refs inline_overrides : ExperimentError
  feature_unread feature_not_approved feature_not_sparse feature_drifted : ExperimentError
  graph_too_large graph_cycle empty_reference template_unread : ExperimentError
  no_fingerprints template_drifted : ExperimentError
  no_id not_encoded not_owned spec_drift candidate_unread target_unread : ExperimentError
  not_journaled create_failed rolled_back rollback_failed not_deleted : ExperimentError
  not_saved plan_unread cancelled out_of_fuel : ExperimentError
  slo_failed change_unread : String → ExperimentError

-- What slo.Runner.Run is asked for, with the deadline of its context.
pub record RunRequest : Type 0 where
  pub run_id : String
  pub experiment_id : String
  pub stage_index : ℕ
  pub change_id : String
  pub profile : SloProfile
  pub profile_sha256 : String
  pub baseline : SloIdentity
  pub candidate : SloIdentity
  pub deadline : ℕ

-- The client, the clock, the context, the store of changes, the diagnoser and the SLO runner act on
-- a world. A plan is written to the store of plans where `can_save` says so, and read where
-- `can_load` or `can_list` do.
pub record Api : Type 1 where
  pub World : Type 0
  pub settings : Settings
  pub get_service : String → String → World → Outcome ReadError Service × World
  pub get_config : String → String → World → Outcome ReadError ServiceConfig × World
  pub create : Service → World → Outcome String (Unit {0}) × World
  pub delete : Service → World → Outcome ReadError (Unit {0}) × World
  pub new_id : World → Outcome String String × World
  pub now : World → ℕ × World
  pub wait : ℕ → World → World
  pub is_cancelled : World → Bool
  pub append_change : ChangeRecord → World → Outcome String (Unit {0}) × World
  pub latest_change : String → World → Outcome String ChangeRecord × World
  pub can_save : Plan → World → Bool × World
  pub can_load : String → World → Bool × World
  pub can_list : World → Bool × World
  pub diagnose : String → String → ℕ → World → Outcome String Report × World
  pub run_slo : RunRequest → World → Outcome String SloResult × World
  pub is_dns_label : String → Bool
  pub is_dns_subdomain : String → Bool
  pub group_version : String
  pub same_spec : Spec → Spec → Bool  -- equality.Semantic.DeepEqual
  pub encode_service : Service → Option String
  pub encode_spec : Spec → Option String
  pub sum : String → String  -- the SHA-256 sum in hex
  pub config_sha256 : ConfigSpec → String  -- specSHA256
  pub slo_profile : String → Outcome String (SloProfile × String)  -- SLOProfiles.Lookup
  pub canonical_endpoint : String → String  -- slo.CanonicalEndpoint
  pub parse_profile : String → Option String  -- the hash that slo.ParseProfile returns
  pub show_duration : ℕ → String
  pub error_text : ExperimentError → String  -- Error()
