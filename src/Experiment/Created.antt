-- ===== src/Experiment/Created.antt =====
-- What Create makes of a request.
pub mod Steps
pub mod Requests
use mathlib.Core.Path.{subst}
use infernex_agent.Prelude.{
  ℕ, zero, suc, ◌+◌, ◌≡◌, refl, sym, ap, ◌∙◌, Bool, true, false, not, Option, none, some, String,
  List, [], ◌∷◌, map, arith, str_eq, eq_refl, is_nil, if◌then◌else◌, Outcome, ok, err,
}
use infernex_agent.Prelude.Dict.{Dict}
use infernex_agent.Experiment.{
  Service, ServiceConfig, SloProfile, Request, Stage, Plan, ReadError, not_found, failed,
  ExperimentError, already_active, invalid_candidate, not_saved, Api,
}
use infernex_agent.Experiment.Machine.{
  Event, read, deleted, created, saved, State, Act, pure, fail, call, gets, ◌>>=◌, refuse, modify,
  append_plan,
}
use infernex_agent.Experiment.Machine.Keeps.{
  Moves, Keeps, Keeps-pure, Keeps-fail, Keeps-or_else, Keeps-bind, Moves-if, keeps_rules,
}
use infernex_agent.Experiment.Machine.Yields.{
  Verdict, Yields, Yields-pure, Yields-fail, Yields-if, Yields-bind, Yields-gets, Yields-modify,
  Yields-from, Keeps-Yields,
}
use infernex_agent.Experiment.Validate.{validate_request}
use infernex_agent.Experiment.Plans.{find_plan}
use infernex_agent.Experiment.Create.{
  latest_plans, active_plans, candidate_name, public_plan, load_active, get_features,
  select_profile, check_endpoints, check_mapping, absent, require_absent, fingerprints_if,
  new_stage, plan_stages, planned, start_plan, create_valid, validated, create,
}
use infernex_agent.Experiment.Progress.{
  Terms, Healthy, IsSafe, Linked, IsProgressive, IsKept, IsSound, AllSound,
}
use infernex_agent.Experiment.Progress.Chain.{texts_differ}
use infernex_agent.Experiment.Progress.Reads.{
  IsReadable, call-Keeps, read_time-Keeps, new_id-Keeps, get_service-Keeps,
  get_ready_baseline-Keeps, validate_baseline_spec-Keeps, get_approved_feature-Keeps,
  template_fingerprints-Keeps,
}

-- The number of changes of the cluster.
abbrev pub writes : List Event → ℕ
writes [] = 0
writes (read namespace name found ∷ log) = writes log
writes (saved p ∷ log) = writes log
writes (deleted s ∷ log) = suc (writes log)
writes (created s ∷ log) = suc (writes log)

-- No stage has begun.
abbrev pub AllPending : List Stage → Type 0
AllPending [] = Unit
AllPending (t ∷ stages) =
    (t.status ≡ "pending") × (t.change_id ≡ "") × (t.comparison ≡ none) × AllPending stages

pub record IsCreated (a : Api) (request : Request) (before : List Event) (p : Plan)
    (after : List Event) : Type 0 where
  pub trimmed : Request
  pub is_valid : validate_request a request ≡ ok trimmed
  pub no_active : active_plans (latest_plans [] before) ≡ []
  pub same_namespace : p.namespace ≡ trimmed.namespace
  pub same_baseline : p.baseline_name ≡ trimmed.baseline_name
  pub same_profiles : map (λ (t : Stage). t.feature_profile) p.stages ≡ trimmed.feature_profiles
  pub is_running : p.status ≡ "running"
  pub linked : Linked 0 p.baseline_name p.stages
  pub pending : AllPending p.stages
  pub stored : Plan
  pub is_stored : find_plan p.id after ≡ some stored
  pub published : public_plan stored ≡ p

pub AllPending-AllSound :
    (a : Api) (terms : Terms) (stages : List Stage) → AllPending stages → AllSound a terms stages
AllPending-AllSound a terms [] h = tt
AllPending-AllSound a terms (t ∷ stages) h = (
  record {
    healthy = λ _. subst (Healthy a terms.namespace t.baseline_name t.candidate_name) (sym h.2) tt;
    earned = λ e. absurd (texts_differ "pending" "passed" refl (sym h.0 ∙ e));
  },
  AllPending-AllSound a terms stages h.3,
)

pub is_nil-eq : {A : Type 0} (xs : List A) → not (is_nil xs) ≡ false → xs ≡ []
is_nil-eq [] h = refl
is_nil-eq (x ∷ xs) h = absurd (ground arith)
