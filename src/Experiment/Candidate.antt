-- ===== src/Experiment/Candidate.antt =====
-- The candidate of a stage in controller.go: its baseline and its feature, ensureCandidate,
-- verifyOwnedCandidate and deleteOwnedCandidate.
use Prim.Native.String.{◌++◌ as add_text}
use infernex_agent.Prelude.{
  ℕ, ◌+◌, Bool, false, not, ◌&&◌, ◌||◌, none, some, String, [], ◌∷◌, str_eq, any, is_nil,
  if◌then◌else◌, Outcome, ok, err,
}
use infernex_agent.Prelude.Text.{trim_space, equal_fold, show_number}
use infernex_agent.Prelude.Dict.{Dict, lookup}
use infernex_agent.Prelude.Int.{pos, ltb_ℤ}
use infernex_agent.Changes.Record.{ChangeRecord}
use infernex_agent.Experiment.{
  Service, ServiceConfig, Stage, Plan, ReadError, not_found, failed, baseline_unread,
  baseline_not_ready, no_base_refs, inline_overrides, feature_unread, feature_not_approved,
  feature_not_sparse, not_encoded, not_owned, spec_drift, candidate_unread, target_unread,
  not_journaled, create_failed, rolled_back, rollback_failed, not_deleted, Api,
}
use infernex_agent.Experiment.Machine.{
  Act, pure, fail, gets, attempt, call, or_else, ◌>>=◌, ◌>>◌, refuse, with_stage, read_time, new_id,
  get_service, delete_service, create_service, save_plan,
}

-- m[key]: empty where the key is missing.
unfoldable pub value_at : String → Dict String → String
unfolding lookup
value_at key d = elim (lookup key d) [ none ↦ "" | some v ↦ v ]

unfoldable pub is_true : String → Bool
unfolding equal_fold trim_space
is_true value = equal_fold (trim_space value) "true"

-- A condition has a type and a status.
is_degraded : String × String → Bool
is_degraded (kind, status) = str_eq kind "Degraded" && str_eq status "True"

unfoldable pub terminal_degraded : Service → Bool
unfolding any is_degraded
terminal_degraded s =
    if ltb_ℤ s.observed_generation s.generation then false else any is_degraded s.conditions

-- The service is Ready at its current generation.
unfoldable pub is_stable : Service → Bool
unfolding terminal_degraded
is_stable s =
    not (not s.is_ready || ltb_ℤ s.observed_generation s.generation || terminal_degraded s)

unfoldable pub is_owned : String → String → Service → Bool
unfolding value_at
is_owned experiment_id change_id s =
    str_eq (value_at "app.kubernetes.io/managed-by" s.labels) "infernex-agent"
    && str_eq (value_at "agent.infernex.io/experiment-id" s.labels) experiment_id
    && str_eq (value_at "agent.infernex.io/change-id" s.annotations) change_id

module _ (a : Api) where
  open a use {World}

  unfoldable pub after_baseline : Outcome ReadError Service → Act World Service
  unfolding is_stable
  after_baseline (err _) = fail baseline_unread
  after_baseline (ok s) = refuse (not (is_stable s)) baseline_not_ready >> pure s

  unfoldable pub get_ready_baseline : String → String → Act World Service
  get_ready_baseline namespace name = get_service a namespace name >>= after_baseline

  unfoldable pub validate_baseline_spec : Service → Act World (Unit {0})
  validate_baseline_spec s = do
    refuse (is_nil s.spec.base_refs) no_base_refs
    refuse (s.spec.has_engine || s.spec.has_components || s.spec.has_routing) inline_overrides

  unfoldable pub get_approved_feature : String → Act World ServiceConfig
  unfolding is_true value_at
  get_approved_feature name = do
    found ← call (a.get_config a.settings.template_namespace name)
    config ← or_else feature_unread found
    refuse (not (is_true (value_at "agent.infernex.io/approved-experiment-feature" config.labels)))
        feature_not_approved
    refuse
        (config.spec.has_source_ref || config.spec.has_model || not (is_nil config.spec.base_refs))
        feature_not_sparse
    pure config

  unfoldable pub verify_owned_candidate : Service → String → String → Act World (Unit {0})
  unfolding is_owned
  verify_owned_candidate s experiment_id change_id =
      refuse (not (is_owned experiment_id change_id s)) not_owned

  unfoldable pub after_deletion : Outcome ReadError (Unit {0}) → Act World (Unit {0})
  after_deletion (ok _) = pure tt
  after_deletion (err (not_found _)) = pure tt
  after_deletion (err (failed _)) = fail not_deleted

  unfoldable pub delete_owned : String → String → Outcome ReadError Service → Act World (Unit {0})
  delete_owned experiment_id change_id (err (not_found _)) = pure tt
  delete_owned experiment_id change_id (err (failed _)) = fail target_unread
  delete_owned experiment_id change_id (ok s) = do
    verify_owned_candidate s experiment_id change_id
    result ← delete_service a s
    after_deletion result

  unfoldable pub delete_owned_candidate : String → String → String → String → Act World (Unit {0})
  delete_owned_candidate namespace name experiment_id change_id =
      get_service a namespace name >>= delete_owned experiment_id change_id

  unfoldable pub candidate_service : Plan → Stage → Service → Service
  candidate_service p t baseline = record {
    namespace = p.namespace;
    name = t.candidate_name;
    uid = "";
    generation = pos 0;
    observed_generation = pos 0;
    is_ready = false;
    conditions = [];
    labels =
        ("app.kubernetes.io/managed-by", "infernex-agent")
        ∷ ("agent.infernex.io/experiment-id", p.id)
        ∷ [];
    annotations =
        ("agent.infernex.io/change-id", t.change_id)
        ∷ ("agent.infernex.io/experiment-baseline", t.baseline_name)
        ∷ ("agent.infernex.io/experiment-feature", t.feature_profile)
        ∷ ("agent.infernex.io/experiment-stage", show_number (t.index + 1))
        ∷ [];
    spec = record baseline.spec { base_refs = t.feature_profile ∷ baseline.spec.base_refs };
  }

  abbrev pub stage_change : Plan → Stage → String → ChangeRecord
  stage_change p t raw = record {
    api_version = "agent.infernex.io/v1alpha1";
    kind = "InferNexChange";
    id = t.change_id;
    action = "experiment-stage";
    status = "planned";
    target = record {
      api_version = a.group_version;
      kind = "InferNexService";
      namespace = p.namespace;
      name = t.candidate_name;
      uid = "";
    };
    before = "";
    desired = raw;
    occurred_at = pos t.started_at;
    message = add_text "baseline " (
        add_text t.baseline_name
          (add_text " retained; adding only approved feature profile " t.feature_profile));
  }

  abbrev pub event : ChangeRecord → String → ℕ → String → ChangeRecord
  event r status time message = record r {
    status = status;
    occurred_at = pos time;
    message = message;
  }

  -- The change of a stage that has none yet is saved before the creation.
  unfoldable pub start_stage : Act World (Unit {0})
  start_stage = do
    id ← new_id a
    with_stage (λ t. record t { change_id = id })
    time ← read_time a
    with_stage (λ t. record t {
      started_at = time;
      status = "creating";
      message = "persisting the candidate before creation";
    })
    save_plan a

  unfoldable pub start_if_new : Act World (Unit {0})
  start_if_new =
      gets (λ s. s.stage.change_id) >>= λ id. if str_eq id "" then start_stage else pure tt

  unfoldable pub await_readiness : String → Act World (Unit {0})
  await_readiness message = do
    with_stage (λ t. record t { status = "waiting-ready"; message = message })
    save_plan a

  -- The candidate was created; a change that cannot be stored rolls it back.
  unfoldable pub after_applied :
      Service → String → String → Outcome String (Unit {0}) → Act World (Unit {0})
  after_applied desired experiment_id change_id (ok _) =
      await_readiness "waiting for the candidate to become Ready"
  after_applied desired experiment_id change_id (err _) =
      attempt (delete_owned_candidate desired.namespace desired.name experiment_id change_id)
      >>= λ r. fail (elim r [ ok _ ↦ rolled_back | err _ ↦ rollback_failed ])

  unfoldable pub after_creation :
      String → ChangeRecord → Service → Outcome String (Unit {0}) → Act World (Unit {0})
  after_creation experiment_id change desired (err text) = do
    time ← read_time a
    _ ← call (a.append_change (event change "apply-failed" time text))
    fail create_failed
  after_creation experiment_id change desired (ok _) = do
    time ← read_time a
    stored ← call (
        a.append_change
          (event change "applied" time "candidate created; readiness and diagnostic gates started"))
    after_applied desired experiment_id change.id stored

  -- The planned change is stored unless it was before.
  unfoldable pub journal : ChangeRecord → Outcome String ChangeRecord → Act World (Unit {0})
  journal change (ok _) = pure tt
  journal change (err _) = call (a.append_change change) >>= or_else not_journaled

  unfoldable pub create_candidate : String → ChangeRecord → Service → Act World (Unit {0})
  create_candidate experiment_id change desired = do
    known ← call (a.latest_change change.id)
    journal change known
    created ← create_service a desired
    after_creation experiment_id change desired created

  unfoldable pub adopt_or_create :
      String → ChangeRecord → Service → Outcome ReadError Service → Act World (Unit {0})
  adopt_or_create experiment_id change desired (ok current) = do
    verify_owned_candidate current experiment_id change.id
    refuse (not (a.same_spec current.spec desired.spec)) spec_drift
    await_readiness "resumed monitoring of the existing owned candidate"
  adopt_or_create experiment_id change desired (err (not_found _)) =
      create_candidate experiment_id change desired
  adopt_or_create experiment_id change desired (err (failed _)) = fail candidate_unread

  unfoldable pub encoded : Service → Act World String
  encoded s = elim (a.encode_service s) [ none ↦ fail not_encoded | some raw ↦ pure raw ]

  unfoldable pub place_candidate : Service → Act World (Unit {0})
  unfolding candidate_service
  place_candidate baseline = do
    s ← gets (λ s. s)
    let desired = candidate_service s.plan s.stage baseline
    raw ← encoded desired
    current ← get_service a s.plan.namespace s.stage.candidate_name
    adopt_or_create s.plan.id (stage_change s.plan s.stage raw) desired current

  unfoldable pub ensure_candidate : Act World (Unit {0})
  ensure_candidate = do
    s ← gets (λ s. s)
    baseline ← get_ready_baseline s.plan.namespace s.stage.baseline_name
    validate_baseline_spec baseline
    _ ← get_approved_feature s.stage.feature_profile
    start_if_new
    place_candidate baseline
