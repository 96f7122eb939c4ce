-- ===== src/Experiment/Progress/Reads.antt =====
-- What the actions that only read the cluster keep.
use infernex_agent.Prelude.{ℕ, zero, suc, none, some, String, List, [], ◌∷◌, Outcome, ok, err}
use infernex_agent.Experiment.{Service, ReadError, not_encoded, Api}
use infernex_agent.Experiment.Machine.{
  read, State, Act, pure, fail, call, read_time, check_context, wait_context, new_id, get_service,
}
use infernex_agent.Experiment.Machine.Keeps.{
  Keeps, Keeps-pure, Keeps-fail, Keeps-or_else, Keeps-bind, Moves-modify, keeps_rules,
}
use infernex_agent.Experiment.Candidate.{
  after_baseline, get_ready_baseline, get_approved_feature, verify_owned_candidate,
  validate_baseline_spec, encoded,
}
use infernex_agent.Experiment.Gate.{check_feature_identity, identity_or_fail, service_identity}
use infernex_agent.Experiment.Gate.Templates.{
  Graph, visit_refs, expand, enter, visit, template_fingerprints, check_template_fingerprints,
}

-- The environment may change, and reads may be logged.
pub record IsReadable {World : Type 0} (P : State World → Type 0) : Type 0 where
  pub on_world : (s : State World) (w : World) → P s → P (record s { world = w })
  pub on_read :
      (s : State World) (namespace name : String) (found : Outcome ReadError Service)
      → P s
      → P (record s { log = read namespace name found ∷ s.log })

module _ (a : Api) {P : State a.World → Type 0} (reads : IsReadable P) where
  open a use {World}

  pub call-Keeps : {A : Type 0} (f : World → A × World) → Keeps P (call f)
  unfolding call
  call-Keeps f = record { at = λ s h. reads.on_world s _ h }

  pub read_time-Keeps : Keeps P (read_time a)
  unfolding read_time
  read_time-Keeps = call-Keeps _

  pub check_context-Keeps : Keeps P (check_context a)
  unfolding check_context
  check_context-Keeps = search keeps_rules

  pub wait_context-Keeps : (duration : ℕ) → Keeps P (wait_context a duration)
  unfolding wait_context
  wait_context-Keeps duration =
      Keeps-bind _ _ (Moves-modify _ λ s h. reads.on_world s _ h) λ _. check_context-Keeps

  pub new_id-Keeps : Keeps P (new_id a)
  unfolding new_id
  new_id-Keeps = search (keeps_rules, call-Keeps)

  pub get_service-Keeps : (namespace name : String) → Keeps P (get_service a namespace name)
  unfolding get_service
  get_service-Keeps namespace name = Keeps-bind _ _ (call-Keeps _) λ found.
      Keeps-bind _ _ (Moves-modify _ (λ s h. reads.on_read s namespace name found h))
        λ _. Keeps-pure _

  pub after_baseline-Keeps : (found : Outcome ReadError Service) → Keeps P (after_baseline a found)
  unfolding after_baseline
  after_baseline-Keeps (ok s) = search keeps_rules
  after_baseline-Keeps (err _) = Keeps-fail _

  pub get_ready_baseline-Keeps :
      (namespace name : String) → Keeps P (get_ready_baseline a namespace name)
  unfolding get_ready_baseline
  get_ready_baseline-Keeps namespace name =
      search (keeps_rules, get_service-Keeps, after_baseline-Keeps)

  pub get_approved_feature-Keeps : (name : String) → Keeps P (get_approved_feature a name)
  unfolding get_approved_feature
  get_approved_feature-Keeps name = search (keeps_rules, call-Keeps) depth 12

  pub verify_owned_candidate-Keeps :
      (s : Service) (experiment_id change_id : String)
      → Keeps P (verify_owned_candidate a s experiment_id change_id)
  unfolding verify_owned_candidate
  verify_owned_candidate-Keeps s experiment_id change_id = search keeps_rules

  pub validate_baseline_spec-Keeps : (s : Service) → Keeps P (validate_baseline_spec a s)
  unfolding validate_baseline_spec
  validate_baseline_spec-Keeps s = search keeps_rules

  pub encoded-Keeps : (s : Service) → Keeps P (encoded a s)
  unfolding encoded
  encoded-Keeps s =
      elim (a.encode_service s)
        as (λ o. Keeps P (elim o [ none ↦ fail not_encoded | some raw ↦ pure raw ])) [
          | none ↦ Keeps-fail _
          | some raw ↦ Keeps-pure raw
        ]

  pub visit_refs-Keeps :
      (visit : String → Graph → Act World Graph) (names : List String) (g : Graph)
      → ((name : String) (g : Graph) → Keeps P (visit name g))
      → Keeps P (visit_refs visit names g)
  unfolding visit_refs
  visit_refs-Keeps visit [] g k = Keeps-pure g
  visit_refs-Keeps visit (name ∷ names) g k =
      Keeps-bind _ _ (k name g) (λ g'. visit_refs-Keeps visit names g' k)

  pub expand-Keeps :
      (visit : String → Graph → Act World Graph) (name : String) (g : Graph)
      → ((name : String) (g : Graph) → Keeps P (visit name g))
      → Keeps P (expand a visit name g)
  unfolding expand
  expand-Keeps visit name g k = Keeps-bind _ _ (call-Keeps _) λ found.
      Keeps-bind _ _ (Keeps-or_else _ found)
        λ config. Keeps-bind _ _ (visit_refs-Keeps visit _ _ k) (λ g'. Keeps-pure _)

  pub enter-Keeps :
      (name : String) (g : Graph) (expanded : Act World Graph)
      → Keeps P expanded
      → Keeps P (enter a name g expanded)
  unfolding enter
  enter-Keeps name g expanded k = search keeps_rules depth 8

  pub visit-Keeps : (levels : ℕ) (name : String) (g : Graph) → Keeps P (visit a levels name g)
  unfolding visit
  visit-Keeps zero name g = Keeps-fail _
  visit-Keeps (suc levels) name g =
      enter-Keeps name g _ (expand-Keeps (visit a levels) name g (visit-Keeps levels))

  pub template_fingerprints-Keeps : (names : List String) → Keeps P (template_fingerprints a names)
  unfolding template_fingerprints
  template_fingerprints-Keeps names =
      Keeps-bind _ _ (visit_refs-Keeps _ names _ (visit-Keeps 33)) (λ g. Keeps-pure _)

  pub check_template_fingerprints-Keeps :
      (baseline candidate : Service) → Keeps P (check_template_fingerprints a baseline candidate)
  unfolding check_template_fingerprints
  check_template_fingerprints-Keeps baseline candidate =
      search (keeps_rules, template_fingerprints-Keeps) depth 8

  pub check_feature_identity-Keeps : Keeps P (check_feature_identity a)
  unfolding check_feature_identity
  check_feature_identity-Keeps = search (keeps_rules, get_approved_feature-Keeps) depth 8

  pub identity_or_fail-Keeps : (s : Service) → Keeps P (identity_or_fail a s)
  unfolding identity_or_fail
  identity_or_fail-Keeps s =
      elim (service_identity a s)
        as (λ o. Keeps P (elim o [ none ↦ fail not_encoded | some i ↦ pure i ])) [
          | none ↦ Keeps-fail _
          | some i ↦ Keeps-pure i
        ]
