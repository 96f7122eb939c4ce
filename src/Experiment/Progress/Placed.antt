-- ===== src/Experiment/Progress/Placed.antt =====
-- A candidate is created where none was.
use mathlib.Core.Path.{subst}
use infernex_agent.Prelude.{◌≡◌, refl, sym, String, Outcome, ok, err}
use infernex_agent.Prelude.Dict.{lookup}
use infernex_agent.Changes.Record.{ChangeRecord}
use infernex_agent.Experiment.{
  Service, Stage, Plan, ReadError, not_found, failed, Api, not_journaled,
}
use infernex_agent.Experiment.Machine.{State, call, create_service}
use infernex_agent.Experiment.Machine.Keeps.{
  Moves, Keeps, Keeps-pure, Keeps-fail, Keeps-attempt, Keeps-or_else, Keeps-bind, Moves-bind,
  Moves-gets, Moves-modify, Moves-before, keeps_rules,
}
use infernex_agent.Experiment.Candidate.{
  value_at, verify_owned_candidate, candidate_service, stage_change, start_stage, start_if_new,
  await_readiness, after_applied, after_creation, journal, create_candidate, adopt_or_create,
  place_candidate, ensure_candidate,
}
use infernex_agent.Experiment.Progress.{WasMissing, HasOwner, Open}
use infernex_agent.Experiment.Progress.Reads.{
  call-Keeps, get_service-Keeps, read_time-Keeps, new_id-Keeps, get_ready_baseline-Keeps,
  validate_baseline_spec-Keeps, get_approved_feature-Keeps, encoded-Keeps,
}
use infernex_agent.Experiment.Progress.Chain.{Open-IsSound, texts_differ}
use infernex_agent.Experiment.Progress.Saved.{
  Running, Running-moved, Running-IsReadable, with_stage-Running, save_plan-Running,
}
use infernex_agent.Experiment.Progress.Owned.{
  After, get_service-Moves, forget, weaken, delete_owned_candidate-Running,
}

ruleset open_rules = (
  keeps_rules, Running-IsReadable, call-Keeps, get_service-Keeps, read_time-Keeps,
  get_service-Keeps,
)

module _ (a : Api) (id : String) where
  open a use {World}

  call-After :
      {A : Type 0} (namespace name : String) (found : Outcome ReadError Service)
      (f : World → A × World)
      → Keeps (After a id (Open a) namespace name found) (call f)
  unfolding call
  call-After namespace name found f = record {
    at = λ s h. ((call-Keeps a (Running-IsReadable a id (Open a)) f).at s h.0, h.1);
  }

  journal-After :
      (namespace name : String) (found : Outcome ReadError Service) (change : ChangeRecord)
      (known : Outcome String ChangeRecord)
      → Keeps (After a id (Open a) namespace name found) (journal a change known)
  unfolding journal
  journal-After namespace name found change (ok _) = Keeps-pure _
  journal-After namespace name found change (err _) =
      Keeps-bind _ _ (call-After namespace name found _) (λ r. Keeps-or_else not_journaled r)

  create_service-Moves :
      (desired : Service) (text : String)
      → HasOwner id desired
      → Moves
          (After a id (Open a) desired.namespace desired.name (err (not_found text)))
          (Running a id (Open a))
          (create_service a desired)
  unfolding create_service
  create_service-Moves desired text owner =
      Moves-before _ _
        (Moves-modify _ λ t h. Running-moved a id (Open a) t t.world _ h.0 (
          owner,
          subst (WasMissing desired.namespace desired.name) (sym h.1.1) (refl, refl),
          h.0.safe,
        ))
        λ _. call-Keeps a (Running-IsReadable a id (Open a)) _

  await_readiness-Running :
      (message : String) → Keeps (Running a id (Open a)) (await_readiness a message)
  unfolding await_readiness
  await_readiness-Running message =
      Keeps-bind _ _
        (Moves-modify _ (
          with_stage-Running a id (Open a) _ (λ t. (refl, refl, refl))
            (λ g t h. (texts_differ "waiting-ready" "passed" refl, h.1))))
        λ _. save_plan-Running a id (Open a) (Open-IsSound a)

  after_applied-Running :
      (desired : Service) (change_id : String) (stored : Outcome String (Unit {0}))
      → Keeps (Running a id (Open a)) (after_applied a desired id change_id stored)
  unfolding after_applied
  after_applied-Running desired change_id (ok _) = await_readiness-Running _
  after_applied-Running desired change_id (err _) =
      Keeps-bind _ _
        (Keeps-attempt _ (
          delete_owned_candidate-Running a id (Open a) desired.namespace desired.name id change_id
            refl))
        λ r. Keeps-fail _

  after_creation-Running :
      (change : ChangeRecord) (desired : Service) (created : Outcome String (Unit {0}))
      → Keeps (Running a id (Open a)) (after_creation a id change desired created)
  unfolding after_creation
  after_creation-Running change desired (err text) = search open_rules
  after_creation-Running change desired (ok _) = search (open_rules, after_applied-Running)

  create_candidate-Moves :
      (change : ChangeRecord) (desired : Service) (text : String)
      → HasOwner id desired
      → Moves
          (After a id (Open a) desired.namespace desired.name (err (not_found text)))
          (Running a id (Open a))
          (create_candidate a id change desired)
  unfolding create_candidate
  create_candidate-Moves change desired text owner =
      let clear = forget a id (Open a) desired.namespace desired.name (err (not_found text)) in
      Moves-bind _ _ clear (call-After _ _ _ _) λ known.
        Moves-bind _ _ clear (journal-After _ _ _ change known) λ _.
          Moves-before _ _ (create_service-Moves desired text owner)
            (after_creation-Running change desired)

  adopt_or_create-Moves :
      (change : ChangeRecord) (desired : Service) (found : Outcome ReadError Service)
      → HasOwner id desired
      → Moves
          (After a id (Open a) desired.namespace desired.name found)
          (Running a id (Open a))
          (adopt_or_create a id change desired found)
  unfolding adopt_or_create verify_owned_candidate
  adopt_or_create-Moves change desired (ok current) owner =
      weaken a id (Open a) desired.namespace desired.name _ _
        (search (open_rules, await_readiness-Running))
  adopt_or_create-Moves change desired (err (not_found text)) owner =
      create_candidate-Moves change desired text owner
  adopt_or_create-Moves change desired (err (failed _)) owner =
      weaken a id (Open a) desired.namespace desired.name _ _ (Keeps-fail _)

  candidate_service-HasOwner :
      (p : Plan) (t : Stage) (baseline : Service)
      → p.id ≡ id
      → HasOwner id (candidate_service a p t baseline)
  unfolding candidate_service value_at lookup
  candidate_service-HasOwner p t baseline same = (refl, same)

  place-Moves :
      (s : State World) (baseline : Service) (raw : String) (found : Outcome ReadError Service)
      → s.plan.id ≡ id
      → Moves
          (After a id (Open a) s.plan.namespace s.stage.candidate_name found)
          (Running a id (Open a))
          (adopt_or_create a s.plan.id
            (stage_change a s.plan s.stage raw)
            (candidate_service a s.plan s.stage baseline)
            found)
  unfolding candidate_service
  place-Moves s baseline raw found same =
      let change = stage_change a s.plan s.stage raw in
      let desired = candidate_service a s.plan s.stage baseline in
      subst
        (λ i.
          Moves (After a id (Open a) s.plan.namespace s.stage.candidate_name found)
            (Running a id (Open a)) (adopt_or_create a i change desired found))
        (sym same)
        (adopt_or_create-Moves change desired found
          (candidate_service-HasOwner s.plan s.stage baseline same))

  place_candidate-Running :
      (baseline : Service) → Keeps (Running a id (Open a)) (place_candidate a baseline)
  unfolding place_candidate
  place_candidate-Running baseline = Moves-gets _ _ λ s h.
      Keeps-bind _ _ (encoded-Keeps a (Running-IsReadable a id (Open a)) _) λ raw.
        get_service-Moves a id (Open a) _ _ _ λ found. place-Moves s baseline raw found h.same_id

  start_stage-Running : Keeps (Running a id (Open a)) (start_stage a)
  unfolding start_stage
  start_stage-Running =
      Keeps-bind _ _ (new_id-Keeps a (Running-IsReadable a id (Open a))) λ change_id.
        Keeps-bind _ _
          (Moves-modify _
            (with_stage-Running a id (Open a) _ (λ t. (refl, refl, refl)) (λ g t h. h)))
          λ _. Keeps-bind _ _ (read_time-Keeps a (Running-IsReadable a id (Open a))) λ time.
            Keeps-bind _ _
              (Moves-modify _ (
                with_stage-Running a id (Open a) _ (λ t. (refl, refl, refl))
                  (λ g t h. (texts_differ "creating" "passed" refl, h.1))))
              λ _. save_plan-Running a id (Open a) (Open-IsSound a)

  start_if_new-Running : Keeps (Running a id (Open a)) (start_if_new a)
  unfolding start_if_new
  start_if_new-Running = search (open_rules, start_stage-Running)

  -- ensureCandidate keeps the invariant whether it succeeds or fails.
  pub ensure_candidate-Running : Keeps (Running a id (Open a)) (ensure_candidate a)
  unfolding ensure_candidate
  ensure_candidate-Running =
      search
        (
          open_rules, get_ready_baseline-Keeps, validate_baseline_spec-Keeps,
          get_approved_feature-Keeps, start_if_new-Running, place_candidate-Running,
        )
        depth 12
