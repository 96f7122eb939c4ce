-- ===== src/Experiment/Created/Requests.antt =====
-- Create, from the request to the plan that it returns.
use infernex_agent.Prelude.{
  ℕ, ◌≡◌, refl, sym, ap, ◌∙◌, Option, some, String, List, [], ◌∷◌, map, eq_refl, if◌then◌else◌,
  Outcome, ok, err,
}
use infernex_agent.Experiment.{
  ServiceConfig, SloProfile, Request, Stage, Plan, ExperimentError, already_active, not_saved, Api,
}
use infernex_agent.Experiment.Machine.{Event, saved, State, Act, call, append_plan}
use infernex_agent.Experiment.Machine.Keeps.{Keeps}
use infernex_agent.Experiment.Machine.Yields.{
  Verdict, Yields, Yields-pure, Yields-fail, Yields-if, Yields-bind, Yields-gets, Yields-modify,
  Yields-from, Keeps-Yields,
}
use infernex_agent.Experiment.Validate.{validate_request}
use infernex_agent.Experiment.Plans.{find_plan}
use infernex_agent.Experiment.Create.{
  latest_plans, active_plans, load_active, planned, start_plan, create_valid, validated, create,
}
use infernex_agent.Experiment.Progress.{IsSafe, IsKept}
use infernex_agent.Experiment.Progress.Chain.{texts_differ}
use infernex_agent.Experiment.Progress.Reads.{
  call-Keeps, read_time-Keeps, new_id-Keeps, get_ready_baseline-Keeps, validate_baseline_spec-Keeps,
}
use infernex_agent.Experiment.Created.{writes, IsCreated, is_nil-eq}
use infernex_agent.Experiment.Created.Steps.{
  Clean, Clean-IsReadable, Makes, first, given, refused, PlannedStages, get_features-Finds,
  select_profile-Keeps, plan_stages-Finds, planned-IsKept,
}

found_saved : (p : Plan) (log : List Event) → find_plan p.id (saved p ∷ log) ≡ some p
unfolding find_plan
found_saved p log = ap (λ b. if b then some p else find_plan p.id log) (eq_refl p.id)

module _ (a : Api) (id : String) (n : ℕ) where
  open a use {World}

  append_plan-Makes :
      (p : Plan)
      → IsKept a p
      → Makes a id n (λ _ s. Clean a id n s × (find_plan p.id s.log ≡ some p)) (append_plan a p)
  unfolding append_plan
  append_plan-Makes p kept = first a id n _ _ (call-Keeps a (Clean-IsReadable a id n) _) λ taken.
      Yields-if taken _ _ (λ _. Yields-modify _ (λ s h. (((kept, h.0), h.1), found_saved p s.log)))
        (λ _. Yields-fail not_saved (λ s h. h))

  -- What is left to do once the stages are there.
  abbrev Published : Request → List Event → Plan → State World → Type 0
  Published request base p s = Clean a id n s × IsCreated a request base p s.log

  module _ (request trimmed : Request) (base : List Event)
      (valid : validate_request a request ≡ ok trimmed)
      (no_active : active_plans (latest_plans [] base) ≡ []) where
    start_plan-Makes :
        (selected : Option (SloProfile × String)) (plan_id : String) (time : ℕ)
        (features : List (String × ServiceConfig)) (stages : List Stage)
        → map (λ (f : String × ServiceConfig). f.0) features ≡ trimmed.feature_profiles
        → PlannedStages a id n 0 trimmed.baseline_name features stages
        → Makes a id n
            (Published request base)
            (start_plan a (planned a trimmed selected plan_id time stages))
    unfolding start_plan
    start_plan-Makes selected plan_id time features stages same made =
        Yields-bind _ _
          (append_plan-Makes (planned a trimmed selected plan_id time stages) (
            planned-IsKept a id n trimmed selected plan_id "planned" time time _ stages made.0
              made.1 (texts_differ "planned" "completed" refl)))
          λ _.
            Yields-from _ (λ s h. h.0)
              (first a id n _ _ (read_time-Keeps a (Clean-IsReadable a id n)) λ updated.
                Yields-bind _ _
                  (append_plan-Makes _ (
                    planned-IsKept a id n trimmed selected plan_id "running" time updated _ stages
                      made.0 made.1 (texts_differ "running" "completed" refl)))
                  λ _. Yields-pure _ λ s h. (
                    h.0,
                    record {
                      trimmed = trimmed;
                      is_valid = valid;
                      no_active = no_active;
                      same_namespace = refl;
                      same_baseline = refl;
                      same_profiles = made.2 ∙ same;
                      is_running = refl;
                      linked = made.0;
                      pending = made.1;
                      stored = _;
                      is_stored = h.1;
                      published = refl;
                    },
                  ))

  call-Based :
      {A : Type 0} (base : List Event) (f : World → A × World)
      → Keeps (λ s. Clean a id n s × (s.log ≡ base)) (call f)
  unfolding call
  call-Based base f = record { at = λ s h. h }

  load_active-Makes :
      (base : List Event)
      → Yields
          (λ s. Clean a id n s × (s.log ≡ base))
          (λ plans s. Clean a id n s × (plans ≡ active_plans (latest_plans [] base)))
          (Clean a id n)
          (load_active a)
  unfolding load_active
  load_active-Makes base =
      Keeps-Yields _ _ (λ s h. h.0) (call-Based base _)
        λ listed. Yields-gets _ _ λ s h.
          Yields-if listed _ _
            (λ _.
              Yields-pure _ (λ t k. (k.0.0, ap (λ log. active_plans (latest_plans [] log)) h.1)))
            (λ _. Yields-fail _ (λ t k. k.0.0))

  given_that :
      {A : Type 0} {Q : A → State World → Type 0} (F : Type 0) (m : Act World A)
      → (F → Makes a id n Q m)
      → Yields (λ s. Clean a id n s × F) Q (Clean a id n) m
  given_that F m k = record { at = λ s h. (k h.1).at s h.0 }

  create_valid-Makes :
      (request trimmed : Request) (base : List Event)
      → validate_request a request ≡ ok trimmed
      → Yields
          (λ s. Clean a id n s × (s.log ≡ base))
          (Published request base)
          (Clean a id n)
          (create_valid a trimmed)
  unfolding create_valid
  create_valid-Makes request trimmed base valid =
      let reads = Clean-IsReadable a id n in
      Yields-bind _ _ (load_active-Makes base) λ active.
        given_that (active ≡ active_plans (latest_plans [] base)) _ λ same.
          refused a id n _ already_active _ λ free.
            let no_active = sym same ∙ is_nil-eq active free in
            first a id n _ _ (get_ready_baseline-Keeps a reads _ _) λ baseline.
              first a id n _ _ (validate_baseline_spec-Keeps a reads baseline) λ _.
                given a id n _ _ (get_features-Finds a id n trimmed.feature_profiles) λ features e.
                  first a id n _ _ (select_profile-Keeps a id n trimmed.slo_profile) λ selected.
                    first a id n _ _ (new_id-Keeps a reads) λ plan_id.
                      first a id n _ _ (read_time-Keeps a reads) λ time.
                        given a id n _ _
                          (plan_stages-Finds a id n trimmed selected 0 trimmed.baseline_name
                            baseline.spec.base_refs features)
                          λ stages made.
                            start_plan-Makes request trimmed base valid no_active selected plan_id
                              time features stages e made

  validated-Makes :
      (request : Request) (base : List Event) (r : Outcome ExperimentError Request)
      → validate_request a request ≡ r
      → Yields
          (λ s. Clean a id n s × (s.log ≡ base))
          (Published request base)
          (Clean a id n)
          (validated a r)
  unfolding validated
  validated-Makes request base (err e) valid = Yields-fail e (λ s h. h.0)
  validated-Makes request base (ok trimmed) valid = create_valid-Makes request trimmed base valid

module _ (a : Api) (id : String) where
  open a use {World}

  -- However the cluster and the stores answer, Create changes no service and leaves every saved
  -- plan well formed, whether it succeeds or fails. A plan that it returns is of a valid request,
  -- trimmed; no plan was active before; its stages are the profiles of the request in their order,
  -- all pending, a chain from the baseline; it is running, and it is what the store now holds, but
  -- for the snapshot of the SLO profile, which is not shown.
  pub create-IsCreated :
      (request : Request) (s : State World)
      → IsSafe a id s.log
      → Verdict
          (λ p t.
            (IsSafe a id t.log × (writes t.log ≡ writes s.log)) × IsCreated a request s.log p t.log)
          (λ t. IsSafe a id t.log × (writes t.log ≡ writes s.log))
          (create a request s).0
          (create a request s).1
  unfolding create
  create-IsCreated request s safe =
      (validated-Makes a id (writes s.log) request s.log (validate_request a request) refl).at s
        ((safe, refl), refl)
