-- ===== src/Experiment/Created/Steps.antt =====
-- The steps of Create.
use mathlib.Core.Path.{subst}
use infernex_agent.Prelude.{
  ℕ, suc, ◌+◌, ◌≡◌, ◌≢◌, refl, ap, Bool, false, Option, none, some, String, List, [], ◌∷◌, map,
  arith, Outcome, ok, err,
}
use infernex_agent.Experiment.{
  Service, ServiceConfig, SloProfile, Request, Stage, ReadError, not_found, failed, ExperimentError,
  invalid_candidate, Api,
}
use infernex_agent.Experiment.Machine.{State, Act, ◌>>=◌, refuse}
use infernex_agent.Experiment.Machine.Keeps.{Keeps, Keeps-pure, Keeps-fail, Keeps-bind, keeps_rules}
use infernex_agent.Experiment.Machine.Yields.{
  Yields, Yields-pure, Yields-fail, Yields-if, Yields-bind, Keeps-Yields,
}
use infernex_agent.Experiment.Create.{
  candidate_name, get_features, select_profile, check_endpoints, check_mapping, absent,
  require_absent, fingerprints_if, plan_stages, planned,
}
use infernex_agent.Experiment.Progress.{IsSafe, Linked, IsKept}
use infernex_agent.Experiment.Progress.Reads.{
  IsReadable, get_service-Keeps, get_approved_feature-Keeps, template_fingerprints-Keeps,
}
use infernex_agent.Experiment.Created.{writes, AllPending, AllPending-AllSound}

module _ (a : Api) (id : String) (n : ℕ) where
  open a use {World}

  -- The log is safe, and the cluster was changed n times.
  abbrev pub Clean : State World → Type 0
  Clean s = IsSafe a id s.log × (writes s.log ≡ n)

  pub Clean-IsReadable : IsReadable Clean
  Clean-IsReadable = record { on_world = λ s w h. h; on_read = λ s namespace name found h. h }

  abbrev pub Makes : {A : Type 0} → (A → State World → Type 0) → Act World A → Type 0
  Makes Q m = Yields Clean Q Clean m

  -- What is found out does not depend on the state.
  abbrev pub Finds : {A : Type 0} → (A → Type 0) → Act World A → Type 0
  Finds F m = Makes (λ x s. Clean s × F x) m

  pub first :
      {A B : Type 0} {Q : B → State World → Type 0} (m : Act World A) (f : A → Act World B)
      → Keeps Clean m
      → ((x : A) → Makes Q (f x))
      → Makes Q (m >>= f)
  first m f km kf = Keeps-Yields m f (λ s h. h) km kf

  pub given :
      {A B : Type 0} {F : A → Type 0} {Q : B → State World → Type 0} (m : Act World A)
      (f : A → Act World B)
      → Finds F m
      → ((x : A) → F x → Makes Q (f x))
      → Makes Q (m >>= f)
  given m f km kf = Yields-bind m f km (λ x. record { at = λ s h. (kf x h.1).at s h.0 })

  pub refused :
      {B : Type 0} {Q : B → State World → Type 0} (bad : Bool) (e : ExperimentError)
      (f : Unit {0} → Act World B)
      → (bad ≡ false → Makes Q (f tt))
      → Makes Q (refuse bad e >>= f)
  refused bad e f k =
      given {F = λ _. bad ≡ false} _ f
        (Yields-if bad _ _ (λ _. Yields-fail e (λ s h. h)) (λ g. Yields-pure tt (λ s h. (h, g))))
        (λ _ g. k g)

  pub get_features-Finds :
      (profiles : List String)
      → Finds
          (λ features. map (λ (f : String × ServiceConfig). f.0) features ≡ profiles)
          (get_features a profiles)
  unfolding get_features
  get_features-Finds [] = Yields-pure [] (λ s h. (h, refl))
  get_features-Finds (profile ∷ profiles) =
      first _ _ (get_approved_feature-Keeps a Clean-IsReadable profile) λ feature.
        given _ _ (get_features-Finds profiles)
          λ features same. Yields-pure _ (λ s h. (h, ap (λ names. profile ∷ names) same))

  pub select_profile-Keeps : (name : String) → Keeps Clean (select_profile a name)
  unfolding select_profile
  select_profile-Keeps name = search keeps_rules depth 8

  check_endpoints-Keeps : (x y : Option String) → Keeps Clean (check_endpoints a x y)
  unfolding check_endpoints
  check_endpoints-Keeps none y = Keeps-fail _
  check_endpoints-Keeps (some x) none = Keeps-fail _
  check_endpoints-Keeps (some x) (some y) = search keeps_rules

  check_mapping-Keeps :
      (selected : Option (SloProfile × String)) (namespace stable name : String)
      → Keeps Clean (check_mapping a selected namespace stable name)
  unfolding check_mapping
  check_mapping-Keeps none namespace stable name = Keeps-pure _
  check_mapping-Keeps (some (p, hash)) namespace stable name = check_endpoints-Keeps _ _

  absent-Keeps : (found : Outcome ReadError Service) → Keeps Clean (absent a found)
  unfolding absent
  absent-Keeps (ok _) = Keeps-fail _
  absent-Keeps (err (not_found _)) = Keeps-pure _
  absent-Keeps (err (failed _)) = Keeps-fail _

  require_absent-Keeps : (namespace name : String) → Keeps Clean (require_absent a namespace name)
  unfolding require_absent
  require_absent-Keeps namespace name =
      Keeps-bind _ _ (get_service-Keeps a Clean-IsReadable namespace name) absent-Keeps

  fingerprints_if-Keeps :
      (selected : Option (SloProfile × String)) (refs : List String)
      → Keeps Clean (fingerprints_if a selected refs)
  unfolding fingerprints_if
  fingerprints_if-Keeps none refs = Keeps-pure _
  fingerprints_if-Keeps (some p) refs = template_fingerprints-Keeps a Clean-IsReadable refs

  -- The stages of the features, a chain from the stable service.
  abbrev pub PlannedStages : ℕ → String → List (String × ServiceConfig) → List Stage → Type 0
  PlannedStages index stable features stages =
      Linked index stable stages
      × AllPending stages
      × (map (λ (t : Stage). t.feature_profile) stages
          ≡ map (λ (f : String × ServiceConfig). f.0) features)

  pub plan_stages-Finds :
      (request : Request) (selected : Option (SloProfile × String)) (index : ℕ) (stable : String)
      (refs : List String) (features : List (String × ServiceConfig))
      → Finds
          (PlannedStages index stable features)
          (plan_stages a request selected index stable refs features)
  unfolding plan_stages
  plan_stages-Finds request selected index stable refs [] =
      Yields-pure [] (λ s h. (h, (tt, tt, refl)))
  plan_stages-Finds request selected index stable refs ((profile, feature) ∷ features) =
      let name = candidate_name request.candidate_prefix index in
      first _ _ (check_mapping-Keeps selected request.namespace stable name) λ _.
        refused _ invalid_candidate _ λ _.
          first _ _ (require_absent-Keeps request.namespace name) λ _.
            first _ _ (fingerprints_if-Keeps selected (profile ∷ refs)) λ fingerprints.
              given _ _
                (plan_stages-Finds request selected (index + 1) name (profile ∷ refs) features)
                λ stages rest. Yields-pure _ λ s h. (
                  h,
                  (
                    (refl, refl, subst (λ i. Linked i name stages) next rest.0),
                    (refl, refl, refl, rest.1),
                    ap (λ names. profile ∷ names) rest.2,
                  ),
                )
    where
      next : index + 1 ≡ suc index
      next = omega arith

  pub planned-IsKept :
      (request : Request) (selected : Option (SloProfile × String)) (plan_id status : String)
      (time updated : ℕ) (message : String) (stages : List Stage)
      → Linked 0 request.baseline_name stages
      → AllPending stages
      → status ≢ "completed"
      → IsKept a (record (planned a request selected plan_id time stages) {
        status = status;
        updated_at = updated;
        message = message;
      })
  planned-IsKept request selected plan_id status time updated message stages linked pending going =
      record {
        progressive = record {
          linked = linked;
          passed = tt;
          stable = refl;
          all_passed = λ e. absurd (going e);
        };
        sound = AllPending-AllSound a _ stages pending;
      }
