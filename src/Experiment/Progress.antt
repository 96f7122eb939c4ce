-- ===== src/Experiment/Progress.antt =====
-- What holds of every plan that the controller saves, and of what it does to the cluster.
pub mod Reads
pub mod Chain
pub mod Saved
pub mod Owned
pub mod Placed
pub mod Ended
pub mod Gated
pub mod Soaked
pub mod Diagnosed
pub mod Rounds
pub mod Found
pub mod Attempts
pub mod Runs
pub mod Completed
use infernex_agent.Prelude.{
  ℕ, zero, suc, ◌+◌, ◌≤◌, ◌<◌, ◌≡◌, ◌≢◌, refl, sym, ap, ◌∙◌, Bool, true, false, Option, none, some,
  String, List, [], ◌∷◌, length, arith, Outcome, ok, err,
}
use infernex_agent.Diagnostics.{Report, Comparison, compare}
use infernex_agent.Experiment.{Service, SloResult, Stage, Plan, Api, ReadError, not_found, failed}
use infernex_agent.Experiment.Machine.{Event, read, deleted, created, saved, State, set, committed}
use infernex_agent.Experiment.Candidate.{value_at}
use infernex_agent.Experiment.Monitor.{is_gated, is_compared}

-- Each stage has its own position, and the candidate of the stage before as its baseline.
abbrev pub Linked : ℕ → String → List Stage → Type 0
Linked i baseline [] = Unit
Linked i baseline (t ∷ stages) =
    (t.index ≡ i) × (t.baseline_name ≡ baseline) × Linked (suc i) t.candidate_name stages

-- There are n stages that come first, and they have passed.
abbrev pub PassedFirst : ℕ → List Stage → Type 0
PassedFirst zero stages = Unit
PassedFirst (suc n) [] = ⊥
PassedFirst (suc n) (t ∷ stages) = (t.status ≡ "passed") × PassedFirst n stages

-- The candidate of the n-th stage; the baseline where there is none.
abbrev pub stable_after : ℕ → String → List Stage → String
stable_after zero baseline stages = baseline
stable_after (suc n) baseline [] = baseline
stable_after (suc n) baseline (t ∷ stages) = stable_after n t.candidate_name stages

-- The stages form a chain, those before the current one have passed, the stable service is the
-- candidate of the last of them, and a plan is completed only with all of them.
pub record IsProgressive (p : Plan) : Type 0 where
  pub linked : Linked 0 p.baseline_name p.stages
  pub passed : PassedFirst p.current_stage p.stages
  pub stable : p.stable_service ≡ stable_after p.current_stage p.baseline_name p.stages
  pub all_passed : p.status ≡ "completed" → p.current_stage ≡ length p.stages

-- What a plan asks of its stages: whether its SLO gate is required, and where its services are.
pub record Terms : Type 0 where
  pub is_required : Bool
  pub namespace : String

abbrev pub terms_of : Plan → Terms
terms_of p = record { is_required = is_gated p; namespace = p.namespace }

abbrev pub HasPassedSlo : Option SloResult → Type 0
HasPassedSlo none = ⊥
HasPassedSlo (some r) = r.decision ≡ "passed"

module _ (a : Api) where
  -- The comparison is the one of two reports that the diagnoser gave, one right after the other: of
  -- the baseline, and then of the candidate.
  pub record IsComparisonOf (namespace baseline candidate : String) (c : Comparison) : Type 0 where
    pub world : a.World
    pub baseline_report : Report
    pub candidate_report : Report
    pub of_baseline :
        (a.diagnose namespace baseline a.settings.diagnostics_minutes world).0 ≡ ok baseline_report
    pub of_candidate :
        (a.diagnose namespace candidate a.settings.diagnostics_minutes
          (a.diagnose namespace baseline a.settings.diagnostics_minutes world).1).0
        ≡ ok candidate_report
    pub compares : c ≡ compare baseline_report candidate_report

  -- Such a comparison without a regression, where there is one.
  abbrev pub Healthy : String → String → String → Option Comparison → Type 0
  Healthy namespace baseline candidate none = Unit
  Healthy namespace baseline candidate (some c) =
      (c.healthy ≡ true) × IsComparisonOf namespace baseline candidate c

  abbrev pub IsHealthy : Terms → Stage → Type 0
  IsHealthy terms t = Healthy terms.namespace t.baseline_name t.candidate_name t.comparison

  -- The candidate was compared with the baseline, without a regression, and where the SLO gate is
  -- required its last measurement has passed.
  abbrev pub IsEarned : Terms → Stage → Type 0
  IsEarned terms t =
      (is_compared t.comparison ≡ true)
      × IsHealthy terms t
      × (terms.is_required ≡ true → HasPassedSlo t.slo)

  -- A stage that has passed has earned it, and one with a regression is rolled back.
  pub record IsSound (terms : Terms) (t : Stage) : Type 0 where
    pub healthy : t.status ≢ "rolled-back" → IsHealthy terms t
    pub earned : t.status ≡ "passed" → IsEarned terms t

  abbrev pub AllSound : Terms → List Stage → Type 0
  AllSound terms [] = Unit
  AllSound terms (t ∷ stages) = IsSound terms t × AllSound terms stages

  -- A plan that the store may hold.
  pub record IsKept (p : Plan) : Type 0 where
    pub progressive : IsProgressive p
    pub sound : AllSound (terms_of p) p.stages

-- The last event is a read of the service.
abbrev pub WasRead : Service → List Event → Type 0
WasRead s (read namespace name (ok s') ∷ log) = s' ≡ s
WasRead s _ = ⊥

-- The last event is a read that did not find the name.
abbrev pub WasMissing : String → String → List Event → Type 0
WasMissing namespace name (read namespace' name' (err (not_found _)) ∷ log) =
    (namespace' ≡ namespace) × (name' ≡ name)
WasMissing namespace name _ = ⊥

abbrev pub HasOwner : String → Service → Type 0
HasOwner id s =
    (value_at "app.kubernetes.io/managed-by" s.labels ≡ "infernex-agent")
    × (value_at "agent.infernex.io/experiment-id" s.labels ≡ id)

module _ (a : Api) where
  -- Of a log of the experiment id.
  abbrev pub IsSafe : String → List Event → Type 0
  IsSafe id [] = Unit
  IsSafe id (saved p ∷ log) = IsKept a p × IsSafe id log
  IsSafe id (deleted s ∷ log) = HasOwner id s × WasRead s log × IsSafe id log
  IsSafe id (created s ∷ log) = HasOwner id s × WasMissing s.namespace s.name log × IsSafe id log
  IsSafe id (read namespace name found ∷ log) = IsSafe id log

  abbrev pub Safe : {World : Type 0} → String → State World → Type 0
  Safe id s = IsSafe id s.log

  -- A stage is held, the current one of a plan that may go on, and it satisfies E.
  pub record IsRunning {World : Type 0} (E : Terms → Stage → Type 0) (id : String) (s : State World)
      : Type 0 where
    pub safe : IsSafe id s.log
    pub same_id : s.plan.id ≡ id
    pub progressive : IsProgressive (committed s)
    pub unfinished : s.plan.status ≢ "completed"
    pub current : s.plan.current_stage ≡ s.index
    pub placed : s.stage.index ≡ s.index
    pub in_range : s.index < length s.plan.stages
    pub others :
        (t : Stage)
        → IsSound a (terms_of s.plan) t
        → AllSound a (terms_of s.plan) (set s.plan.stages s.index t)
    pub held : E (terms_of s.plan) s.stage

  -- A plan is held, and no stage.
  pub record IsHolding {World : Type 0} (id : String) (s : State World) : Type 0 where
    pub safe : IsSafe id s.log
    pub same_id : s.plan.id ≡ id
    pub progressive : IsProgressive s.plan
    pub sound : AllSound a (terms_of s.plan) s.plan.stages
    pub unfinished : s.plan.status ≢ "completed"
    pub no_stage : s.index ≡ length s.plan.stages

  -- What is known of the held stage: that it may go on, that it was compared too, and that its SLO
  -- has passed too.
  abbrev pub Open : Terms → Stage → Type 0
  Open terms t = (t.status ≢ "passed") × IsHealthy a terms t

  abbrev pub Compared : Terms → Stage → Type 0
  Compared terms t = Open terms t × (is_compared t.comparison ≡ true)

  abbrev pub Measured : Terms → Stage → Type 0
  Measured terms t = Compared terms t × HasPassedSlo t.slo

-- Nothing is known of the held stage, or that it has failed.
abbrev pub AnyStage : Terms → Stage → Type 0
AnyStage terms t = Unit

abbrev pub Stopped : Terms → Stage → Type 0
Stopped terms t = t.status ≡ "rolled-back"
