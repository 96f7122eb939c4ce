-- ===== src/Experiment/Machine.antt =====
-- The actions of the controller. What was written before an error stays written, since failStage
-- goes on with it. Every read of a service, deletion, creation and saved plan is in a log, the last
-- one first; the saved plans of the log are what the store of plans holds.
pub mod Keeps
pub mod Yields
use infernex_agent.Prelude.{
  ℕ, suc, Bool, true, false, Option, none, some, String, List, [], ◌∷◌, str_eq, if◌then◌else◌,
  Outcome, ok, err,
}
use infernex_agent.Changes.Record.{ChangeRecord}
use infernex_agent.Experiment.{
  Service, ServiceConfig, Stage, Plan, ReadError, ExperimentError, cancelled, not_saved, no_id, Api,
}

pub data Event : Type 0 where
  read : String → String → Outcome ReadError Service → Event
  deleted created : Service → Event
  saved : Plan → Event

-- `stage` is the stage of the plan at `index`, to which the code holds a pointer.
pub record State (World : Type 0) : Type 0 where
  pub world : World
  pub log : List Event
  pub plan : Plan
  pub index : ℕ
  pub stage : Stage

abbrev pub Act : Type 0 → Type 0 → Type 0
Act World A = State World → Outcome ExperimentError A × State World

module _ {World A : Type 0} where
  unfoldable pub pure : A → Act World A
  pure x s = (ok x, s)

  unfoldable pub fail : ExperimentError → Act World A
  fail e s = (err e, s)

  unfoldable pub gets : (State World → A) → Act World A
  gets f s = (ok (f s), s)

  -- The error as a value.
  unfoldable pub attempt : Act World A → Act World (Outcome ExperimentError A)
  attempt m s = let (r, s') = m s in (ok r, s')

  -- A call of the environment.
  unfoldable pub call : (World → A × World) → Act World A
  call f s = let (x, w) = f s.world in (ok x, record s { world = w })

  -- A call whose failure is the error e.
  abbrev pub or_else : {E : Type 0} → ExperimentError → Outcome E A → Act World A
  or_else e (ok x) = pure x
  or_else e (err _) = fail e

module _ {World A B : Type 0} where
  abbrev pub continue : Outcome ExperimentError A → (A → Act World B) → Act World B
  continue (ok x) f s = f x s
  continue (err e) f s = (err e, s)

  infixl 10 ◌>>=◌ ◌>>◌
  unfoldable pub ◌>>=◌ : Act World A → (A → Act World B) → Act World B
  ◌>>=◌ m f s = let (r, s') = m s in continue r f s'

  abbrev pub ◌>>◌ : Act World A → Act World B → Act World B
  m >> n = m >>= λ _. n

module _ {World : Type 0} where
  unfoldable pub modify : (State World → State World) → Act World (Unit {0})
  modify f s = (ok tt, f s)

  -- `if bad { return e }`
  abbrev pub refuse : Bool → ExperimentError → Act World (Unit {0})
  refuse bad e = if bad then fail e else pure tt

  abbrev pub record_event : Event → Act World (Unit {0})
  record_event e = modify (λ s. record s { log = e ∷ s.log })

  -- Changes of the plan and of the stage.
  abbrev pub with_plan : (Plan → Plan) → Act World (Unit {0})
  with_plan f = modify (λ s. record s { plan = f s.plan })

  abbrev pub with_stage : (Stage → Stage) → Act World (Unit {0})
  with_stage f = modify (λ s. record s { stage = f s.stage })

-- stages[i] = stage
unfoldable pub set : List Stage → ℕ → Stage → List Stage
set [] i stage = []
set (s ∷ stages) ℕ.zero stage = stage ∷ stages
set (s ∷ stages) (suc i) stage = s ∷ set stages i stage

-- The plan with what the pointer to the stage has changed.
abbrev pub committed : {World : Type 0} → State World → Plan
committed s = record s.plan { stages = set s.plan.stages s.index s.stage }

module _ (a : Api) where
  open a use {World}

  unfoldable pub read_time : Act World ℕ
  read_time = call a.now

  unfoldable pub check_context : Act World (Unit {0})
  check_context = gets (λ s. a.is_cancelled s.world) >>= λ stopped. refuse stopped cancelled

  unfoldable pub wait_context : ℕ → Act World (Unit {0})
  wait_context duration =
      modify (λ s. record s { world = a.wait duration s.world }) >> check_context

  unfoldable pub new_id : Act World String
  new_id = call a.new_id >>= or_else no_id

  unfoldable pub get_service : String → String → Act World (Outcome ReadError Service)
  get_service namespace name = do
    found ← call (a.get_service namespace name)
    record_event (read namespace name found)
    pure found

  unfoldable pub delete_service : Service → Act World (Outcome ReadError (Unit {0}))
  delete_service s = record_event (deleted s) >> call (a.delete s)

  unfoldable pub create_service : Service → Act World (Outcome String (Unit {0}))
  create_service s = record_event (created s) >> call (a.create s)

  -- savePlan. The plan is in the log if the store took it.
  unfoldable pub append_plan : Plan → Act World (Unit {0})
  append_plan p =
      call (a.can_save p) >>= λ taken. if taken then record_event (saved p) else fail not_saved

  unfoldable pub save_plan : Act World (Unit {0})
  save_plan = do
    time ← read_time
    with_plan (λ p. record p { updated_at = time })
    p ← gets (λ s. committed s)
    append_plan p
