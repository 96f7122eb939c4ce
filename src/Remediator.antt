-- ===== src/Remediator.antt =====
-- The remediator, component/InferNex-Agent/internal/remediator: the types of remediator.go. The
-- client, the clock, the ids and the store are a parameter that acts on a world.
pub mod Check
pub mod Create
pub mod Ensure
pub mod Start
pub mod Authorized
pub mod Ensured
pub mod Closed
mod Examples
use infernex_agent.Prelude.{
  ℕ, ◌+◌, ◌-◌, Bool, true, false, not, ◌&&◌, ◌||◌, Option, none, some, String, List, [], ◌∷◌,
  str_eq, leb, ◌==◌, if◌then◌else◌, Outcome, ok, err,
}
use infernex_agent.Prelude.Text.{trim_space, equal_fold}
use infernex_agent.Prelude.Dict.{Dict, lookup, put}
use infernex_agent.Prelude.Int.{ℤ, pos, ltb_ℤ, eqb_ℤ}
use infernex_agent.Changes.Record.{ChangeRecord, Target}

pub record Service (Spec : Type 0) : Type 0 where
  pub namespace : String
  pub name : String
  pub uid : String
  pub generation : ℤ
  pub observed_generation : ℤ
  pub is_deleting : Bool
  pub labels : Dict String
  pub annotations : Dict String
  pub spec : Spec

pub record RecoveryConfig : Type 0 where
  pub is_deleting : Bool
  pub labels : Dict String

pub record SourceIdentity : Type 0 where
  pub uid : String
  pub generation : ℤ

pub record Request : Type 0 where
  pub namespace : String
  pub source_name : String
  pub profile : String
  pub name : String
  pub expected_source : Option SourceIdentity

pub record Result : Type 0 where
  pub namespace : String
  pub name : String
  pub profile : String
  pub action : String
  pub change_id : String

-- The errors that wrap ErrRecoveryPrecondition.
pub data Precondition : Type 0 where
  incomplete_expected source_unread incomplete_identity identity_changed : Precondition
  not_current not_opted_in other_profile other_name : Precondition
  config_unread config_terminating not_approved : Precondition

pub data RemediatorError : Type 0 where
  invalid_namespace invalid_source invalid_profile invalid_name : RemediatorError
  precondition : Precondition → RemediatorError
  rejected_unpersisted : Precondition → RemediatorError
  not_ours spec_drift check_failed no_id not_encoded not_planned create_failed : RemediatorError
  rolled_back rollback_failed not_loaded not_recovered not_closed : RemediatorError

pub data ClientError : Type 0 where
  not_found failed : ClientError

-- Spec is InferNexServiceSpec; `same_spec` is reflect.DeepEqual.
pub record Api : Type 1 where
  pub World : Type 0
  pub Spec : Type 0
  pub spec_of : String → Spec  -- BaseRefs with this one name
  pub same_spec : Spec → Spec → Bool
  pub get_service : String → String → World → Outcome ClientError (Service Spec) × World
  pub get_config : String → String → World → Outcome ClientError RecoveryConfig × World
  pub create : Service Spec → World → Outcome String (Service Spec) × World
  pub delete : Service Spec → World → Outcome ClientError (Unit {0}) × World
  pub new_id : World → Outcome String String × World
  pub now : World → ℤ × World
  pub append : ChangeRecord → World → Outcome String (Unit {0}) × World
  pub pending : World → Outcome String (List ChangeRecord) × World
  pub encode : Service Spec → Option String
  pub is_dns_label : String → Bool
  pub is_dns_subdomain : String → Bool
  pub short_hash : String → String  -- hex of the first 4 bytes of the SHA-256 sum
  pub template_namespace : String
  pub group_version : String
  pub error_text : RemediatorError → String  -- Error()

abbrev pub Act : Type 0 → Type 0 → Type 0
Act World A = World → Outcome RemediatorError A × World

abbrev pub continue :
    {World A B : Type 0} → Outcome RemediatorError A → (A → Act World B) → Act World B
continue (ok x) f w = f x w
continue (err e) f w = (err e, w)

infixl 10 ◌>>=◌ ◌>>◌
abbrev pub ◌>>=◌ : {World A B : Type 0} → Act World A → (A → Act World B) → Act World B
◌>>=◌ m f w = let (r, w') = m w in continue r f w'

abbrev pub ◌>>◌ : {World B : Type 0} → Act World (Unit {0}) → Act World B → Act World B
m >> k = m >>= λ _. k

abbrev pub pure : {World A : Type 0} → A → Act World A
pure x w = (ok x, w)

abbrev pub fail : {World A : Type 0} → RemediatorError → Act World A
fail e w = (err e, w)

-- `if bad { return e }`
abbrev pub refuse : {World : Type 0} → Bool → RemediatorError → Act World (Unit {0})
refuse true e w = (err e, w)
refuse false e w = (ok tt, w)

-- A failure of the environment is the error e.
abbrev pub or_else : {E A : Type 0} → RemediatorError → Outcome E A → Outcome RemediatorError A
or_else e (ok x) = ok x
or_else e (err _) = err e

abbrev pub orelse :
    {World E A : Type 0} → RemediatorError → (World → Outcome E A × World) → Act World A
orelse e m w = let (r, w') = m w in (or_else e r, w')

-- The next event of a change.
abbrev pub event : ChangeRecord → String → ℤ → String → ChangeRecord
event r status time message = record r { status = status; occurred_at = time; message = message }
