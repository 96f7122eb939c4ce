-- ===== src/Supervisor/Objects.antt =====
-- The types of internal/supervisor/types.go, and the fields that the scanner reads of those of
-- internal/observer and internal/diagnostics.
use infernex_agent.Prelude.{ℕ, Bool, String, List, Option}
use infernex_agent.Prelude.Int.{ℤ}

pub data Severity : Type 0 where
  critical warning info : Severity

-- A message is a plain text, or a format of the source with its values.
pub data Message : Type 0 where
  plain : String → Message
  observed_generation ready_replicas : ℤ → ℤ → Message
  restarted : ℤ → Message
  warning_event : String → Option ℤ → Message

pub record Issue : Type 0 where
  pub severity : Severity
  pub code : String
  pub message : Message
  pub component : String
  pub resource : String

pub record RecoverySummary : Type 0 where
  pub enabled : Bool
  pub profile : String
  pub name : String

pub record ComponentSummary : Type 0 where
  pub name : String
  pub ready : Bool
  pub message : String

pub record ServiceSummary : Type 0 where
  pub namespace : String
  pub name : String
  pub uid : String
  pub ready : Bool
  pub generation : ℤ
  pub observed_generation : ℤ
  pub recovery : Option RecoverySummary
  pub components : List ComponentSummary

pub record WorkloadSummary : Type 0 where
  pub kind : String
  pub name : String
  pub component : String
  pub desired : ℤ
  pub ready : ℤ

pub record PodSummary : Type 0 where
  pub name : String
  pub component : String
  pub phase : String
  pub ready : Bool
  pub restarts : ℤ
  pub reason : String

pub record Topology : Type 0 where
  pub service : ServiceSummary
  pub workloads : List WorkloadSummary
  pub pods : List PodSummary

pub record EventSummary : Type 0 where
  pub kind_of_event : String  -- Type
  pub reason : String
  pub count : ℤ
  pub kind : String
  pub name : String
  pub component : String

pub record Incident : Type 0 where
  pub id : String
  pub root_category : String
  pub is_critical : Bool  -- Severity == diagnostics.SeverityCritical
  pub components : List String
  pub recommendation : String

pub data AnalysisStatus : Type 0 where
  complete failed deferred : AnalysisStatus

-- `status` is "complete", "error" or "deferred".
pub record Analysis : Type 0 where
  pub status : AnalysisStatus
  pub content : String
  pub error : String
  pub cached : Bool

pub data RemediationStatus : Type 0 where
  invalid_policy disabled watching waiting error : RemediationStatus
  acted : String → RemediationStatus

pub record Remediation : Type 0 where
  pub status : RemediationStatus
  pub profile : String
  pub namespace : String
  pub name : String
  pub change_id : String
  pub failure_scans : ℕ
  pub error : String

-- The detail of the source has the service and fields that the scanner passes on.
pub record ServiceSnapshot : Type 0 where
  pub service : ServiceSummary
  pub topology : Topology
  pub events : List EventSummary
  pub issues : List Issue
  pub incidents : Option (List Incident)  -- Diagnostics
  pub analysis : Option Analysis
  pub remediation : Option Remediation

pub record NamespaceSnapshot : Type 0 where
  pub name : String
  pub error : String
  pub truncated : Bool
  pub total : ℕ
  pub services : List ServiceSnapshot

pub record Summary : Type 0 where
  pub namespaces : ℕ
  pub services : ℕ
  pub ready_services : ℕ
  pub degraded_services : ℕ
  pub issues : ℕ
  pub critical_issues : ℕ
  pub warning_issues : ℕ
  pub analyzed_services : ℕ
