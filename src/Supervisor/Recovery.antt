-- ===== src/Supervisor/Recovery.antt =====
-- The state machine of automatic recovery: identityFor and evaluateRemediation of
-- internal/supervisor/scanner.go.
pub mod Streak
pub mod Persistent
pub mod Criteria
use infernex_agent.Prelude.{
  ℕ, suc, ◌+◌, Bool, true, false, not, ◌&&◌, ◌||◌, Option, none, some, String, List, [], ◌∷◌,
  str_eq, same_bool, any, ltb, if◌then◌else◌, Outcome, ok, err,
}
use infernex_agent.Prelude.Text.{trim_space}
use infernex_agent.Prelude.Dict.{Dict, lookup, put, remove}
use infernex_agent.Prelude.Int.{ℤ, pos, pos_part, neg_part, ltb_ℤ, eqb_ℤ}
use infernex_agent.Supervisor.Objects.{
  RecoverySummary, ServiceSummary, Remediation, RemediationStatus, invalid_policy, disabled,
  watching, waiting, error, acted, ServiceSnapshot,
}
use infernex_agent.Supervisor.Issues.{
  has_critical_issue, has_incomplete_observation, is_pending, bounded_message,
}

pub record RecoveryIdentity : Type 0 where
  pub uid : String
  pub generation : ℤ
  pub enabled : Bool
  pub profile : String
  pub name : String

unfoldable pub identity_for : ServiceSummary → RecoveryIdentity
unfolding trim_space
identity_for service = elim service.recovery [
  | none ↦ record {
    uid = service.uid;
    generation = service.generation;
    enabled = false;
    profile = "";
    name = "";
  }
  | some r ↦ record {
    uid = service.uid;
    generation = service.generation;
    enabled = r.enabled;
    profile = trim_space r.profile;
    name = trim_space r.name;
  }
]

-- Go's == on two structs.
unfoldable pub same_identity : RecoveryIdentity → RecoveryIdentity → Bool
same_identity a b =
    str_eq a.uid b.uid
    && eqb_ℤ a.generation b.generation
    && same_bool a.enabled b.enabled
    && str_eq a.profile b.profile
    && str_eq a.name b.name

pub record CriticalFailure : Type 0 where
  pub identity : RecoveryIdentity
  pub scans : ℕ

-- What a read of a missing key returns.
abbrev pub no_failure : CriticalFailure
no_failure = record {
  identity = record { uid = ""; generation = pos 0; enabled = false; profile = ""; name = "" };
  scans = 0;
}

pub record RecoveryRequest : Type 0 where
  pub namespace : String
  pub source_name : String
  pub profile : String
  pub name : String
  pub source_uid : String  -- ExpectedSource
  pub source_generation : ℤ

pub record RecoveryResult : Type 0 where
  pub namespace : String
  pub name : String
  pub action : String
  pub change_id : String

pub record RecoveryError : Type 0 where
  pub message : String
  pub is_precondition : Bool  -- errors.Is(err, remediator.ErrRecoveryPrecondition)

-- The remediator, where there is one, and the context: both are the caller's.
pub record Recoverer : Type 1 where
  pub World : Type 0
  pub is_cancelled : World → Bool  -- ctx.Err() != nil
  pub ensure_recovery :
      Option (RecoveryRequest → World → Outcome RecoveryError RecoveryResult × World)

abbrev pub Failures : Type 0
Failures = Dict CriticalFailure

-- The loop of ScanOnce over the failures: those of the services that the scan did not see are
-- deleted, and all of them where the scan was cancelled.
unfoldable pub prune_failures : List String → Bool → Failures → Failures
unfolding any
prune_failures active cancelled [] = []
prune_failures active cancelled ((key, f) ∷ failures) =
    let rest = prune_failures active cancelled failures in
    if not (any (str_eq key) active) || cancelled then rest else (key, f) ∷ rest

abbrev pub remediation_of : RemediationStatus → String → ℕ → Remediation
remediation_of status profile scans = record {
  status = status;
  profile = profile;
  namespace = "";
  name = "";
  change_id = "";
  failure_scans = scans;
  error = "";
}

-- What an observation of a service says: the early returns of evaluateRemediation, with the
-- remediation that they report, or that the failure is critical and counts.
pub data Gate : Type 0 where
  settled : Option Remediation → Gate
  counts : RecoverySummary → Gate

module _ (r : Recoverer) where
  open r use {World, is_cancelled}

  unfoldable pub gate : ServiceSnapshot → World → Gate
  unfolding trim_space
  gate service w = elim service.service.recovery [
    | none ↦ settled none
    | some policy ↦
        if not policy.enabled
        then settled none
        else if str_eq (trim_space policy.profile) ""
        then settled (some (remediation_of invalid_policy "" 0))
        else elim r.ensure_recovery [
          | none ↦ settled (some (remediation_of disabled policy.profile 0))
          | some _ ↦
              if is_cancelled w || has_incomplete_observation service.issues
              then settled (some (remediation_of watching policy.profile 0))
              else if is_pending service.service || not (has_critical_issue service.issues)
              then settled (some (remediation_of watching policy.profile 0))
              else counts policy
        ]
  ]

  abbrev pub failure_at : Failures → String → CriticalFailure
  failure_at failures key = elim (lookup key failures) [ none ↦ no_failure | some f ↦ f ]

  -- The failure that the map has for the service, counted once more: from 0 where its identity is
  -- another.
  unfoldable pub count_failure : Failures → String → ServiceSnapshot → CriticalFailure
  unfolding lookup same_identity
  count_failure failures key service =
      let failure = failure_at failures key in
      let identity = identity_for service.service in
      record {
        identity = identity;
        scans = if same_identity failure.identity identity then suc failure.scans else 1;
      }

  unfoldable pub request_for : ServiceSnapshot → RecoverySummary → RecoveryRequest
  request_for service policy = record {
    namespace = service.service.namespace;
    source_name = service.service.name;
    profile = policy.profile;
    name = policy.name;
    source_uid = service.service.uid;
    source_generation = service.service.generation;
  }

  -- What follows the call of EnsureRecovery: the failures, and the remediation that is reported.
  unfoldable pub conclude :
      Failures
      → String
      → Remediation
      → Outcome RecoveryError RecoveryResult
      → Failures × Remediation
  unfolding remove bounded_message
  conclude failures key report (ok result) = (
    failures,
    record report {
      status = acted result.action;
      namespace = result.namespace;
      name = result.name;
      change_id = result.change_id;
    },
  )
  conclude failures key report (err e) =
      if e.is_precondition
      then (
        remove key failures,
        record report { status = watching; failure_scans = 0; error = bounded_message e.message },
      )
      else (failures, record report { status = error; error = bounded_message e.message })

  -- The scanner's failures, the remediation of the service and the world afterwards.
  pub record Evaluated : Type 0 where
    pub failures : Failures
    pub report : Option Remediation
    pub world : World

  unfoldable pub recover : Failures → String → Remediation → RecoveryRequest → World → Evaluated
  unfolding conclude
  recover failures key report request w = elim r.ensure_recovery [
    | none ↦ record { failures = failures; report = some report; world = w }
    | some ensure ↦
        let (result, w') = ensure request w in
        let (failures', report') = conclude failures key report result in
        record { failures = failures'; report = some report'; world = w' }
  ]

  unfoldable pub evaluate_remediation : ℕ → Failures → String → ServiceSnapshot → World → Evaluated
  unfolding put remove
  evaluate_remediation min_critical_scans failures key service w = elim (gate service w) [
    | settled report ↦ record { failures = remove key failures; report = report; world = w }
    | counts policy ↦
        let failure = count_failure failures key service in
        let failures' = put key failure failures in
        let report = remediation_of waiting policy.profile failure.scans in
        if ltb failure.scans min_critical_scans
        then record { failures = failures'; report = some report; world = w }
        else recover failures' key report (request_for service policy) w
  ]
