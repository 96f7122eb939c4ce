-- ===== src/Supervisor/Issues.antt =====
-- The issues of a service: detectStateIssues, detectEventIssues, issuesForIncidents, sortIssues and
-- their helpers.
pub mod Sorted
pub mod Critical
use Prim.Native.String.{◌++◌ as add_text, compare as compare_text}
use text.Mathlib.Text.{is_lt}
use infernex_agent.Prelude.{
  ℕ, zero, suc, ◌+◌, ◌-◌, Bool, true, false, not, ◌&&◌, ◌||◌, Option, none, some, String, List, [],
  ◌∷◌, ◌++◌, str_eq, any, length, is_nil, leb, ltb, ◌==◌, if◌then◌else◌,
}
use infernex_agent.Prelude.Text.{
  trim_space, equal_fold, lowers_to, translate, to_upper, count_runes, take_runes,
}
use infernex_agent.Prelude.Int.{ℤ, pos, ltb_ℤ}
use infernex_agent.Supervisor.Objects.{
  Severity, critical, warning, info, Message, plain, observed_generation, ready_replicas, restarted,
  warning_event, Issue, RecoverySummary, ComponentSummary, ServiceSummary, WorkloadSummary,
  PodSummary, Topology, EventSummary, Incident,
}

unfoldable pub bounded_runes : String → ℕ → String
bounded_runes value limit =
    if leb (count_runes value) limit then value else add_text (take_runes limit value) "…"

abbrev pub max_issue_message_runes : ℕ
max_issue_message_runes = 512

unfoldable pub bounded_message : String → String
unfolding bounded_runes trim_space
bounded_message value = bounded_runes (trim_space value) max_issue_message_runes

unfoldable pub bounded_analysis : String → String
unfolding bounded_runes trim_space
bounded_analysis value = bounded_runes (trim_space value) 16_384

unfoldable pub critical_pod_reason : String → Bool
unfolding any lowers_to trim_space
critical_pod_reason reason = any (lowers_to (trim_space reason)) (
    "crashloopbackoff" ∷ "imagepullbackoff" ∷ "errimagepull" ∷ "oomkilled"
    ∷ "createcontainerconfigerror" ∷ "runcontainererror" ∷ [])

abbrev pub is_critical : Issue → Bool
is_critical issue = elim issue.severity [ critical ↦ true | warning ↦ false | info ↦ false ]

unfoldable pub has_critical_issue : List Issue → Bool
unfolding any
has_critical_issue issues = any is_critical issues

abbrev pub is_incomplete : Issue → Bool
is_incomplete issue =
    str_eq issue.code "INSPECT_FAILED"
    || str_eq issue.code "TOPOLOGY_FAILED"
    || str_eq issue.code "EVENTS_FAILED"
    || str_eq issue.code "DIAGNOSTICS_FAILED"
    || str_eq issue.code "DIAGNOSTICS_DEFERRED"
    || str_eq issue.code "OBSERVATION_CHANGED"

unfoldable pub has_incomplete_observation : List Issue → Bool
unfolding any
has_incomplete_observation issues = any is_incomplete issues

abbrev pub resource_of : String → String
resource_of name = add_text "InferNexService/" name

unfoldable pub changed_observation_issue : String → Issue
changed_observation_issue name = record {
  severity = warning;
  code = "OBSERVATION_CHANGED";
  message = plain "service identity, generation, or recovery policy changed during observation";
  component = "";
  resource = resource_of name;
}

-- The error is passed by its text.
unfoldable pub issue_for_error : String → String → String → Issue
unfolding bounded_message
issue_for_error code resource error = record {
  severity = warning;
  code = code;
  message = plain (bounded_message error);
  component = "";
  resource = resource;
}

abbrev when : Bool → Issue → List Issue
when true issue = issue ∷ []
when false issue = []

abbrev pub is_invalid_policy : RecoverySummary → Bool
is_invalid_policy r = r.enabled && str_eq (trim_space r.profile) ""

abbrev policy_issues : ServiceSummary → List Issue
policy_issues service = elim service.recovery [
  | none ↦ []
  | some r ↦ when (is_invalid_policy r) (record {
    severity = warning;
    code = "RECOVERY_POLICY_INVALID";
    message = plain "auto-recovery is enabled without a recovery profile";
    component = "";
    resource = resource_of service.name;
  })
]

-- Bridge has not observed the desired generation.
abbrev pub is_pending : ServiceSummary → Bool
is_pending service = ltb_ℤ service.observed_generation service.generation

pending_issue : ServiceSummary → Issue
pending_issue service = record {
  severity = warning;
  code = "RECONCILE_PENDING";
  message = observed_generation service.observed_generation service.generation;
  component = "";
  resource = resource_of service.name;
}

not_ready_issue : ServiceSummary → Issue
not_ready_issue service = record {
  severity = if is_pending service then warning else critical;
  code = "SERVICE_NOT_READY";
  message = plain "InferNexService is not ready";
  component = "";
  resource = resource_of service.name;
}

component_issues : List ComponentSummary → List Issue
unfolding bounded_message trim_space
component_issues [] = []
component_issues (c ∷ components) =
    when (not c.ready) (record {
      severity = warning;
      code = "COMPONENT_NOT_READY";
      message = plain (
          bounded_message
            (if str_eq (trim_space c.message) "" then "component is not ready" else c.message));
      component = c.name;
      resource = "";
    })
    ++ component_issues components

workload_issues : List WorkloadSummary → List Issue
workload_issues [] = []
workload_issues (w ∷ workloads) =
    when (ltb_ℤ w.ready w.desired) (record {
      severity = critical;
      code = "WORKLOAD_READY_DEFICIT";
      message = ready_replicas w.ready w.desired;
      component = w.component;
      resource = add_text w.kind (add_text "/" w.name);
    })
    ++ workload_issues workloads

with_reason : String → String → String
with_reason message reason =
    if str_eq reason "" then message else add_text message (add_text ": " reason)

abbrev pub is_critical_pod : PodSummary → Bool
is_critical_pod p = str_eq p.phase "Failed" || critical_pod_reason p.reason

pod_issues : List PodSummary → List Issue
unfolding with_reason bounded_message
pod_issues [] = []
pod_issues (p ∷ pods) =
    when (not p.ready) (record {
      severity = if is_critical_pod p then critical else warning;
      code = "POD_NOT_READY";
      message = plain (bounded_message (with_reason "pod is not ready" p.reason));
      component = p.component;
      resource = add_text "Pod/" p.name;
    })
    ++ (when (ltb_ℤ (pos 0) p.restarts) (record {
      severity = warning;
      code = "POD_RESTARTS";
      message = restarted p.restarts;
      component = p.component;
      resource = add_text "Pod/" p.name;
    })
        ++ pod_issues pods)

unfoldable pub detect_state_issues : ServiceSummary → Topology → List Issue
unfolding pending_issue not_ready_issue component_issues workload_issues pod_issues
detect_state_issues service topology =
    policy_issues service
    ++ (when (is_pending service) (pending_issue service)
        ++ (when (not service.ready) (not_ready_issue service)
            ++ (component_issues service.components
                ++ (workload_issues topology.workloads ++ pod_issues topology.pods))))

abbrev pub max_issue_events : ℕ
max_issue_events = 10

event_issue : EventSummary → Issue
unfolding with_reason
event_issue e = record {
  severity = warning;
  code = "KUBERNETES_WARNING_EVENT";
  message =
      warning_event (with_reason "recent warning event" e.reason)
        (if ltb_ℤ (pos 1) e.count then some e.count else none);
  component = e.component;
  resource =
      if not (str_eq e.kind "") || not (str_eq e.name "")
      then add_text e.kind (add_text "/" e.name)
      else "";
}

-- The loop breaks once there are `left` issues more.
event_issues : ℕ → List EventSummary → List Issue
unfolding event_issue
event_issues zero events = []
event_issues (suc left) [] = []
event_issues (suc left) (e ∷ events) =
    let skipped = event_issues (suc left) events in
    let rest = event_issues left events in
    if not (equal_fold e.kind_of_event "Warning") then skipped else event_issue e ∷ rest

unfoldable pub detect_event_issues : List EventSummary → List Issue
unfolding event_issues
detect_event_issues events = event_issues max_issue_events events

-- strings.Join(values, ",")
join_commas : List String → String
join_commas [] = ""
join_commas (s ∷ []) = s
join_commas (s ∷ t ∷ values) = add_text s (add_text "," (join_commas (t ∷ values)))

incident_issue : Incident → Issue
unfolding join_commas bounded_message to_upper translate
incident_issue i = record {
  severity = if i.is_critical then critical else warning;
  code = add_text "DIAGNOSTIC_" (to_upper (translate "-" "_" i.root_category));
  message = plain (bounded_message i.recommendation);
  component = join_commas i.components;
  resource = add_text "Incident/" i.id;
}

incident_issues : ℕ → List Incident → List Issue
incident_issues zero incidents = []
incident_issues (suc left) [] = []
incident_issues (suc left) (i ∷ incidents) = incident_issue i ∷ incident_issues left incidents

unfoldable pub issues_for_incidents : List Incident → List Issue
unfolding incident_issues incident_issue
issues_for_incidents incidents = incident_issues 10 incidents

-- The order of sortIssues.
abbrev pub rank : Severity → ℕ
rank critical = 0
rank warning = 1
rank info = 2

unfoldable pub issue_less : Issue → Issue → Bool
issue_less a b =
    if not (rank a.severity == rank b.severity)
    then ltb (rank a.severity) (rank b.severity)
    else if not (str_eq a.code b.code)
    then is_lt (compare_text a.code b.code)
    else is_lt (compare_text a.resource b.resource)

-- sort.SliceStable
unfoldable pub insert_issue : Issue → List Issue → List Issue
insert_issue i [] = i ∷ []
insert_issue i (j ∷ issues) =
    let rest = insert_issue i issues in if issue_less j i then j ∷ rest else i ∷ j ∷ issues

unfoldable pub sort_issues : List Issue → List Issue
unfolding insert_issue
sort_issues [] = []
sort_issues (i ∷ issues) = insert_issue i (sort_issues issues)
