-- ===== src/Supervisor/Examples.antt =====
-- The supervisor on one service that is not ready, with counters for the world: the calls of the
-- analyzer and of the diagnoser.
use infernex_agent.Prelude.{
  ◌↔◌, ℕ, suc, ◌+◌, ◌≤◌, ◌≡◌, ◌≢◌, refl, true, false, not, ◌&&◌, ◌||◌, none, some, [], ◌∷◌, ◌⊎◌,
  any, arith, ok, err,
}
use infernex_agent.Prelude.Int.{pos, negsuc}
use infernex_agent.Supervisor.Objects.{
  ServiceSummary, RecoverySummary, Topology, WorkloadSummary, ServiceSnapshot, NamespaceSnapshot,
  Issue, critical, plain,
}
use infernex_agent.Supervisor.Issues.{
  has_critical_issue, detect_state_issues, is_pending, has_incomplete_observation, sort_issues,
}
use infernex_agent.Supervisor.Issues.Critical.{has_deficit, is_down, detect_state_issues-critical}
use infernex_agent.Supervisor.Issues.Sorted.{IsSortOf, sort_issues-IsSortOf}
use infernex_agent.Supervisor.Recovery.{Recoverer, evaluate_remediation, identity_for, counts, gate}
use infernex_agent.Supervisor.Recovery.Streak.{
  Observation, start, evaluated, IsStreak, IsCriticalAs, observed, evaluate_remediation-Guarded,
}
use infernex_agent.Supervisor.Recovery.Persistent.{
  HasAsked, NeverRefuses, evaluate_all, evaluate_all-asks,
}
use infernex_agent.Supervisor.Recovery.Criteria.{IsFailing, gate-counts_iff}
use infernex_agent.Supervisor.Summary.{summarize_snapshot}
use infernex_agent.Supervisor.Summary.Counted.{Counts, summarize_snapshot-Counts}
use infernex_agent.Supervisor.Scan.{Sources, Config, Scanner, scan_once, collect_service}
use infernex_agent.Supervisor.Scan.Reached.{IsScan, scan_once-IsScan}
use infernex_agent.Supervisor.Scan.Budget.{AreMeters, scan_once-budget}
use infernex_agent.Supervisor.Scan.Observed.{inspect_failed, collect_service-gate}
use infernex_agent.Supervisor.Setup.{
  Settings, new_scanner, IsUsable, new_scanner-IsUsable, normalized_namespaces,
}

-- The calls so far.
record Calls : Type 0 where
  analyses : ℕ
  diagnoses : ℕ
  recoveries : ℕ

abbrev recoverer : Recoverer
recoverer = record {
  World = Calls;
  is_cancelled = λ w. false;
  ensure_recovery = some (λ q w. (
    ok (record { namespace = q.namespace; name = q.name; action = "created"; change_id = "1" }),
    record w { recoveries = suc w.recoveries },
  ));
}

abbrev policy : RecoverySummary
policy = record { enabled = true; profile = "safe"; name = "llm-recovery" }

abbrev service : ServiceSummary
service = record {
  namespace = "serving";
  name = "llm";
  uid = "uid-1";
  ready = false;
  generation = pos 2;
  observed_generation = pos 2;
  recovery = some policy;
  components = [];
}

abbrev workload : WorkloadSummary
workload = record {
  kind = "Deployment";
  name = "decode";
  component = "decode";
  desired = pos 2;
  ready = pos 1;
}

abbrev topology : Topology
topology = record { service = service; workloads = workload ∷ []; pods = [] }

abbrev issue : Issue
issue = record {
  severity = critical;
  code = "SERVICE_NOT_READY";
  message = plain "InferNexService is not ready";
  component = "";
  resource = "InferNexService/llm";
}

abbrev snapshot : ServiceSnapshot
snapshot = record {
  service = service;
  topology = topology;
  events = [];
  issues = issue ∷ [];
  incidents = none;
  analysis = none;
  remediation = none;
}

abbrev no_calls : Calls
no_calls = record { analyses = 0; diagnoses = 0; recoveries = 0 }

abbrev observation : Observation recoverer
observation = record { key = "serving/llm"; service = snapshot; world = no_calls }

observation-IsCriticalAs : IsCriticalAs recoverer (identity_for service) observation
unfolding gate has_incomplete_observation has_critical_issue any
observation-IsCriticalAs = record { policy = policy; counted = refl; identified = refl }

evaluate_remediation-Guarded_example :
    ((evaluate_remediation recoverer 2
        (evaluate_remediation recoverer 2 [] "serving/llm" snapshot no_calls).failures
        "serving/llm"
        snapshot
        no_calls).world
      ≡ no_calls)
    ⊎ IsStreak recoverer 2
        (identity_for service)
        (observation ∷ observed recoverer "serving/llm" (observation ∷ []))
evaluate_remediation-Guarded_example =
    evaluate_remediation-Guarded recoverer {m = 2} (evaluated start observation) observation

gate-counts_iff_example :
    (gate recoverer snapshot no_calls ≡ counts policy)
    ↔ IsFailing recoverer snapshot no_calls policy
gate-counts_iff_example = gate-counts_iff recoverer snapshot no_calls policy

never_refuses : NeverRefuses recoverer
never_refuses ensure e q w x h = ground arith

evaluate_all-asks_example : HasAsked recoverer snapshot no_calls (
    evaluate_remediation recoverer 2
      (evaluate_all recoverer 2 "serving/llm" [] ((snapshot, no_calls) ∷ []))
      "serving/llm"
      snapshot
      no_calls)
evaluate_all-asks_example =
    evaluate_all-asks recoverer never_refuses 2 (identity_for service) "serving/llm" []
      ((snapshot, no_calls) ∷ []) snapshot no_calls (observation-IsCriticalAs, tt)
      observation-IsCriticalAs (omega arith)

detect_state_issues-critical_example :
    has_critical_issue (detect_state_issues service topology)
    ≡ ((not false && not (is_pending service)) || any has_deficit (workload ∷ []) || any is_down [])
detect_state_issues-critical_example = detect_state_issues-critical service topology

sort_issues-IsSortOf_example : IsSortOf (sort_issues (issue ∷ issue ∷ [])) (issue ∷ issue ∷ [])
sort_issues-IsSortOf_example = sort_issues-IsSortOf (issue ∷ issue ∷ [])

abbrev namespace : NamespaceSnapshot
namespace = record {
  name = "serving";
  error = "";
  truncated = false;
  total = 1;
  services = snapshot ∷ [];
}

summarize_snapshot-Counts_example : Counts (summarize_snapshot (namespace ∷ [])) (namespace ∷ [])
summarize_snapshot-Counts_example = summarize_snapshot-Counts (namespace ∷ [])

abbrev sources : Sources recoverer
sources = record {
  list_services = λ name w.
      (ok (record { services = service ∷ []; total_services = 1; services_truncated = false }), w);
  inspect_service = λ namespace name w. (err "connection refused", w);
  get_topology = λ namespace name w. (ok topology, w);
  get_events = λ namespace name since limit w. (ok [], w);
  diagnose = some (λ namespace name since w. (ok [], record w { diagnoses = suc w.diagnoses }));
  analyze = some (λ q w. (ok "restart it", record w { analyses = suc w.analyses }));
  fingerprint = λ q. q.service.name;
}

abbrev config : Config
config = record {
  namespaces = "serving" ∷ [];
  event_since_minutes = 60;
  event_limit = 25;
  max_analyses_per_scan = 10;
  max_diagnostics_per_scan = 10;
  min_critical_scans = 2;
}

abbrev scanner : Scanner recoverer sources config
scanner = record { cache = []; failures = []; world = no_calls }

scan_once-IsScan_example :
    IsScan recoverer sources config [] scanner
      (scan_once recoverer sources config "cancelled" scanner)
scan_once-IsScan_example = scan_once-IsScan recoverer sources config "cancelled" [] scanner start

calls-AreMeters : AreMeters recoverer sources config (λ w. w.analyses) (λ w. w.diagnoses)
calls-AreMeters = record {
  list_keeps = λ n w. (omega arith, omega arith);
  inspect_keeps = λ n m w. (omega arith, omega arith);
  topology_keeps = λ n m w. (omega arith, omega arith);
  events_keep = λ n m a b w. (omega arith, omega arith);
  ensure_keeps = λ ensure e q w. ground (arith, e);
  diagnose_adds = λ diagnose e n m a w. ground (arith, e);
  analyze_adds = λ analyze e q w. ground (arith, e);
}

scan_once-budget_example :
    ((scan_once recoverer sources config "cancelled" scanner).0.world.analyses ≤ 0 + 10)
    × ((scan_once recoverer sources config "cancelled" scanner).0.world.diagnoses ≤ 0 + 10)
scan_once-budget_example =
    scan_once-budget recoverer sources config (λ w. w.analyses) (λ w. w.diagnoses) calls-AreMeters
      "cancelled" scanner

collect_service-gate_example :
    gate recoverer
      (collect_service recoverer sources config service true no_calls).0.snapshot
      no_calls
    ≢ counts policy
collect_service-gate_example =
    collect_service-gate recoverer sources config service true no_calls no_calls
      (inspect_failed "connection refused" refl) policy

abbrev settings : Settings
settings = record {
  namespaces = " serving " ∷ "" ∷ "serving" ∷ [];
  interval = pos 30;
  event_since_minutes = pos 0;
  event_limit = negsuc 4;
  max_analyses_per_scan = pos 0;
  max_diagnostics_per_scan = pos 0;
  min_critical_scans = pos 2;
}

abbrev usable : Config
usable = record {
  namespaces = normalized_namespaces settings.namespaces;
  event_since_minutes = 60;
  event_limit = 25;
  max_analyses_per_scan = 10;
  max_diagnostics_per_scan = 10;
  min_critical_scans = 2;
}

new_scanner-IsUsable_example : IsUsable settings usable
unfolding new_scanner normalized_namespaces
new_scanner-IsUsable_example = new_scanner-IsUsable settings usable refl
