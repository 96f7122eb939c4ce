-- ===== src/Supervisor/Scan.antt =====
-- The scan: New, collectService, analysisRequest, analyzeService, scanNamespace, ScanOnce and
-- SnapshotStore.Store of internal/supervisor. The observer, the diagnoser and the analyzer are
-- parameters; an error is passed by its text. Clocks are only reported, and left out.
pub mod Budget
pub mod Analyzed
pub mod Reached
pub mod Marked
pub mod Observed
use infernex_agent.Prelude.{
  ℕ, zero, suc, ◌+◌, ◌-◌, Bool, true, false, not, ◌&&◌, ◌||◌, Option, none, some, String, List, [],
  ◌∷◌, ◌++◌, str_eq, is_nil, any, take, map, ltb, if◌then◌else◌, Outcome, ok, err,
}
use Prim.Native.String.{◌++◌ as add_text}
use infernex_agent.Prelude.Dict.{Dict, lookup, put, member}
use infernex_agent.Supervisor.Objects.{
  info, plain, Issue, ServiceSummary, ComponentSummary, WorkloadSummary, PodSummary, Topology,
  EventSummary, Incident, AnalysisStatus, complete, failed, deferred, Analysis, ServiceSnapshot,
  NamespaceSnapshot, Summary,
}
use infernex_agent.Supervisor.Issues.{
  bounded_message, bounded_analysis, changed_observation_issue, issue_for_error, resource_of,
  detect_state_issues, detect_event_issues, issues_for_incidents, sort_issues,
}
use infernex_agent.Supervisor.Recovery.{
  Recoverer, Failures, identity_for, same_identity, Evaluated, evaluate_remediation, prune_failures,
}
use infernex_agent.Supervisor.Summary.{summarize_snapshot}

-- observer.ServiceList
pub record ServiceList : Type 0 where
  pub services : List ServiceSummary
  pub total_services : ℕ
  pub services_truncated : Bool

pub record AnalysisRequest : Type 0 where
  pub service : ServiceSummary
  pub workloads : List WorkloadSummary
  pub pods : List PodSummary
  pub events : List EventSummary
  pub incidents : List Incident
  pub issues : List Issue

unfoldable pub analysis_request : ServiceSnapshot → AnalysisRequest
analysis_request s = record {
  service = s.service;
  workloads = s.topology.workloads;
  pods = take 50 s.topology.pods;
  events = take 25 s.events;
  incidents = elim s.incidents [ none ↦ [] | some incidents ↦ take 20 incidents ];
  issues = s.issues;
}

pub record Sources (r : Recoverer) : Type 0 where
  pub list_services : String → r.World → Outcome String ServiceList × r.World
  pub inspect_service : String → String → r.World → Outcome String ServiceSummary × r.World
  pub get_topology : String → String → r.World → Outcome String Topology × r.World
  pub get_events : String → String → ℕ → ℕ → r.World → Outcome String (List EventSummary) × r.World
  pub diagnose : Option (String → String → ℕ → r.World → Outcome String (List Incident) × r.World)
  pub analyze : Option (AnalysisRequest → r.World → Outcome String String × r.World)
  pub fingerprint : AnalysisRequest → String  -- analysisFingerprint, a hash of the JSON text

pub record CachedAnalysis : Type 0 where
  pub fingerprint : String
  pub analysis : Analysis

-- Config, once New has set the defaults, and so without signs.
pub record Config : Type 0 where
  pub namespaces : List String
  pub event_since_minutes : ℕ
  pub event_limit : ℕ
  pub max_analyses_per_scan : ℕ
  pub max_diagnostics_per_scan : ℕ
  pub min_critical_scans : ℕ

module _ (r : Recoverer) (x : Sources r) (config : Config) where
  open r use {World, is_cancelled}

  -- The collection of one service so far.
  pub record Collecting : Type 0 where
    pub snapshot : ServiceSnapshot
    pub world : World

  abbrev pub add_issues : List Issue → ServiceSnapshot → ServiceSnapshot
  add_issues more s = record s { issues = s.issues ++ more }

  abbrev changed_if : Bool → String → ServiceSnapshot → ServiceSnapshot
  changed_if true name s = s
  changed_if false name s = add_issues (changed_observation_issue name ∷ []) s

  pub inspect : ServiceSummary → Collecting → Collecting
  unfolding identity_for same_identity issue_for_error
  inspect summary c =
      let (result, w) = x.inspect_service summary.namespace summary.name c.world in
      elim result [
        | err e ↦ record {
          snapshot =
              add_issues (issue_for_error "INSPECT_FAILED" "InferNexService" e ∷ []) c.snapshot;
          world = w;
        }
        | ok service ↦ record {
          snapshot =
              changed_if (same_identity (identity_for summary) (identity_for service)) summary.name
                (record (c.snapshot) { service = service });
          world = w;
        }
      ]

  pub observe_topology : ServiceSummary → Collecting → Collecting
  unfolding identity_for same_identity issue_for_error
  observe_topology summary c =
      let (result, w) = x.get_topology summary.namespace summary.name c.world in
      elim result [
        | err e ↦ record {
          snapshot =
              add_issues (issue_for_error "TOPOLOGY_FAILED" "InferNexService" e ∷ []) c.snapshot;
          world = w;
        }
        | ok topology ↦ record {
          snapshot =
              changed_if
                (same_identity (identity_for c.snapshot.service) (identity_for topology.service))
                summary.name (record (c.snapshot) { topology = topology });
          world = w;
        }
      ]

  -- len(result.Issues) > 0 || !summary.Ready
  abbrev pub is_suspect : ServiceSummary → ServiceSnapshot → Bool
  is_suspect summary s = not (is_nil s.issues) || not summary.ready

  pub observe_events : ServiceSummary → Collecting → Collecting
  unfolding issue_for_error
  observe_events summary c =
      let (result, w) =
        x.get_events summary.namespace summary.name config.event_since_minutes config.event_limit
          c.world in
      if is_suspect summary c.snapshot
      then elim result [
        | err e ↦ record {
          snapshot =
              add_issues (issue_for_error "EVENTS_FAILED" "InferNexService" e ∷ []) c.snapshot;
          world = w;
        }
        | ok events ↦ record {
          snapshot =
              add_issues (detect_event_issues events) (record (c.snapshot) { events = events });
          world = w;
        }
      ]
      else c

  deferred_issue : ServiceSummary → Issue
  deferred_issue summary = record {
    severity = info;
    code = "DIAGNOSTICS_DEFERRED";
    message = plain "log diagnostics were deferred by the per-scan collection budget";
    component = "";
    resource = resource_of summary.name;
  }

  -- The two conditions on the diagnoser; the second result is `diagnosticAttempted`.
  unfoldable pub diagnose_if_allowed : ServiceSummary → Bool → Collecting → Collecting × Bool
  unfolding issue_for_error deferred_issue
  diagnose_if_allowed summary allow c = elim x.diagnose [
    | none ↦ (c, false)
    | some diagnose ↦
        let (result, w) =
          diagnose summary.namespace summary.name config.event_since_minutes c.world in
        let deferred : Collecting = record {
          snapshot = add_issues (deferred_issue summary ∷ []) c.snapshot;
          world = c.world;
        } in
        if not (is_suspect summary c.snapshot)
        then (c, false)
        else if not allow
        then (deferred, false)
        else elim result [
          | err e ↦ (
            record {
              snapshot =
                  add_issues (issue_for_error "DIAGNOSTICS_FAILED" "InferNexService" e ∷ [])
                    c.snapshot;
              world = w;
            },
            true,
          )
          | ok incidents ↦ (
            record {
              snapshot =
                  add_issues (issues_for_incidents incidents)
                    (record (c.snapshot) { incidents = some incidents });
              world = w;
            },
            true,
          )
        ]
  ]

  abbrev pub empty_snapshot : ServiceSummary → ServiceSnapshot
  empty_snapshot summary = record {
    service = summary;
    topology = record { service = summary; workloads = []; pods = [] };
    events = [];
    issues = [];
    incidents = none;
    analysis = none;
    remediation = none;
  }

  unfoldable pub detect : Collecting → Collecting
  unfolding detect_state_issues
  detect c = record c {
    snapshot = add_issues (detect_state_issues c.snapshot.service c.snapshot.topology) c.snapshot;
  }

  -- The observation of a service, its events where it is suspect.
  unfoldable pub observe_service : ServiceSummary → World → Collecting
  unfolding inspect observe_topology observe_events detect
  observe_service summary w =
      let start : Collecting = record { snapshot = empty_snapshot summary; world = w } in
      observe_events summary (detect (observe_topology summary (inspect summary start)))

  abbrev pub sorted : Collecting → Collecting
  sorted c = record c { snapshot = record (c.snapshot) { issues = sort_issues c.snapshot.issues } }

  unfoldable pub collect_service : ServiceSummary → Bool → World → Collecting × Bool
  unfolding observe_service diagnose_if_allowed sort_issues
  collect_service summary allow w =
      let (c, attempted) = diagnose_if_allowed summary allow (observe_service summary w) in
      (sorted c, attempted)

  analyze_service :
      (AnalysisRequest → World → Outcome String String × World)
      → ServiceSnapshot
      → World
      → Analysis × World
  unfolding analysis_request bounded_message bounded_analysis
  analyze_service analyze s w =
      let (result, w') = analyze (analysis_request s) w in
      (
        elim result [
          | err e ↦ record {
            status = failed;
            content = "";
            error = bounded_message e;
            cached = false;
          }
          | ok content ↦ record {
            status = complete;
            content = bounded_analysis content;
            error = "";
            cached = false;
          }
        ],
        w',
      )

  -- The scanner's maps, and what one scan counts.
  pub record Scanning : Type 0 where
    pub cache : Dict CachedAnalysis
    pub failures : Failures
    pub active : List String  -- activeCacheKeys
    pub used_analyses : ℕ
    pub used_diagnostics : ℕ
    pub services : List ServiceSnapshot
    pub world : World

  abbrev pub cache_key : ServiceSummary → String
  cache_key service = add_text service.namespace (add_text "/" service.name)

  abbrev reused : Analysis → Analysis
  reused a = record a { cached = true }

  abbrev deferred_analysis : Analysis
  deferred_analysis = record { status = deferred; content = ""; error = ""; cached = false }

  abbrev is_complete : Analysis → Bool
  is_complete a = elim a.status [ complete ↦ true | failed ↦ false | deferred ↦ false ]

  -- cached, found := s.cache[cacheKey]; found && cached.fingerprint == fingerprint
  abbrev cached_analysis : Dict CachedAnalysis → String → String → Option Analysis
  cached_analysis cache key fingerprint = elim (lookup key cache) [
    | none ↦ none
    | some c ↦ if str_eq c.fingerprint fingerprint then some c.analysis else none
  ]

  -- A new analysis, within the budget, which is cached where it is complete.
  fresh_analysis :
      ℕ
      → (AnalysisRequest → World → Outcome String String × World)
      → String
      → ServiceSnapshot
      → Scanning
      → ServiceSnapshot × Scanning
  unfolding analyze_service put
  fresh_analysis remaining analyze key s t =
      let (analysis, w) = analyze_service analyze s t.world in
      let cached : CachedAnalysis = record {
        fingerprint = x.fingerprint (analysis_request s);
        analysis = analysis;
      } in
      if ltb t.used_analyses remaining
      then (
        record s { analysis = some analysis },
        record t {
          used_analyses = t.used_analyses + 1;
          world = w;
          cache = if is_complete analysis then put key cached t.cache else t.cache;
        },
      )
      else (record s { analysis = some deferred_analysis }, t)

  pub analyze_if_needed : ℕ → String → ServiceSnapshot → Scanning → ServiceSnapshot × Scanning
  unfolding fresh_analysis lookup
  analyze_if_needed remaining key s t = elim x.analyze [
    | none ↦ (s, t)
    | some analyze ↦
        let fresh = fresh_analysis remaining analyze key s t in
        if is_nil s.issues
        then (s, t)
        else elim (cached_analysis t.cache key (x.fingerprint (analysis_request s))) [
          | some analysis ↦ (record s { analysis = some (reused analysis) }, t)
          | none ↦ fresh
        ]
  ]

  remediate : String → ServiceSnapshot → Scanning → Scanning
  unfolding evaluate_remediation
  remediate key s t =
      let e = evaluate_remediation r config.min_critical_scans t.failures key s t.world in
      record t {
        failures = e.failures;
        world = e.world;
        services = t.services ++ record s { remediation = e.report } ∷ [];
      }

  abbrev pub mark_active : String → List String → List String
  mark_active key active = if any (str_eq key) active then active else active ++ key ∷ []

  -- Collects a service and counts it.
  unfoldable pub collect_next : ℕ → ServiceSummary → Scanning → ServiceSnapshot × Scanning
  unfolding collect_service any
  collect_next diagnostics_remaining service t =
      let (c, attempted) =
        collect_service service (ltb t.used_diagnostics diagnostics_remaining) t.world in
      (
        c.snapshot,
        record t {
          used_diagnostics = if attempted then t.used_diagnostics + 1 else t.used_diagnostics;
          active = mark_active (cache_key service) t.active;
          world = c.world;
        },
      )

  -- The body of the loop of scanNamespace.
  unfoldable pub scan_service : ℕ → ℕ → ServiceSummary → Scanning → Scanning
  unfolding collect_next analyze_if_needed remediate
  scan_service analyses_remaining diagnostics_remaining service t =
      let (s, t') = collect_next diagnostics_remaining service t in
      let (s', t'') = analyze_if_needed analyses_remaining (cache_key service) s t' in
      remediate (cache_key service) s' t''

  -- The second result is whether the context ended the loop.
  unfoldable pub scan_services : ℕ → ℕ → List ServiceSummary → Scanning → Scanning × Bool
  unfolding scan_service
  scan_services analyses_remaining diagnostics_remaining [] t = (t, false)
  scan_services analyses_remaining diagnostics_remaining (service ∷ services) t =
      let rest =
        scan_services analyses_remaining diagnostics_remaining services
          (scan_service analyses_remaining diagnostics_remaining service t) in
      if is_cancelled t.world then (t, true) else rest

  -- The state of ScanOnce.
  pub record Scan : Type 0 where
    pub cache : Dict CachedAnalysis
    pub failures : Failures
    pub active : List String
    pub analyses_remaining : ℕ
    pub diagnostics_remaining : ℕ
    pub namespaces : List NamespaceSnapshot
    pub world : World

  abbrev start_scanning : Scan → World → Scanning
  start_scanning t w = record {
    cache = t.cache;
    failures = t.failures;
    active = t.active;
    used_analyses = 0;
    used_diagnostics = 0;
    services = [];
    world = w;
  }

  failed_namespace : String → String → Scan → World → Scan
  unfolding bounded_message
  failed_namespace name e t w = record t {
    namespaces =
        t.namespaces
        ++ (record {
          name = name;
          error = bounded_message e;
          truncated = false;
          total = 0;
          services = [];
        })
          ∷ [];
    world = w;
  }

  -- ctx.Err().Error() of a cancelled scan is the text that the parameter `cancelled` has.
  scanned_namespace : String → String → ServiceList → Scan → Scanning × Bool → Scan
  unfolding bounded_message
  scanned_namespace cancelled name list t (s, stopped) = record {
    cache = s.cache;
    failures = s.failures;
    active = s.active;
    analyses_remaining = t.analyses_remaining - s.used_analyses;
    diagnostics_remaining = t.diagnostics_remaining - s.used_diagnostics;
    namespaces =
        t.namespaces
        ++ (record {
          name = name;
          error = if stopped then bounded_message cancelled else "";
          truncated = list.services_truncated;
          total = list.total_services;
          services = s.services;
        })
          ∷ [];
    world = s.world;
  }

  unfoldable pub scan_namespace : String → String → Scan → Scan
  unfolding scan_services failed_namespace scanned_namespace
  scan_namespace cancelled name t =
      let (result, w) = x.list_services name t.world in
      elim result [
        | err e ↦ failed_namespace name e t w
        | ok list ↦ scanned_namespace cancelled name list t (
            scan_services t.analyses_remaining t.diagnostics_remaining list.services
              (start_scanning t w))
      ]

  unfoldable pub scan_namespaces : String → List String → Scan → Scan
  unfolding scan_namespace
  scan_namespaces cancelled [] t = t
  scan_namespaces cancelled (name ∷ names) t =
      scan_namespaces cancelled names (scan_namespace cancelled name t)

  prune_cache : List String → Dict CachedAnalysis → Dict CachedAnalysis
  unfolding any
  prune_cache active [] = []
  prune_cache active ((key, c) ∷ cache) =
      let rest = prune_cache active cache in
      if any (str_eq key) active then (key, c) ∷ rest else rest

  -- The scanner between scans, and the snapshot that a scan publishes.
  pub record Scanner : Type 0 where
    pub cache : Dict CachedAnalysis
    pub failures : Failures
    pub world : World

  abbrev start_scan : Scanner → Scan
  start_scan s = record {
    cache = s.cache;
    failures = s.failures;
    active = [];
    analyses_remaining = config.max_analyses_per_scan;
    diagnostics_remaining = config.max_diagnostics_per_scan;
    namespaces = [];
    world = s.world;
  }

  unfoldable pub scan_once : String → Scanner → Scanner × List NamespaceSnapshot × Summary
  unfolding scan_namespaces prune_cache prune_failures summarize_snapshot
  scan_once cancelled s =
      let t = scan_namespaces cancelled config.namespaces (start_scan s) in
      (
        record {
          cache = prune_cache t.active t.cache;
          failures = prune_failures t.active (is_cancelled t.world) t.failures;
          world = t.world;
        },
        t.namespaces,
        summarize_snapshot t.namespaces,
      )
