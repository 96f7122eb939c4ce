-- ===== src/Supervisor/Scan/Budget.antt =====
-- A scan keeps to its budgets of analyses and of log diagnostics.
use infernex_agent.Prelude.{
  ℕ, suc, ◌+◌, ◌≤◌, ◌≡◌, refl, Bool, false, List, [], ◌∷◌, String, Option, some, Bool-cases,
  Option-cases, Outcome-cases, Outcome, inl, inr, ◌⊎◌, if◌then◌else◌, arith, ltb,
}
use infernex_agent.Prelude.Dict.{put}
use infernex_agent.Supervisor.Objects.{
  ServiceSummary, ServiceSnapshot, Remediation, Incident, RecoverySummary, waiting,
}
use infernex_agent.Supervisor.Recovery.{
  Recoverer, Failures, gate, Gate, settled, counts, RecoveryRequest, recover, evaluate_remediation,
  count_failure, request_for, remediation_of, RecoveryResult, RecoveryError,
}
use infernex_agent.Supervisor.Scan.{
  Sources, Config, AnalysisRequest, Collecting, Scanning, Scan, Scanner, inspect, observe_topology,
  observe_events, detect, observe_service, empty_snapshot, analysis_request, diagnose_if_allowed,
  collect_service, analyze_service, fresh_analysis, analyze_if_needed, remediate, collect_next,
  scan_service, scan_services, scanned_namespace, failed_namespace, scan_namespace, scan_namespaces,
  scan_once, start_scanning, start_scan, cache_key,
}

Gate-cases :
    (g : Gate)
    → ((report : Option Remediation) × (g ≡ settled report))
      ⊎ ((policy : RecoverySummary) × (g ≡ counts policy))
Gate-cases (settled report) = inl (report, refl)
Gate-cases (counts policy) = inr (policy, refl)

module _ (r : Recoverer) (x : Sources r) (config : Config) where
  open r use {World}

  -- Two meters on the world, of the calls of the analyzer and of the diagnoser: a call adds one at
  -- most to its own, and no other call adds to either.
  pub record AreMeters (analyses diagnoses : World → ℕ) : Type 0 where
    pub list_keeps :
        (n : String) (w : World)
        → (analyses (x.list_services n w).1 ≤ analyses w)
          × (diagnoses (x.list_services n w).1 ≤ diagnoses w)
    pub inspect_keeps :
        (n m : String) (w : World)
        → (analyses (x.inspect_service n m w).1 ≤ analyses w)
          × (diagnoses (x.inspect_service n m w).1 ≤ diagnoses w)
    pub topology_keeps :
        (n m : String) (w : World)
        → (analyses (x.get_topology n m w).1 ≤ analyses w)
          × (diagnoses (x.get_topology n m w).1 ≤ diagnoses w)
    pub events_keep :
        (n m : String) (a b : ℕ) (w : World)
        → (analyses (x.get_events n m a b w).1 ≤ analyses w)
          × (diagnoses (x.get_events n m a b w).1 ≤ diagnoses w)
    pub ensure_keeps :
        (ensure : RecoveryRequest → World → Outcome RecoveryError RecoveryResult × World)
        → r.ensure_recovery ≡ some ensure
        → (q : RecoveryRequest) (w : World)
        → (analyses (ensure q w).1 ≤ analyses w) × (diagnoses (ensure q w).1 ≤ diagnoses w)
    pub diagnose_adds :
        (diagnose : String → String → ℕ → World → Outcome String (List Incident) × World)
        → x.diagnose ≡ some diagnose
        → (n m : String) (a : ℕ) (w : World)
        → (analyses (diagnose n m a w).1 ≤ analyses w)
          × (diagnoses (diagnose n m a w).1 ≤ suc (diagnoses w))
    pub analyze_adds :
        (analyze : AnalysisRequest → World → Outcome String String × World)
        → x.analyze ≡ some analyze
        → (q : AnalysisRequest) (w : World)
        → (analyses (analyze q w).1 ≤ suc (analyses w)) × (diagnoses (analyze q w).1 ≤ diagnoses w)

  module _ (analyses diagnoses : World → ℕ) (meters : AreMeters analyses diagnoses) where
    abbrev Kept : World → World → Type 0
    Kept w w' = (analyses w' ≤ analyses w) × (diagnoses w' ≤ diagnoses w)

    inspect-Kept :
        (s : ServiceSummary) (c : Collecting r x config)
        → Kept c.world (inspect r x config s c).world
    unfolding inspect
    inspect-Kept s c = elim (Outcome-cases (x.inspect_service s.namespace s.name c.world).0) [
      | inl (e, o) ↦ rw (inspect, o) (meters.inspect_keeps s.namespace s.name c.world)
      | inr (a, o) ↦ rw (inspect, o) (meters.inspect_keeps s.namespace s.name c.world)
    ]

    observe_topology-Kept :
        (s : ServiceSummary) (c : Collecting r x config)
        → Kept c.world (observe_topology r x config s c).world
    unfolding observe_topology
    observe_topology-Kept s c = elim (Outcome-cases (x.get_topology s.namespace s.name c.world).0) [
      | inl (e, o) ↦ rw (observe_topology, o) (meters.topology_keeps s.namespace s.name c.world)
      | inr (a, o) ↦ rw (observe_topology, o) (meters.topology_keeps s.namespace s.name c.world)
    ]

    observe_events-Kept :
        (s : ServiceSummary) (c : Collecting r x config)
        → Kept c.world (observe_events r x config s c).world
    unfolding observe_events
    observe_events-Kept s c = ground (
      arith,
      Outcome-cases
          (x.get_events s.namespace s.name config.event_since_minutes config.event_limit c.world).0,
      meters.events_keep s.namespace s.name config.event_since_minutes config.event_limit c.world,
    )

    -- A diagnosis is attempted only where it is allowed, and costs one.
    diagnose_if_allowed-cost :
        (s : ServiceSummary) (allow : Bool) (c : Collecting r x config)
        → let (c', attempted) = diagnose_if_allowed r x config s allow c in
          (analyses c'.world ≤ analyses c.world)
          × (diagnoses c'.world ≤ diagnoses c.world + (if attempted then 1 else 0))
          × (allow ≡ false → attempted ≡ false)
    unfolding diagnose_if_allowed
    diagnose_if_allowed-cost s allow c = elim (Option-cases x.diagnose) [
      | inl n ↦ ground (arith, n)
      | inr (diagnose, n) ↦ ground (
        arith,
        n,
        Outcome-cases (diagnose s.namespace s.name config.event_since_minutes c.world).0,
        meters.diagnose_adds diagnose n s.namespace s.name config.event_since_minutes c.world,
      )
    ]

    observe_service-Kept :
        (s : ServiceSummary) (w : World) → Kept w (observe_service r x config s w).world
    unfolding observe_service detect
    observe_service-Kept s w =
        let start : Collecting r x config = record {
          snapshot = empty_snapshot r x config s;
          world = w;
        } in
        let inspected = inspect r x config s start in
        let placed = observe_topology r x config s inspected in
        omega (
          arith,
          inspect-Kept s start,
          observe_topology-Kept s inspected,
          observe_events-Kept s (detect r x config placed),
        )

    collect_service-cost :
        (s : ServiceSummary) (allow : Bool) (w : World)
        → let (c', attempted) = collect_service r x config s allow w in
          (analyses c'.world ≤ analyses w)
          × (diagnoses c'.world ≤ diagnoses w + (if attempted then 1 else 0))
          × (allow ≡ false → attempted ≡ false)
    unfolding collect_service
    collect_service-cost s allow w =
        let (a, d, f) = diagnose_if_allowed-cost s allow (observe_service r x config s w) in
        let kept = observe_service-Kept s w in (omega arith, omega arith, f)

    fresh_analysis-cost :
        (n : ℕ) (analyze : AnalysisRequest → World → Outcome String String × World) (key : String)
        (s : ServiceSnapshot) (t : Scanning r x config)
        → x.analyze ≡ some analyze
        → let t' = (fresh_analysis r x config n analyze key s t).1 in
          (analyses t'.world + t.used_analyses ≤ analyses t.world + t'.used_analyses)
          × (diagnoses t'.world ≤ diagnoses t.world)
          × (t'.used_diagnostics ≡ t.used_diagnostics)
          × (t.used_analyses ≤ n → t'.used_analyses ≤ n)
    unfolding fresh_analysis analyze_service
    fresh_analysis-cost n analyze key s t e =
        ground (arith, meters.analyze_adds analyze e (analysis_request s) t.world)

    analyze_if_needed-cost :
        (n : ℕ) (key : String) (s : ServiceSnapshot) (t : Scanning r x config)
        → let t' = (analyze_if_needed r x config n key s t).1 in
          (analyses t'.world + t.used_analyses ≤ analyses t.world + t'.used_analyses)
          × (diagnoses t'.world ≤ diagnoses t.world)
          × (t'.used_diagnostics ≡ t.used_diagnostics)
          × (t.used_analyses ≤ n → t'.used_analyses ≤ n)
    unfolding analyze_if_needed
    analyze_if_needed-cost n key s t = elim (Option-cases x.analyze) [
      | inl e ↦ ground (arith, e)
      | inr (analyze, e) ↦ ground (arith, e, fresh_analysis-cost n analyze key s t e)
    ]

    recover-Kept :
        (failures : Failures) (key : String) (report : Remediation) (request : RecoveryRequest)
        (w : World)
        → Kept w (recover r failures key report request w).world
    unfolding recover
    recover-Kept failures key report request w = elim (Option-cases r.ensure_recovery) [
      | inl n ↦ ground (arith, n)
      | inr (ensure, n) ↦ ground (arith, n, meters.ensure_keeps ensure n request w)
    ]

    evaluate_remediation-Kept :
        (m : ℕ) (failures : Failures) (key : String) (s : ServiceSnapshot) (w : World)
        → Kept w (evaluate_remediation r m failures key s w).world
    unfolding evaluate_remediation
    evaluate_remediation-Kept m failures key s w =
        let failure = count_failure r failures key s in
        elim (Gate-cases (gate r s w)) [
          | inl (report, g) ↦ ground (arith, g)
          | inr (policy, g) ↦ ground (
            arith,
            g,
            recover-Kept (put key failure failures) key
                (remediation_of waiting policy.profile failure.scans) (request_for r s policy) w,
          )
        ]

    remediate-cost :
        (key : String) (s : ServiceSnapshot) (t : Scanning r x config)
        → let t' = remediate r x config key s t in
          Kept t.world t'.world
          × (t'.used_analyses ≡ t.used_analyses)
          × (t'.used_diagnostics ≡ t.used_diagnostics)
    unfolding remediate
    remediate-cost key s t =
        (evaluate_remediation-Kept config.min_critical_scans t.failures key s t.world, refl, refl)

    -- What a scan has called so far, within budgets for the namespace.
    record IsWithin (a d : ℕ) (w : World) (t : Scanning r x config) : Type 0 where
      analyses_paid : analyses t.world ≤ analyses w + t.used_analyses
      diagnoses_paid : diagnoses t.world ≤ diagnoses w + t.used_diagnostics
      analyses_bound : t.used_analyses ≤ a
      diagnoses_bound : t.used_diagnostics ≤ d

    collect_next-IsWithin :
        (a d : ℕ) (w : World) (s : ServiceSummary) (t : Scanning r x config)
        → IsWithin a d w t
        → IsWithin a d w (collect_next r x config d s t).1
    unfolding collect_next
    collect_next-IsWithin a d w s t h =
        let cost = collect_service-cost s (ltb t.used_diagnostics d) t.world in
        record {
          analyses_paid = omega (arith, cost.0, h.analyses_paid);
          diagnoses_paid = ground (arith, cost, h.diagnoses_paid);
          analyses_bound = h.analyses_bound;
          diagnoses_bound = ground (arith, cost, h.diagnoses_bound);
        }

    scan_service-IsWithin :
        (a d : ℕ) (w : World) (s : ServiceSummary) (t : Scanning r x config)
        → IsWithin a d w t
        → IsWithin a d w (scan_service r x config a d s t)
    unfolding scan_service
    scan_service-IsWithin a d w s t h =
        let (c, t') = collect_next r x config d s t in
        let h' = collect_next-IsWithin a d w s t h in
        let (c', t'') = analyze_if_needed r x config a (cache_key r x config s) c t' in
        let (paid, kept, same, bound) = analyze_if_needed-cost a (cache_key r x config s) c t' in
        let (last, used_a, used_d) = remediate-cost (cache_key r x config s) c' t'' in
        record {
          analyses_paid = omega (arith, paid, last, used_a, h'.analyses_paid);
          diagnoses_paid = omega (arith, kept, same, last, used_d, h'.diagnoses_paid);
          analyses_bound = omega (arith, bound h'.analyses_bound, used_a);
          diagnoses_bound = omega (arith, same, used_d, h'.diagnoses_bound);
        }

    scan_services-IsWithin :
        (a d : ℕ) (w : World) (ss : List ServiceSummary) (t : Scanning r x config)
        → IsWithin a d w t
        → IsWithin a d w (scan_services r x config a d ss t).0
    unfolding scan_services
    scan_services-IsWithin a d w [] t h = h
    scan_services-IsWithin a d w (s ∷ ss) t h = elim (Bool-cases (r.is_cancelled t.world)) [
      | inl e ↦ rw (e, if◌then◌else◌) h
      | inr e ↦
          rw (e, if◌then◌else◌)
            (scan_services-IsWithin a d w ss (scan_service r x config a d s t)
              (scan_service-IsWithin a d w s t h))
    ]

    -- What a scan has called and may call still.
    abbrev IsBudgeted : ℕ → ℕ → Scan r x config → Type 0
    IsBudgeted a d t =
        (analyses t.world + t.analyses_remaining ≤ a)
        × (diagnoses t.world + t.diagnostics_remaining ≤ d)

    scan_namespace-IsBudgeted :
        (a d : ℕ) (cancelled name : String) (t : Scan r x config)
        → IsBudgeted a d t
        → IsBudgeted a d (scan_namespace r x config cancelled name t)
    unfolding scan_namespace scanned_namespace failed_namespace
    scan_namespace-IsBudgeted a d cancelled name t h =
        elim (Outcome-cases (x.list_services name t.world).0) [
          | inl (e, o) ↦ rw (scan_namespace, o) (omega (arith, meters.list_keeps name t.world))
          | inr (list, o) ↦
              let w = (x.list_services name t.world).1 in
              let s =
                scan_services-IsWithin t.analyses_remaining t.diagnostics_remaining w list.services
                  (start_scanning r x config t w)
                  (record {
                    analyses_paid = omega arith;
                    diagnoses_paid = omega arith;
                    analyses_bound = omega arith;
                    diagnoses_bound = omega arith;
                  }) in
              rw (scan_namespace, o)
                (omega (
                  arith,
                  s.analyses_paid,
                  s.diagnoses_paid,
                  s.analyses_bound,
                  s.diagnoses_bound,
                  meters.list_keeps name t.world,
                ))
        ]

    scan_namespaces-IsBudgeted :
        (a d : ℕ) (cancelled : String) (names : List String) (t : Scan r x config)
        → IsBudgeted a d t
        → IsBudgeted a d (scan_namespaces r x config cancelled names t)
    unfolding scan_namespaces
    scan_namespaces-IsBudgeted a d cancelled [] t h = h
    scan_namespaces-IsBudgeted a d cancelled (name ∷ names) t h =
        scan_namespaces-IsBudgeted a d cancelled names (scan_namespace r x config cancelled name t)
          (scan_namespace-IsBudgeted a d cancelled name t h)

  -- One scan calls the analyzer MaxAnalysesPerScan times at most and the diagnoser
  -- MaxDiagnosticsPerScan times at most, over all its namespaces and services. This for meters of
  -- the two kinds of calls to which each call adds one at most.
  pub scan_once-budget :
      (analyses diagnoses : World → ℕ) (meters : AreMeters analyses diagnoses) (cancelled : String)
      (s : Scanner r x config)
      → (analyses (scan_once r x config cancelled s).0.world
          ≤ analyses s.world + config.max_analyses_per_scan)
        × (diagnoses (scan_once r x config cancelled s).0.world
            ≤ diagnoses s.world + config.max_diagnostics_per_scan)
  unfolding scan_once
  scan_once-budget analyses diagnoses meters cancelled s = omega (
    arith,
    scan_namespaces-IsBudgeted analyses diagnoses meters
        (analyses s.world + config.max_analyses_per_scan)
        (diagnoses s.world + config.max_diagnostics_per_scan) cancelled config.namespaces
        (start_scan r x config s) (omega arith, omega arith),
  )
