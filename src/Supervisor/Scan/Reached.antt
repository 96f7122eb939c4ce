-- ===== src/Supervisor/Scan/Reached.antt =====
-- A scan evaluates each service that it publishes once, and then only forgets failures.
use mathlib.Core.Path.{subst}
use mathlib.Core.List.{append-nil, append_assoc}
use infernex_agent.Prelude.{
  any, str_eq, eq_iff, arith, not, ◌||◌, true, none, ℕ, ◌≡◌, refl, sym, ap, ◌∙◌, Bool, Option, List,
  [], ◌∷◌, ◌++◌, String, Bool-cases, Outcome-cases, inl, inr, if◌then◌else◌,
}
use infernex_agent.Supervisor.Objects.{
  Analysis, ServiceSummary, ServiceSnapshot, NamespaceSnapshot, Summary,
}
use infernex_agent.Supervisor.Recovery.{Recoverer, Failures, Evaluated, evaluate_remediation}
use infernex_agent.Supervisor.Recovery.Streak.{
  lookup-prune_failures, Observation, Runs, evaluated, pruned,
}
use infernex_agent.Prelude.Dict.{lookup}
use infernex_agent.Supervisor.Issues.Critical.{any-append}
use infernex_agent.Supervisor.Scan.Analyzed.{analyze_if_needed-IsAnalyzed}
use infernex_agent.Supervisor.Scan.{
  mark_active, Sources, Config, Scanning, Scan, Scanner, analyze_if_needed, remediate, scan_service,
  scan_services, scan_namespace, scan_namespaces, scan_once, start_scanning, start_scan,
  collect_next, scanned_namespace, failed_namespace, cache_key, collect_service,
}

-- The services of all namespaces, in order.
abbrev pub all_services : List NamespaceSnapshot → List ServiceSnapshot
all_services [] = []
all_services (n ∷ namespaces) = n.services ++ all_services namespaces

all_services-append :
    (namespaces : List NamespaceSnapshot) (n : NamespaceSnapshot)
    → all_services (namespaces ++ n ∷ []) ≡ all_services namespaces ++ n.services
all_services-append [] n = append-nil n.services
all_services-append (m ∷ namespaces) n =
    ap (λ l. m.services ++ l) (all_services-append namespaces n)
    ∙ sym (append_assoc m.services (all_services namespaces) n.services)

module _ (r : Recoverer) (x : Sources r) (config : Config) where
  -- The observation is of what collectService has found of a service, under its key, with an
  -- analysis or without.
  pub record IsCollected (o : Observation r) : Type 0 where
    pub summary : ServiceSummary
    pub allow : Bool
    pub world : r.World
    pub analysis : Option Analysis
    pub same_key : o.key ≡ cache_key r x config summary
    pub same_service :
        o.service ≡ record ((collect_service r x config summary allow world).0.snapshot) {
          analysis = analysis;
        }

  abbrev pub evaluation : Failures → Observation r → Evaluated r
  evaluation failures o =
      evaluate_remediation r config.min_critical_scans failures o.key o.service o.world

  -- The evaluations of a scan, newest first; the failures that they leave, each evaluation starting
  -- from those of the one before; and the services that are published with what the evaluations
  -- report, one for each.
  pub data Evaluates (start : Failures)
      : List (Observation r) → Failures → List ServiceSnapshot → Type 0 where
    none_yet : Evaluates start [] start []
    one_more :
        {made : List (Observation r)} {failures : Failures} {services : List ServiceSnapshot}
        → Evaluates start made failures services
        → (o : Observation r) → IsCollected o
        → Evaluates start
            (o ∷ made)
            (evaluation failures o).failures
            (services ++ record (o.service) { remediation = (evaluation failures o).report } ∷ [])

  Evaluates-Runs :
      {before : List (Observation r)} {start : Failures} {made : List (Observation r)}
      {failures : Failures} {services : List ServiceSnapshot}
      → Runs r config.min_critical_scans before start
      → Evaluates start made failures services
      → Runs r config.min_critical_scans (made ++ before) failures
  Evaluates-Runs runs none_yet = runs
  Evaluates-Runs runs (one_more h o c) = evaluated (Evaluates-Runs runs h) o

  -- The service of the key was evaluated.
  abbrev pub was_seen : String → List (Observation r) → Bool
  was_seen key made = any (λ o. str_eq key o.key) made

  any-mark_active :
      (key new : String) (active : List String)
      → any (str_eq key) (mark_active r x config new active)
        ≡ (str_eq key new || any (str_eq key) active)
  unfolding any
  any-mark_active key new active = elim (Bool-cases (any (str_eq new) active)) [
    | inl e ↦ elim (Bool-cases (str_eq key new)) [
      | inl k ↦
          let listed : any (str_eq key) active ≡ true =
            subst (λ l. any (str_eq l) active ≡ true) (sym ((eq_iff key new).0 k)) e in
          ground (arith, e)
      | inr k ↦ ground (arith, e)
    ]
    | inr e ↦ let at_end = any-append (str_eq key) active (new ∷ []) in ground (arith, e)
  ]

  module _ (start : Failures) where
    -- What a scan has done, with the services of the namespaces before: it has marked those as active
    -- that it has evaluated.
    abbrev Done : List ServiceSnapshot → Failures → List String → Type 0
    Done services failures active =
        (made : List (Observation r)) × (Evaluates start made failures services)
        × ((key : String) → any (str_eq key) active ≡ was_seen key made)

    remediate-Done :
        (done : List ServiceSnapshot) (key : String) (s : ServiceSnapshot) (t : Scanning r x config)
        (active : List String)
        → IsCollected (record { key = key; service = s; world = t.world })
        → Done (done ++ t.services) t.failures active
        → Done
            (done ++ (remediate r x config key s t).services)
            (remediate r x config key s t).failures
            (mark_active r x config key active)
    unfolding remediate any
    remediate-Done done key s t active c (made, h, seen) =
        let o : Observation r = record { key = key; service = s; world = t.world } in
        let e = evaluate_remediation r config.min_critical_scans t.failures key s t.world in
        (
          o ∷ made,
          subst (Evaluates start (o ∷ made) e.failures)
              (append_assoc done t.services (record s { remediation = e.report } ∷ []))
              (one_more h o c),
          λ k. any-mark_active k key active ∙ ap (λ b. str_eq k key || b) (seen k),
        )

    scan_service-Done :
        (done : List ServiceSnapshot) (a d : ℕ) (service : ServiceSummary) (t : Scanning r x config)
        → Done (done ++ t.services) t.failures t.active
        → Done
            (done ++ (scan_service r x config a d service t).services)
            (scan_service r x config a d service t).failures
            (scan_service r x config a d service t).active
    unfolding scan_service collect_next
    scan_service-Done done a d service t h =
        let key = cache_key r x config service in
        let (s, t') = collect_next r x config d service t in
        let (s', t'') = analyze_if_needed r x config a key s t' in
        let k = analyze_if_needed-IsAnalyzed r x config a key s t' in
        subst
          (Done (done ++ (remediate r x config key s' t'').services)
            (remediate r x config key s' t'').failures)
          (sym k.same_active)
          (remediate-Done done key s' t'' t.active
            (record {
              summary = service;
              allow = _;
              world = t.world;
              analysis = k.analysis;
              same_key = refl;
              same_service = k.same_service;
            })
            (subst (λ l. Done (done ++ l) t''.failures t.active) (sym k.same_services)
              (subst (λ f. Done (done ++ t'.services) f t.active) (sym k.same_failures) h)))

    scan_services-Done :
        (done : List ServiceSnapshot) (a d : ℕ) (services : List ServiceSummary)
        (t : Scanning r x config)
        → Done (done ++ t.services) t.failures t.active
        → Done
            (done ++ (scan_services r x config a d services t).0.services)
            (scan_services r x config a d services t).0.failures
            (scan_services r x config a d services t).0.active
    unfolding scan_services
    scan_services-Done done a d [] t h = h
    scan_services-Done done a d (service ∷ services) t h =
        elim (Bool-cases (r.is_cancelled t.world)) [
          | inl e ↦ rw (e, if◌then◌else◌) h
          | inr e ↦
              rw (e, if◌then◌else◌)
                (scan_services-Done done a d services (scan_service r x config a d service t)
                  (scan_service-Done done a d service t h))
        ]

    scan_namespace-Done :
        (cancelled name : String) (t : Scan r x config)
        → Done (all_services t.namespaces) t.failures t.active
        → Done
            (all_services (scan_namespace r x config cancelled name t).namespaces)
            (scan_namespace r x config cancelled name t).failures
            (scan_namespace r x config cancelled name t).active
    unfolding scan_namespace scanned_namespace failed_namespace
    scan_namespace-Done cancelled name t h =
        let none_more = append-nil (all_services t.namespaces) in
        elim (Outcome-cases (x.list_services name t.world).0) [
          | inl (e, o) ↦
              rw (scan_namespace, o)
                (subst (λ l. Done l t.failures t.active)
                  (sym (all_services-append t.namespaces _ ∙ none_more)) h)
          | inr (list, o) ↦
              let begun = start_scanning r x config t (x.list_services name t.world).1 in
              let next =
                scan_services r x config t.analyses_remaining t.diagnostics_remaining list.services
                  begun in
              rw (scan_namespace, o)
                (subst (λ l. Done l next.0.failures next.0.active)
                  (sym (all_services-append t.namespaces _))
                  (scan_services-Done (all_services t.namespaces) t.analyses_remaining
                    t.diagnostics_remaining list.services begun
                    (subst (λ l. Done l t.failures t.active) (sym none_more) h)))
        ]

    scan_namespaces-Done :
        (cancelled : String) (names : List String) (t : Scan r x config)
        → Done (all_services t.namespaces) t.failures t.active
        → Done
            (all_services (scan_namespaces r x config cancelled names t).namespaces)
            (scan_namespaces r x config cancelled names t).failures
            (scan_namespaces r x config cancelled names t).active
    unfolding scan_namespaces
    scan_namespaces-Done cancelled [] t h = h
    scan_namespaces-Done cancelled (name ∷ names) t h =
        scan_namespaces-Done cancelled names (scan_namespace r x config cancelled name t)
          (scan_namespace-Done cancelled name t h)

  -- What a scan does to the failures of a scanner that has made the evaluations before.
  pub record IsScan (before : List (Observation r)) (s : Scanner r x config)
      (result : Scanner r x config × List NamespaceSnapshot × Summary) : Type 0 where
    pub made : List (Observation r)
    pub failures : Failures
    pub evaluates : Evaluates s.failures made failures (all_services result.1)
    pub forgets :
        (key : String)
        → lookup key result.0.failures ≡ (
            if not (was_seen key made) || r.is_cancelled result.0.world
            then none
            else lookup key failures)
    pub runs : Runs r config.min_critical_scans (made ++ before) result.0.failures

  -- A scan evaluates automatic recovery once for each service that it publishes, in their order, on
  -- what collectService has found of the service, and publishes what the evaluation reports; each
  -- evaluation starts from the failures that the one before has left, the first from those of the
  -- scanner. Then the scan forgets the failures of the services that it has not evaluated, all of
  -- them where it was cancelled, and no others. So its evaluations go on from those that the scanner
  -- has made before, and the failures that are left are those of a run of all of them.
  pub scan_once-IsScan :
      (cancelled : String) (before : List (Observation r)) (s : Scanner r x config)
      → Runs r config.min_critical_scans before s.failures
      → IsScan before s (scan_once r x config cancelled s)
  unfolding scan_once
  scan_once-IsScan cancelled before s runs =
      let t = scan_namespaces r x config cancelled config.namespaces (start_scan r x config s) in
      let stopped = r.is_cancelled t.world in
      let (made, h, seen) =
        scan_namespaces-Done s.failures cancelled config.namespaces (start_scan r x config s)
          ([], none_yet, λ key. unfold any in refl) in
      record {
        made = made;
        failures = t.failures;
        evaluates = h;
        forgets = λ key.
            lookup-prune_failures t.active stopped t.failures key
            ∙ ap (λ b. if not b || stopped then none else lookup key t.failures) (seen key);
        runs = pruned (Evaluates-Runs runs h) t.active stopped;
      }
