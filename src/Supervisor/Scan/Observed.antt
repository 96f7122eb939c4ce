-- ===== src/Supervisor/Scan/Observed.antt =====
-- A failed or changed observation is marked as incomplete.
use infernex_agent.Prelude.{
  ◌≡◌, ◌≢◌, ◌∙◌, Bool, true, false, List, String, ok, err, Option-cases, arith, inl, inr, some, ℕ,
  Outcome,
}
use infernex_agent.Supervisor.Objects.{
  ServiceSummary, ServiceSnapshot, Topology, RecoverySummary, Incident,
}
use infernex_agent.Supervisor.Issues.{has_incomplete_observation}
use infernex_agent.Supervisor.Issues.Sorted.{sort_issues-has_incomplete_observation}
use infernex_agent.Supervisor.Recovery.{Recoverer, counts, gate, identity_for, same_identity}
use infernex_agent.Supervisor.Scan.{
  Sources, Config, Collecting, inspect, observe_topology, detect, observe_service,
  diagnose_if_allowed, collect_service, is_suspect,
}
use infernex_agent.Supervisor.Scan.Marked.{
  Marked, start, inspect-fails, inspect-changed, topology-fails, topology-changed,
  observe_topology-Marked, detect-Marked, events-fails, diagnosis-fails, diagnosis-deferred,
  observe_events-Marked, diagnose-Marked,
}

module _ (r : Recoverer) (x : Sources r) (config : Config) where
  -- The observation so far: after the topology, and once its issues are detected.
  abbrev pub seen : ServiceSummary → r.World → Collecting r x config
  seen s w = observe_topology r x config s (inspect r x config s (start r x config s w))

  abbrev pub detected : ServiceSummary → r.World → Collecting r x config
  detected s w = detect r x config (seen s w)

  -- Something went wrong while the service was read, where the budget allows a diagnosis or not: one
  -- of the reads that were due failed, the identity of the service changed between two reads, or its
  -- diagnosis was due and had to be left for another scan. Events and a diagnosis are due where an
  -- issue was found or the service is not ready.
  pub data IsFlawed (s : ServiceSummary) (allow : Bool) (w : r.World) : Type 0 where
    inspect_failed :
        (e : String) → (x.inspect_service s.namespace s.name w).0 ≡ err e → IsFlawed s allow w
    changed :
        (service : ServiceSummary)
        → (x.inspect_service s.namespace s.name w).0 ≡ ok service
        → same_identity (identity_for s) (identity_for service) ≡ false
        → IsFlawed s allow w
    topology_failed :
        (e : String)
        → (x.get_topology s.namespace s.name (inspect r x config s (start r x config s w)).world).0
          ≡ err e
        → IsFlawed s allow w
    topology_changed :
        (topology : Topology)
        → (x.get_topology s.namespace s.name (inspect r x config s (start r x config s w)).world).0
          ≡ ok topology
        → same_identity
            (identity_for (inspect r x config s (start r x config s w)).snapshot.service)
            (identity_for topology.service)
          ≡ false
        → IsFlawed s allow w
    events_failed :
        (e : String)
        → is_suspect r x config s (detected s w).snapshot ≡ true
        → (x.get_events s.namespace s.name config.event_since_minutes config.event_limit
            (detected s w).world).0
          ≡ err e
        → IsFlawed s allow w
    diagnosis_failed :
        (diagnose : String → String → ℕ → r.World → Outcome String (List Incident) × r.World)
        (e : String)
        → x.diagnose ≡ some diagnose
        → is_suspect r x config s (observe_service r x config s w).snapshot ≡ true
        → allow ≡ true
        → (diagnose s.namespace s.name config.event_since_minutes
            (observe_service r x config s w).world).0
          ≡ err e
        → IsFlawed s allow w
    diagnosis_deferred :
        (diagnose : String → String → ℕ → r.World → Outcome String (List Incident) × r.World)
        → x.diagnose ≡ some diagnose
        → is_suspect r x config s (observe_service r x config s w).snapshot ≡ true
        → allow ≡ false
        → IsFlawed s allow w

  later-Marked :
      (s : ServiceSummary) (allow : Bool) (w : r.World)
      → Marked r x config (seen s w)
      → Marked r x config
          (diagnose_if_allowed r x config s allow (observe_service r x config s w)).0
  unfolding observe_service
  later-Marked s allow w h =
      diagnose-Marked r x config s (observe_service r x config s w) allow (
        observe_events-Marked r x config s (detected s w) (detect-Marked r x config s (seen s w) h))

  IsFlawed-Marked :
      (s : ServiceSummary) (allow : Bool) (w : r.World)
      → IsFlawed s allow w
      → Marked r x config
          (diagnose_if_allowed r x config s allow (observe_service r x config s w)).0
  unfolding observe_service
  IsFlawed-Marked s allow w (inspect_failed e h) = later-Marked s allow w (
      observe_topology-Marked r x config s _
        (inspect-fails r x config s (start r x config s w) e h))
  IsFlawed-Marked s allow w (changed service h d) = later-Marked s allow w (
      observe_topology-Marked r x config s _
        (inspect-changed r x config s (start r x config s w) service h d))
  IsFlawed-Marked s allow w (topology_failed e h) =
      later-Marked s allow w
        (topology-fails r x config s (inspect r x config s (start r x config s w)) e h)
  IsFlawed-Marked s allow w (topology_changed t h d) =
      later-Marked s allow w
        (topology-changed r x config s (inspect r x config s (start r x config s w)) t h d)
  IsFlawed-Marked s allow w (events_failed e d h) =
      diagnose-Marked r x config s (observe_service r x config s w) allow
        (events-fails r x config s (detected s w) e d h)
  IsFlawed-Marked s allow w (diagnosis_failed diagnose e n d a h) =
      rw a (diagnosis-fails r x config s (observe_service r x config s w) diagnose e n d h)
  IsFlawed-Marked s allow w (diagnosis_deferred diagnose n d a) =
      rw a (diagnosis-deferred r x config s (observe_service r x config s w) diagnose n d)

  gate-Marked :
      (snapshot : ServiceSnapshot) (w : r.World)
      → has_incomplete_observation snapshot.issues ≡ true
      → (policy : RecoverySummary) → gate r snapshot w ≢ counts policy
  unfolding gate
  gate-Marked snapshot w h policy g = elim (Option-cases snapshot.service.recovery) [
    | inl n ↦ ground (arith, n)
    | inr (p, n) ↦ elim (Option-cases r.ensure_recovery) [
      | inl k ↦ ground (arith, n, k)
      | inr (e, k) ↦ ground (arith, n, k)
    ]
  ]

  -- A flawed observation never counts towards recovery: where the inspection, the topology, the
  -- events or the diagnosis of a service failed, where its identity changed between two reads, or
  -- where a diagnosis that was due had to be deferred, the snapshot that collectService makes of the
  -- service does not pass the gate of evaluateRemediation, whatever else is found.
  pub collect_service-gate :
      (s : ServiceSummary) (allow : Bool) (w w' : r.World)
      → IsFlawed s allow w
      → (policy : RecoverySummary)
      → gate r (collect_service r x config s allow w).0.snapshot w' ≢ counts policy
  unfolding collect_service
  collect_service-gate s allow w w' flawed = gate-Marked _ w' (
      sort_issues-has_incomplete_observation
        (diagnose_if_allowed r x config s allow (observe_service r x config s w)).0.snapshot.issues
      ∙ IsFlawed-Marked s allow w flawed)
