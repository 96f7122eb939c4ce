-- ===== src/Supervisor/Scan/Marked.antt =====
-- The issues that mark an observation as incomplete, and that what follows keeps.
use infernex_agent.Prelude.{
  ◌≡◌, refl, ◌∙◌, Bool, true, false, List, [], ◌∷◌, ◌++◌, String, ok, err, Outcome-cases,
  Option-cases, Bool-cases, any, arith, inl, inr, some, ℕ, Outcome, not, if◌then◌else◌,
}
use infernex_agent.Supervisor.Objects.{Issue, ServiceSummary, Topology, Incident}
use infernex_agent.Supervisor.Issues.{
  has_incomplete_observation, is_incomplete, issue_for_error, changed_observation_issue,
  detect_event_issues, issues_for_incidents,
}
use infernex_agent.Supervisor.Issues.Critical.{any-append}
use infernex_agent.Supervisor.Recovery.{Recoverer, identity_for, same_identity}
use infernex_agent.Supervisor.Scan.{
  Sources, Config, Collecting, inspect, observe_topology, observe_events, detect,
  diagnose_if_allowed, is_suspect, empty_snapshot, deferred_issue,
}

module _ (r : Recoverer) (x : Sources r) (config : Config) where
  abbrev pub Marked : Collecting r x config → Type 0
  Marked c = has_incomplete_observation c.snapshot.issues ≡ true

  any-incomplete_left :
      (xs ys : List Issue) → any is_incomplete xs ≡ true → any is_incomplete (xs ++ ys) ≡ true
  any-incomplete_left xs ys h = any-append is_incomplete xs ys ∙ ground arith

  any-incomplete_right :
      (xs : List Issue) (i : Issue)
      → is_incomplete i ≡ true
      → any is_incomplete (xs ++ i ∷ []) ≡ true
  unfolding any
  any-incomplete_right xs i h = any-append is_incomplete xs (i ∷ []) ∙ ground arith

  abbrev pub start : ServiceSummary → r.World → Collecting r x config
  start s w = record { snapshot = empty_snapshot r x config s; world = w }

  module _ (s : ServiceSummary) (c : Collecting r x config) where
    pub inspect-fails :
        (e : String)
        → (x.inspect_service s.namespace s.name c.world).0 ≡ err e
        → Marked (inspect r x config s c)
    unfolding inspect has_incomplete_observation issue_for_error
    inspect-fails e h = rw (inspect, h) (any-incomplete_right c.snapshot.issues _ refl)

    pub inspect-changed :
        (service : ServiceSummary)
        → (x.inspect_service s.namespace s.name c.world).0 ≡ ok service
        → same_identity (identity_for s) (identity_for service) ≡ false
        → Marked (inspect r x config s c)
    unfolding inspect has_incomplete_observation changed_observation_issue
    inspect-changed service h d = rw (inspect, h, d) (any-incomplete_right c.snapshot.issues _ refl)

    pub topology-fails :
        (e : String)
        → (x.get_topology s.namespace s.name c.world).0 ≡ err e
        → Marked (observe_topology r x config s c)
    unfolding observe_topology has_incomplete_observation issue_for_error
    topology-fails e h = rw (observe_topology, h) (any-incomplete_right c.snapshot.issues _ refl)

    pub topology-changed :
        (topology : Topology)
        → (x.get_topology s.namespace s.name c.world).0 ≡ ok topology
        → same_identity (identity_for c.snapshot.service) (identity_for topology.service) ≡ false
        → Marked (observe_topology r x config s c)
    unfolding observe_topology has_incomplete_observation changed_observation_issue
    topology-changed topology h d =
        rw (observe_topology, h, d) (any-incomplete_right c.snapshot.issues _ refl)

    pub observe_topology-Marked : Marked c → Marked (observe_topology r x config s c)
    unfolding observe_topology has_incomplete_observation
    observe_topology-Marked h = elim (Outcome-cases (x.get_topology s.namespace s.name c.world).0) [
      | inl (e, o) ↦ topology-fails e o
      | inr (t, o) ↦
          elim (Bool-cases
            (same_identity (identity_for c.snapshot.service) (identity_for t.service))) [
              | inl b ↦ rw (observe_topology, o, b) h
              | inr b ↦ topology-changed t o b
            ]
    ]

    pub detect-Marked : Marked c → Marked (detect r x config c)
    unfolding detect has_incomplete_observation
    detect-Marked h = any-incomplete_left c.snapshot.issues _ h

    pub events-fails :
        (e : String)
        → is_suspect r x config s c.snapshot ≡ true
        → (x.get_events s.namespace s.name config.event_since_minutes config.event_limit c.world).0
          ≡ err e
        → Marked (observe_events r x config s c)
    unfolding observe_events has_incomplete_observation issue_for_error
    events-fails e d h =
        rw (observe_events, d, if◌then◌else◌, h) (any-incomplete_right c.snapshot.issues _ refl)

    pub diagnosis-fails :
        (diagnose : String → String → ℕ → r.World → Outcome String (List Incident) × r.World)
        (e : String)
        → x.diagnose ≡ some diagnose
        → is_suspect r x config s c.snapshot ≡ true
        → (diagnose s.namespace s.name config.event_since_minutes c.world).0 ≡ err e
        → Marked (diagnose_if_allowed r x config s true c).0
    unfolding diagnose_if_allowed has_incomplete_observation issue_for_error
    diagnosis-fails diagnose e n d h =
        rw (diagnose_if_allowed, n, d, h, not, if◌then◌else◌)
          (any-incomplete_right c.snapshot.issues _ refl)

    pub diagnosis-deferred :
        (diagnose : String → String → ℕ → r.World → Outcome String (List Incident) × r.World)
        → x.diagnose ≡ some diagnose
        → is_suspect r x config s c.snapshot ≡ true
        → Marked (diagnose_if_allowed r x config s false c).0
    unfolding diagnose_if_allowed has_incomplete_observation deferred_issue
    diagnosis-deferred diagnose n d =
        rw (diagnose_if_allowed, n, d, not, if◌then◌else◌)
          (any-incomplete_right c.snapshot.issues _ refl)

    pub observe_events-Marked : Marked c → Marked (observe_events r x config s c)
    unfolding observe_events has_incomplete_observation
    observe_events-Marked h =
        elim (Outcome-cases
          (x.get_events s.namespace s.name config.event_since_minutes config.event_limit
            c.world).0) [
              | inl (e, o) ↦ ground (
                arith,
                o,
                any-incomplete_left c.snapshot.issues
                    (issue_for_error "EVENTS_FAILED" "InferNexService" e ∷ []) h,
              )
              | inr (events, o) ↦
                  ground
                    (arith, o, any-incomplete_left c.snapshot.issues (detect_event_issues events) h)
            ]

    pub diagnose-Marked :
        (allow : Bool) → Marked c → Marked (diagnose_if_allowed r x config s allow c).0
    unfolding diagnose_if_allowed has_incomplete_observation
    diagnose-Marked allow h = elim (Option-cases x.diagnose) [
      | inl n ↦ ground (arith, n)
      | inr (diagnose, n) ↦
          elim (Outcome-cases (diagnose s.namespace s.name config.event_since_minutes c.world).0) [
            | inl (e, o) ↦ ground (
              arith,
              n,
              o,
              any-incomplete_left c.snapshot.issues
                  (issue_for_error "DIAGNOSTICS_FAILED" "InferNexService" e ∷ []) h,
              any-incomplete_left c.snapshot.issues (deferred_issue r x config s ∷ []) h,
            )
            | inr (incidents, o) ↦ ground (
              arith,
              n,
              o,
              any-incomplete_left c.snapshot.issues (issues_for_incidents incidents) h,
              any-incomplete_left c.snapshot.issues (deferred_issue r x config s ∷ []) h,
            )
          ]
    ]
