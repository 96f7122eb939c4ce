-- ===== src/Supervisor/Recovery/Streak.antt =====
-- Recovery is asked for only after enough critical scans in a row.
use mathlib.Core.Path.{subst}
use infernex_agent.Prelude.{
  ℕ, ◌≤◌, ◌≡◌, refl, sym, ap, Bool, true, false, not, none, some, String, List, [], ◌∷◌, ◌⊎◌, inl,
  inr, All, All-take_le, any, ◌||◌, length, take, keep, str_eq, eq_iff, ltb, arith, Bool-cases,
  Option-cases, if◌then◌else◌, Outcome, ok, err,
}
use infernex_agent.Prelude.Dict.{lookup, put, remove, lookup-put, lookup-remove}
use infernex_agent.Prelude.Int.{eqb_ℤ_iff}
use infernex_agent.Supervisor.Objects.{RecoverySummary, ServiceSnapshot, Remediation, waiting}
use infernex_agent.Supervisor.Recovery.{
  RecoveryIdentity, identity_for, same_identity, CriticalFailure, Failures, Recoverer, Gate,
  settled, counts, gate, failure_at, count_failure, request_for, conclude, Evaluated, recover,
  evaluate_remediation, remediation_of, RecoveryError, RecoveryResult, RecoveryRequest,
  prune_failures,
}

same_identity-eq : (a b : RecoveryIdentity) → same_identity a b ≡ true → a ≡ b
unfolding same_identity
same_identity-eq a b h =
    let u : a.uid ≡ b.uid = ground (arith, eq_iff a.uid b.uid) in
    let g : a.generation ≡ b.generation = eqb_ℤ_iff a.generation b.generation (ground arith) in
    let e : a.enabled ≡ b.enabled = ground arith in
    let p : a.profile ≡ b.profile = ground (arith, eq_iff a.profile b.profile) in
    let n : a.name ≡ b.name = ground (arith, eq_iff a.name b.name) in
    λ i. record { uid = u i; generation = g i; enabled = e i; profile = p i; name = n i }

abbrev pub is_forgotten : List String → Bool → String → Bool
is_forgotten active cancelled key = not (any (str_eq key) active) || cancelled

pub lookup-prune_failures :
    (active : List String) (cancelled : Bool) (failures : Failures) (key : String)
    → lookup key (prune_failures active cancelled failures)
      ≡ (if is_forgotten active cancelled key then none else lookup key failures)
unfolding prune_failures lookup
lookup-prune_failures active cancelled [] key = ground arith
lookup-prune_failures active cancelled ((k, f) ∷ failures) key =
    let ih = lookup-prune_failures active cancelled failures key in
    elim (Bool-cases (str_eq k key)) [
      | inl e ↦
          let same : is_forgotten active cancelled k ≡ is_forgotten active cancelled key =
            ap (is_forgotten active cancelled) ((eq_iff k key).0 e) in
          ground (arith, ih)
      | inr e ↦ ground (arith, ih)
    ]

prune_failures-lookup :
    (active : List String) (cancelled : Bool) (failures : Failures) (key : String)
    {f : CriticalFailure}
    → lookup key (prune_failures active cancelled failures) ≡ some f
    → lookup key failures ≡ some f
prune_failures-lookup active cancelled failures key h =
    ground (arith, lookup-prune_failures active cancelled failures key)

module _ (r : Recoverer) where
  open r use {World}

  -- One evaluation of a service: the key of the service, its snapshot, and the world then.
  pub record Observation : Type 0 where
    pub key : String
    pub service : ServiceSnapshot
    pub world : World

  -- The observation is of a critical failure of this identity, which counts.
  pub record IsCriticalAs (identity : RecoveryIdentity) (o : Observation) : Type 0 where
    pub policy : RecoverySummary
    pub counted : gate r o.service o.world ≡ counts policy
    pub identified : identity_for o.service.service ≡ identity

  -- The observations of one service, the newest first.
  unfoldable pub observed : String → List Observation → List Observation
  unfolding keep
  observed key history = keep (λ o. str_eq o.key key) history

  -- The newest n observations were made and all are critical, of one identity.
  pub record IsStreak (n : ℕ) (identity : RecoveryIdentity) (history : List Observation)
      : Type 0 where
    pub enough : n ≤ length history
    pub critical : All (IsCriticalAs identity) (take n history)

  abbrev Inv : List Observation → Failures → Type 0
  Inv history failures =
      (key : String) (f : CriticalFailure)
      → lookup key failures ≡ some f
      → IsStreak f.scans f.identity (observed key history)

  -- A failure of the map afterwards was there before.
  conclude-lookup :
      (failures : Failures) (key other : String) (report : Remediation)
      (result : Outcome RecoveryError RecoveryResult) {f : CriticalFailure}
      → lookup other (conclude r failures key report result).0 ≡ some f
      → lookup other failures ≡ some f
  unfolding conclude
  conclude-lookup failures key other report (ok result) h = h
  conclude-lookup failures key other report (err e) h =
      ground (arith, lookup-remove key other failures)

  recover-lookup :
      (failures : Failures) (key other : String) (report : Remediation) (request : RecoveryRequest)
      (w : World) {f : CriticalFailure}
      → lookup other (recover r failures key report request w).failures ≡ some f
      → lookup other failures ≡ some f
  unfolding recover
  recover-lookup failures key other report request w h = elim (Option-cases r.ensure_recovery) [
    | inl n ↦ ground (arith, n)
    | inr (ensure, n) ↦ conclude-lookup failures key other report (ensure request w).0 (rw n at h)
  ]

  -- Where a failure of the map afterwards comes from: it is of another service and was there, or
  -- it is the one that this evaluation counted.
  evaluate_remediation-lookup :
      (m : ℕ) (failures : Failures) (key other : String) (service : ServiceSnapshot) (w : World)
      {f : CriticalFailure}
      → lookup other (evaluate_remediation r m failures key service w).failures ≡ some f
      → ((str_eq key other ≡ false) × (lookup other failures ≡ some f))
        ⊎ ((key ≡ other)
            × (policy : RecoverySummary) × (gate r service w ≡ counts policy)
            × (f ≡ count_failure r failures key service))
  unfolding evaluate_remediation
  evaluate_remediation-lookup m failures key other service w {f = f} h =
      pick (gate r service w) refl h
    where
      counted :
          (policy : RecoverySummary)
          → gate r service w ≡ counts policy
          → lookup other (put key (count_failure r failures key service) failures) ≡ some f
          → ((str_eq key other ≡ false) × (lookup other failures ≡ some f))
            ⊎ ((key ≡ other)
                × (policy : RecoverySummary) × (gate r service w ≡ counts policy)
                × (f ≡ count_failure r failures key service))
      counted policy g h = elim (Bool-cases (str_eq key other)) [
        | inr d ↦ inl (
          d,
          ground (arith, lookup-put key other (count_failure r failures key service) failures),
        )
        | inl d ↦ inr (
          (eq_iff key other).0 d,
          policy,
          g,
          ground (arith, lookup-put key other (count_failure r failures key service) failures),
        )
      ]

      pick :
          (x : Gate)
          → gate r service w ≡ x
          → lookup other
              (elim x as (λ _. Evaluated r) [
                | settled report ↦ record {
                  failures = remove key failures;
                  report = report;
                  world = w;
                }
                | counts policy ↦
                    if ltb (count_failure r failures key service).scans m
                    then record {
                      failures = put key (count_failure r failures key service) failures;
                      report = some (
                          remediation_of waiting policy.profile
                            (count_failure r failures key service).scans);
                      world = w;
                    }
                    else recover r
                        (put key (count_failure r failures key service) failures)
                        key
                        (remediation_of waiting policy.profile
                          (count_failure r failures key service).scans)
                        (request_for r service policy)
                        w
              ]).failures
            ≡ some f
          → ((str_eq key other ≡ false) × (lookup other failures ≡ some f))
            ⊎ ((key ≡ other)
                × (policy : RecoverySummary) × (gate r service w ≡ counts policy)
                × (f ≡ count_failure r failures key service))
      pick (settled report) g h = inl (ground (arith, lookup-remove key other failures))
      pick (counts policy) g h =
          elim (Bool-cases (ltb (count_failure r failures key service).scans m)) [
            | inl l ↦ counted policy g (rw (l, if◌then◌else◌) at h)
            | inr l ↦
                counted policy g (recover-lookup _ key other _ _ w (rw (l, if◌then◌else◌) at h))
          ]

  IsStreak-le :
      (m n : ℕ) (identity : RecoveryIdentity) (history : List Observation)
      → m ≤ n
      → IsStreak n identity history
      → IsStreak m identity history
  IsStreak-le m n identity history l s = record {
    enough = omega (arith, s.enough);
    critical = All-take_le (IsCriticalAs identity) m n history l s.critical;
  }

  failure_at-IsStreak :
      (failures : Failures) (history : List Observation) (key : String)
      → Inv history failures
      → IsStreak
          (failure_at r failures key).scans
          (failure_at r failures key).identity
          (observed key history)
  failure_at-IsStreak failures history key inv = elim (Option-cases (lookup key failures)) [
    | inl n ↦ rw (failure_at, n) (record { enough = omega arith; critical = tt })
    | inr (f, n) ↦ rw (failure_at, n) (inv key f n)
  ]

  -- The count of a critical observation continues a streak.
  count_failure-IsStreak :
      (failures : Failures) (history : List Observation) (key : String) (service : ServiceSnapshot)
      (w : World) (policy : RecoverySummary)
      → Inv history failures
      → gate r service w ≡ counts policy
      → IsStreak
          (count_failure r failures key service).scans
          (identity_for service.service)
          (record { key = key; service = service; world = w } ∷ observed key history)
  unfolding count_failure
  count_failure-IsStreak failures history key service w policy inv g =
      let identity = identity_for service.service in
      let here : IsCriticalAs identity (record { key = key; service = service; world = w }) =
        record { policy = policy; counted = g; identified = refl } in
      let before = failure_at-IsStreak failures history key inv in
      elim (Bool-cases (same_identity (failure_at r failures key).identity identity)) [
        | inl e ↦
            rw (e, if◌then◌else◌)
              (record {
                enough = omega (arith, before.enough);
                critical = (
                  here,
                  subst
                      (λ i.
                        All (IsCriticalAs i)
                          (take (failure_at r failures key).scans (observed key history)))
                      (same_identity-eq _ identity e) before.critical,
                );
              })
        | inr e ↦ rw (e, if◌then◌else◌) (record { enough = omega arith; critical = (here, tt) })
      ]

  -- The evaluations of a scanner, the newest first, with its failures afterwards; between them it
  -- may forget failures, as a scan does for the services that it did not see.
  pub data Runs (min_critical_scans : ℕ) : List Observation → Failures → Type 0 where
    start : Runs min_critical_scans [] []
    evaluated :
        {history : List Observation} {failures : Failures}
        → Runs min_critical_scans history failures
        → (o : Observation)
        → Runs min_critical_scans
            (o ∷ history)
            (evaluate_remediation r min_critical_scans failures o.key o.service o.world).failures
    pruned :
        {history : List Observation} {failures : Failures}
        → Runs min_critical_scans history failures
        → (active : List String) (cancelled : Bool)
        → Runs min_critical_scans history (prune_failures active cancelled failures)

  evaluated-Inv :
      (m : ℕ) (history : List Observation) (failures : Failures) (o : Observation)
      → Inv history failures
      → Inv (o ∷ history) (evaluate_remediation r m failures o.key o.service o.world).failures
  unfolding observed count_failure identity_for
  evaluated-Inv m history failures o inv key f h =
      elim (evaluate_remediation-lookup m failures o.key key o.service o.world h) [
        | inl (d, e) ↦ rw (d, if◌then◌else◌) (inv key f e)
        | inr (same, policy, g, e) ↦
            let d : str_eq o.key key ≡ true = (eq_iff o.key key).1 same in
            rw (d, if◌then◌else◌)
              (subst (λ x. IsStreak x.scans x.identity (o ∷ observed key history)) (sym e)
                (subst
                  (λ k.
                    IsStreak (count_failure r failures o.key o.service).scans
                      (identity_for o.service.service) (o ∷ observed k history))
                  same
                  (count_failure-IsStreak failures history o.key o.service o.world policy inv g)))
      ]

  Runs-Inv :
      {m : ℕ} {history : List Observation} {failures : Failures}
      → Runs m history failures
      → Inv history failures
  Runs-Inv start key f h = absurd (unfold lookup in ground arith)
  Runs-Inv (evaluated {history = history} {failures = failures} runs o) key f h =
      evaluated-Inv _ history failures o (Runs-Inv runs) key f h
  Runs-Inv (pruned {failures = failures} runs active cancelled) key f h =
      Runs-Inv runs key f (prune_failures-lookup active cancelled failures key h)

  -- EnsureRecovery is the only step of an evaluation that may change the world. After any run of
  -- the scanner, an evaluation leaves the world alone, or the newest MinCriticalScans evaluations of
  -- the service, this one included, were made and all were of a critical failure of one identity:
  -- one UID, generation and recovery policy, observed completely and without cancellation.
  pub evaluate_remediation-Guarded :
      {m : ℕ} {history : List Observation} {failures : Failures}
      → Runs m history failures
      → (o : Observation)
      → ((evaluate_remediation r m failures o.key o.service o.world).world ≡ o.world)
        ⊎ IsStreak m (identity_for o.service.service) (o ∷ observed o.key history)
  unfolding evaluate_remediation
  evaluate_remediation-Guarded {m = m} {history = history} {failures = failures} runs o =
      pick (gate r o.service o.world) refl
    where
      pick :
          (x : Gate)
          → gate r o.service o.world ≡ x
          → ((elim x as (λ _. Evaluated r) [
            | settled report ↦ record {
              failures = remove o.key failures;
              report = report;
              world = o.world;
            }
            | counts policy ↦
                if ltb (count_failure r failures o.key o.service).scans m
                then record {
                  failures = put o.key (count_failure r failures o.key o.service) failures;
                  report = some (
                      remediation_of waiting policy.profile
                        (count_failure r failures o.key o.service).scans);
                  world = o.world;
                }
                else recover r
                    (put o.key (count_failure r failures o.key o.service) failures)
                    o.key
                    (remediation_of waiting policy.profile
                      (count_failure r failures o.key o.service).scans)
                    (request_for r o.service policy)
                    o.world
          ]).world
              ≡ o.world)
            ⊎ IsStreak m (identity_for o.service.service) (o ∷ observed o.key history)
      pick (settled report) g = inl refl
      pick (counts policy) g =
          elim (Bool-cases (ltb (count_failure r failures o.key o.service).scans m)) [
            | inl l ↦ inl (rw (l, if◌then◌else◌) refl)
            | inr l ↦ inr (
                IsStreak-le m _ _ _ (ground arith) (
                  count_failure-IsStreak failures history o.key o.service o.world policy
                    (Runs-Inv runs) g))
          ]
