-- ===== src/Supervisor/Recovery/Persistent.antt =====
-- Recovery is asked for once a critical failure has lasted long enough.
use mathlib.Core.Path.{subst}
use infernex_agent.Prelude.{
  ℕ, suc, ◌+◌, ◌≤◌, ◌≡◌, ◌≢◌, refl, ap, ◌∙◌, Bool, true, false, none, some, String, List, [], ◌∷◌,
  ◌⊎◌, inl, inr, length, eq_iff, ltb, arith, Bool-cases, Option-cases, same_bool, if◌then◌else◌,
  Outcome, ok, err,
}
use infernex_agent.Prelude.Dict.{lookup, put, lookup-put}
use infernex_agent.Supervisor.Objects.{
  RecoverySummary, ServiceSnapshot, Remediation, waiting, acted, error,
}
use infernex_agent.Supervisor.Recovery.{
  RecoveryIdentity, identity_for, same_identity, CriticalFailure, Failures, Recoverer, counts, gate,
  count_failure, request_for, conclude, recover, evaluate_remediation, remediation_of, Evaluated,
  RecoveryError, RecoveryResult, RecoveryRequest,
}
use infernex_agent.Supervisor.Recovery.Streak.{Observation, IsCriticalAs}

same_bool_refl : (b : Bool) → same_bool b b ≡ true
same_bool_refl true = refl
same_bool_refl false = refl

same_identity_refl : (a : RecoveryIdentity) → same_identity a a ≡ true
unfolding same_identity
same_identity_refl a = ground (
  arith,
  eq_iff a.uid a.uid,
  eq_iff a.profile a.profile,
  eq_iff a.name a.name,
  same_bool_refl a.enabled,
)

module _ (r : Recoverer) where
  open r use {World}

  -- The remediator never finds that its preconditions have changed.
  abbrev pub NeverRefuses : Type 0
  NeverRefuses =
      (ensure : RecoveryRequest → World → Outcome RecoveryError RecoveryResult × World)
      → r.ensure_recovery ≡ some ensure
      → (q : RecoveryRequest) (w : World) (e : RecoveryError) → (ensure q w).0 ≡ err e
      → e.is_precondition ≡ false

  -- Where scans are counted at all, the map counts n of them at least, of this identity.
  abbrev CountsUp : ℕ → RecoveryIdentity → String → Failures → Type 0
  CountsUp n identity key failures =
      (n ≡ 0)
      ⊎ ((f : CriticalFailure) × (lookup key failures ≡ some f)
          × (f.identity ≡ identity)
          × (n ≤ f.scans))

  count_failure-counts :
      (n : ℕ) (identity : RecoveryIdentity) (failures : Failures) (o : Observation r)
      → IsCriticalAs r identity o
      → CountsUp n identity o.key failures
      → (suc n ≤ (count_failure r failures o.key o.service).scans)
        × ((count_failure r failures o.key o.service).identity ≡ identity)
  unfolding count_failure
  count_failure-counts n identity failures o c (inl z) = (ground arith, c.identified)
  count_failure-counts n identity failures o c (inr (f, l, i, h)) =
      let same : same_identity f.identity (identity_for o.service.service) ≡ true =
        rw (i, c.identified) (same_identity_refl identity) in
      (ground (arith, l, same), c.identified)

  -- What is reported is what EnsureRecovery answered: its action and its change, or an error.
  abbrev pub HasAnswer : Outcome RecoveryError RecoveryResult → Remediation → Type 0
  HasAnswer (ok result) m = (m.status ≡ acted result.action) × (m.change_id ≡ result.change_id)
  HasAnswer (err e) m = m.status ≡ error

  -- EnsureRecovery was called in the world w, once, to recover the service at the generation that
  -- was observed with the profile and the name of its recovery policy: the world afterwards is the
  -- one that the call left, and its answer is reported.
  pub record HasAsked (service : ServiceSnapshot) (w : World) (e : Evaluated r) : Type 0 where
    pub ensure : RecoveryRequest → World → Outcome RecoveryError RecoveryResult × World
    pub is_remediator : r.ensure_recovery ≡ some ensure
    pub policy : RecoverySummary
    pub is_policy : service.service.recovery ≡ some policy
    pub request : RecoveryRequest
    pub of_source :
        (request.namespace ≡ service.service.namespace)
        × (request.source_name ≡ service.service.name)
        × (request.source_uid ≡ service.service.uid)
        × (request.source_generation ≡ service.service.generation)
    pub of_policy : (request.profile ≡ policy.profile) × (request.name ≡ policy.name)
    pub asked : e.world ≡ (ensure request w).1
    pub reported : Remediation
    pub is_reported : e.report ≡ some reported
    pub answer : HasAnswer (ensure request w).0 reported

  conclude-keeps :
      (failures : Failures) (key : String) (report : Remediation)
      (result : Outcome RecoveryError RecoveryResult)
      → ((e : RecoveryError) → result ≡ err e → e.is_precondition ≡ false)
      → ((conclude r failures key report result).0 ≡ failures)
        × HasAnswer result (conclude r failures key report result).1
  unfolding conclude
  conclude-keeps failures key report (ok result) n = (refl, (refl, refl))
  conclude-keeps failures key report (err e) n = rw (n e refl, if◌then◌else◌) (refl, refl)

  recover-asks :
      NeverRefuses
      → (failures : Failures) (key : String) (report : Remediation) (service : ServiceSnapshot)
        (policy : RecoverySummary) (w : World)
      → r.ensure_recovery ≢ none
      → service.service.recovery ≡ some policy
      → let e = recover r failures key report (request_for r service policy) w in
        (e.failures ≡ failures) × HasAsked service w e
  unfolding recover request_for
  recover-asks never failures key report service policy w some_remediator is_policy =
      elim (Option-cases r.ensure_recovery) [
        | inl none_remediator ↦ absurd (some_remediator none_remediator)
        | inr (ensure, e) ↦
            let request = request_for r service policy in
            let (kept, answer) =
              conclude-keeps failures key report (ensure request w).0
                (λ x h. never ensure e request w x h) in
            rw (recover, e)
              (
                kept,
                record {
                  ensure = ensure;
                  is_remediator = e;
                  policy = policy;
                  is_policy = is_policy;
                  request = request;
                  of_source = (refl, refl, refl, refl);
                  of_policy = (refl, refl);
                  asked = refl;
                  reported = (conclude r failures key report (ensure request w).0).1;
                  is_reported = refl;
                  answer = answer;
                },
              )
      ]

  pub gate-remediator :
      (service : ServiceSnapshot) (w : World) (policy : RecoverySummary)
      → gate r service w ≡ counts policy
      → r.ensure_recovery ≢ none
  unfolding gate
  gate-remediator service w policy g n = elim (Option-cases service.service.recovery) [
    | inl k ↦ ground (arith, n, k)
    | inr (p, k) ↦ ground (arith, n, k)
  ]

  pub gate-policy :
      (service : ServiceSnapshot) (w : World) (policy : RecoverySummary)
      → gate r service w ≡ counts policy
      → service.service.recovery ≡ some policy
  unfolding gate
  gate-policy service w policy g = elim (Option-cases service.service.recovery) [
    | inl k ↦ ground (arith, k)
    | inr (p, k) ↦ elim (Option-cases r.ensure_recovery) [
      | inl n ↦ ground (arith, n, k)
      | inr (e, n) ↦ ground (arith, n, k)
    ]
  ]

  critical-evaluated :
      NeverRefuses
      → (m n : ℕ) (identity : RecoveryIdentity) (failures : Failures) (o : Observation r)
      → IsCriticalAs r identity o
      → CountsUp n identity o.key failures
      → let e = evaluate_remediation r m failures o.key o.service o.world in
        CountsUp (suc n) identity o.key e.failures × (m ≤ suc n → HasAsked o.service o.world e)
  unfolding evaluate_remediation
  critical-evaluated never m n identity failures o c h =
      let f = count_failure r failures o.key o.service in
      let (more, same) = count_failure-counts n identity failures o c h in
      let l : lookup o.key (put o.key f failures) ≡ some f =
        ground (arith, lookup-put o.key o.key f failures, eq_iff o.key o.key) in
      elim (Bool-cases (ltb f.scans m)) [
        | inl b ↦
            rw (evaluate_remediation, c.counted, b, if◌then◌else◌)
              (inr (f, l, same, more), λ k. absurd (ground arith))
        | inr b ↦
            let (kept, asked) =
              recover-asks never (put o.key f failures) o.key
                (remediation_of waiting c.policy.profile f.scans) o.service c.policy o.world
                (gate-remediator o.service o.world c.policy c.counted)
                (gate-policy o.service o.world c.policy c.counted) in
            rw (evaluate_remediation, c.counted, b, if◌then◌else◌)
              (inr (f, ap (lookup o.key) kept ∙ l, same, more), λ k. asked)
      ]

  -- The failures after the evaluations of one service, in order.
  unfoldable pub evaluate_all : ℕ → String → Failures → List (ServiceSnapshot × World) → Failures
  evaluate_all m key failures [] = failures
  evaluate_all m key failures ((service, w) ∷ rest) =
      evaluate_all m key (evaluate_remediation r m failures key service w).failures rest

  -- Critical failures of one service, with one identity.
  abbrev pub AreCritical : RecoveryIdentity → String → List (ServiceSnapshot × World) → Type 0
  AreCritical identity key [] = Unit
  AreCritical identity key ((service, w) ∷ rest) =
      IsCriticalAs r identity (record { key = key; service = service; world = w })
      × AreCritical identity key rest

  evaluate_all-CountsUp :
      NeverRefuses
      → (m n : ℕ) (identity : RecoveryIdentity) (key : String) (failures : Failures)
        (scans : List (ServiceSnapshot × World))
      → AreCritical identity key scans
      → CountsUp n identity key failures
      → CountsUp (n + length scans) identity key (evaluate_all m key failures scans)
  unfolding evaluate_all
  evaluate_all-CountsUp never m n identity key failures [] h c =
      subst (λ k. CountsUp k identity key failures) (omega arith) c
  evaluate_all-CountsUp never m n identity key failures ((service, w) ∷ rest) (h, hs) c =
      subst
        (λ k.
          CountsUp k identity key
            (evaluate_all m key (evaluate_remediation r m failures key service w).failures rest))
        (omega arith)
        (evaluate_all-CountsUp never m (suc n) identity key _ rest hs
          (critical-evaluated never m n identity failures
            (record { key = key; service = service; world = w }) h c).0)

  -- A critical failure that lasts is recovered from: after enough critical scans of one service with
  -- one identity, so that with the next there are MinCriticalScans of them, the next critical scan
  -- calls EnsureRecovery for the service at the generation that was observed, with the profile and
  -- the name of its policy: the world afterwards is the one that this call left, and the report has
  -- its action and change, or an error where it failed. This whatever was counted before, and where
  -- the remediator never finds its preconditions changed.
  pub evaluate_all-asks :
      NeverRefuses
      → (m : ℕ) (identity : RecoveryIdentity) (key : String) (failures : Failures)
        (scans : List (ServiceSnapshot × World)) (service : ServiceSnapshot) (w : World)
      → AreCritical identity key scans
      → IsCriticalAs r identity (record { key = key; service = service; world = w })
      → m ≤ suc (length scans)
      → HasAsked service w
          (evaluate_remediation r m (evaluate_all m key failures scans) key service w)
  evaluate_all-asks never m identity key failures scans service w h c l =
      (critical-evaluated never m (length scans) identity (evaluate_all m key failures scans)
          (record { key = key; service = service; world = w }) c
          (subst (λ k. CountsUp k identity key (evaluate_all m key failures scans)) (omega arith)
            (evaluate_all-CountsUp never m 0 identity key failures scans h (inl refl)))).1
        l
