-- ===== src/Supervisor/Recovery/Criteria.antt =====
-- Which observations count towards recovery: the early returns of evaluateRemediation.
use infernex_agent.Prelude.{
  ◌≡◌, ◌≢◌, refl, sym, ◌∙◌, ◌↔◌, Bool, true, false, ◌||◌, none, some, String, List, [], ◌∷◌, All,
  In, any-In, In-any, any, str_eq, eq_iff, Bool-cases, Option-cases, inl, inr, arith,
}
use infernex_agent.Prelude.Text.{trim_space}
use infernex_agent.Prelude.Int.{ltb_ℤ}
use infernex_agent.Supervisor.Objects.{
  Issue, Severity, critical, warning, info, RecoverySummary, ServiceSnapshot,
}
use infernex_agent.Supervisor.Issues.{
  is_critical, is_incomplete, has_critical_issue, has_incomplete_observation,
}
use infernex_agent.Supervisor.Recovery.{Recoverer, counts, gate}
use infernex_agent.Supervisor.Recovery.Persistent.{gate-policy, gate-remediator}

-- The issues that mark an observation as incomplete or changed.
abbrev pub flaws : List String
flaws =
    "INSPECT_FAILED" ∷ "TOPOLOGY_FAILED" ∷ "EVENTS_FAILED" ∷ "DIAGNOSTICS_FAILED"
    ∷ "DIAGNOSTICS_DEFERRED" ∷ "OBSERVATION_CHANGED" ∷ []

is_critical_iff : (i : Issue) → (is_critical i ≡ true) ↔ (i.severity ≡ critical)
is_critical_iff i = severity i.severity
  where
    severity :
        (s : Severity)
        → ((elim s [ critical ↦ true | warning ↦ false | info ↦ false ]) ≡ true) ↔ (s ≡ critical)
    severity critical = (λ h. refl, λ h. refl)
    severity warning = (λ h. cc, λ h. cc)
    severity info = (λ h. cc, λ h. cc)

-- The code of an issue is one of the list.
abbrev listed : String → List String → Bool
listed code [] = false
listed code (c ∷ codes) = str_eq code c || listed code codes

listed-false :
    (code : String) (codes : List String) → (listed code codes ≡ false) ↔ All (λ c. code ≢ c) codes
listed-false code [] = (λ h. tt, λ h. refl)
listed-false code (c ∷ codes) =
    let (to, from) = listed-false code codes in
    (
      λ h. ((λ e. let e' = (eq_iff code c).1 e in ground arith), to (ground arith)),
      λ h. elim (Bool-cases (str_eq code c)) [
        | inl e ↦ absurd (h.0 ((eq_iff code c).0 e))
        | inr e ↦ let rest = from h.1 in ground arith
      ],
    )

is_incomplete-listed : (i : Issue) → is_incomplete i ≡ listed i.code flaws
is_incomplete-listed i = ground arith

has_incomplete_observation_iff :
    (issues : List Issue)
    → (has_incomplete_observation issues ≡ false)
      ↔ ((i : Issue) → In i issues → All (λ c. i.code ≢ c) flaws)
unfolding has_incomplete_observation
has_incomplete_observation_iff issues = (
  λ h i m. (listed-false i.code flaws).0 (elim (Bool-cases (is_incomplete i)) [
    | inl e ↦ let any' = In-any is_incomplete i issues m e in ground arith
    | inr e ↦ sym (is_incomplete-listed i) ∙ e
  ]),
  λ h. elim (Bool-cases (any is_incomplete issues)) [
    | inl e ↦
        let (i, m, e') = any-In is_incomplete issues e in
        let l = (listed-false i.code flaws).1 (h i m) in
        let same = is_incomplete-listed i in ground arith
    | inr e ↦ e
  ],
)

has_critical_issue_iff :
    (issues : List Issue)
    → (has_critical_issue issues ≡ true) ↔ ((i : Issue) × In i issues × (i.severity ≡ critical))
unfolding has_critical_issue
has_critical_issue_iff issues = (
  λ h. let (i, m, e) = any-In is_critical issues h in (i, m, (is_critical_iff i).0 e),
  λ h. In-any is_critical h.0 issues h.1 ((is_critical_iff h.0).1 h.2),
)

module _ (r : Recoverer) where
  -- The service has opted in with a profile, there is a remediator, the scan is not cancelled,
  -- no issue says that the observation is incomplete or changed, Bridge has observed the generation,
  -- and some issue is critical.
  pub record IsFailing (s : ServiceSnapshot) (w : r.World) (policy : RecoverySummary) : Type 0 where
    pub is_policy : s.service.recovery ≡ some policy
    pub enabled : policy.enabled ≡ true
    pub has_profile : trim_space policy.profile ≢ ""
    pub has_remediator : r.ensure_recovery ≢ none
    pub not_cancelled : r.is_cancelled w ≡ false
    pub complete : (i : Issue) → In i s.issues → All (λ c. i.code ≢ c) flaws
    pub reconciled : ltb_ℤ s.service.observed_generation s.service.generation ≡ false
    pub has_critical : (i : Issue) × In i s.issues × (i.severity ≡ critical)

  module _ (s : ServiceSnapshot) (w : r.World) (policy : RecoverySummary) where
    -- An observation counts towards recovery exactly where the service has opted in with a recovery
    -- profile that is not blank, there is a remediator, the context is not cancelled, no issue is
    -- one of a failed, deferred or changed observation, the generation of the service is observed,
    -- and at least one issue is critical.
    pub gate-counts_iff : (gate r s w ≡ counts policy) ↔ IsFailing s w policy
    unfolding gate
    gate-counts_iff = (to, from)
      where
        to : gate r s w ≡ counts policy → IsFailing s w policy
        to g =
            let p = gate-policy r s w policy g in
            let k = gate-remediator r s w policy g in
            elim (Option-cases r.ensure_recovery) [
              | inl n ↦ absurd (k n)
              | inr (ensure, n) ↦
                  let whole : has_incomplete_observation s.issues ≡ false = ground (arith, p, n) in
                  let failing : has_critical_issue s.issues ≡ true = ground (arith, p, n) in
                  record {
                    is_policy = p;
                    enabled = ground (arith, p, n);
                    has_profile = λ e.
                        (let e' = (eq_iff (trim_space policy.profile) "").1 e in
                          ground (arith, p, n));
                    has_remediator = k;
                    not_cancelled = ground (arith, p, n);
                    complete = (has_incomplete_observation_iff s.issues).0 whole;
                    reconciled = ground (arith, p, n);
                    has_critical = (has_critical_issue_iff s.issues).0 failing;
                  }
            ]

        from : IsFailing s w policy → gate r s w ≡ counts policy
        from f = elim (Option-cases r.ensure_recovery) [
          | inl n ↦ absurd (f.has_remediator n)
          | inr (ensure, n) ↦
              let complete = (has_incomplete_observation_iff s.issues).1 f.complete in
              let failing = (has_critical_issue_iff s.issues).1 f.has_critical in
              elim (Bool-cases (str_eq (trim_space policy.profile) "")) [
                | inl b ↦ absurd (f.has_profile ((eq_iff (trim_space policy.profile) "").0 b))
                | inr b ↦ ground (arith, f.is_policy, n, f.enabled, f.not_cancelled, f.reconciled)
              ]
        ]
