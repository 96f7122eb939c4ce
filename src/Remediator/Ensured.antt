-- ===== src/Remediator/Ensured.antt =====
-- What EnsureRecovery has done where it succeeds.
use infernex_agent.Prelude.{
  ◌≡◌, refl, sym, ap, ◌∙◌, Bool, true, false, not, ◌||◌, Option, none, some, String, ◌⊎◌, inl, inr,
  str_eq, eq_iff, arith, Outcome-cases, ok, err,
}
use infernex_agent.Remediator.{
  Service, SourceIdentity, Request, Result, Api, RemediatorError, refuse, incomplete_expected,
  invalid_namespace, invalid_source, invalid_profile, invalid_name, precondition, not_ours,
  spec_drift,
}
use infernex_agent.Remediator.Check.{
  value_at, verify_preconditions, recovery_service, verify_recovery,
}
use infernex_agent.Remediator.Ensure.{
  look, unchanged, create_or_keep, is_malformed, normalized, bound_to, ensure_bound,
  ensure_normalized, ensure_recovery,
}
use infernex_agent.Remediator.Authorized.{
  IsJustified, IsAuthorized, ok-injective, step, refused, verify_preconditions-IsAuthorized,
  create_recovery-IsJustified,
}

module _ (a : Api) where
  open a use {World, Spec}

  -- The target was there, as the Agent would create it.
  pub record IsKept (request : Request) (r : Result) : Type 0 where
    pub current : Service Spec
    pub before : World
    pub was_read : (a.get_service request.namespace request.name before).0 ≡ ok current
    pub managed : value_at "agent.infernex.io/managed" current.labels ≡ "true"
    pub same_source :
        value_at "agent.infernex.io/recovery-source" current.annotations ≡ request.source_name
    pub same_profile :
        value_at "agent.infernex.io/recovery-profile" current.annotations ≡ request.profile
    pub same_spec : a.same_spec current.spec (a.spec_of request.profile) ≡ true
    pub kept : r.action ≡ "unchanged"

  look-eq-ok :
      (namespace name : String) (w : World) {current : Service Spec}
      → (look a namespace name w).0 ≡ ok (some current)
      → (a.get_service namespace name w).0 ≡ ok current
  unfolding look
  look-eq-ok namespace name w h = ground (arith, Outcome-cases (a.get_service namespace name w).0)

  refuse-eq-ok :
      (bad : Bool) (e : RemediatorError) (w : World) {u : Unit {0}} {w' : World}
      → refuse bad e w ≡ (ok u, w')
      → bad ≡ false
  refuse-eq-ok true e w {u = u} h = absurd (let e' : err e ≡ ok u = ap (λ p. p.0) h in cc)
  refuse-eq-ok false e w h = refl

  -- The three tests of ownership are against these texts.
  abbrev Owned : Service Spec → String → String → Type 0
  Owned current source profile =
      (value_at "agent.infernex.io/managed" current.labels ≡ "true")
      × (value_at "agent.infernex.io/recovery-source" current.annotations ≡ source)
      × (value_at "agent.infernex.io/recovery-profile" current.annotations ≡ profile)

  three_tests :
      (m s p source profile : String)
      → not (str_eq m "true") || not (str_eq s source) || not (str_eq p profile) ≡ false
      → (m ≡ "true") × (s ≡ source) × (p ≡ profile)
  three_tests m s p source profile h = (
    (eq_iff m "true").0 (ground arith),
    (eq_iff s source).0 (ground arith),
    (eq_iff p profile).0 (ground arith),
  )

  verify_recovery-Owned :
      (current : Service Spec) (source profile : String) (expected : Spec) (w : World)
      {u : Unit {0}}
      → (verify_recovery a current source profile expected w).0 ≡ ok u
      → Owned current source profile × (a.same_spec current.spec expected ≡ true)
  unfolding verify_recovery
  verify_recovery-Owned current source profile expected w h =
      let h' : verify_recovery a current source profile expected w
          ≡ (ok _, (verify_recovery a current source profile expected w).1) =
        λ i. (h i, (verify_recovery a current source profile expected w).1) in
      let (owned, k) =
        refused a _ not_ours (refuse (not (a.same_spec current.spec expected)) spec_drift) w h' in
      let same = refuse-eq-ok (not (a.same_spec current.spec expected)) spec_drift w k in
      (three_tests _ _ _ source profile owned, ground arith)

  unchanged-IsKept :
      (request : Request) (current : Service Spec) (before w : World) {r : Result} {w' : World}
      → (a.get_service request.namespace request.name before).0 ≡ ok current
      → unchanged a request current w ≡ (ok r, w')
      → IsKept request r
  unfolding unchanged recovery_service
  unchanged-IsKept request current before w found h =
      let (_, v, k) =
        step a
          (verify_recovery a current request.source_name request.profile
            (a.spec_of request.profile))
          _ w h in
      let (owned, same) =
        verify_recovery-Owned current request.source_name request.profile
          (a.spec_of request.profile) w v in
      record {
        current = current;
        before = before;
        was_read = found;
        managed = owned.0;
        same_source = owned.1;
        same_profile = owned.2;
        same_spec = same;
        kept = ap (λ (x : Result). x.action) (sym (ok-injective a (ap (λ p. p.0) k)));
      }

  -- What a success of EnsureRecovery rests on.
  abbrev pub IsEnsured : Request → Result → Type 0
  IsEnsured request r = IsKept request r ⊎ IsJustified a request r

  kept_or_created :
      (request : Request) (existing : Option (Service Spec)) (before w : World) {r : Result}
      {w' : World}
      → ((current : Service Spec)
          → existing ≡ some current
          → (a.get_service request.namespace request.name before).0 ≡ ok current)
      → create_or_keep a request existing w ≡ (ok r, w')
      → IsEnsured request r
  unfolding create_or_keep
  kept_or_created request none before w found h = inr (create_recovery-IsJustified a request w h)
  kept_or_created request (some current) before w found h =
      inl (unchanged-IsKept request current before w (found current refl) h)

  ensure_bound-IsEnsured :
      (request : Request) (w : World) {r : Result} {w' : World}
      → ensure_bound a request w ≡ (ok r, w')
      → IsEnsured request r
  unfolding ensure_bound
  ensure_bound-IsEnsured request w h =
      let (existing, e, k) =
        step a (look a request.namespace request.name) (create_or_keep a request) w h in
      kept_or_created request existing w (look a request.namespace request.name w).1
        (λ current same. look-eq-ok request.namespace request.name w (e ∙ ap ok same)) k

  ensure_normalized-IsEnsured :
      (request : Request) (w : World) {r : Result} {w' : World}
      → ensure_normalized a request w ≡ (ok r, w')
      → (identity : SourceIdentity) × IsAuthorized a request identity w
        × IsEnsured (bound_to a request identity) r
  unfolding ensure_normalized
  ensure_normalized-IsEnsured request w h =
      let (_, h1) = refused a (not (a.is_dns_label request.namespace)) invalid_namespace _ w h in
      let (_, h2) =
        refused a (not (a.is_dns_subdomain request.source_name)) invalid_source _ w h1 in
      let (_, h3) = refused a (not (a.is_dns_subdomain request.profile)) invalid_profile _ w h2 in
      let (_, h4) = refused a (not (a.is_dns_subdomain request.name)) invalid_name _ w h3 in
      let (_, h5) =
        refused a (is_malformed a request.expected_source) (precondition incomplete_expected) _ w
          h4 in
      let (identity, v, k) =
        step a (verify_preconditions a request) (λ i. ensure_bound a (bound_to a request i)) w h5 in
      (
        identity,
        verify_preconditions-IsAuthorized a request w
            (λ i. (v i, (verify_preconditions a request w).1)),
        ensure_bound-IsEnsured (bound_to a request identity) _ k,
      )

  -- Where EnsureRecovery succeeds, the source and its approved profile authorized the recovery that
  -- is asked for, by the names after trimming and the default name, when they were read first. And
  -- the target was there, owned by the Agent with the expected specification, and was kept; or it
  -- was created: the plan was in the journal, then the same incarnation and generation of the source
  -- and the profile authorized the recovery once more, and the target was created in the world of
  -- that check.
  pub ensure_recovery-IsEnsured :
      (request : Request) (w : World) {r : Result} {w' : World}
      → ensure_recovery a request w ≡ (ok r, w')
      → (identity : SourceIdentity) × IsAuthorized a (normalized a request) identity w
        × IsEnsured (bound_to a (normalized a request) identity) r
  unfolding ensure_recovery
  ensure_recovery-IsEnsured request w h = ensure_normalized-IsEnsured (normalized a request) w h
