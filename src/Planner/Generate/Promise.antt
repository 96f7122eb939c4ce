-- ===== src/Planner/Generate/Promise.antt =====
-- What Generate promises from the request to the plan.
use infernex_agent.Prelude.{
  ◌≡◌, refl, sym, ap, ◌⊎◌, inl, inr, Bool-cases, is_nil, not, if◌then◌else◌, [], All, arith,
  Outcome, ok, err,
}
use mathlib.Core.Path.{subst}
use infernex_agent.Planner.Quantity.{QuantityApi}
use infernex_agent.Planner.Objects.{Request}
use infernex_agent.Planner.Pods.{occupied_by_node}
use infernex_agent.Planner.Placing.Capacity.{CoveredBy}
use infernex_agent.Planner.Validate.{Validation, Validated, validate_profile}
use infernex_agent.Planner.Validate.Accepted.{validate_profile-HasUniqueKeys}
use infernex_agent.Planner.Generate.{
  Plan, Snapshot, Cluster, Read, continue, or_fail, GenerateError, invalid_profile, new_plan,
  read_snapshot, generate_valid, generate, pure, unsupported_plan, hashed_plan, plan_from,
}
use infernex_agent.Planner.Generate.Sound.{decide-CoveredBy}

or_fail-eq-ok :
    {E A : Type 0} (v : Validation) (q : QuantityApi) (c : Cluster q) (wrap : E → GenerateError)
    (r : Outcome E A) {a : A}
    → or_fail v q c wrap r ≡ ok a
    → r ≡ ok a
or_fail-eq-ok v q c wrap (ok a) h = ground arith
or_fail-eq-ok v q c wrap (err e) h = cc

ok-injective : {A : Type 0} {a b : A} → ◌≡◌ {A = Outcome GenerateError A} (ok a) (ok b) → a ≡ b
ok-injective h = cc

module _ (v : Validation) (q : QuantityApi) (c : Cluster q) where
  continue-eq-ok :
      {A B : Type 0} (r : Outcome GenerateError A) (f : A → Read v q c B) (w : c.World) {b : B}
      {w' : c.World}
      → continue v q c r f w ≡ (ok b, w')
      → (a : A) × (r ≡ ok a) × (f a w ≡ (ok b, w'))
  continue-eq-ok (ok a) f w h = (a, refl, h)
  continue-eq-ok (err e) f w {b = b} h = absurd (let e' : err e ≡ ok b = ap (λ p. p.0) h in cc)

  pure-eq-ok :
      {A : Type 0} (a : A) (w : c.World) {b : A} {w' : c.World}
      → pure v q c a w ≡ (ok b, w')
      → (a ≡ b) × (w ≡ w')
  pure-eq-ok a w {b = b} h = (ok-injective (ap (λ p. p.0) h), ap (λ p. p.1) h)

  -- Where a plan with placements comes from.
  pub record IsGrounded (minimum : q.Quantity) (request : Request) (w w' : c.World) (plan : Plan)
      : Type 0 where
    pub valid : Validated v q
    pub snapshot : Snapshot q c.LimitRange
    pub accepted : validate_profile v q minimum request ≡ ok valid
    pub was_read : read_snapshot v q c request.namespace w ≡ (ok snapshot, w')
    pub covered :
        All
          (CoveredBy q request.profile valid.requests
            (occupied_by_node q snapshot.pods.items)
            snapshot.nodes.items)
          plan.placements

  decided-IsGrounded :
      (minimum : q.Quantity) (request : Request) (w : c.World) (valid : Validated v q) {plan : Plan}
      {w' : c.World}
      → validate_profile v q minimum request ≡ ok valid
      → generate_valid v q c request valid w ≡ (ok plan, w')
      → (plan.placements ≡ []) ⊎ IsGrounded minimum request w w' plan
  unfolding generate_valid new_plan
  decided-IsGrounded minimum request w valid {plan = plan} {w' = w'} a h =
      elim (Bool-cases (is_nil valid.unsupported)) [
        | inr u ↦
            let (e, _) =
              pure-eq-ok (unsupported_plan v q c request valid) w
                (rw (u, if◌then◌else◌, not) at h) in
            inl (sym (ap (λ (p : Plan). p.placements) e))
        | inl u ↦
            let (s, r, k) =
              continue-eq-ok (read_snapshot v q c request.namespace w).0
                (λ s. pure v q c (plan_from v q c request valid s))
                (read_snapshot v q c request.namespace w).1 (rw (u, if◌then◌else◌, not) at h) in
            let (e, e') = pure-eq-ok (plan_from v q c request valid s) _ k in
            inr (record {
              valid = valid;
              snapshot = s;
              accepted = a;
              was_read = λ i. (r i, e' i);
              covered =
                  subst
                    (λ (p : Plan).
                      All
                        (CoveredBy q request.profile valid.requests
                          (occupied_by_node q s.pods.items) s.nodes.items)
                        p.placements)
                    e
                    (decide-CoveredBy q (hashed_plan v q c request valid s) request valid.requests s
                      refl (validate_profile-HasUniqueKeys v q minimum request valid a));
            })
      ]

  -- A plan that Generate returns has no placement, or it is grounded: the request was accepted,
  -- the namespace, nodes, pods, quotas and limit ranges were read, and every placement is on a node
  -- that was read, where the replicas with what the pods hold stay within the allocatable amount of
  -- each resource that a replica asks for.
  pub generate-IsGrounded :
      (minimum : q.Quantity) (request : Request) (w : c.World) {plan : Plan} {w' : c.World}
      → generate v q c minimum request w ≡ (ok plan, w')
      → (plan.placements ≡ []) ⊎ IsGrounded minimum request w w' plan
  unfolding generate
  generate-IsGrounded minimum request w h =
      let (valid, a, k) =
        continue-eq-ok (or_fail v q c invalid_profile (validate_profile v q minimum request))
          (generate_valid v q c request) w h in
      decided-IsGrounded minimum request w valid
        (or_fail-eq-ok v q c invalid_profile (validate_profile v q minimum request) a) k
