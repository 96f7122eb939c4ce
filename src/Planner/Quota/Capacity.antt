-- ===== src/Planner/Quota/Capacity.antt =====
-- The capacity that quotaCapacity returns is granted by every quota.
use mathlib.Core.Path.{subst}
use native.Mathlib.Nat.{le_refl}
use infernex_agent.Prelude.{
  ℕ, zero, suc, ◌≤◌, ◌<◌, ◌≡◌, refl, ap, false, none, some, String, List, [], ◌∷◌, All, arith,
  Outcome, ok, err, is_nil, Bool-cases, is_nil-eq, Option-cases, inl, inr,
}
use infernex_agent.Prelude.Dict.{lookup}
use infernex_agent.Prelude.Int.{◌+ℤ◌, ◌≤ℤ◌, times, times-one, times_shift}
use infernex_agent.Planner.Quantity.{QuantityApi}
use infernex_agent.Planner.Resources.{ResourceList}
use infernex_agent.Planner.Objects.{ResourceQuota}
use infernex_agent.Planner.Quota.{
  QuotaProblem, Room, quota_request, count_slots, narrow, visit_limit, visit_limits, visit_quota,
  visit_quotas, quota_capacity,
}

module _ (q : QuantityApi) where
  open q use {Quantity, nanos, add, less, nanos-add, less_lem}

  count_slots-le : (left : ℕ) (trial per hard : Quantity) → count_slots q left trial per hard ≤ left
  unfolding count_slots
  count_slots-le zero trial per hard = omega arith
  count_slots-le (suc left) trial per hard =
      ground (arith, count_slots-le left (add trial per) per hard)

  -- Each count of replicas up to the slots was tried and stayed within the limit.
  count_slots-within :
      (left k : ℕ) (trial per hard : Quantity)
      → k < count_slots q left trial per hard
      → nanos trial +ℤ times (suc k) (nanos per) ≤ℤ nanos hard
  unfolding count_slots
  count_slots-within zero k trial per hard h = elim h [ ]
  count_slots-within (suc left) zero trial per hard h =
      rw times-one (rw (← nanos-add trial per) (ground (arith, less_lem hard (add trial per))))
  count_slots-within (suc left) (suc k) trial per hard h = rw times_shift (
      rw (← nanos-add trial per)
        (count_slots-within left k (add trial per) per hard (ground arith)))

  module _ (replicas : ℕ) (requests : ResourceList q) where
    -- The quota grants `capacity` replicas of the resource: the observed limit and usage are known,
    -- and every number of replicas up to the capacity stays within the limit.
    pub record IsGranted (quota : ResourceQuota Quantity) (name : String) (capacity : ℕ)
        (per : Quantity) : Type 0 where
      pub hard : Quantity
      pub used : Quantity
      pub hard_known : lookup name quota.status_hard ≡ some hard
      pub used_known : lookup name quota.used ≡ some used
      pub within_hard :
          (k : ℕ) → k < capacity → nanos used +ℤ times (suc k) (nanos per) ≤ℤ nanos hard

    abbrev pub Grants : ResourceQuota Quantity → ℕ → String → Type 0
    Grants quota capacity name =
        (per : Quantity)
        → quota_request q name requests ≡ some per
        → IsGranted quota name capacity per

    abbrev pub GrantsAll : ResourceQuota Quantity → ℕ → ResourceList q → Type 0
    GrantsAll quota capacity [] = Unit
    GrantsAll quota capacity ((name, _) ∷ limits) =
        Grants quota capacity name × GrantsAll quota capacity limits

    Grants-le :
        (quota : ResourceQuota Quantity) (c d : ℕ) (name : String)
        → d ≤ c
        → Grants quota c name
        → Grants quota d name
    Grants-le quota c d name l g per e =
        let r = g per e in
        record {
          hard = r.hard;
          used = r.used;
          hard_known = r.hard_known;
          used_known = r.used_known;
          within_hard = λ k h. r.within_hard k (omega arith);
        }

    GrantsAll-le :
        (quota : ResourceQuota Quantity) (c d : ℕ) (limits : ResourceList q)
        → d ≤ c
        → GrantsAll quota c limits
        → GrantsAll quota d limits
    GrantsAll-le quota c d [] l g = tt
    GrantsAll-le quota c d ((name, _) ∷ limits) l g =
        (Grants-le quota c d name l g.0, GrantsAll-le quota c d limits l g.1)

    narrow-le :
        (room : Room q) (quota : String) (slots : ℕ) (name : String)
        → ((narrow q room quota slots name).capacity ≤ room.capacity)
          × ((narrow q room quota slots name).capacity ≤ slots)
    unfolding narrow
    narrow-le room quota slots name = ground arith

    -- A limit that does not block is of no concern, or its known slots bound the capacity.
    abbrev Counted : ResourceQuota Quantity → Room q → String → Room q → Quantity → Type 0
    Counted quota room name room' per =
        (hard : Quantity) × (used : Quantity) × (lookup name quota.status_hard ≡ some hard)
        × (lookup name quota.used ≡ some used)
        × (room' ≡ narrow q room quota.name (count_slots q replicas used per hard) name)

    visit_limit-Counted :
        (quota : ResourceQuota Quantity) (room : Room q) (name : String) (per : Quantity)
        {room' : Room q}
        → quota_request q name requests ≡ some per
        → visit_limit q replicas requests quota room name ≡ ok room'
        → Counted quota room name room' per
    unfolding visit_limit
    visit_limit-Counted quota room name per e h =
        elim (Option-cases (lookup name quota.status_hard)) [
          | inl n ↦ absurd (ground (arith, e, n))
          | inr (hard, k) ↦ elim (Option-cases (lookup name quota.used)) [
            | inl n ↦ absurd (ground (arith, e, k, n))
            | inr (used, m) ↦ (hard, used, k, m, ground (arith, e, k, m))
          ]
        ]

    visit_limit-ignored :
        (quota : ResourceQuota Quantity) (room : Room q) (name : String) {room' : Room q}
        → quota_request q name requests ≡ none
        → visit_limit q replicas requests quota room name ≡ ok room'
        → room' ≡ room
    unfolding visit_limit
    visit_limit-ignored quota room name e h = ground arith

    Counted-Grants :
        (quota : ResourceQuota Quantity) (room : Room q) (name : String) (per : Quantity)
        (room' : Room q)
        → quota_request q name requests ≡ some per
        → Counted quota room name room' per
        → (room'.capacity ≤ room.capacity) × Grants quota room'.capacity name
    Counted-Grants quota room name per room' e (hard, used, k, m, eq) =
        let slots = count_slots q replicas used per hard in
        let capacity_eq : room'.capacity ≡ (narrow q room quota.name slots name).capacity =
          ap (λ (r : Room q). r.capacity) eq in
        (
          omega (arith, narrow-le room quota.name slots name),
          λ per' e'. record {
            hard = hard;
            used = used;
            hard_known = k;
            used_known = m;
            within_hard = λ j l.
                subst (λ (p : Quantity). nanos used +ℤ times (suc j) (nanos p) ≤ℤ nanos hard)
                  (let same : per ≡ per' = cc in same)
                  (count_slots-within replicas j used per hard
                    (omega (arith, narrow-le room quota.name slots name)));
          },
        )

    visit_limit-Grants :
        (quota : ResourceQuota Quantity) (room : Room q) (name : String) (room' : Room q)
        → visit_limit q replicas requests quota room name ≡ ok room'
        → (room'.capacity ≤ room.capacity) × Grants quota room'.capacity name
    visit_limit-Grants quota room name room' h =
        elim (Option-cases (quota_request q name requests)) [
          | inl n ↦
              let e = visit_limit-ignored quota room name n h in
              (rw e (le_refl _), λ per k. absurd (ground (arith, n, k)))
          | inr (per, e) ↦
              Counted-Grants quota room name per room' e
                (visit_limit-Counted quota room name per e h)
        ]

    visit_limits-GrantsAll :
        (quota : ResourceQuota Quantity) (room : Outcome QuotaProblem (Room q))
        (limits : ResourceList q) (room' : Room q)
        → visit_limits q replicas requests quota room limits ≡ ok room'
        → (r : Room q) × (room ≡ ok r)
          × (room'.capacity ≤ r.capacity)
          × GrantsAll quota room'.capacity limits
    unfolding visit_limits
    visit_limits-GrantsAll quota (err e) limits room' h = cc
    visit_limits-GrantsAll quota (ok room) [] room' h = (room, refl, ground arith, tt)
    visit_limits-GrantsAll quota (ok room) ((name, x) ∷ limits) room' h =
        let (r, e, l, g) =
          visit_limits-GrantsAll quota (visit_limit q replicas requests quota room name) limits
            room' h in
        let (l', g') = visit_limit-Grants quota room name r e in
        (room, refl, omega arith, (Grants-le quota r.capacity room'.capacity name l g', g))

    -- What the quotas promise for a capacity.
    pub record Permits (quota : ResourceQuota Quantity) (capacity : ℕ) : Type 0 where
      pub no_scopes : quota.scopes ≡ []
      pub no_selector : quota.has_scope_selector ≡ false
      pub limits : GrantsAll quota capacity quota.spec_hard

    Permits-le :
        (quota : ResourceQuota Quantity) (c d : ℕ) → d ≤ c → Permits quota c → Permits quota d
    Permits-le quota c d l p = record {
      no_scopes = p.no_scopes;
      no_selector = p.no_selector;
      limits = GrantsAll-le quota c d quota.spec_hard l p.limits;
    }

    visit_quota-Permits :
        (room : Room q) (quota : ResourceQuota Quantity) (room' : Room q)
        → visit_quota q replicas requests room quota ≡ ok room'
        → (room'.capacity ≤ room.capacity) × Permits quota room'.capacity
    unfolding visit_quota
    visit_quota-Permits room quota room' h = elim (Bool-cases (is_nil quota.scopes)) [
      | inr n ↦ absurd (ground arith)
      | inl n ↦ elim (Bool-cases quota.has_scope_selector) [
        | inl m ↦ absurd (ground arith)
        | inr m ↦
            let (r, e, l, g) =
              visit_limits-GrantsAll quota (ok room) quota.spec_hard room' (ground arith) in
            let e' : r.capacity ≡ room.capacity = ground arith in
            (
              omega arith,
              record { no_scopes = is_nil-eq quota.scopes n; no_selector = m; limits = g },
            )
      ]
    ]

    visit_quotas-Permits :
        (room : Outcome QuotaProblem (Room q)) (quotas : List (ResourceQuota Quantity))
        (room' : Room q)
        → visit_quotas q replicas requests room quotas ≡ ok room'
        → (r : Room q) × (room ≡ ok r)
          × (room'.capacity ≤ r.capacity)
          × All (λ quota. Permits quota room'.capacity) quotas
    unfolding visit_quotas
    visit_quotas-Permits (err e) quotas room' h = cc
    visit_quotas-Permits (ok room) [] room' h = (room, refl, ground arith, tt)
    visit_quotas-Permits (ok room) (quota ∷ quotas) room' h =
        let (r, e, l, g) =
          visit_quotas-Permits (visit_quota q replicas requests room quota) quotas room' h in
        let (l', g') = visit_quota-Permits room quota r e in
        (room, refl, omega arith, (Permits-le quota r.capacity room'.capacity l g', g))

    -- Where quotaCapacity does not block, its capacity is at most the replicas asked for, no quota
    -- has scopes, and each quota grants that many replicas of every resource that it limits and a
    -- replica uses: the observed limit and usage are known, and no number of replicas up to the
    -- capacity takes the usage past the limit. So for every order of the quotas and their limits.
    pub quota_capacity-Permits :
        (quotas : List (ResourceQuota Quantity)) (room : Room q)
        → quota_capacity q replicas requests quotas ≡ ok room
        → (room.capacity ≤ replicas) × All (λ quota. Permits quota room.capacity) quotas
    unfolding quota_capacity
    quota_capacity-Permits quotas room h =
        let (r, e, l, g) =
          visit_quotas-Permits (ok (record { capacity = replicas; reason = none })) quotas room h in
        let e' : r.capacity ≡ replicas = ground arith in (omega arith, g)
