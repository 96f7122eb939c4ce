-- ===== src/Planner/Placing/Capacity.antt =====
-- Placement never overcommits a node.
use infernex_agent.Prelude.{
  ℕ, zero, suc, ◌≤◌, ◌<◌, ◌≡◌, refl, sym, ◌∙◌, true, false, some, String, List, [], ◌∷◌, arith,
  Bool-cases, inl, inr, ◌⊎◌, All, All-append, In, if◌then◌else◌,
}
use mathlib.Core.Path.{subst}
use infernex_agent.Prelude.Dict.{lookup, HasUniqueKeys}
use infernex_agent.Prelude.Int.{
  pos, ◌+ℤ◌, ◌≤ℤ◌, times, times-suc, times-zero, +ℤ_zero, take_one_more, sub_nonneg, within,
}
use infernex_agent.Planner.Quantity.{QuantityApi}
use infernex_agent.Planner.Resources.{ResourceList, subtract_resources, fits}
use infernex_agent.Planner.Resources.Sums.{
  amount, amount-subtract_resources, amount_of_lookup, fits-amount,
}
use infernex_agent.Planner.Objects.{Node, Profile, Placement}
use infernex_agent.Planner.Pods.{Occupancy, list_at}
use infernex_agent.Planner.Nodes.{node_eligible, missing_core_allocatable}
use infernex_agent.Planner.Placing.{
  fill, Tally, free_on, is_uncertain, record_placement, visit_node, place,
}

module _ (q : QuantityApi) where
  open q use {Quantity, nanos}

  fill-le :
      (requests : ResourceList q) (left : ℕ) (available : ResourceList q)
      → (fill q requests left available).0 ≤ left
  unfolding fill
  fill-le requests zero available = omega arith
  fill-le requests (suc left) available =
      ground (arith, fill-le requests left (subtract_resources q available requests))

  -- After `placed` replicas each resource has `placed` requests less.
  fill-amount :
      (requests : ResourceList q) (left : ℕ) (available : ResourceList q) (name : String)
      → HasUniqueKeys requests
      → amount q name (fill q requests left available).1
          +ℤ times (fill q requests left available).0 (amount q name requests)
        ≡ amount q name available
  unfolding fill
  fill-amount requests zero available name u = rw (times-zero (amount q name requests)) (+ℤ_zero _)
  fill-amount requests (suc left) available name u =
      let next = subtract_resources q available requests in
      ground (
        arith,
        +ℤ_zero (amount q name available),
        times-zero (amount q name requests),
        times-suc (fill q requests left next).0 (amount q name requests),
        take_one_more (amount q name (fill q requests left next).1)
            (times (fill q requests left next).0 (amount q name requests)) (amount q name requests)
            (amount q name available)
            (fill-amount requests left next name u
              ∙ amount-subtract_resources q name available requests u),
      )

  module _ (requests : ResourceList q) (name : String) (x : Quantity) (u : HasUniqueKeys requests)
      (e : lookup name requests ≡ some x) where
    next-nonneg :
        (available : ResourceList q)
        → fits q available requests ≡ true
        → pos 0 ≤ℤ amount q name (subtract_resources q available requests)
    next-nonneg available f = rw (amount-subtract_resources q name available requests u) (
        rw (amount_of_lookup q name requests x e) (
          sub_nonneg (amount q name available) (nanos x)
            (fits-amount q name available requests x f e)))

    fill-keeps_nonneg :
        (left : ℕ) (available : ResourceList q)
        → pos 0 ≤ℤ amount q name available
        → pos 0 ≤ℤ amount q name (fill q requests left available).1
    unfolding fill
    fill-keeps_nonneg zero available h = h
    fill-keeps_nonneg (suc left) available h = elim (Bool-cases (fits q available requests)) [
      | inl f ↦
          rw (f, if◌then◌else◌)
            (fill-keeps_nonneg left (subtract_resources q available requests)
              (next-nonneg available f))
      | inr f ↦ rw (f, if◌then◌else◌) h
    ]

    -- If a replica was placed, no requested resource is overdrawn.
    fill-nonneg :
        (left : ℕ) (available : ResourceList q)
        → 0 < (fill q requests left available).0
        → pos 0 ≤ℤ amount q name (fill q requests left available).1
    unfolding fill
    fill-nonneg zero available h = elim h [ ]
    fill-nonneg (suc left) available h = elim (Bool-cases (fits q available requests)) [
      | inl f ↦
          rw (f, if◌then◌else◌)
            (fill-keeps_nonneg left (subtract_resources q available requests)
              (next-nonneg available f))
      | inr f ↦ absurd (ground arith)
    ]

    -- The placed replicas are within what was available.
    fill-within :
        (left : ℕ) (allocatable used : ResourceList q)
        → HasUniqueKeys used
        → 0 < (fill q requests left (subtract_resources q allocatable used)).0
        → times (fill q requests left (subtract_resources q allocatable used)).0 (nanos x)
            +ℤ amount q name used
          ≤ℤ amount q name allocatable
    fill-within left allocatable used v h =
        let filled = fill q requests left (subtract_resources q allocatable used) in
        within (amount q name filled.1) (times filled.0 (nanos x)) (amount q name allocatable)
          (amount q name used)
          (rw (← amount_of_lookup q name requests x e) (
            fill-amount requests left (subtract_resources q allocatable used) name u
            ∙ amount-subtract_resources q name allocatable used v))
          (fill-nonneg left (subtract_resources q allocatable used) h)

  -- What a placement promises of its node.
  pub record IsCovered (profile : Profile) (requests : ResourceList q) (o : Occupancy q)
      (p : Placement) (node : Node Quantity) : Type 0 where
    pub same_node : p.node_name ≡ node.name
    pub eligible : node_eligible node profile ≡ true
    pub certain : is_uncertain q o node.name ≡ false
    pub accounted : missing_core_allocatable node.allocatable ≡ false
    pub used : 0 < p.replicas
    pub covered :
        (name : String) (x : Quantity)
        → lookup name requests ≡ some x
        → times p.replicas (nanos x) +ℤ amount q name (list_at q node.name o.occupied)
          ≤ℤ amount q name node.allocatable

  abbrev pub CoveredBy :
      Profile → ResourceList q → Occupancy q → List (Node Quantity) → Placement → Type 0
  CoveredBy profile requests o nodes p =
      (node : Node Quantity) × In node nodes × IsCovered profile requests o p node

  module _ (profile : Profile) (requests : ResourceList q) (o : Occupancy q)
      (u : HasUniqueKeys requests)
      (v : (name : String) → HasUniqueKeys (list_at q name o.occupied)) where
    abbrev filled_on : Tally q → Node Quantity → ℕ × ResourceList q
    filled_on t node = fill q requests t.remaining (free_on q o node)

    record Takes (t : Tally q) (node : Node Quantity) : Type 0 where
      eligible : node_eligible node profile ≡ true
      certain : is_uncertain q o node.name ≡ false
      accounted : missing_core_allocatable node.allocatable ≡ false
      used : 0 < (filled_on t node).0

    -- A visit leaves the placements alone, or records one on the node.
    visit_node-cases :
        (t : Tally q) (node : Node Quantity)
        → ((visit_node q profile requests o t node).0.placements ≡ t.placements)
          ⊎ (Takes t node
              × ((visit_node q profile requests o t node).0
                  ≡ record_placement q requests node t (filled_on t node)))
    unfolding visit_node
    visit_node-cases t node = ground arith

    Takes-covered :
        (nodes : List (Node Quantity)) (t : Tally q) (node : Node Quantity)
        → In node nodes
        → Takes t node
        → All (CoveredBy profile requests o nodes) t.placements
        → All
            (CoveredBy profile requests o nodes)
            (record_placement q requests node t (filled_on t node)).placements
    unfolding record_placement
    Takes-covered nodes t node m takes h =
        All-append (CoveredBy profile requests o nodes) t.placements _ h (
          (
            node,
            m,
            record {
              same_node = refl;
              eligible = takes.eligible;
              certain = takes.certain;
              accounted = takes.accounted;
              used = takes.used;
              covered = λ name x e.
                  fill-within requests name x u e t.remaining node.allocatable
                    (list_at q node.name o.occupied) (v node.name) takes.used;
            },
          ),
          tt,
        )

    visit_node-covered :
        (nodes : List (Node Quantity)) (t : Tally q) (node : Node Quantity)
        → In node nodes
        → All (CoveredBy profile requests o nodes) t.placements
        → All
            (CoveredBy profile requests o nodes)
            (visit_node q profile requests o t node).0.placements
    visit_node-covered nodes t node m h = elim (visit_node-cases t node) [
      | inl e ↦ subst (All (CoveredBy profile requests o nodes)) (sym e) h
      | inr (takes, e) ↦
          subst (λ (t' : Tally q). All (CoveredBy profile requests o nodes) t'.placements) (sym e)
            (Takes-covered nodes t node m takes h)
    ]

    pub place-covered :
        (nodes : List (Node Quantity)) (t : Tally q) (rest : List (Node Quantity))
        → ((node : Node Quantity) → In node rest → In node nodes)
        → All (CoveredBy profile requests o nodes) t.placements
        → All (CoveredBy profile requests o nodes) (place q profile requests o t rest).placements
    unfolding place
    place-covered nodes t [] sub h = h
    place-covered nodes t (node ∷ rest) sub h =
        let h' = visit_node-covered nodes t node (sub node (inl refl)) h in
        elim (Bool-cases (visit_node q profile requests o t node).1) [
          | inl stop ↦ rw (stop, if◌then◌else◌) h'
          | inr on ↦
              rw (on, if◌then◌else◌)
                (place-covered nodes (visit_node q profile requests o t node).0 rest
                  (λ n m. sub n (inr m)) h')
        ]
