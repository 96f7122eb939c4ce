-- ===== src/Planner/Placing/Greedy.antt =====
-- Placement reaches the optimum: all that the usable nodes hold, or all that is asked for.
use infernex_agent.Prelude.{
  ℕ, zero, suc, ◌+◌, ◌-◌, ◌≤◌, ◌≡◌, min, Bool, true, not, ◌&&◌, some, String, List, [], ◌∷◌, arith,
  Bool-cases, inl, inr, if◌then◌else◌, ◌||◌,
}
use infernex_agent.Prelude.Dict.{lookup, HasUniqueKeys}
use infernex_agent.Prelude.Int.{pos, ◌≤ℤ◌, times, times-suc, times_nonneg, fits_one, fits_rest}
use infernex_agent.Planner.Quantity.{QuantityApi}
use infernex_agent.Planner.Resources.{ResourceList, subtract_resources, fits}
use infernex_agent.Planner.Resources.Sums.{
  amount, amount-subtract_resources, amount_of_lookup, fits-Lacks, Lacks,
}
use infernex_agent.Planner.Objects.{Node, Profile}
use infernex_agent.Planner.Pods.{Occupancy}
use infernex_agent.Planner.Nodes.{node_eligible, missing_core_allocatable}
use infernex_agent.Planner.Placing.{
  fill, Tally, free_on, is_uncertain, record_placement, visit_node, place,
}

module _ (q : QuantityApi) where
  open q use {Quantity, nanos}

  -- k replicas fit in what a node has free.
  abbrev pub Holds : ResourceList q → ℕ → ResourceList q → Type 0
  Holds requests k free =
      (name : String) (x : Quantity)
      → lookup name requests ≡ some x
      → times k (nanos x) ≤ℤ amount q name free

  abbrev pub AreNonNegative : ResourceList q → Type 0
  AreNonNegative requests =
      (name : String) (x : Quantity) → lookup name requests ≡ some x → pos 0 ≤ℤ nanos x

  module _ (requests : ResourceList q) (u : HasUniqueKeys requests)
      (n : AreNonNegative requests) where
    fits_of_Holds :
        (k : ℕ) (free : ResourceList q) → Holds requests (suc k) free → fits q free requests ≡ true
    fits_of_Holds k free h = elim (Bool-cases (fits q free requests)) [
      | inl f ↦ f
      | inr f ↦ absurd (clash (fits-Lacks q free requests u f))
    ]
      where
        clash : Lacks q free requests → ⊥
        clash (name, x, e, short) =
            let one =
              fits_one (times k (nanos x)) (nanos x) (amount q name free)
                (times_nonneg k (nanos x) (n name x e))
                (rw (← times-suc k (nanos x)) (h name x e)) in
            ground arith

    Holds-rest :
        (k : ℕ) (free : ResourceList q)
        → Holds requests (suc k) free
        → Holds requests k (subtract_resources q free requests)
    Holds-rest k free h name x e = rw (amount-subtract_resources q name free requests u) (
        rw (amount_of_lookup q name requests x e) (
          fits_rest (times k (nanos x)) (nanos x) (amount q name free)
            (rw (← times-suc k (nanos x)) (h name x e))))

    -- Filling a node is greedy and still optimal: if k replicas, at most as many as are asked for,
    -- fit in what is free, it places k at least. This where no request is negative and each resource
    -- is named once.
    pub fill-greatest :
        (left k : ℕ) (free : ResourceList q)
        → k ≤ left
        → Holds requests k free
        → k ≤ (fill q requests left free).0
    unfolding fill
    fill-greatest left zero free l h = omega arith
    fill-greatest zero (suc k) free l h = absurd (omega arith)
    fill-greatest (suc left) (suc k) free l h =
        let f : fits q free requests ≡ true = fits_of_Holds k free h in
        rw (f, if◌then◌else◌)
          (omega (
            arith,
            fill-greatest left k (subtract_resources q free requests) (omega arith)
                (Holds-rest k free h),
          ))

  fill-min :
      (requests : ResourceList q) (left more : ℕ) (free : ResourceList q)
      → left ≤ more
      → (fill q requests left free).0 ≡ min left (fill q requests more free).0
  unfolding fill
  fill-min requests zero more free h = omega arith
  fill-min requests (suc left) zero free h = absurd (omega arith)
  fill-min requests (suc left) (suc more) free h =
      ground (arith, fill-min requests left more (subtract_resources q free requests) (omega arith))

  module _ (profile : Profile) (requests : ResourceList q) (o : Occupancy q) where
    abbrev pub is_usable : Node Quantity → Bool
    is_usable node =
        node_eligible node profile
        && not (is_uncertain q o node.name || missing_core_allocatable node.allocatable)

    -- The replicas that the usable nodes hold, `bound` at most on each.
    unfoldable pub room : ℕ → List (Node Quantity) → ℕ
    room bound [] = 0
    room bound (node ∷ nodes) =
        (if is_usable node then (fill q requests bound (free_on q o node)).0 else 0)
        + room bound nodes

    visit_node-room :
        (bound : ℕ) (t : Tally q) (node : Node Quantity)
        → t.remaining ≤ bound
        → let c = (if is_usable node then (fill q requests bound (free_on q o node)).0 else 0) in
          let v = visit_node q profile requests o t node in
          (v.0.placeable ≡ t.placeable + min t.remaining c)
          × (v.0.remaining ≡ t.remaining - c)
          × (v.1 ≡ true → v.0.remaining ≡ 0)
    unfolding visit_node record_placement
    visit_node-room bound t node h =
        ground (arith, fill-min requests t.remaining bound (free_on q o node) h)

    -- The loop over the nodes places as many replicas as remain to be placed, or all that the usable
    -- nodes hold where that is less, whatever the order of the nodes; `bound` is any number that is
    -- not below what remains.
    pub place-room :
        (bound : ℕ) (t : Tally q) (nodes : List (Node Quantity))
        → t.remaining ≤ bound
        → (place q profile requests o t nodes).placeable
          ≡ t.placeable + min t.remaining (room bound nodes)
    unfolding place room
    place-room bound t [] h = omega arith
    place-room bound t (node ∷ nodes) h = ground (
      arith,
      visit_node-room bound t node h,
      place-room bound (visit_node q profile requests o t node).0 nodes,
    )
