-- ===== src/Planner/Generate/Sound.antt =====
-- What a plan promises: no node is overcommitted, and it calls the replicas schedulable exactly
-- where the quotas and the usable nodes hold them.
use infernex_agent.Prelude.{
  ℕ, ◌≤◌, ◌≡◌, ◌≢◌, ◌↔◌, sym, ap, ◌∙◌, min, true, false, List, [], ◌∷◌, All, arith, str_eq, eq_iff,
  is_nil, is_nil-eq, Bool-cases, inl, inr, Outcome-cases, ok, ◌⊎◌, ◌||◌, ltb,
}
use mathlib.Core.Path.{subst}
use native.Mathlib.Nat.{le_refl}
use infernex_agent.Prelude.Dict.{HasUniqueKeys}
use infernex_agent.Planner.Quantity.{QuantityApi}
use infernex_agent.Planner.Resources.{ResourceList}
use infernex_agent.Planner.Objects.{Pod, Node, Profile, Request}
use infernex_agent.Planner.Pods.{occupied_by_node}
use infernex_agent.Planner.Pods.Amounts.{occupied_by_node-HasUniqueKeys}
use infernex_agent.Planner.Quota.{Room, quota_capacity}
use infernex_agent.Planner.Placing.{sort_nodes}
use infernex_agent.Planner.Placing.Capacity.{CoveredBy, place-covered}
use infernex_agent.Planner.Placing.Greedy.{room, place-room}
use infernex_agent.Planner.Placing.Order.{In-sort_nodes, room-sort_nodes}
use infernex_agent.Planner.Generate.{
  Plan, Reason, terminating, has_limit_ranges, quota_blocks, schedulable, blocked, Snapshot,
  start_tally, target_of, tally_of, place_replicas, verdict, decide,
}

module _ (q : QuantityApi) where
  open q use {Quantity}

  verdict-placements :
      (plan : Plan) (r : Room q) (n : ℕ) → (verdict q plan r n).placements ≡ plan.placements
  unfolding verdict
  verdict-placements plan r n = ground arith

  tally-CoveredBy :
      (plan : Plan) (profile : Profile) (requests : ResourceList q) (r : Room q)
      (pods : List (Pod Quantity)) (nodes : List (Node Quantity))
      → HasUniqueKeys requests
      → All
          (CoveredBy q profile requests (occupied_by_node q pods) nodes)
          (tally_of q plan profile requests r pods nodes).placements
  tally-CoveredBy plan profile requests r pods nodes u =
      place-covered q profile requests (occupied_by_node q pods) u
        (occupied_by_node-HasUniqueKeys q pods) nodes (start_tally q (target_of q plan r))
        (sort_nodes nodes) (λ n m. In-sort_nodes n nodes m) tt

  -- What Generate has checked before it places replicas.
  pub record IsOpen {L : Type 0} (plan : Plan) (requests : ResourceList q) (s : Snapshot q L)
      (r : Room q) : Type 0 where
    pub alive : s.namespace.is_deleting ≡ false
    pub not_terminating : s.namespace.phase ≢ "Terminating"
    pub unlimited : s.limits ≡ []
    pub within_quotas : quota_capacity q plan.requested_replicas requests s.quotas ≡ ok r

  -- A blocked plan keeps everything but its status and reasons; otherwise the checks have passed.
  pub decide-cases :
      {L : Type 0} (plan : Plan) (request : Request) (requests : ResourceList q) (s : Snapshot q L)
      → ((reasons : List Reason) × (decide q plan request requests s
            ≡ record plan { status = blocked; reasons = reasons }))
        ⊎ ((r : Room q) × IsOpen plan requests s r
            × (decide q plan request requests s
                ≡ place_replicas q plan request.profile requests r s.pods.items s.nodes.items))
  unfolding decide
  decide-cases plan request requests s =
      elim (Bool-cases (s.namespace.is_deleting || str_eq s.namespace.phase "Terminating")) [
        | inl e ↦ inl (terminating ∷ [], ground arith)
        | inr e ↦ elim (Bool-cases (is_nil s.limits)) [
          | inr l ↦ inl (has_limit_ranges ∷ [], ground arith)
          | inl l ↦
              elim (Outcome-cases (quota_capacity q plan.requested_replicas requests s.quotas)) [
                | inl (problem, o) ↦ inl (quota_blocks problem ∷ [], ground (arith, o))
                | inr (r, o) ↦ inr (
                  r,
                  record {
                    alive = ground arith;
                    not_terminating = ground (arith, eq_iff s.namespace.phase "Terminating");
                    unlimited = is_nil-eq s.limits l;
                    within_quotas = o;
                  },
                  ground (arith, o),
                )
              ]
        ]
      ]

  decide-open :
      {L : Type 0} (plan : Plan) (request : Request) (requests : ResourceList q) (s : Snapshot q L)
      (r : Room q)
      → IsOpen plan requests s r
      → decide q plan request requests s
        ≡ place_replicas q plan request.profile requests r s.pods.items s.nodes.items
  unfolding decide
  decide-open plan request requests s r o =
      let n : is_nil s.limits ≡ true = ap is_nil o.unlimited in
      ground
        (arith, o.alive, o.not_terminating, o.within_quotas, eq_iff s.namespace.phase "Terminating")

  -- Every placement names a node that was read, that is eligible and whose accounting is known;
  -- and there, in each requested resource, the replicas together with what the pods of the node
  -- hold stay within the allocatable amount.
  pub decide-CoveredBy :
      {L : Type 0} (plan : Plan) (request : Request) (requests : ResourceList q) (s : Snapshot q L)
      → plan.placements ≡ []
      → HasUniqueKeys requests
      → All
          (CoveredBy q request.profile requests (occupied_by_node q s.pods.items) s.nodes.items)
          (decide q plan request requests s).placements
  unfolding place_replicas
  decide-CoveredBy plan request requests s e u =
      let P =
        All
          (CoveredBy q request.profile requests (occupied_by_node q s.pods.items) s.nodes.items) in
      elim (decide-cases plan request requests s) [
        | inl (_, same) ↦ subst P (sym (ap (λ (p : Plan). p.placements) same ∙ e)) tt
        | inr (r, _, placed) ↦
            subst P (sym (ap (λ (p : Plan). p.placements) placed ∙ verdict-placements _ r _))
              (tally-CoveredBy plan request.profile requests r s.pods.items s.nodes.items u)
      ]

  module _ (plan : Plan) (profile : Profile) (requests : ResourceList q) (r : Room q)
      (pods : List (Pod Quantity)) (nodes : List (Node Quantity)) where
    pub tally-placeable :
        (tally_of q plan profile requests r pods nodes).placeable
        ≡ min
            (target_of q plan r)
            (room q profile requests (occupied_by_node q pods) (target_of q plan r) nodes)
    tally-placeable =
        place-room q profile requests (occupied_by_node q pods) (target_of q plan r)
          (start_tally q (target_of q plan r)) (sort_nodes nodes) (le_refl _)
        ∙ omega (
          arith,
          room-sort_nodes q profile requests (occupied_by_node q pods) (target_of q plan r) nodes,
        )

    tally-placeable_full :
        ltb r.capacity plan.requested_replicas ≡ false
        → (tally_of q plan profile requests r pods nodes).placeable
          ≡ min plan.requested_replicas
              (room q profile requests (occupied_by_node q pods) plan.requested_replicas nodes)
    tally-placeable_full e =
        tally-placeable
        ∙ ap (λ n. min n (room q profile requests (occupied_by_node q pods) n nodes))
            (let same : target_of q plan r ≡ plan.requested_replicas = ground arith in same)

    -- The replicas are schedulable exactly where the quotas and the usable nodes hold all of them.
    place_replicas-schedulable :
        ((place_replicas q plan profile requests r pods nodes).status ≡ schedulable) ↔ (
          (plan.requested_replicas ≤ r.capacity)
          × (plan.requested_replicas
              ≤ room q profile requests (occupied_by_node q pods) plan.requested_replicas nodes))
    unfolding place_replicas verdict
    place_replicas-schedulable = elim (Bool-cases (ltb r.capacity plan.requested_replicas)) [
      | inl e ↦ (λ h. ground (arith, tally-placeable), λ h. ground arith)
      | inr e ↦ (
        λ h. (ground arith, ground (arith, tally-placeable_full e)),
        λ h. ground (arith, tally-placeable_full e),
      )
    ]

  -- The replicas can be scheduled.
  pub record IsSchedulable {L : Type 0} (plan : Plan) (request : Request)
      (requests : ResourceList q) (s : Snapshot q L) : Type 0 where
    pub alive : s.namespace.is_deleting ≡ false
    pub not_terminating : s.namespace.phase ≢ "Terminating"
    pub unlimited : s.limits ≡ []
    pub granted :
        (r : Room q) × (quota_capacity q plan.requested_replicas requests s.quotas ≡ ok r)
        × (plan.requested_replicas ≤ r.capacity)
    pub held :
        plan.requested_replicas
        ≤ room q request.profile requests
            (occupied_by_node q s.pods.items)
            plan.requested_replicas
            s.nodes.items

  -- decide is the part of Generate that follows the reads of the cluster, which a profile with
  -- unsupported constraints does not reach. From the snapshot that was read, it calls the replicas
  -- schedulable exactly where the namespace is not terminating and has no limit ranges, the quotas
  -- do not block and grant all the replicas, and the usable nodes hold all of them: eligible nodes
  -- of known accounting, each counted with as many replicas as fit in what it has free.
  pub decide-schedulable_iff :
      {L : Type 0} (plan : Plan) (request : Request) (requests : ResourceList q) (s : Snapshot q L)
      → ((decide q plan request requests s).status ≡ schedulable)
        ↔ IsSchedulable plan request requests s
  decide-schedulable_iff plan request requests s = (to, from)
    where
      to :
          (decide q plan request requests s).status ≡ schedulable
          → IsSchedulable plan request requests s
      to h = elim (decide-cases plan request requests s) [
        | inl (_, b) ↦ absurd (ground (arith, ap (λ (p : Plan). p.status) b))
        | inr (r, o, placed) ↦
            let (granted, held) =
              (place_replicas-schedulable plan request.profile requests r s.pods.items
                  s.nodes.items).0
                (sym (ap (λ (p : Plan). p.status) placed) ∙ h) in
            record {
              alive = o.alive;
              not_terminating = o.not_terminating;
              unlimited = o.unlimited;
              granted = (r, o.within_quotas, granted);
              held = held;
            }
      ]

      from :
          IsSchedulable plan request requests s
          → (decide q plan request requests s).status ≡ schedulable
      from c =
          let (r, within, granted) = c.granted in
          ap (λ (p : Plan). p.status)
            (decide-open plan request requests s r (record {
              alive = c.alive;
              not_terminating = c.not_terminating;
              unlimited = c.unlimited;
              within_quotas = within;
            }))
          ∙ (place_replicas-schedulable plan request.profile requests r s.pods.items
                s.nodes.items).1
              (granted, c.held)
