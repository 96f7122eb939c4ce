-- ===== src/Planner/Generate/Total.antt =====
-- The numbers of a plan add up.
use infernex_agent.Prelude.{
  ℕ, ◌+◌, ◌≤◌, ◌≡◌, ◌≢◌, refl, sym, ap, ◌∙◌, Bool-cases, inl, inr, List, [], ◌∷◌, ◌++◌, arith,
  if◌then◌else◌,
}
use mathlib.Core.Path.{subst}
use infernex_agent.Planner.Quantity.{QuantityApi}
use infernex_agent.Planner.Resources.{ResourceList, resource_strings}
use infernex_agent.Planner.Objects.{Node, Profile, Request, Placement}
use infernex_agent.Planner.Pods.{Occupancy, occupied_by_node}
use infernex_agent.Planner.Quota.{Room}
use infernex_agent.Planner.Placing.{
  Tally, fill, free_on, visit_node, record_placement, place, sort_nodes,
}
use infernex_agent.Planner.Generate.{
  Plan, Snapshot, decide, place_replicas, verdict, start_tally, target_of, tally_of, schedulable,
}
use infernex_agent.Planner.Generate.Sound.{decide-cases, tally-placeable}

unfoldable pub sum_replicas : List Placement → ℕ
sum_replicas [] = 0
sum_replicas (p ∷ placements) = p.replicas + sum_replicas placements

sum_replicas-append :
    (ps qs : List Placement) → sum_replicas (ps ++ qs) ≡ sum_replicas ps + sum_replicas qs
unfolding sum_replicas
sum_replicas-append [] qs = omega arith
sum_replicas-append (p ∷ ps) qs = omega (arith, sum_replicas-append ps qs)

module _ (q : QuantityApi) where
  visit_node-sum :
      (profile : Profile) (requests : ResourceList q) (o : Occupancy q) (t : Tally q)
      (node : Node q.Quantity)
      → sum_replicas t.placements ≡ t.placeable
      → sum_replicas (visit_node q profile requests o t node).0.placements
        ≡ (visit_node q profile requests o t node).0.placeable
  unfolding visit_node record_placement sum_replicas
  visit_node-sum profile requests o t node h = ground (
    arith,
    sum_replicas-append t.placements (
        record {
          node_name = node.name;
          node_uid = node.uid;
          replicas = (fill q requests t.remaining (free_on q o node)).0;
          remaining_resources =
              resource_strings q (fill q requests t.remaining (free_on q o node)).1 requests;
        }
        ∷ []),
  )

  place-sum :
      (profile : Profile) (requests : ResourceList q) (o : Occupancy q) (t : Tally q)
      (nodes : List (Node q.Quantity))
      → sum_replicas t.placements ≡ t.placeable
      → sum_replicas (place q profile requests o t nodes).placements
        ≡ (place q profile requests o t nodes).placeable
  unfolding place
  place-sum profile requests o t [] h = h
  place-sum profile requests o t (node ∷ nodes) h =
      let h' = visit_node-sum profile requests o t node h in
      elim (Bool-cases (visit_node q profile requests o t node).1) [
        | inl stop ↦ rw (stop, if◌then◌else◌) h'
        | inr on ↦
            rw (on, if◌then◌else◌)
              (place-sum profile requests o (visit_node q profile requests o t node).0 nodes h')
      ]

  -- The numbers of a plan agree.
  pub record AddsUp (plan : Plan) : Type 0 where
    pub total : sum_replicas plan.placements ≡ plan.placeable_replicas
    pub within : plan.placeable_replicas ≤ plan.requested_replicas
    pub complete : plan.status ≡ schedulable → plan.placeable_replicas ≡ plan.requested_replicas

  verdict-AddsUp :
      (plan : Plan) (r : Room q) (n : ℕ)
      → sum_replicas plan.placements ≡ plan.placeable_replicas
      → plan.placeable_replicas ≤ plan.requested_replicas
      → AddsUp (verdict q plan r n)
  unfolding verdict
  verdict-AddsUp plan r n e l = record {
    total = ground arith;
    within = ground arith;
    complete = λ h. ground arith;
  }

  -- The replicas of the placements add up to placeableReplicas, which are not more than those asked
  -- for, and are all of them where the plan says schedulable. This for a plan that starts with no
  -- placement, none placeable and another status.
  pub decide-AddsUp :
      {L : Type 0} (plan : Plan) (request : Request) (requests : ResourceList q) (s : Snapshot q L)
      → plan.placements ≡ []
      → plan.placeable_replicas ≡ 0
      → plan.status ≢ schedulable
      → AddsUp (decide q plan request requests s)
  unfolding place_replicas
  decide-AddsUp plan request requests s e z n = elim (decide-cases q plan request requests s) [
    | inl (_, same) ↦ subst AddsUp (sym same) (record {
      total = ap sum_replicas e ∙ unfold sum_replicas in sym z;
      within = omega arith;
      complete = λ h. absurd (ground arith);
    })
    | inr (r, _, placed) ↦
        let t = tally_of q plan request.profile requests r s.pods.items s.nodes.items in
        subst AddsUp (sym placed) (
          verdict-AddsUp
            (record plan { placements = t.placements; placeable_replicas = t.placeable }) r
            t.unknown_eligible
            (place-sum request.profile requests (occupied_by_node q s.pods.items)
              (start_tally q (target_of q plan r)) (sort_nodes s.nodes.items)
              (unfold sum_replicas in refl))
            (ground (
              arith,
              tally-placeable q plan request.profile requests r s.pods.items s.nodes.items,
            )))
  ]
