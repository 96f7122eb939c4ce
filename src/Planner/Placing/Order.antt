-- ===== src/Planner/Placing/Order.antt =====
-- Sorting the nodes keeps their number and what they hold.
use infernex_agent.Prelude.{
  ◌≡◌, refl, Bool-cases, inl, inr, List, [], ◌∷◌, In, arith, if◌then◌else◌, ℕ,
}
use infernex_agent.Planner.Quantity.{QuantityApi}
use infernex_agent.Planner.Resources.{ResourceList}
use infernex_agent.Planner.Objects.{Node, Profile}
use infernex_agent.Planner.Pods.{Occupancy}
use infernex_agent.Planner.Placing.{node_less, insert_node, sort_nodes}
use infernex_agent.Planner.Placing.Greedy.{room}

In-swap :
    {A : Type 0} (a m n : A) (xs ys : List A)
    → (In a xs → In a (n ∷ ys))
    → In a (m ∷ xs)
    → In a (n ∷ m ∷ ys)
In-swap a m n xs ys f (inl e) = inr (inl e)
In-swap a m n xs ys f (inr h) = elim (f h) [ inl e ↦ inl e | inr k ↦ inr (inr k) ]

In-insert_node :
    {Q : Type 0} (a n : Node Q) (nodes : List (Node Q))
    → In a (insert_node n nodes)
    → In a (n ∷ nodes)
unfolding insert_node
In-insert_node a n [] h = h
In-insert_node a n (m ∷ nodes) h = elim (Bool-cases (node_less m n)) [
  | inl e ↦
      In-swap a m n (insert_node n nodes) nodes (In-insert_node a n nodes)
        (rw (e, if◌then◌else◌) at h)
  | inr e ↦ rw (e, if◌then◌else◌) at h
]

pub In-sort_nodes :
    {Q : Type 0} (a : Node Q) (nodes : List (Node Q)) → In a (sort_nodes nodes) → In a nodes
unfolding sort_nodes
In-sort_nodes a [] h = h
In-sort_nodes a (n ∷ nodes) h = elim (In-insert_node a n (sort_nodes nodes) h) [
  | inl e ↦ inl e
  | inr m ↦ inr (In-sort_nodes a nodes m)
]

module _ (q : QuantityApi) (profile : Profile) (requests : ResourceList q) (o : Occupancy q) where
  room-insert_node :
      (bound : ℕ) (n : Node q.Quantity) (nodes : List (Node q.Quantity))
      → room q profile requests o bound (insert_node n nodes)
        ≡ room q profile requests o bound (n ∷ nodes)
  unfolding insert_node room
  room-insert_node bound n [] = refl
  room-insert_node bound n (m ∷ nodes) = elim (Bool-cases (node_less m n)) [
    | inl e ↦ rw (e, if◌then◌else◌) (omega (arith, room-insert_node bound n nodes))
    | inr e ↦ rw (e, if◌then◌else◌) refl
  ]

  pub room-sort_nodes :
      (bound : ℕ) (nodes : List (Node q.Quantity))
      → room q profile requests o bound (sort_nodes nodes) ≡ room q profile requests o bound nodes
  unfolding sort_nodes room
  room-sort_nodes bound [] = refl
  room-sort_nodes bound (n ∷ nodes) =
      omega (arith, room-insert_node bound n (sort_nodes nodes), room-sort_nodes bound nodes)
