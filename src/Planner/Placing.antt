-- ===== src/Planner/Placing.antt =====
-- The placement of replicas on nodes: the loops of Generate, and the sort before them.
pub mod Capacity
pub mod Greedy
pub mod Order
use Prim.Native.String.{compare as compare_text}
use text.Mathlib.Text.{is_lt}
use infernex_agent.Prelude.{
  ℕ, zero, suc, ◌+◌, ◌-◌, Bool, true, false, not, ◌&&◌, ◌||◌, Option, none, some, String, List, [],
  ◌∷◌, ◌++◌, str_eq, ◌==◌, if◌then◌else◌,
}
use infernex_agent.Prelude.Dict.{Dict, lookup}
use infernex_agent.Planner.Quantity.{QuantityApi}
use infernex_agent.Planner.Resources.{ResourceList, subtract_resources, fits, resource_strings}
use infernex_agent.Planner.Objects.{Node, Profile, Placement}
use infernex_agent.Planner.Pods.{Occupancy, list_at}
use infernex_agent.Planner.Nodes.{node_eligible, missing_core_allocatable}

abbrev pub text_less : String → String → Bool
text_less a b = is_lt (compare_text a b)

-- The order of sort.Slice in Generate: by name, then by UID.
abbrev pub node_less : {Q : Type 0} → Node Q → Node Q → Bool
node_less a b = if str_eq a.name b.name then text_less a.uid b.uid else text_less a.name b.name

insert_node : {Q : Type 0} → Node Q → List (Node Q) → List (Node Q)
insert_node n [] = n ∷ []
insert_node n (m ∷ nodes) = if node_less m n then m ∷ insert_node n nodes else n ∷ m ∷ nodes

unfoldable pub sort_nodes : {Q : Type 0} → List (Node Q) → List (Node Q)
unfolding insert_node
sort_nodes [] = []
sort_nodes (n ∷ nodes) = insert_node n (sort_nodes nodes)

module _ (q : QuantityApi) where
  open q use {Quantity}

  -- for placed < remaining && fits(available, requests) { subtract; placed++ }, on the rounds that
  -- are left: how many more are placed, and what is available after them.
  unfoldable pub fill : ResourceList q → ℕ → ResourceList q → ℕ × ResourceList q
  fill requests zero available = (0, available)
  fill requests (suc left) available =
      let next = fill requests left (subtract_resources q available requests) in
      if fits q available requests then (suc next.0, next.1) else (0, available)

  pub record Tally : Type 0 where
    pub placements : List Placement
    pub placeable : ℕ
    pub remaining : ℕ
    pub unknown_eligible : ℕ

  -- The node's allocatable resources, less what its pods hold.
  abbrev pub free_on : Occupancy q → Node Quantity → ResourceList q
  free_on o node = subtract_resources q node.allocatable (list_at q node.name o.occupied)

  -- uncertainNodes[node.Name] != ""
  unfoldable pub is_uncertain : Occupancy q → String → Bool
  unfolding lookup
  is_uncertain o name = elim (lookup name o.uncertain) [
    | none ↦ false
    | some reason ↦ not (str_eq reason "")
  ]

  unfoldable pub record_placement :
      ResourceList q → Node Quantity → Tally → ℕ × ResourceList q → Tally
  unfolding resource_strings
  record_placement requests node t filled = record t {
    placements =
        t.placements
        ++ (record {
          node_name = node.name;
          node_uid = node.uid;
          replicas = filled.0;
          remaining_resources = resource_strings q filled.1 requests;
        })
          ∷ [];
    placeable = t.placeable + filled.0;
    remaining = t.remaining - filled.0;
  }

  -- The body of the loop over the nodes, and whether it breaks.
  unfoldable pub visit_node :
      Profile → ResourceList q → Occupancy q → Tally → Node Quantity → Tally × Bool
  visit_node profile requests o t node =
      let filled = fill requests t.remaining (free_on o node) in
      let t' = record_placement requests node t filled in
      if not (node_eligible node profile)
      then (t, false)
      else if is_uncertain o node.name || missing_core_allocatable node.allocatable
      then (record t { unknown_eligible = t.unknown_eligible + 1 }, false)
      else if filled.0 == 0
      then (t, false)
      else (t', t'.remaining == 0)

  unfoldable pub place :
      Profile → ResourceList q → Occupancy q → Tally → List (Node Quantity) → Tally
  unfolding visit_node
  place profile requests o t [] = t
  place profile requests o t (node ∷ nodes) =
      let (t', stop) = visit_node profile requests o t node in
      let rest = place profile requests o t' nodes in if stop then t' else rest
