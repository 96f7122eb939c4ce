-- ===== src/Planner/Resources.antt =====
-- corev1.ResourceList and its operations: copyResources, addResources, subtractResources,
-- maxResources, fits, resourceStrings, resourceListsEqual of deploymentplan/plan.go.
pub mod Sums
use infernex_agent.Prelude.{
  ◌≡◌, Bool, true, false, not, ◌&&◌, ◌||◌, none, some, String, List, [], ◌∷◌, if◌then◌else◌,
}
use infernex_agent.Prelude.Dict.{Dict, lookup, put}
use infernex_agent.Planner.Quantity.{QuantityApi}

module _ (q : QuantityApi) where
  open q use {Quantity, nil, add, sub, less, text}

  abbrev pub ResourceList : Type 0
  ResourceList = Dict Quantity

  -- list[name]: the zero quantity where the key is missing.
  unfoldable pub quantity : String → ResourceList → Quantity
  quantity name list = elim (lookup name list) [ none ↦ nil | some x ↦ x ]

  unfoldable pub add_resources : ResourceList → ResourceList → ResourceList
  add_resources target [] = target
  add_resources target ((name, x) ∷ addition) =
      add_resources (put name (add (quantity name target) x) target) addition

  unfoldable pub subtract_resources : ResourceList → ResourceList → ResourceList
  subtract_resources target [] = target
  subtract_resources target ((name, x) ∷ subtraction) =
      subtract_resources (put name (sub (quantity name target) x) target) subtraction

  abbrev pub is_above : Quantity → ResourceList → String → Bool
  is_above x target name = elim (lookup name target) [ none ↦ true | some current ↦ less current x ]

  unfoldable pub max_resources : ResourceList → ResourceList → ResourceList
  max_resources target [] = target
  max_resources target ((name, x) ∷ candidate) =
      max_resources (if is_above x target name then put name x target else target) candidate

  unfoldable pub fits : ResourceList → ResourceList → Bool
  fits available [] = true
  fits available ((name, requested) ∷ requests) =
      not (less (quantity name available) requested) && fits available requests

  -- resourceStrings(resources, filter)
  unfoldable pub resource_strings : ResourceList → ResourceList → Dict String
  resource_strings resources [] = []
  resource_strings resources ((name, _) ∷ filter) =
      (name, text (quantity name resources)) ∷ resource_strings resources filter

  unfoldable pub all_resource_strings : ResourceList → Dict String
  all_resource_strings [] = []
  all_resource_strings ((name, x) ∷ resources) = (name, text x) ∷ all_resource_strings resources

  -- One of the two loops of resourceListsEqual: a.Cmp(b) != 0 somewhere.
  differs_from : ResourceList → ResourceList → Bool
  differs_from [] other = false
  differs_from ((name, x) ∷ list) other =
      less x (quantity name other) || less (quantity name other) x || differs_from list other

  unfoldable pub resource_lists_equal : ResourceList → ResourceList → Bool
  unfolding differs_from
  resource_lists_equal left right = not (differs_from left right) && not (differs_from right left)
