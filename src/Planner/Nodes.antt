-- ===== src/Planner/Nodes.antt =====
-- Which nodes may take a replica: nodeReady, taintTolerated, nodeEligible, missingCoreAllocatable.
pub mod Eligibility
use infernex_agent.Prelude.{
  Bool, true, false, not, ◌&&◌, ◌||◌, none, some, Option, String, List, [], ◌∷◌, str_eq, any, all,
  if◌then◌else◌,
}
use infernex_agent.Prelude.Dict.{Dict, lookup, member}
use infernex_agent.Planner.Objects.{Condition, Taint, Toleration, Node, Profile}

-- The first condition of type Ready decides.
unfoldable pub ready_condition : List Condition → Bool
ready_condition [] = false
ready_condition (c ∷ conditions) =
    if str_eq c.kind "Ready" then str_eq c.status "True" else ready_condition conditions

abbrev pub operator_of : Toleration → String
operator_of t = if str_eq t.operator "" then "Equal" else t.operator

-- One round of the loop of taintTolerated: does it return true?
unfoldable pub tolerates : Taint → Toleration → Bool
tolerates taint t =
    if not (str_eq t.effect "") && not (str_eq t.effect taint.effect)
    then false
    else if str_eq (operator_of t) "Exists"
    then str_eq t.key "" || str_eq t.key taint.key
    else if str_eq (operator_of t) "Equal"
    then str_eq t.key taint.key && str_eq t.value taint.value
    else false

unfoldable pub taint_tolerated : Taint → List Toleration → Bool
unfolding any tolerates
taint_tolerated taint tolerations = any (tolerates taint) tolerations

abbrev pub is_hard : Taint → Bool
is_hard taint = str_eq taint.effect "NoSchedule" || str_eq taint.effect "NoExecute"

unfoldable pub selector_matches : Dict String → Dict String → Bool
unfolding lookup
selector_matches [] labels = true
selector_matches ((key, value) ∷ selector) labels =
    elim (lookup key labels) [ none ↦ false | some actual ↦ str_eq actual value ]
    && selector_matches selector labels

unfoldable pub taints_allow : List Taint → List Toleration → Bool
unfolding taint_tolerated
taints_allow [] tolerations = true
taints_allow (taint ∷ taints) tolerations =
    (not (is_hard taint) || taint_tolerated taint tolerations) && taints_allow taints tolerations

unfoldable pub node_eligible : {Q : Type 0} → Node Q → Profile → Bool
unfolding ready_condition selector_matches taints_allow
node_eligible node profile =
    if node.unschedulable || not (ready_condition node.conditions)
    then false
    else selector_matches profile.node_selector node.labels
      && taints_allow node.taints profile.tolerations

unfoldable pub missing_core_allocatable : {Q : Type 0} → Dict Q → Bool
unfolding member
missing_core_allocatable allocatable =
    not (member "cpu" allocatable)
    || not (member "memory" allocatable)
    || not (member "pods" allocatable)
