-- ===== src/Planner/Pods.antt =====
-- What the pods of the cluster hold: podRequests, occupiedByNode and their helpers.
pub mod Amounts
use infernex_agent.Prelude.{
  Bool, true, false, not, ◌&&◌, ◌||◌, Option, none, some, String, List, [], ◌∷◌, str_eq, is_nil,
  any, if◌then◌else◌, Outcome, ok, err,
}
use infernex_agent.Prelude.Dict.{Dict, lookup, put}
use infernex_agent.Planner.Quantity.{QuantityApi}
use infernex_agent.Planner.Resources.{
  ResourceList, add_resources, max_resources, resource_lists_equal,
}
use infernex_agent.Planner.Objects.{Container, ContainerStatus, Condition, Pod}

-- Status.Phase is neither Succeeded nor Failed.
unfoldable pub active_pod : {Q : Type 0} → Pod Q → Bool
active_pod pod = not (str_eq pod.phase "Succeeded") && not (str_eq pod.phase "Failed")

is_active_resize : Condition → Bool
is_active_resize c =
    (str_eq c.kind "PodResizePending" || str_eq c.kind "PodResizeInProgress")
    && not (str_eq c.status "False")

resize_condition_active : List Condition → Bool
unfolding any is_active_resize
resize_condition_active conditions = any is_active_resize conditions

module _ (q : QuantityApi) where
  open q use {Quantity, of_int}

  -- A read of a map of lists: the nil list where the key is missing.
  unfoldable pub list_at : String → Dict (ResourceList q) → ResourceList q
  unfolding lookup
  list_at name lists = elim (lookup name lists) [ none ↦ [] | some list ↦ list ]

  -- The map from container names to requests: a later container of one name wins.
  desired_requests : Dict (ResourceList q) → List (Container Quantity) → Dict (ResourceList q)
  unfolding put
  desired_requests desired [] = desired
  desired_requests desired (c ∷ containers) =
      desired_requests (put c.name c.requests desired) containers

  status_differs : Dict (ResourceList q) → ContainerStatus Quantity → Bool
  unfolding list_at resource_lists_equal
  status_differs desired s =
      let wanted = list_at s.name desired in
      not (is_nil s.allocated_resources)
        && not (resource_lists_equal q wanted s.allocated_resources)
      || elim s.resources [ none ↦ false | some r ↦ not (resource_lists_equal q wanted r) ]

  container_resources_differ : List (Container Quantity) → List (ContainerStatus Quantity) → Bool
  unfolding desired_requests status_differs any
  container_resources_differ containers statuses =
      any (status_differs (desired_requests [] containers)) statuses

  -- The reasons for which the accounting of a pod is refused, in the order of the code.
  unfoldable pub unsupported : Pod Quantity → Option String
  unfolding any resize_condition_active container_resources_differ
  unsupported pod =
      if pod.has_resources
      then some "pod-level resources"
      else if not (is_nil pod.resource_claims)
          || any (λ (c : Container Quantity). not (is_nil c.claims)) pod.containers
          || any (λ (c : Container Quantity). not (is_nil c.claims)) pod.init_containers
      then some "dynamic resource allocation"
      else if not (str_eq pod.resize "")
          || resize_condition_active pod.conditions
          || container_resources_differ pod.containers pod.container_statuses
          || container_resources_differ pod.init_containers pod.init_container_statuses
      then some "in-place pod resource resize"
      else none

  add_containers : ResourceList q → List (Container Quantity) → ResourceList q
  unfolding add_resources
  add_containers regular [] = regular
  add_containers regular (c ∷ containers) =
      add_containers (add_resources q regular c.requests) containers

  -- The two lists that the loop over the init containers updates.
  pub record Peaks : Type 0 where
    pub restartable : ResourceList q
    pub init_peak : ResourceList q

  abbrev pub always_restarts : Container Quantity → Bool
  always_restarts c = elim c.restart_policy [ none ↦ false | some p ↦ str_eq p "Always" ]

  init_step : Peaks → Container Quantity → Peaks
  unfolding add_resources max_resources
  init_step p c =
      let started = add_resources q p.restartable c.requests in
      if always_restarts c
      then record { restartable = started; init_peak = max_resources q p.init_peak started }
      else record { restartable = p.restartable; init_peak = max_resources q p.init_peak started }

  init_loop : Peaks → List (Container Quantity) → Peaks
  init_loop p [] = p
  init_loop p (c ∷ containers) = init_loop (init_step p c) containers

  -- The sums of podRequests, once the pod is supported.
  unfoldable pub total_requests : Pod Quantity → ResourceList q
  unfolding add_containers init_loop init_step add_resources max_resources put
  total_requests pod =
      let regular = add_containers [] pod.containers in
      let peaks = init_loop (record { restartable = []; init_peak = [] }) pod.init_containers in
      let running = max_resources q (add_resources q regular peaks.restartable) peaks.init_peak in
      put "pods" (of_int 1) (add_resources q running pod.overhead)

  unfoldable pub pod_requests : Pod Quantity → Outcome String (ResourceList q)
  unfolding unsupported total_requests
  pod_requests pod = elim (unsupported pod) [
    | none ↦ ok (total_requests pod)
    | some reason ↦ err reason
  ]

  -- The two maps of occupiedByNode.
  pub record Occupancy : Type 0 where
    pub occupied : Dict (ResourceList q)
    pub uncertain : Dict String

  unfoldable pub account : Occupancy → String → Outcome String (ResourceList q) → Occupancy
  unfolding list_at put add_resources
  account o node (err reason) = record o { uncertain = put node reason o.uncertain }
  account o node (ok requests) = record o {
    occupied = put node (add_resources q (list_at node o.occupied) requests) o.occupied;
  }

  unfoldable pub occupy : Occupancy → Pod Quantity → Occupancy
  unfolding put
  occupy o pod =
      if not (active_pod pod)
      then o
      else if str_eq pod.node_name ""
      then if str_eq pod.nominated_node_name "" then o else record o {
        uncertain = put pod.nominated_node_name "nominated pending pod" o.uncertain;
      }
      else account o pod.node_name (pod_requests pod)

  unfoldable pub occupy_all : Occupancy → List (Pod Quantity) → Occupancy
  occupy_all o [] = o
  occupy_all o (pod ∷ pods) = occupy_all (occupy o pod) pods

  unfoldable pub occupied_by_node : List (Pod Quantity) → Occupancy
  unfolding occupy_all occupy
  occupied_by_node pods = occupy_all (record { occupied = []; uncertain = [] }) pods
