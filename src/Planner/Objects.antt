-- ===== src/Planner/Objects.antt =====
-- The fields of the Kubernetes objects that deploymentplan/plan.go reads, and the planner's own
-- types of deploymentplan/types.go. The objects are types of k8s.io/api; a pointer that the code
-- only compares with nil is a Boolean.
use infernex_agent.Prelude.{ℕ, Bool, String, List, Option}
use infernex_agent.Prelude.Dict.{Dict}
use infernex_agent.Prelude.Int.{ℤ}

pub record Container (Q : Type 0) : Type 0 where
  pub name : String
  pub requests : Dict Q
  pub claims : List String
  pub restart_policy : Option String

pub record ContainerStatus (Q : Type 0) : Type 0 where
  pub name : String
  pub allocated_resources : Dict Q
  pub resources : Option (Dict Q)  -- Resources.Requests, where Resources is not nil

pub record Condition : Type 0 where
  pub kind : String
  pub status : String

pub record Pod (Q : Type 0) : Type 0 where
  pub node_name : String
  pub nominated_node_name : String
  pub phase : String
  pub resize : String
  pub has_resources : Bool  -- Spec.Resources != nil
  pub resource_claims : List String
  pub containers : List (Container Q)
  pub init_containers : List (Container Q)
  pub overhead : Dict Q
  pub conditions : List Condition
  pub container_statuses : List (ContainerStatus Q)
  pub init_container_statuses : List (ContainerStatus Q)

pub record Taint : Type 0 where
  pub key : String
  pub value : String
  pub effect : String

pub record Toleration : Type 0 where
  pub key : String
  pub operator : String
  pub value : String
  pub effect : String
  pub seconds : Option ℤ  -- TolerationSeconds

pub record Node (Q : Type 0) : Type 0 where
  pub name : String
  pub uid : String
  pub unschedulable : Bool
  pub conditions : List Condition
  pub labels : Dict String
  pub taints : List Taint
  pub allocatable : Dict Q

pub record ResourceQuota (Q : Type 0) : Type 0 where
  pub name : String
  pub scopes : List String
  pub has_scope_selector : Bool
  pub spec_hard : Dict Q
  pub status_hard : Dict Q
  pub used : Dict Q

pub record Namespace : Type 0 where
  pub is_deleting : Bool  -- DeletionTimestamp != nil
  pub phase : String

pub record Profile : Type 0 where
  pub version : String
  pub image : String
  pub cpu : String
  pub memory : String
  pub extended_resources : Dict ℤ
  pub node_selector : Dict String
  pub tolerations : List Toleration
  pub persistent_volume_claims : List String
  pub has_affinity : Bool
  pub resource_claims : List String
  pub has_pod_resources : Bool

-- `replicas` is a Go int, which may be negative.
pub record Request : Type 0 where
  pub namespace : String
  pub replicas : ℤ
  pub profile : Profile

pub record Placement : Type 0 where
  pub node_name : String
  pub node_uid : String
  pub replicas : ℕ
  pub remaining_resources : Dict String

pub record ResourceEstimate : Type 0 where
  pub per_replica : Dict String
  pub total_requested : Dict String
