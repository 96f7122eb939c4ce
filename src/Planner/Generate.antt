-- ===== src/Planner/Generate.antt =====
-- Generate, newPlan and the verdict of deploymentplan/plan.go. The reads of the cluster and the
-- hashes of the canonical JSON are parameters.
pub mod Sound
pub mod Total
pub mod Promise
use infernex_agent.Prelude.{
  ℕ, zero, suc, ◌+◌, Bool, true, false, not, ◌&&◌, ◌||◌, Option, none, some, String, List, [], ◌∷◌,
  str_eq, is_nil, ltb, ◌==◌, if◌then◌else◌, Outcome, ok, err,
}
use infernex_agent.Prelude.Int.{pos_part}
use infernex_agent.Planner.Quantity.{QuantityApi}
use infernex_agent.Planner.Resources.{ResourceList, add_resources, all_resource_strings}
use infernex_agent.Planner.Objects.{
  Pod, Node, ResourceQuota, Namespace, Profile, Request, Placement, ResourceEstimate,
}
use infernex_agent.Planner.Pods.{Occupancy, occupied_by_node}
use infernex_agent.Planner.Quota.{QuotaProblem, QuotaLimit, Room, quota_capacity}
use infernex_agent.Planner.Listing.{
  Page, Listing, ListError, list_all, max_nodes, max_pods, max_policy_items,
}
use infernex_agent.Planner.Placing.{Tally, sort_nodes, place}
use infernex_agent.Planner.Validate.{Validation, ProfileError, Validated, validate_profile}

pub data Status : Type 0 where
  undecided schedulable insufficient blocked : Status

-- The reasons of a plan, by the messages of the source.
pub data Reason : Type 0 where
  unsupported : String → Reason
  terminating has_limit_ranges not_enough_resources : Reason
  quota_blocks : QuotaProblem → Reason
  quota_allows : QuotaLimit → Reason
  unknown_accounting : ℕ → Reason

pub record Plan : Type 0 where
  pub version : String
  pub status : Status
  pub profile_hash : String
  pub snapshot_hash : String
  pub plan_hash : String
  pub namespace : String
  pub requested_replicas : ℕ
  pub placeable_replicas : ℕ
  pub resource_estimate : ResourceEstimate
  pub placements : List Placement
  pub reasons : List Reason
  pub warnings : List String
  pub traffic_verified : Bool
  pub performance_verified : Bool
  pub reservation_created : Bool

abbrev pub base_warnings : List String
base_warnings =
    "This read-only plan is an estimate, not a resource reservation or deployment approval."
    ∷ "Traffic and performance have not been verified; the plan makes no SLO or throughput commitment."
    ∷ "Unbound scheduling-queue demand is not reserved or subtracted; a nominated pod makes its nominated node unknown."
    ∷ []

abbrev reasons_of : Option QuotaLimit → List Reason
reasons_of none = []
reasons_of (some limit) = quota_allows limit ∷ []

abbrev reasons_of_profile : List String → List Reason
reasons_of_profile [] = []
reasons_of_profile (s ∷ reasons) = unsupported s ∷ reasons_of_profile reasons

module _ (q : QuantityApi) where
  open q use {Quantity}

  -- addResources(total, profileRequests), once for each replica.
  unfoldable pub total_of : ℕ → ResourceList q → ResourceList q → ResourceList q
  total_of zero requests total = total
  total_of (suc n) requests total = total_of n requests (add_resources q total requests)

  unfoldable pub new_plan : Request → String → ResourceList q → Plan
  unfolding total_of all_resource_strings
  new_plan request hash requests = record {
    version = "infernex.openfuyao.io/v1alpha1";
    status = undecided;
    profile_hash = hash;
    snapshot_hash = "";
    plan_hash = "";
    namespace = request.namespace;
    requested_replicas = pos_part request.replicas;
    placeable_replicas = 0;
    resource_estimate = record {
      per_replica = all_resource_strings q requests;
      total_requested = all_resource_strings q (total_of (pos_part request.replicas) requests []);
    };
    placements = [];
    reasons = [];
    warnings = base_warnings;
    traffic_verified = false;
    performance_verified = false;
    reservation_created = false;
  }

  -- The switch at the end of Generate.
  unfoldable pub verdict : Plan → Room q → ℕ → Plan
  verdict plan room unknown_eligible =
      if plan.placeable_replicas == plan.requested_replicas
      then record plan { status = schedulable }
      else if ltb room.capacity plan.requested_replicas
      then record plan { status = insufficient; reasons = reasons_of room.reason }
      else if not (unknown_eligible == 0) && ltb plan.placeable_replicas plan.requested_replicas
      then record plan { status = blocked; reasons = unknown_accounting unknown_eligible ∷ [] }
      else record plan { status = insufficient; reasons = not_enough_resources ∷ [] }

  -- The tally before the loop over the nodes.
  abbrev pub start_tally : ℕ → Tally q
  start_tally target = record {
    placements = [];
    placeable = 0;
    remaining = target;
    unknown_eligible = 0;
  }

  abbrev pub target_of : Plan → Room q → ℕ
  target_of plan room =
      if ltb room.capacity plan.requested_replicas then room.capacity else plan.requested_replicas

  abbrev pub tally_of :
      Plan
      → Profile
      → ResourceList q
      → Room q
      → List (Pod Quantity)
      → List (Node Quantity)
      → Tally q
  tally_of plan profile requests room pods nodes =
      place q profile requests (occupied_by_node q pods) (start_tally (target_of plan room))
        (sort_nodes nodes)

  unfoldable pub place_replicas :
      Plan → Profile → ResourceList q → Room q → List (Pod Quantity) → List (Node Quantity) → Plan
  place_replicas plan profile requests room pods nodes =
      let t = tally_of plan profile requests room pods nodes in
      verdict (record plan { placements = t.placements; placeable_replicas = t.placeable }) room
        t.unknown_eligible

  -- What was read, and Generate from there on.
  pub record Snapshot (L : Type 0) : Type 0 where
    pub namespace : Namespace
    pub nodes : Listing (Node Quantity)
    pub pods : Listing (Pod Quantity)
    pub quotas : List (ResourceQuota Quantity)
    pub limits : List L

  unfoldable pub decide : {L : Type 0} → Plan → Request → ResourceList q → Snapshot L → Plan
  decide plan request requests s =
      if s.namespace.is_deleting || str_eq s.namespace.phase "Terminating"
      then record plan { status = blocked; reasons = terminating ∷ [] }
      else if not (is_nil s.limits)
      then record plan { status = blocked; reasons = has_limit_ranges ∷ [] }
      else elim (quota_capacity q plan.requested_replicas requests s.quotas) [
        | err problem ↦ record plan { status = blocked; reasons = quota_blocks problem ∷ [] }
        | ok room ↦ place_replicas plan request.profile requests room s.pods.items s.nodes.items
      ]

-- client.Reader, and the hashes.
pub record Cluster (q : QuantityApi) : Type 1 where
  pub World : Type 0
  pub LimitRange : Type 0
  pub get_namespace : String → World → Option Namespace × World
  pub list_nodes : String → World → Option (Page (Node q.Quantity)) × World
  pub list_pods : String → World → Option (Page (Pod q.Quantity)) × World
  pub list_quotas : String → String → World → Option (Page (ResourceQuota q.Quantity)) × World
  pub list_limits : String → String → World → Option (Page LimitRange) × World
  pub snapshot_hash : ResourceList q → Snapshot q LimitRange → String
  pub plan_hash : Request → String → String → String

pub data GenerateError : Type 0 where
  invalid_profile : ProfileError → GenerateError
  namespace_unread : GenerateError
  nodes_unread pods_unread quotas_unread limits_unread : ListError → GenerateError

module _ (v : Validation) (q : QuantityApi) (c : Cluster q) where
  open q use {Quantity}
  open c use {World, LimitRange, get_namespace, list_nodes, list_pods, list_quotas, list_limits}

  -- An action on the cluster that may fail.
  abbrev pub Read : Type 0 → Type 0
  Read A = World → Outcome GenerateError A × World

  abbrev continue : {A B : Type 0} → Outcome GenerateError A → (A → Read B) → Read B
  continue (ok a) f w = f a w
  continue (err e) f w = (err e, w)

  infixl 10 ◌>>=◌
  abbrev ◌>>=◌ : {A B : Type 0} → Read A → (A → Read B) → Read B
  ◌>>=◌ m f w = let (r, w') = m w in continue r f w'

  abbrev pure : {A : Type 0} → A → Read A
  pure a w = (ok a, w)

  abbrev or_fail : {E A : Type 0} → (E → GenerateError) → Outcome E A → Outcome GenerateError A
  or_fail wrap (ok a) = ok a
  or_fail wrap (err e) = err (wrap e)

  read_namespace : String → Read Namespace
  read_namespace name w =
      let (found, w') = get_namespace name w in
      (elim found [ none ↦ err namespace_unread | some n ↦ ok n ], w')

  read_list :
      {A : Type 0}
      → (ListError → GenerateError)
      → (World → Outcome ListError (Listing A) × World)
      → Read (Listing A)
  read_list wrap read w = let (r, w') = read w in (or_fail wrap r, w')

  pub read_snapshot : String → Read (Snapshot q LimitRange)
  unfolding read_namespace read_list list_all
  read_snapshot name = do
    namespace ← read_namespace name
    nodes ← read_list nodes_unread (list_all true list_nodes max_nodes)
    pods ← read_list pods_unread (list_all true list_pods max_pods)
    quotas ← read_list quotas_unread (list_all false (list_quotas name) max_policy_items)
    limits ← read_list limits_unread (list_all false (list_limits name) max_policy_items)
    pure (record {
      namespace = namespace;
      nodes = nodes;
      pods = pods;
      quotas = quotas.items;
      limits = limits.items;
    })

  abbrev pub unsupported_plan : Request → Validated v q → Plan
  unsupported_plan request valid = record (new_plan q request valid.profile_hash valid.requests) {
    status = blocked;
    reasons = reasons_of_profile valid.unsupported;
    plan_hash = c.plan_hash request valid.profile_hash "";
  }

  abbrev pub hashed_plan : Request → Validated v q → Snapshot q LimitRange → Plan
  hashed_plan request valid s =
      let snapshot = c.snapshot_hash valid.requests s in
      record (new_plan q request valid.profile_hash valid.requests) {
        snapshot_hash = snapshot;
        plan_hash = c.plan_hash request valid.profile_hash snapshot;
      }

  abbrev pub plan_from : Request → Validated v q → Snapshot q LimitRange → Plan
  plan_from request valid s = decide q (hashed_plan request valid s) request valid.requests s

  generate_valid : Request → Validated v q → Read Plan
  generate_valid request valid =
      if not (is_nil valid.unsupported)
      then pure (unsupported_plan request valid)
      else do s ← read_snapshot request.namespace; pure (plan_from request valid s)

  unfoldable pub generate : Quantity → Request → Read Plan
  unfolding generate_valid read_snapshot
  generate minimum_cpu request = do
    valid ← (λ w. (or_fail invalid_profile (validate_profile v q minimum_cpu request), w))
    generate_valid request valid
