-- ===== src/Planner/Examples.antt =====
-- The planner on a small cluster: one profile, one node, one pod and one quota.
use infernex_agent.Prelude.{
  ℕ, ◌≡◌, ◌≢◌, ◌↔◌, ◌⊎◌, ◌≤◌, ◌+◌, ◌||◌, min, refl, true, false, Option, none, some, String, List,
  [], ◌∷◌, All, ok, err, if◌then◌else◌, str_eq, arith,
}
use infernex_agent.Prelude.Dict.{lookup, HasUniqueKeys}
use infernex_agent.Prelude.Int.{ℤ, pos, ◌+ℤ◌, max_ℤ, times}
use infernex_agent.Planner.Quantity.{whole_units}
use infernex_agent.Planner.Resources.{ResourceList, quantity}
use infernex_agent.Planner.Resources.Sums.{amount}
use infernex_agent.Planner.Objects.{
  Container, Pod, Toleration, Node, ResourceQuota, Profile, Request,
}
use infernex_agent.Planner.Pods.{occupied_by_node, total_requests}
use infernex_agent.Planner.Pods.Amounts.{IsSound, sum_own, sidecars, peak, amount-total_requests}
use infernex_agent.Planner.Nodes.{node_eligible}
use infernex_agent.Planner.Nodes.Eligibility.{Eligible, node_eligible_iff}
use infernex_agent.Planner.Quota.{quota_capacity}
use infernex_agent.Planner.Quota.Capacity.{Permits, quota_capacity-Permits}
use infernex_agent.Planner.Listing.{Page, Listing, out_of_fuel, list_all}
use infernex_agent.Planner.Listing.Complete.{Reads, list_all-total, list_all-Reads}
use infernex_agent.Planner.Placing.{fill, place, Tally}
use infernex_agent.Planner.Placing.Greedy.{fill-greatest, place-room, room, AreNonNegative, Holds}
use infernex_agent.Planner.Validate.{
  Validation, Validated, validate_profile, is_digest_image, is_bad_image, parse_cpu, parse_memory,
  add_extended, check_selector, check_tolerations, hash_profile, unsupported_profile,
}
use infernex_agent.Planner.Validate.Accepted.{IsAccepted, validate_profile-IsAccepted}
use infernex_agent.Planner.Generate.{
  Plan, Snapshot, Cluster, decide, generate, plan_from, schedulable, undecided, base_warnings,
}
use infernex_agent.Planner.Generate.Sound.{decide-schedulable_iff, IsSchedulable}
use infernex_agent.Planner.Generate.Total.{AddsUp, decide-AddsUp}
use infernex_agent.Planner.Generate.Promise.{IsGrounded, generate-IsGrounded}

abbrev requests : ResourceList whole_units
requests = ("cpu", pos 2) ∷ ("memory", pos 3) ∷ ("pods", pos 1) ∷ []

requests-HasUniqueKeys : HasUniqueKeys requests
unfolding lookup
requests-HasUniqueKeys = (refl, (refl, (refl, tt)))

abbrev toleration : Toleration
toleration = record {
  key = "npu";
  operator = "Exists";
  value = "";
  effect = "NoSchedule";
  seconds = none;
}

abbrev profile : Profile
profile = record {
  version = "infernex.openfuyao.io/v1alpha1";
  image = "vllm@sha256:0123456789abcdef0123456789abcdef0123456789abcdef0123456789abcdef";
  cpu = "11";
  memory = "111";
  extended_resources = [];
  node_selector = ("zone", "east") ∷ [];
  tolerations = toleration ∷ [];
  persistent_volume_claims = [];
  has_affinity = false;
  resource_claims = [];
  has_pod_resources = false;
}

abbrev request : Request
request = record { namespace = "serving"; replicas = pos 2; profile = profile }

abbrev plan : Plan
plan = record {
  version = "infernex.openfuyao.io/v1alpha1";
  status = undecided;
  profile_hash = "p";
  snapshot_hash = "s";
  plan_hash = "h";
  namespace = "serving";
  requested_replicas = 2;
  placeable_replicas = 0;
  resource_estimate = record { per_replica = []; total_requested = [] };
  placements = [];
  reasons = [];
  warnings = base_warnings;
  traffic_verified = false;
  performance_verified = false;
  reservation_created = false;
}

abbrev node : Node ℤ
node = record {
  name = "node-1";
  uid = "uid-1";
  unschedulable = false;
  conditions = record { kind = "Ready"; status = "True" } ∷ [];
  labels = ("zone", "east") ∷ [];
  taints = record { key = "npu"; value = "910b"; effect = "NoSchedule" } ∷ [];
  allocatable = ("cpu", pos 9) ∷ ("memory", pos 9) ∷ ("pods", pos 4) ∷ [];
}

abbrev container : String → ℕ → Option String → Container ℤ
container name cpu policy = record {
  name = name;
  requests = ("cpu", pos cpu) ∷ [];
  claims = [];
  restart_policy = policy;
}

abbrev pod : Pod ℤ
pod = record {
  node_name = "node-1";
  nominated_node_name = "";
  phase = "Running";
  resize = "";
  has_resources = false;
  resource_claims = [];
  containers = container "main" 1 none ∷ [];
  init_containers = container "proxy" 1 (some "Always") ∷ container "setup" 3 none ∷ [];
  overhead = [];
  conditions = [];
  container_statuses = [];
  init_container_statuses = [];
}

abbrev quota : ResourceQuota ℤ
quota = record {
  name = "team";
  scopes = [];
  has_scope_selector = false;
  spec_hard = ("requests.cpu", pos 9) ∷ [];
  status_hard = ("requests.cpu", pos 9) ∷ [];
  used = ("requests.cpu", pos 4) ∷ [];
}

abbrev whole : {A : Type 0} → List A → Listing A
whole items = record { items = items; resource_version = "7" }

abbrev snapshot : Snapshot whole_units (Unit {0})
snapshot = record {
  namespace = record { is_deleting = false; phase = "Active" };
  nodes = whole (node ∷ []);
  pods = whole (pod ∷ []);
  quotas = quota ∷ [];
  limits = [];
}

decide-schedulable_iff_example :
    ((decide whole_units plan request requests snapshot).status ≡ schedulable)
    ↔ IsSchedulable whole_units plan request requests snapshot
decide-schedulable_iff_example = decide-schedulable_iff whole_units plan request requests snapshot

decide-AddsUp_example : AddsUp whole_units (decide whole_units plan request requests snapshot)
decide-AddsUp_example = decide-AddsUp whole_units plan request requests snapshot refl refl (λ h. cc)

node_eligible_iff_example : (node_eligible node profile ≡ true) ↔ Eligible node profile
node_eligible_iff_example = node_eligible_iff node profile

quota_capacity-Permits_example :
    (2 ≤ 2) × All (λ quota. Permits whole_units 2 requests quota 2) (quota ∷ [])
unfolding quota_capacity lookup ◌+ℤ◌
quota_capacity-Permits_example =
    quota_capacity-Permits whole_units 2 requests (quota ∷ [])
      (record { capacity = 2; reason = none }) refl

abbrev two_pages : String → ℕ → Option (Page ℕ) × ℕ
two_pages token calls = (
  if str_eq token ""
      then some (record { items = 1 ∷ 2 ∷ []; continue_token = "next"; resource_version = "7" })
      else some (record { items = 3 ∷ []; continue_token = ""; resource_version = "7" }),
  calls + 1,
)

list_all-total_example : (list_all true two_pages 10 0).0 ≢ err out_of_fuel
list_all-total_example = list_all-total true two_pages 10 0

list_all-Reads_example : Reads two_pages "" 0 (1 ∷ 2 ∷ 3 ∷ []) 2 × (3 ≤ 10)
unfolding list_all
list_all-Reads_example =
    list_all-Reads true two_pages 10 0 {r = whole (1 ∷ 2 ∷ 3 ∷ [])} {w' = 2} refl

IsSound-of :
    (name : String) (cpu : ℕ) (policy : Option String)
    → IsSound whole_units (container name cpu policy)
unfolding lookup
IsSound-of name cpu policy = record { unique = (refl, tt); nonneg = (omega arith, tt) }

amount-total_requests_example :
    amount whole_units "cpu" (total_requests whole_units pod)
    ≡ max_ℤ
        (sum_own whole_units "cpu" pod.containers +ℤ sidecars whole_units "cpu" pod.init_containers)
        (peak whole_units "cpu" (pos 0) pod.init_containers)
      +ℤ amount whole_units "cpu" pod.overhead
amount-total_requests_example =
    amount-total_requests whole_units pod "cpu" (IsSound-of "main" 1 none, tt)
      (IsSound-of "proxy" 1 (some "Always"), (IsSound-of "setup" 3 none, tt)) tt

cpu_AreNonNegative : AreNonNegative whole_units (("cpu", pos 2) ∷ [])
unfolding lookup
cpu_AreNonNegative name x e = ground arith

cpu_Holds : Holds whole_units (("cpu", pos 2) ∷ []) 2 (("cpu", pos 4) ∷ [])
unfolding lookup amount quantity times ◌+ℤ◌
cpu_Holds name x e = ground arith

fill-greatest_example : 2 ≤ (fill whole_units (("cpu", pos 2) ∷ []) 5 (("cpu", pos 4) ∷ [])).0
unfolding lookup
fill-greatest_example =
    fill-greatest whole_units (("cpu", pos 2) ∷ []) (refl, tt) cpu_AreNonNegative 5 2
      (("cpu", pos 4) ∷ []) (omega arith) cpu_Holds

abbrev no_tally : Tally whole_units
no_tally = record { placements = []; placeable = 0; remaining = 2; unknown_eligible = 0 }

place-room_example :
    (place whole_units profile requests
      (occupied_by_node whole_units (pod ∷ []))
      no_tally
      (node ∷ [])).placeable
    ≡ 0
      + min 2 (
          room whole_units profile requests (occupied_by_node whole_units (pod ∷ [])) 2 (node ∷ []))
place-room_example =
    place-room whole_units profile requests (occupied_by_node whole_units (pod ∷ [])) 2 no_tally
      (node ∷ []) (omega arith)

abbrev validation : Validation
validation = record {
  is_dns_label = λ s. str_eq s "serving";
  is_qualified_name = λ s. str_eq s "npu" || str_eq s "zone";
  is_label_value = λ s. str_eq s "east" || str_eq s "";
  profile_hash = λ p. some "hash";
}

abbrev valid : Validated validation whole_units
valid = record {
  requests = ("cpu", pos 2) ∷ ("memory", pos 3) ∷ ("pods", pos 1) ∷ [];
  profile_hash = "hash";
  unsupported = [];
}

validated : validate_profile validation whole_units (pos 1) request ≡ ok valid
unfolding validate_profile is_digest_image is_bad_image parse_cpu parse_memory add_extended
    check_selector check_tolerations hash_profile unsupported_profile
validated = refl

validate_profile-IsAccepted_example : IsAccepted validation whole_units (pos 1) request valid
validate_profile-IsAccepted_example =
    validate_profile-IsAccepted validation whole_units (pos 1) request valid validated

abbrev cluster : Cluster whole_units
cluster = record {
  World = ℕ;
  LimitRange = Unit {0};
  get_namespace = λ name calls. (some snapshot.namespace, calls + 1);
  list_nodes = λ token calls.
      (some (record { items = node ∷ []; continue_token = ""; resource_version = "7" }), calls + 1);
  list_pods = λ token calls.
      (some (record { items = pod ∷ []; continue_token = ""; resource_version = "7" }), calls + 1);
  list_quotas = λ name token calls. (
    some (record { items = quota ∷ []; continue_token = ""; resource_version = "7" }),
    calls + 1,
  );
  list_limits = λ name token calls.
      (some (record { items = []; continue_token = ""; resource_version = "7" }), calls + 1);
  snapshot_hash = λ r s. "s";
  plan_hash = λ r p s. "h";
}

generated :
    generate validation whole_units cluster (pos 1) request 0
    ≡ (ok (plan_from validation whole_units cluster request valid snapshot), 5)
unfolding generate validate_profile is_digest_image is_bad_image parse_cpu parse_memory add_extended
    check_selector check_tolerations hash_profile unsupported_profile list_all
generated = refl

generate-IsGrounded_example :
    ((plan_from validation whole_units cluster request valid snapshot).placements ≡ [])
    ⊎ IsGrounded validation whole_units cluster
        (pos 1)
        request
        0
        5
        (plan_from validation whole_units cluster request valid snapshot)
generate-IsGrounded_example =
    generate-IsGrounded validation whole_units cluster (pos 1) request 0 generated
