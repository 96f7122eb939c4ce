-- ===== src/Planner/Quota.antt =====
-- What the ResourceQuotas of the namespace allow: quotaResourceAffectsPod, quotaRequest and
-- quotaCapacity.
pub mod Capacity
use infernex_agent.Prelude.{
  ℕ, zero, suc, Bool, true, false, not, ◌&&◌, ◌||◌, Option, none, some, String, List, [], ◌∷◌,
  str_eq, is_nil, ltb, if◌then◌else◌, Outcome, ok, err,
}
use infernex_agent.Prelude.Text.{has_prefix, trim_prefix, contains}
use infernex_agent.Prelude.Dict.{Dict, lookup}
use infernex_agent.Planner.Quantity.{QuantityApi}
use infernex_agent.Planner.Resources.{ResourceList, quantity}
use infernex_agent.Planner.Objects.{ResourceQuota}

unfoldable pub quota_resource_affects_pod : String → Bool
quota_resource_affects_pod text =
    if has_prefix text "limits." || has_prefix text "requests."
    then true
    else if str_eq text "ephemeral-storage" || str_eq text "count/pods"
    then true
    else contains text "/" && not (has_prefix text "count/")

-- Why a quota blocks the plan: the message of the source.
pub data QuotaProblem : Type 0 where
  uses_scopes : String → QuotaProblem
  unsupported_resource : String → String → QuotaProblem
  no_observed_hard : String → String → QuotaProblem
  not_synchronized : String → String → QuotaProblem
  no_observed_usage : String → String → QuotaProblem

-- `ResourceQuota %q allows only %d additional replica(s) for %q`
pub record QuotaLimit : Type 0 where
  pub quota : String
  pub slots : ℕ
  pub resource : String

module _ (q : QuantityApi) where
  open q use {Quantity, of_int, add, less}

  -- `none` is the false second result.
  unfoldable pub quota_request : String → ResourceList q → Option Quantity
  unfolding lookup
  quota_request name requests =
      if str_eq name "pods" || str_eq name "count/pods"
      then some (of_int 1)
      else if str_eq name "cpu" || str_eq name "requests.cpu"
      then lookup "cpu" requests
      else if str_eq name "memory" || str_eq name "requests.memory"
      then lookup "memory" requests
      else if has_prefix name "requests."
      then lookup (trim_prefix name "requests.") requests
      else lookup name requests

  -- for slots < replicas { trial.Add(perReplica); if trial > hard { break }; slots++ }, on the
  -- rounds that are left.
  unfoldable pub count_slots : ℕ → Quantity → Quantity → Quantity → ℕ
  count_slots zero trial per hard = 0
  count_slots (suc left) trial per hard =
      let next = add trial per in
      let rest = count_slots left next per hard in if less hard next then 0 else suc rest

  -- The state of the loop: `capacity` and `reasons`, of which there is one at most.
  pub record Room : Type 0 where
    pub capacity : ℕ
    pub reason : Option QuotaLimit

  narrow : Room → String → ℕ → String → Room
  narrow room quota slots resource =
      if ltb slots room.capacity
      then record {
        capacity = slots;
        reason = some (record { quota = quota; slots = slots; resource = resource });
      }
      else room

  -- Spec.Hard and Status.Hard compare as different.
  out_of_sync : Quantity → Quantity → Bool
  out_of_sync hard wanted = less hard wanted || less wanted hard

  -- The body of the loop over the hard limits of one quota.
  visit_limit :
      ℕ → ResourceList q → ResourceQuota Quantity → Room → String → Outcome QuotaProblem Room
  unfolding quota_request quota_resource_affects_pod count_slots narrow out_of_sync lookup quantity
  visit_limit replicas requests quota room name = elim (quota_request name requests) [
    | none ↦
        if quota_resource_affects_pod name
        then err (unsupported_resource quota.name name)
        else ok room
    | some per ↦ elim (lookup name quota.status_hard) [
      | none ↦ err (no_observed_hard quota.name name)
      | some hard ↦
          if out_of_sync hard (quantity q name quota.spec_hard)
          then err (not_synchronized quota.name name)
          else elim (lookup name quota.used) [
            | none ↦ err (no_observed_usage quota.name name)
            | some used ↦ ok (narrow room quota.name (count_slots replicas used per hard) name)
          ]
    ]
  ]

  visit_limits :
      ℕ
      → ResourceList q
      → ResourceQuota Quantity
      → Outcome QuotaProblem Room
      → ResourceList q
      → Outcome QuotaProblem Room
  visit_limits replicas requests quota (err e) limits = err e
  visit_limits replicas requests quota (ok room) [] = ok room
  visit_limits replicas requests quota (ok room) ((name, _) ∷ limits) =
      visit_limits replicas requests quota (visit_limit replicas requests quota room name) limits

  visit_quota : ℕ → ResourceList q → Room → ResourceQuota Quantity → Outcome QuotaProblem Room
  unfolding visit_limits
  visit_quota replicas requests room quota =
      if not (is_nil quota.scopes) || quota.has_scope_selector
      then err (uses_scopes quota.name)
      else visit_limits replicas requests quota (ok room) quota.spec_hard

  visit_quotas :
      ℕ
      → ResourceList q
      → Outcome QuotaProblem Room
      → List (ResourceQuota Quantity)
      → Outcome QuotaProblem Room
  visit_quotas replicas requests (err e) quotas = err e
  visit_quotas replicas requests (ok room) [] = ok room
  visit_quotas replicas requests (ok room) (quota ∷ quotas) =
      visit_quotas replicas requests (visit_quota replicas requests room quota) quotas

  -- An error is the blocked result; its reason is the only one.
  unfoldable pub quota_capacity :
      ℕ → ResourceList q → List (ResourceQuota Quantity) → Outcome QuotaProblem Room
  unfolding visit_quotas visit_quota visit_limits visit_limit
  quota_capacity replicas requests quotas =
      visit_quotas replicas requests (ok (record { capacity = replicas; reason = none })) quotas
