-- ===== src/Supervisor/Issues/Critical.antt =====
-- Which states of a service give a critical issue, and so may count towards recovery.
use infernex_agent.Prelude.{
  ◌≡◌, refl, Bool, true, false, not, ◌&&◌, ◌||◌, List, [], ◌∷◌, ◌++◌, arith, any, Option-cases, inl,
  inr,
}
use infernex_agent.Prelude.Int.{ltb_ℤ}
use infernex_agent.Supervisor.Objects.{
  Issue, ServiceSummary, ComponentSummary, WorkloadSummary, PodSummary, Topology,
}
use infernex_agent.Supervisor.Issues.{
  is_critical, is_pending, is_critical_pod, has_critical_issue, when, policy_issues, pending_issue,
  not_ready_issue, component_issues, workload_issues, pod_issues, detect_state_issues,
}

pub any-append :
    {A : Type 0} (p : A → Bool) (xs ys : List A) → any p (xs ++ ys) ≡ (any p xs || any p ys)
unfolding any
any-append p [] ys = refl
any-append p (x ∷ xs) ys = ground (arith, any-append p xs ys)

any-when : (b : Bool) (i : Issue) → any is_critical (when b i) ≡ (b && is_critical i)
unfolding any
any-when true i = ground arith
any-when false i = refl

component_issues-critical :
    (cs : List ComponentSummary) → any is_critical (component_issues cs) ≡ false
unfolding component_issues any
component_issues-critical [] = refl
component_issues-critical (c ∷ cs) = ground (arith, component_issues-critical cs)

abbrev pub has_deficit : WorkloadSummary → Bool
has_deficit w = ltb_ℤ w.ready w.desired

workload_issues-critical :
    (ws : List WorkloadSummary) → any is_critical (workload_issues ws) ≡ any has_deficit ws
unfolding workload_issues any
workload_issues-critical [] = refl
workload_issues-critical (w ∷ ws) = ground (arith, workload_issues-critical ws)

abbrev pub is_down : PodSummary → Bool
is_down p = not p.ready && is_critical_pod p

pod_issues-critical : (ps : List PodSummary) → any is_critical (pod_issues ps) ≡ any is_down ps
unfolding pod_issues any
pod_issues-critical [] = refl
pod_issues-critical (p ∷ ps) = ground (arith, pod_issues-critical ps)

policy_issues-critical :
    (service : ServiceSummary) → any is_critical (policy_issues service) ≡ false
unfolding any
policy_issues-critical service = elim (Option-cases service.recovery) [
  | inl n ↦ ground (arith, n)
  | inr (r, n) ↦ ground (arith, n)
]

-- The state of a service gives a critical issue exactly where the service is not ready though
-- Bridge has observed its generation, a workload has fewer ready replicas than desired, or a pod is
-- not ready and has failed or waits for one of the critical reasons.
pub detect_state_issues-critical :
    (service : ServiceSummary) (topology : Topology)
    → has_critical_issue (detect_state_issues service topology) ≡ (
        (not service.ready && not (is_pending service))
        || any has_deficit topology.workloads
        || any is_down topology.pods)
unfolding has_critical_issue detect_state_issues pending_issue not_ready_issue
detect_state_issues-critical service topology =
    let components = component_issues service.components in
    let workloads = workload_issues topology.workloads in
    let pods = pod_issues topology.pods in
    let ready = when (not service.ready) (not_ready_issue service) in
    let pending = when (is_pending service) (pending_issue service) in
    ground (
      arith,
      any-append is_critical (policy_issues service)
          (pending ++ (ready ++ (components ++ (workloads ++ pods)))),
      any-append is_critical pending (ready ++ (components ++ (workloads ++ pods))),
      any-append is_critical ready (components ++ (workloads ++ pods)),
      any-append is_critical components (workloads ++ pods),
      any-append is_critical workloads pods,
      policy_issues-critical service,
      any-when (is_pending service) (pending_issue service),
      any-when (not service.ready) (not_ready_issue service),
      component_issues-critical service.components,
      workload_issues-critical topology.workloads,
      pod_issues-critical topology.pods,
    )
