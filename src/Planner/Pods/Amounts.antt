-- ===== src/Planner/Pods/Amounts.antt =====
-- What podRequests and occupiedByNode add up.
use mathlib.Core.Path.{ap₂}
use infernex_agent.Prelude.{
  ◌≡◌, sym, ap, ◌∙◌, Bool, true, false, not, String, List, [], ◌∷◌, All, arith, str_eq, Bool-cases,
  inl, inr, if◌then◌else◌, Outcome, ok, err,
}
use infernex_agent.Prelude.Dict.{Dict, HasUniqueKeys, lookup, put, lookup-put}
use infernex_agent.Prelude.Int.{
  ℤ, pos, ◌+ℤ◌, ◌≤ℤ◌, max_ℤ, +ℤ_zero, +ℤ_assoc, +ℤ_nonneg, max_ℤ_nonneg, max_ℤ_zero, max_ℤ_assoc,
  max_ℤ_zero_left, zero_+ℤ,
}
use infernex_agent.Planner.Quantity.{QuantityApi}
use infernex_agent.Planner.Resources.{ResourceList, add_resources, max_resources}
use infernex_agent.Planner.Resources.Sums.{
  amount, amount-nil, amount-put, amount-IsNonNegative, max_resources-AreFine, amount-add_resources,
  amount-max_resources, add_resources-HasUniqueKeys, add_resources-IsNonNegative, IsNonNegative,
}
use infernex_agent.Planner.Objects.{Container, Pod}
use infernex_agent.Planner.Pods.{
  list_at, add_containers, Peaks, always_restarts, init_step, init_loop, total_requests,
  pod_requests, active_pod, Occupancy, account, occupy, occupy_all, occupied_by_node,
}

module _ (q : QuantityApi) where
  open q use {Quantity, nanos, of_int}

  list_at-put :
      (name node : String) (list : ResourceList q) (lists : Dict (ResourceList q))
      → list_at q name (put node list lists)
        ≡ (if str_eq node name then list else list_at q name lists)
  unfolding list_at
  list_at-put name node list lists = ground (arith, lookup-put node name list lists)

  abbrev AreUnique : Occupancy q → Type 0
  AreUnique o = (name : String) → HasUniqueKeys (list_at q name o.occupied)

  account-AreUnique :
      (o : Occupancy q) (node : String) (r : Outcome String (ResourceList q))
      → AreUnique o
      → AreUnique (account q o node r)
  unfolding account
  account-AreUnique o node (err reason) h name = h name
  account-AreUnique o node (ok requests) h name =
      let list = add_resources q (list_at q node o.occupied) requests in
      rw (list_at-put name node list o.occupied) (choose (str_eq node name))
    where
      choose :
          (b : Bool)
          → HasUniqueKeys (
              if b
              then add_resources q (list_at q node o.occupied) requests
              else list_at q name o.occupied)
      choose true = add_resources-HasUniqueKeys q (list_at q node o.occupied) requests (h node)
      choose false = h name

  occupy-AreUnique :
      (o : Occupancy q) (pod : Pod Quantity) → AreUnique o → AreUnique (occupy q o pod)
  unfolding occupy
  occupy-AreUnique o pod h =
      pick (not (active_pod pod)) (str_eq pod.node_name "") (str_eq pod.nominated_node_name "")
    where
      pick :
          (a b c : Bool)
          → AreUnique (
              if a
              then o
              else if b
              then if c then o else record o {
                uncertain = put pod.nominated_node_name "nominated pending pod" o.uncertain;
              }
              else account q o pod.node_name (pod_requests q pod))
      pick true b c = h
      pick false true true = h
      pick false true false = h
      pick false false c = account-AreUnique o pod.node_name (pod_requests q pod) h

  occupy_all-AreUnique :
      (o : Occupancy q) (pods : List (Pod Quantity)) → AreUnique o → AreUnique (occupy_all q o pods)
  unfolding occupy_all
  occupy_all-AreUnique o [] h = h
  occupy_all-AreUnique o (pod ∷ pods) h =
      occupy_all-AreUnique (occupy q o pod) pods (occupy-AreUnique o pod h)

  pub occupied_by_node-HasUniqueKeys :
      (pods : List (Pod Quantity)) (name : String)
      → HasUniqueKeys (list_at q name (occupied_by_node q pods).occupied)
  unfolding occupied_by_node
  occupied_by_node-HasUniqueKeys pods =
      occupy_all-AreUnique (record { occupied = []; uncertain = [] }) pods
        (λ name. unfold list_at lookup in tt)

  -- The amount of one resource that a container asks for.
  abbrev pub own : String → Container Quantity → ℤ
  own name c = amount q name c.requests

  abbrev pub sum_own : String → List (Container Quantity) → ℤ
  sum_own name [] = pos 0
  sum_own name (c ∷ containers) = own name c +ℤ sum_own name containers

  -- The init containers that keep running beside the others.
  abbrev pub sidecars : String → List (Container Quantity) → ℤ
  sidecars name [] = pos 0
  sidecars name (c ∷ containers) =
      (if always_restarts q c then own name c else pos 0) +ℤ sidecars name containers

  -- The most that is in use while the init containers run in order, after sidecars that hold
  -- `started`: each adds its request to what is running, and only a sidecar goes on running.
  abbrev pub peak : String → ℤ → List (Container Quantity) → ℤ
  peak name started [] = pos 0
  peak name started (c ∷ containers) =
      max_ℤ (started +ℤ own name c)
        (peak name (started +ℤ (if always_restarts q c then own name c else pos 0)) containers)

  pub record IsSound (c : Container Quantity) : Type 0 where
    pub unique : HasUniqueKeys c.requests
    pub nonneg : IsNonNegative q c.requests

  amount-add_containers :
      (name : String) (regular : ResourceList q) (containers : List (Container Quantity))
      → All IsSound containers
      → amount q name (add_containers q regular containers)
        ≡ amount q name regular +ℤ sum_own name containers
  unfolding add_containers
  amount-add_containers name regular [] h = sym (+ℤ_zero _)
  amount-add_containers name regular (c ∷ containers) h =
      amount-add_containers name (add_resources q regular c.requests) containers h.1
      ∙ ap (λ a. a +ℤ sum_own name containers)
          (amount-add_resources q name regular c.requests h.0.unique)
      ∙ +ℤ_assoc (amount q name regular) (own name c) (sum_own name containers)

  record IsTidy (p : Peaks q) : Type 0 where
    unique : HasUniqueKeys p.restartable
    nonneg : IsNonNegative q p.restartable
    peak_fine : HasUniqueKeys p.init_peak × IsNonNegative q p.init_peak

  module _ (p : Peaks q) (c : Container Quantity) (t : IsTidy p) (s : IsSound c) where
    abbrev started : ResourceList q
    started = add_resources q p.restartable c.requests

    amount-started :
        (name : String) → amount q name started ≡ amount q name p.restartable +ℤ own name c
    amount-started name = amount-add_resources q name p.restartable c.requests s.unique

    amount-peak :
        (name : String)
        → amount q name (max_resources q p.init_peak started)
          ≡ max_ℤ (amount q name p.init_peak) (amount q name p.restartable +ℤ own name c)
    amount-peak name =
        amount-max_resources q name p.init_peak started
          (add_resources-HasUniqueKeys q p.restartable c.requests t.unique)
          (add_resources-IsNonNegative q p.restartable c.requests t.nonneg s.nonneg)
          (amount-IsNonNegative q name p.init_peak t.peak_fine.1)
        ∙ ap (max_ℤ (amount q name p.init_peak)) (amount-started name)

    init_step-restartable :
        (name : String)
        → amount q name (init_step q p c).restartable
          ≡ amount q name p.restartable +ℤ (if always_restarts q c then own name c else pos 0)
    unfolding init_step
    init_step-restartable name =
        ground (arith, amount-started name, +ℤ_zero (amount q name p.restartable))

    init_step-peak :
        (name : String)
        → amount q name (init_step q p c).init_peak
          ≡ max_ℤ (amount q name p.init_peak) (amount q name p.restartable +ℤ own name c)
    unfolding init_step
    init_step-peak name = ground (arith, amount-peak name)

    started_nonneg : IsNonNegative q started
    started_nonneg = add_resources-IsNonNegative q p.restartable c.requests t.nonneg s.nonneg

    raised :
        HasUniqueKeys (max_resources q p.init_peak started)
        × IsNonNegative q (max_resources q p.init_peak started)
    raised = max_resources-AreFine q p.init_peak started t.peak_fine started_nonneg

    init_step-IsTidy : IsTidy (init_step q p c)
    unfolding init_step
    init_step-IsTidy = elim (Bool-cases (always_restarts q c)) [
      | inl e ↦
          rw (e, if◌then◌else◌)
            (record {
              unique = add_resources-HasUniqueKeys q p.restartable c.requests t.unique;
              nonneg = started_nonneg;
              peak_fine = raised;
            })
      | inr e ↦
          rw (e, if◌then◌else◌)
            (record { unique = t.unique; nonneg = t.nonneg; peak_fine = raised })
    ]

  amount-init_loop :
      (name : String) (p : Peaks q) (containers : List (Container Quantity))
      → IsTidy p
      → All IsSound containers
      → (amount q name (init_loop q p containers).restartable
          ≡ amount q name p.restartable +ℤ sidecars name containers)
        × (amount q name (init_loop q p containers).init_peak
            ≡ max_ℤ
                (amount q name p.init_peak)
                (peak name (amount q name p.restartable) containers))
        × IsTidy (init_loop q p containers)
  unfolding init_loop
  amount-init_loop name p [] t h = (
    sym (+ℤ_zero _),
    sym (max_ℤ_zero _ (amount-IsNonNegative q name p.init_peak t.peak_fine.1)),
    t,
  )
  amount-init_loop name p (c ∷ containers) t h =
      let (running, peaked, tidy) =
        amount-init_loop name (init_step q p c) containers (init_step-IsTidy p c t h.0) h.1 in
      let r = init_step-restartable p c t h.0 name in
      (
        running
            ∙ ap (λ a. a +ℤ sidecars name containers) r
            ∙ +ℤ_assoc (amount q name p.restartable)
                (if always_restarts q c then own name c else pos 0) (sidecars name containers),
        peaked
            ∙ ap₂ (λ a b. max_ℤ a (peak name b containers)) (init_step-peak p c t h.0 name) r
            ∙ max_ℤ_assoc (amount q name p.init_peak) (amount q name p.restartable +ℤ own name c) _,
        tidy,
      )

  sum_own_nonneg :
      (name : String) (containers : List (Container Quantity))
      → All IsSound containers
      → pos 0 ≤ℤ sum_own name containers
  sum_own_nonneg name [] h = omega arith
  sum_own_nonneg name (c ∷ containers) h =
      +ℤ_nonneg (own name c) (sum_own name containers)
        (amount-IsNonNegative q name c.requests h.0.nonneg) (sum_own_nonneg name containers h.1)

  sidecars_nonneg :
      (name : String) (containers : List (Container Quantity))
      → All IsSound containers
      → pos 0 ≤ℤ sidecars name containers
  sidecars_nonneg name [] h = omega arith
  sidecars_nonneg name (c ∷ containers) h =
      +ℤ_nonneg (if always_restarts q c then own name c else pos 0) (sidecars name containers)
        (ground (arith, amount-IsNonNegative q name c.requests h.0.nonneg))
        (sidecars_nonneg name containers h.1)

  peak_nonneg :
      (name : String) (a : ℤ) (containers : List (Container Quantity))
      → pos 0 ≤ℤ a
      → All IsSound containers
      → pos 0 ≤ℤ peak name a containers
  peak_nonneg name a [] n h = omega arith
  peak_nonneg name a (c ∷ containers) n h =
      max_ℤ_nonneg (a +ℤ own name c) _
        (+ℤ_nonneg a (own name c) n (amount-IsNonNegative q name c.requests h.0.nonneg))

  abbrev no_peaks : Peaks q
  no_peaks = record { restartable = []; init_peak = [] }

  no_peaks-IsTidy : IsTidy no_peaks
  no_peaks-IsTidy = record { unique = tt; nonneg = tt; peak_fine = (tt, tt) }

  module _ (name : String) (containers inits : List (Container Quantity))
      (h : All IsSound containers) (k : All IsSound inits) where
    -- The two lists that total_requests compares.
    amount-running :
        amount q name (
          add_resources q (add_containers q [] containers) (init_loop q no_peaks inits).restartable)
        ≡ sum_own name containers +ℤ sidecars name inits
    amount-running =
        let (running, peaked, tidy) = amount-init_loop name no_peaks inits no_peaks-IsTidy k in
        amount-add_resources q name (add_containers q [] containers)
          (init_loop q no_peaks inits).restartable tidy.unique
        ∙ ap₂ ◌+ℤ◌
            (amount-add_containers name [] containers h
              ∙ ap (λ a. a +ℤ sum_own name containers) (amount-nil q name)
              ∙ zero_+ℤ (sum_own name containers))
            (running
              ∙ ap (λ a. a +ℤ sidecars name inits) (amount-nil q name)
              ∙ zero_+ℤ (sidecars name inits))

    amount-peaked : amount q name (init_loop q no_peaks inits).init_peak ≡ peak name (pos 0) inits
    amount-peaked =
        (amount-init_loop name no_peaks inits no_peaks-IsTidy k).1
        ∙ ap₂ (λ a b. max_ℤ a (peak name b inits)) (amount-nil q name) (amount-nil q name)
        ∙ max_ℤ_zero_left (peak name (pos 0) inits) (peak_nonneg name (pos 0) inits (omega arith) k)

    amount-larger :
        amount q name (
          max_resources q
            (add_resources q
              (add_containers q [] containers)
              (init_loop q no_peaks inits).restartable)
            (init_loop q no_peaks inits).init_peak)
        ≡ max_ℤ (sum_own name containers +ℤ sidecars name inits) (peak name (pos 0) inits)
    amount-larger =
        let tidy = (amount-init_loop name no_peaks inits no_peaks-IsTidy k).2 in
        amount-max_resources q name _ (init_loop q no_peaks inits).init_peak tidy.peak_fine.0
          tidy.peak_fine.1
          (rw amount-running
            (+ℤ_nonneg _ _ (sum_own_nonneg name containers h) (sidecars_nonneg name inits k)))
        ∙ ap₂ max_ℤ amount-running amount-peaked

  abbrev running_of : Pod Quantity → ResourceList q
  running_of pod =
      max_resources q
        (add_resources q (add_containers q [] pod.containers)
          (init_loop q no_peaks pod.init_containers).restartable)
        (init_loop q no_peaks pod.init_containers).init_peak

  -- What a pod takes of its node, of every resource but the pod slots: the larger of what runs in
  -- the end (its containers and sidecars) and the most that its init phase needs, and its
  -- overhead. This is the formula of the Kubernetes scheduler. It takes one pod slot. This where no
  -- container asks for a negative amount, and where the requests of each container and the overhead
  -- name each resource once.
  pub amount-total_requests :
      (pod : Pod Quantity) (name : String)
      → All IsSound pod.containers
      → All IsSound pod.init_containers
      → HasUniqueKeys pod.overhead
      → amount q name (total_requests q pod) ≡ (
          if str_eq "pods" name
          then nanos (of_int 1)
          else max_ℤ
              (sum_own name pod.containers +ℤ sidecars name pod.init_containers)
              (peak name (pos 0) pod.init_containers)
            +ℤ amount q name pod.overhead)
  unfolding total_requests
  amount-total_requests pod name h k u = ground (
    arith,
    amount-put q name "pods" (of_int 1) (add_resources q (running_of pod) pod.overhead),
    amount-add_resources q name (running_of pod) pod.overhead u,
    amount-larger name pod.containers pod.init_containers h k,
  )
