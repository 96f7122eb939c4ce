-- ===== src/Planner/Validate/Accepted.antt =====
-- What an accepted profile is sure to satisfy.
use mathlib.Core.Path.{subst}
use infernex_agent.Prelude.{
  ◌≡◌, ◌≤◌, refl, true, false, not, some, String, [], ◌∷◌, arith, str_eq, eq_iff, ok, reject,
  reject-eq-ok, All, ◌||◌, >>=-eq-ok,
}
use infernex_agent.Prelude.Dict.{
  Dict, HasUniqueKeys, lookup, put, put-HasUniqueKeys, member, lookup-put,
}
use infernex_agent.Prelude.Int.{ℤ, pos, pos_part, ltb_ℤ}
use infernex_agent.Planner.Quantity.{QuantityApi}
use infernex_agent.Planner.Resources.{ResourceList}
use infernex_agent.Planner.Objects.{Request}
use infernex_agent.Planner.Validate.{
  bad_namespace, bad_replicas, bad_version, unpinned_image, bad_image, is_digest_image,
  is_bad_image, check_selector, check_tolerations, hash_profile, Validation, Validated, parse_cpu,
  parse_memory, add_extended, validate_profile, max_replicas,
}

module _ (v : Validation) (q : QuantityApi) where
  open q use {Quantity, of_int, parse, less}

  add_extended-HasUniqueKeys :
      (requests : ResourceList q) (extended : Dict ℤ) (r : ResourceList q)
      → HasUniqueKeys requests
      → add_extended v q requests extended ≡ ok r
      → HasUniqueKeys r
  unfolding add_extended
  add_extended-HasUniqueKeys requests [] r u h =
      let same : requests ≡ r = cc in subst HasUniqueKeys same u
  add_extended-HasUniqueKeys requests ((name, count) ∷ extended) r u h =
      add_extended-HasUniqueKeys (put name (of_int (pos_part count)) requests) extended r
        (put-HasUniqueKeys name (of_int (pos_part count)) requests u) (ground arith)

  base-HasUniqueKeys :
      (cpu memory pods : Quantity)
      → HasUniqueKeys (("cpu", cpu) ∷ ("memory", memory) ∷ ("pods", pods) ∷ [])
  unfolding lookup
  base-HasUniqueKeys cpu memory pods = (refl, (refl, (refl, tt)))

  -- Adding resources keeps what is there: a resource that is named twice is refused.
  add_extended-keeps :
      (requests : ResourceList q) (extended : Dict ℤ) (r : ResourceList q) (name : String)
      {x : Quantity}
      → lookup name requests ≡ some x
      → add_extended v q requests extended ≡ ok r
      → lookup name r ≡ some x
  unfolding add_extended member
  add_extended-keeps requests [] r name e h = ground arith
  add_extended-keeps requests ((other, count) ∷ extended) r name e h =
      add_extended-keeps (put other (of_int (pos_part count)) requests) extended r name
        (ground
          (arith, lookup-put other name (of_int (pos_part count)) requests, eq_iff other name))
        (ground arith)

  -- A resource is counted by a positive number, which the request list then has.
  abbrev pub IsCounted : ResourceList q → String × ℤ → Type 0
  IsCounted r (name, count) =
      (ltb_ℤ (pos 0) count ≡ true) × (lookup name r ≡ some (of_int (pos_part count)))

  add_extended-IsCounted :
      (requests : ResourceList q) (extended : Dict ℤ) (r : ResourceList q)
      → add_extended v q requests extended ≡ ok r
      → All (IsCounted r) extended
  unfolding add_extended
  add_extended-IsCounted requests [] r h = tt
  add_extended-IsCounted requests ((name, count) ∷ extended) r h =
      let more = put name (of_int (pos_part count)) requests in
      let rest : add_extended v q more extended ≡ ok r = ground arith in
      (
        (
          ground arith,
          add_extended-keeps more extended r name
              (ground
                (arith, lookup-put name name (of_int (pos_part count)) requests, eq_iff name name))
              rest,
        ),
        add_extended-IsCounted more extended r rest,
      )

  -- What an accepted request satisfies, and what its list of requests holds.
  pub record IsAccepted (minimum : Quantity) (request : Request) (x : Validated v q) : Type 0 where
    pub namespace : v.is_dns_label request.namespace ≡ true
    pub some_replicas : 1 ≤ pos_part request.replicas
    pub bounded_replicas : pos_part request.replicas ≤ max_replicas
    pub version : request.profile.version ≡ "infernex.openfuyao.io/v1alpha1"
    pub pinned : is_digest_image request.profile.image ≡ true
    pub plain : is_bad_image request.profile.image ≡ false
    pub cpu : Quantity
    pub cpu_parsed : parse request.profile.cpu ≡ some cpu
    pub cpu_minimum : less cpu minimum ≡ false
    pub cpu_request : lookup "cpu" x.requests ≡ some cpu
    pub memory : Quantity
    pub memory_parsed : parse request.profile.memory ≡ some memory
    pub memory_minimum : less memory (of_int 1) ≡ false
    pub memory_request : lookup "memory" x.requests ≡ some memory
    pub pods_request : lookup "pods" x.requests ≡ some (of_int 1)
    pub extended : All (IsCounted x.requests) request.profile.extended_resources
    pub tolerations : check_tolerations v request.profile.tolerations ≡ ok tt
    pub selector : check_selector v request.profile.node_selector ≡ ok tt

  -- The steps of an accepted request.
  record Steps (minimum : Quantity) (request : Request) (x : Validated v q) : Type 0 where
    namespace : v.is_dns_label request.namespace ≡ true
    some_replicas : 1 ≤ pos_part request.replicas
    bounded_replicas : pos_part request.replicas ≤ max_replicas
    version : request.profile.version ≡ "infernex.openfuyao.io/v1alpha1"
    pinned : is_digest_image request.profile.image ≡ true
    plain : is_bad_image request.profile.image ≡ false
    cpu : Quantity
    cpu_step : parse_cpu v q minimum request.profile.cpu ≡ ok cpu
    memory : Quantity
    memory_step : parse_memory v q request.profile.memory ≡ ok memory
    added :
        add_extended v q
          (("cpu", cpu) ∷ ("memory", memory) ∷ ("pods", of_int 1) ∷ [])
          request.profile.extended_resources
        ≡ ok x.requests
    tolerations : check_tolerations v request.profile.tolerations ≡ ok tt
    selector : check_selector v request.profile.node_selector ≡ ok tt

  validate_profile-Steps :
      (minimum : Quantity) (request : Request) (x : Validated v q)
      → validate_profile v q minimum request ≡ ok x
      → Steps minimum request x
  unfolding validate_profile
  validate_profile-Steps minimum request x h =
      let p = request.profile in
      let (_, named, h1) =
        >>=-eq-ok (reject (not (v.is_dns_label request.namespace)) bad_namespace) _ h in
      let (_, counted, h2) =
        >>=-eq-ok
          (reject
            (not (ltb_ℤ (pos 0) request.replicas) || ltb_ℤ (pos max_replicas) request.replicas)
            bad_replicas)
          _ h1 in
      let (_, versioned, h3) =
        >>=-eq-ok (reject (not (str_eq p.version "infernex.openfuyao.io/v1alpha1")) bad_version) _
          h2 in
      let (_, pinned, h4) =
        >>=-eq-ok (reject (not (is_digest_image p.image)) unpinned_image) _ h3 in
      let (_, plain, h5) = >>=-eq-ok (reject (is_bad_image p.image) bad_image) _ h4 in
      let (cpu, cpu_step, h6) = >>=-eq-ok (parse_cpu v q minimum p.cpu) _ h5 in
      let (memory, memory_step, h7) = >>=-eq-ok (parse_memory v q p.memory) _ h6 in
      let (r, added, h8) =
        >>=-eq-ok
          (add_extended v q (("cpu", cpu) ∷ ("memory", memory) ∷ ("pods", of_int 1) ∷ [])
            p.extended_resources)
          _ h7 in
      let (_, selector, h9) = >>=-eq-ok (check_selector v p.node_selector) _ h8 in
      let (_, tolerations, h10) = >>=-eq-ok (check_tolerations v p.tolerations) _ h9 in
      let (hash, hashed, h11) = >>=-eq-ok (hash_profile v q p) _ h10 in
      record {
        namespace = ground (arith, reject-eq-ok _ _ named);
        some_replicas = ground (arith, reject-eq-ok _ _ counted);
        bounded_replicas = ground (arith, reject-eq-ok _ _ counted);
        version =
            ground (
              arith,
              reject-eq-ok _ _ versioned,
              eq_iff p.version "infernex.openfuyao.io/v1alpha1",
            );
        pinned = ground (arith, reject-eq-ok _ _ pinned);
        plain = reject-eq-ok _ _ plain;
        cpu = cpu;
        cpu_step = cpu_step;
        memory = memory;
        memory_step = memory_step;
        added = ground (arith, added, h11);
        tolerations = tolerations;
        selector = selector;
      }

  -- A request that validateProfile accepts is as it should be: its namespace is a DNS label, it
  -- asks for 1 to 1,000 replicas by a pinned image, and its CPU and memory parse and reach their
  -- minimum. The list of requests has that CPU, that memory, one pod slot, and each extended
  -- resource with its count, which is positive.
  pub validate_profile-IsAccepted :
      (minimum : Quantity) (request : Request) (x : Validated v q)
      → validate_profile v q minimum request ≡ ok x
      → IsAccepted minimum request x
  unfolding parse_cpu parse_memory
  validate_profile-IsAccepted minimum request x h =
      let s = validate_profile-Steps minimum request x h in
      let base : ResourceList q = ("cpu", s.cpu) ∷ ("memory", s.memory) ∷ ("pods", of_int 1) ∷ [] in
      record {
        namespace = s.namespace;
        some_replicas = s.some_replicas;
        bounded_replicas = s.bounded_replicas;
        version = s.version;
        pinned = s.pinned;
        plain = s.plain;
        cpu = s.cpu;
        cpu_parsed = ground (arith, s.cpu_step);
        cpu_minimum = ground (arith, s.cpu_step);
        cpu_request =
            add_extended-keeps base request.profile.extended_resources x.requests "cpu"
              (unfold lookup in refl) s.added;
        memory = s.memory;
        memory_parsed = ground (arith, s.memory_step);
        memory_minimum = ground (arith, s.memory_step);
        memory_request =
            add_extended-keeps base request.profile.extended_resources x.requests "memory"
              (unfold lookup in refl) s.added;
        pods_request =
            add_extended-keeps base request.profile.extended_resources x.requests "pods"
              (unfold lookup in refl) s.added;
        extended = add_extended-IsCounted _ request.profile.extended_resources x.requests s.added;
        tolerations = s.tolerations;
        selector = s.selector;
      }

  pub validate_profile-HasUniqueKeys :
      (minimum : Quantity) (request : Request) (x : Validated v q)
      → validate_profile v q minimum request ≡ ok x
      → HasUniqueKeys x.requests
  validate_profile-HasUniqueKeys minimum request x h =
      let s = validate_profile-Steps minimum request x h in
      add_extended-HasUniqueKeys _ request.profile.extended_resources x.requests
        (base-HasUniqueKeys s.cpu s.memory (of_int 1)) s.added
