-- ===== src/Planner/Validate.antt =====
-- validateProfile and isDigestImage. The validation functions of k8s.io/apimachinery and the
-- hash of the profile are parameters.
pub mod Accepted
use Prim.Native.String.{len, slice}
use text.Mathlib.Text.{find?}
use infernex_agent.Prelude.{
  ℕ, ◌+◌, Bool, true, false, not, ◌&&◌, ◌||◌, Option, none, some, String, List, [], ◌∷◌, ◌++◌,
  str_eq, is_nil, any, all, leb, ltb, ◌==◌, if◌then◌else◌, Outcome, ok, err, reject, ◌>>=◌, ◌>>◌,
}
use infernex_agent.Prelude.Text.{codes, trim_space, has_prefix, contains}
use infernex_agent.Prelude.Dict.{Dict, lookup, put, member}
use infernex_agent.Prelude.Int.{ℤ, pos, negsuc, ltb_ℤ, pos_part}
use infernex_agent.Planner.Quantity.{QuantityApi}
use infernex_agent.Planner.Resources.{ResourceList}
use infernex_agent.Planner.Objects.{Toleration, Profile, Request}
use infernex_agent.Planner.Nodes.{operator_of}

pub record Validation : Type 0 where
  pub is_dns_label : String → Bool  -- len(validation.IsDNS1123Label(s)) == 0
  pub is_qualified_name : String → Bool  -- len(validation.IsQualifiedName(s)) == 0
  pub is_label_value : String → Bool  -- len(validation.IsValidLabelValue(s)) == 0
  pub profile_hash : Profile → Option String  -- hashJSON of the profile

pub data ProfileError : Type 0 where
  bad_namespace bad_replicas bad_version unpinned_image bad_image bad_cpu bad_memory : ProfileError
  non_positive_count unqualified_resource duplicate_resource : String → ProfileError
  bad_selector_key bad_selector_value : String → ProfileError
  bad_operator equal_without_key bad_toleration_key bad_toleration_value : ProfileError
  exists_with_value bad_effect bad_seconds hash_failed : ProfileError

abbrev pub max_replicas : ℕ
max_replicas = 1_000

is_lower_hex : ℕ → Bool
is_lower_hex c = leb b'0' c && leb c b'9' || leb b'a' c && leb c b'f'

-- strings.Split(image, "@sha256:") has two parts just where the separator stands once.
unfoldable pub is_digest_image : String → Bool
unfolding is_lower_hex all trim_space
is_digest_image image = elim (find? image "@sha256:") [
  | none ↦ false
  | some i ↦
      let digest = slice image (i + 8) (len image) in
      not (contains digest "@sha256:")
      && not (str_eq (trim_space (slice image 0 i)) "")
      && len digest == 64
      && all is_lower_hex (codes digest)
]

contains_any : String → List ℕ → Bool
unfolding any
contains_any s chars = any (λ c. any (λ d. c == d) chars) (codes s)

-- strings.ContainsAny(image, " \t\r\n"), strings.Contains(image, "://"), strings.HasPrefix(image, "/")
unfoldable pub is_bad_image : String → Bool
unfolding contains_any
is_bad_image image =
    contains_any image (32 ∷ 9 ∷ 13 ∷ 10 ∷ []) || contains image "://" || has_prefix image "/"

module _ (v : Validation) where
  abbrev is_known_effect : String → Bool
  is_known_effect effect =
      str_eq effect ""
      || str_eq effect "NoSchedule"
      || str_eq effect "PreferNoSchedule"
      || str_eq effect "NoExecute"

  abbrev has_bad_seconds : Toleration → Bool
  has_bad_seconds t = elim t.seconds [
    | none ↦ false
    | some s ↦ not (str_eq t.effect "NoExecute") || ltb_ℤ s (pos 0)
  ]

  unfoldable pub check_toleration : Toleration → Outcome ProfileError (Unit {0})
  check_toleration t = do
    let operator = operator_of t
    reject (not (str_eq operator "Equal") && not (str_eq operator "Exists")) bad_operator
    reject (str_eq operator "Equal" && str_eq t.key "") equal_without_key
    reject (not (str_eq t.key "") && not (v.is_qualified_name t.key)) bad_toleration_key
    reject (not (v.is_label_value t.value)) bad_toleration_value
    reject (str_eq operator "Exists" && not (str_eq t.value "")) exists_with_value
    reject (not (is_known_effect t.effect)) bad_effect
    reject (has_bad_seconds t) bad_seconds

  unfoldable pub check_tolerations : List Toleration → Outcome ProfileError (Unit {0})
  unfolding check_toleration
  check_tolerations [] = ok tt
  check_tolerations (t ∷ tolerations) = check_toleration t >> check_tolerations tolerations

  unfoldable pub check_selector : Dict String → Outcome ProfileError (Unit {0})
  check_selector [] = ok tt
  check_selector ((key, value) ∷ selector) = do
    reject (not (v.is_qualified_name key)) (bad_selector_key key)
    reject (not (v.is_label_value value)) (bad_selector_value key)
    check_selector selector

abbrev unsupported_if : Bool → String → List String
unsupported_if true reason = reason ∷ []
unsupported_if false reason = []

abbrev is_finite : Toleration → Bool
is_finite t = elim t.seconds [ none ↦ false | some s ↦ true ]

-- The constraints that this planner refuses, each with its reason.
unfoldable pub unsupported_profile : Profile → List String
unfolding any
unsupported_profile p =
    unsupported_if (not (is_nil p.persistent_volume_claims))
      "persistent volume claims are not supported by this planner version"
    ++ (unsupported_if p.has_affinity
          "pod affinity and anti-affinity are not supported by this planner version"
        ++ (unsupported_if (not (is_nil p.resource_claims))
              "dynamic resource allocation claims are not supported by this planner version"
            ++ (unsupported_if p.has_pod_resources
                  "pod-level resources are not supported by this planner version"
                ++ unsupported_if (any is_finite p.tolerations)
                    "finite NoExecute tolerations need a time horizon that this planner version does not model")))

module _ (v : Validation) (q : QuantityApi) where
  open q use {Quantity, of_int, parse, less, round_milli}

  abbrev differ : Quantity → Quantity → Bool
  differ a b = less a b || less b a

  -- `minimum` is resource.MustParse("1m").
  unfoldable pub parse_cpu : Quantity → String → Outcome ProfileError Quantity
  parse_cpu minimum text = elim (parse text) [
    | none ↦ err bad_cpu
    | some cpu ↦ if less cpu minimum || differ cpu (round_milli cpu) then err bad_cpu else ok cpu
  ]

  -- resource.MustParse("1") is NewQuantity(1).
  unfoldable pub parse_memory : String → Outcome ProfileError Quantity
  parse_memory text = elim (parse text) [
    | none ↦ err bad_memory
    | some memory ↦ if less memory (of_int 1) then err bad_memory else ok memory
  ]

  unfoldable pub add_extended : ResourceList q → Dict ℤ → Outcome ProfileError (ResourceList q)
  unfolding member put
  add_extended requests [] = ok requests
  add_extended requests ((name, count) ∷ extended) = do
    reject (not (ltb_ℤ (pos 0) count)) (non_positive_count name)
    reject
        (not (contains name "/") || has_prefix name "requests." || not (v.is_qualified_name name))
        (unqualified_resource name)
    reject (member name requests) (duplicate_resource name)
    add_extended (put name (of_int (pos_part count)) requests) extended

  pub record Validated : Type 0 where
    pub requests : ResourceList q
    pub profile_hash : String
    pub unsupported : List String

  unfoldable pub hash_profile : Profile → Outcome ProfileError String
  hash_profile p = elim (v.profile_hash p) [ none ↦ err hash_failed | some h ↦ ok h ]

  unfoldable pub validate_profile : Quantity → Request → Outcome ProfileError Validated
  validate_profile minimum_cpu request = do
    let p = request.profile
    reject (not (v.is_dns_label request.namespace)) bad_namespace
    reject (not (ltb_ℤ (pos 0) request.replicas) || ltb_ℤ (pos max_replicas) request.replicas)
        bad_replicas
    reject (not (str_eq p.version "infernex.openfuyao.io/v1alpha1")) bad_version
    reject (not (is_digest_image p.image)) unpinned_image
    reject (is_bad_image p.image) bad_image
    cpu ← parse_cpu minimum_cpu p.cpu
    memory ← parse_memory p.memory
    requests ←
        add_extended (("cpu", cpu) ∷ ("memory", memory) ∷ ("pods", of_int 1) ∷ [])
          p.extended_resources
    check_selector v p.node_selector
    check_tolerations v p.tolerations
    hash ← hash_profile p
    ok (record { requests = requests; profile_hash = hash; unsupported = unsupported_profile p })
