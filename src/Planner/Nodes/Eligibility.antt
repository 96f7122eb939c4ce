-- ===== src/Planner/Nodes/Eligibility.antt =====
-- A node is eligible exactly where the rules of Kubernetes scheduling allow a replica on it.
use mathlib.Core.Path.{subst}
use infernex_agent.Prelude.{
  ◌≡◌, ◌↔◌, ◌⊎◌, inl, inr, refl, sym, Bool, true, false, String, List, [], ◌∷◌, All, In, any,
  any-In, In-any, arith, str_eq, eq_iff, Bool-cases, some, none, ap, Option, if◌then◌else◌, not,
  ◌&&◌, ◌||◌,
}
use infernex_agent.Prelude.Dict.{Dict, lookup}
use infernex_agent.Planner.Objects.{Taint, Toleration, Node, Profile}
use infernex_agent.Planner.Nodes.{
  operator_of, ready_condition, tolerates, taint_tolerated, selector_matches, taints_allow,
  node_eligible, is_hard,
}

-- The documented meaning of a toleration; an empty effect means every effect, and an empty
-- operator means Equal.
pub data Tolerated (taint : Taint) (t : Toleration) : Type 0 where
  by_existence :
      (t.effect ≡ "") ⊎ (t.effect ≡ taint.effect)
      → t.operator ≡ "Exists"
      → (t.key ≡ "") ⊎ (t.key ≡ taint.key)
      → Tolerated taint t
  by_value :
      (t.effect ≡ "") ⊎ (t.effect ≡ taint.effect)
      → (t.operator ≡ "") ⊎ (t.operator ≡ "Equal")
      → t.key ≡ taint.key
      → t.value ≡ taint.value
      → Tolerated taint t

-- The default operator is Equal.
operator-exists : (t : Toleration) → str_eq (operator_of t) "Exists" ≡ str_eq t.operator "Exists"
operator-exists t = elim (Bool-cases (str_eq t.operator "")) [
  | inl e ↦
      let empty : t.operator ≡ "" = (eq_iff t.operator "").0 e in
      subst
        (λ (o : String). str_eq (if str_eq o "" then "Equal" else o) "Exists" ≡ str_eq o "Exists")
        (sym empty) refl
  | inr e ↦ rw (e, if◌then◌else◌) refl
]

operator-equal :
    (t : Toleration)
    → str_eq (operator_of t) "Equal" ≡ (str_eq t.operator "" || str_eq t.operator "Equal")
operator-equal t = elim (Bool-cases (str_eq t.operator "")) [
  | inl e ↦ rw (e, if◌then◌else◌) refl
  | inr e ↦ rw (e, if◌then◌else◌) refl
]

-- `tolerates` by the tests on the fields.
tolerates_by_fields : Taint → Toleration → Bool
tolerates_by_fields taint t =
    if not (str_eq t.effect "") && not (str_eq t.effect taint.effect)
    then false
    else if str_eq t.operator "Exists"
    then str_eq t.key "" || str_eq t.key taint.key
    else if str_eq t.operator "" || str_eq t.operator "Equal"
    then str_eq t.key taint.key && str_eq t.value taint.value
    else false

tolerates-fields :
    (taint : Taint) (t : Toleration) → tolerates taint t ≡ tolerates_by_fields taint t
unfolding tolerates tolerates_by_fields
tolerates-fields taint t = rw (operator-exists t, operator-equal t) refl

-- The comparisons of texts that decide a toleration.
effect_tests :
    (taint : Taint) (t : Toleration)
    → (not (str_eq t.effect "") && not (str_eq t.effect taint.effect) ≡ false)
      ↔ ((t.effect ≡ "") ⊎ (t.effect ≡ taint.effect))
effect_tests taint t = (
  λ h. ground (arith, eq_iff t.effect "", eq_iff t.effect taint.effect),
  λ h. ground (arith, eq_iff t.effect "", eq_iff t.effect taint.effect),
)

key_tests :
    (taint : Taint) (t : Toleration)
    → (str_eq t.key "" || str_eq t.key taint.key ≡ true) ↔ ((t.key ≡ "") ⊎ (t.key ≡ taint.key))
key_tests taint t = (
  λ h. ground (arith, eq_iff t.key "", eq_iff t.key taint.key),
  λ h. ground (arith, eq_iff t.key "", eq_iff t.key taint.key),
)

tolerates_of : (taint : Taint) (t : Toleration) → Tolerated taint t → tolerates taint t ≡ true
unfolding tolerates_by_fields
tolerates_of taint t (by_existence e o k) = ground (
  tolerates-fields taint t,
  arith,
  (effect_tests taint t).1 e,
  (key_tests taint t).1 k,
  eq_iff t.operator "",
  eq_iff t.operator "Exists",
  eq_iff "Exists" "",
)
tolerates_of taint t (by_value e o k v) = ground (
  tolerates-fields taint t,
  arith,
  (effect_tests taint t).1 e,
  eq_iff t.operator "",
  eq_iff t.operator "Equal",
  eq_iff t.operator "Exists",
  eq_iff "Equal" "Exists",
  eq_iff "Equal" "",
  eq_iff t.key taint.key,
  eq_iff t.value taint.value,
)

tolerates-parts :
    (taint : Taint) (t : Toleration)
    → tolerates taint t ≡ true
    → ((t.operator ≡ "Exists") × ((t.key ≡ "") ⊎ (t.key ≡ taint.key)))
      ⊎ (((t.operator ≡ "") ⊎ (t.operator ≡ "Equal"))
          × (t.key ≡ taint.key)
          × (t.value ≡ taint.value))
unfolding tolerates_by_fields
tolerates-parts taint t h = ground (
  tolerates-fields taint t,
  arith,
  eq_iff t.operator "",
  eq_iff t.operator "Exists",
  eq_iff t.operator "Equal",
  eq_iff "Exists" "",
  eq_iff t.key "",
  eq_iff t.key taint.key,
  eq_iff t.value taint.value,
)

tolerates-effect :
    (taint : Taint) (t : Toleration)
    → tolerates taint t ≡ true
    → (t.effect ≡ "") ⊎ (t.effect ≡ taint.effect)
unfolding tolerates
tolerates-effect taint t h = (effect_tests taint t).0 (ground arith)

Tolerated-of : (taint : Taint) (t : Toleration) → tolerates taint t ≡ true → Tolerated taint t
Tolerated-of taint t h = elim (tolerates-parts taint t h) [
  | inl (o, k) ↦ by_existence (tolerates-effect taint t h) o k
  | inr (o, k, v) ↦ by_value (tolerates-effect taint t h) o k v
]

-- A taint of a hard effect is met by some toleration of the profile.
abbrev pub IsMet : List Toleration → Taint → Type 0
IsMet tolerations taint =
    is_hard taint ≡ true → (t : Toleration) × In t tolerations × Tolerated taint t

abbrev pub HasLabel : Dict String → String × String → Type 0
HasLabel labels (key, value) = lookup key labels ≡ some value

pub record Eligible {Q : Type 0} (node : Node Q) (profile : Profile) : Type 0 where
  pub schedulable : node.unschedulable ≡ false
  pub ready : ready_condition node.conditions ≡ true
  pub labelled : All (HasLabel node.labels) profile.node_selector
  pub tolerated : All (IsMet profile.tolerations) node.taints

selector_iff :
    (selector labels : Dict String)
    → (selector_matches selector labels ≡ true) ↔ All (HasLabel labels) selector
unfolding selector_matches
selector_iff [] labels = (λ h. tt, λ h. refl)
selector_iff ((key, value) ∷ selector) labels =
    let ih = selector_iff selector labels in
    (
      λ h. (first (lookup key labels) (ground arith), ih.0 (ground arith)),
      λ h. ground (arith, ih.1 h.1, h.0, eq_iff value value),
    )
  where
    first :
        (found : Option String)
        → (elim found [ none ↦ false | some actual ↦ str_eq actual value ]) ≡ true
        → found ≡ some value
    first none h = cc
    first (some actual) h = ap some ((eq_iff actual value).0 h)

taints_iff :
    (taints : List Taint) (tolerations : List Toleration)
    → (taints_allow taints tolerations ≡ true) ↔ All (IsMet tolerations) taints
unfolding taints_allow taint_tolerated
taints_iff [] tolerations = (λ h. tt, λ h. refl)
taints_iff (taint ∷ taints) tolerations =
    let ih = taints_iff taints tolerations in
    (
      λ h. (
        λ hard.
            let (t, m, e) = any-In (tolerates taint) tolerations (ground arith) in
            (t, m, Tolerated-of taint t e),
        ih.0 (ground arith),
      ),
      λ h. ground (arith, ih.1 h.1, met h.0),
    )
  where
    met :
        IsMet tolerations taint → (not (is_hard taint) || any (tolerates taint) tolerations) ≡ true
    met f = elim (Bool-cases (is_hard taint)) [
      | inl hard ↦
          let (t, m, s) = f hard in
          ground (arith, In-any (tolerates taint) t tolerations m (tolerates_of taint t s))
      | inr soft ↦ rw soft refl
    ]

-- A node may take a replica exactly where it is schedulable and ready, has every label that the
-- profile selects, and each of its NoSchedule and NoExecute taints is met by a toleration of the
-- profile in the documented sense.
pub node_eligible_iff :
    {Q : Type 0} (node : Node Q) (profile : Profile)
    → (node_eligible node profile ≡ true) ↔ Eligible node profile
unfolding node_eligible
node_eligible_iff node profile =
    let s = selector_iff profile.node_selector node.labels in
    let t = taints_iff node.taints profile.tolerations in
    (
      λ h. record {
        schedulable = ground arith;
        ready = ground arith;
        labelled = s.0 (ground arith);
        tolerated = t.0 (ground arith);
      },
      λ e. ground (arith, e.schedulable, e.ready, s.1 e.labelled, t.1 e.tolerated),
    )
