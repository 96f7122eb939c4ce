-- ===== src/Diagnostics/Compared.antt =====
-- The regressions that Compare reports.
use infernex_agent.Prelude.{
  ℕ, ◌+◌, ◌<◌, ◌≤◌, ◌≡◌, refl, sym, ap, ◌∙◌, Bool, true, false, none, String, List, [], ◌∷◌, ◌⊎◌,
  inl, inr, ◌↔◌, In, is_nil, str_eq, eq_iff, ltb, ltb→lt, lt→ltb, arith, Bool-cases, if◌then◌else◌,
}
use mathlib.Core.Path.{subst}
use infernex_agent.Prelude.Sort.{sort_texts-In, In-sort_texts}
use infernex_agent.Prelude.Dict.{Dict, lookup, lookup-put, HasUniqueKeys, put-HasUniqueKeys}
use infernex_agent.Diagnostics.{
  Incident, Report, is_critical, count, increment, count_symptoms, count_incidents,
  critical_category_counts, regressions, compare,
}

-- How often a list names k.
abbrev pub named : String → List String → ℕ
named k [] = 0
named k (j ∷ names) = (if str_eq j k then 1 else 0) + named k names

-- How often the critical incidents name k, as their root category or as a symptom.
abbrev pub mentions : String → List Incident → ℕ
mentions k [] = 0
mentions k (i ∷ incidents) =
    (if is_critical i then named k (i.root_category ∷ i.symptoms) else 0) + mentions k incidents

count-increment :
    (k j : String) (d : Dict ℕ)
    → count k (increment j d) ≡ (if str_eq j k then 1 else 0) + count k d
unfolding count increment
count-increment k j d = ground (arith, lookup-put j k (count j d + 1) d, eq_iff j k)

count-count_symptoms :
    (k : String) (symptoms : List String) (d : Dict ℕ)
    → count k (count_symptoms symptoms d) ≡ named k symptoms + count k d
unfolding count_symptoms
count-count_symptoms k [] d = omega arith
count-count_symptoms k (j ∷ symptoms) d =
    let ih = count-count_symptoms k symptoms (increment j d) in
    let e = count-increment k j d in omega arith

count-count_incidents :
    (k : String) (incidents : List Incident) (d : Dict ℕ)
    → count k (count_incidents incidents d) ≡ mentions k incidents + count k d
unfolding count_incidents
count-count_incidents k [] d = omega arith
count-count_incidents k (i ∷ incidents) d = elim (Bool-cases (is_critical i)) [
  | inl e ↦
      let s = count-count_symptoms k i.symptoms (increment i.root_category d) in
      let r = count-increment k i.root_category d in
      let ih =
        count-count_incidents k incidents
          (count_symptoms i.symptoms (increment i.root_category d)) in
      rw (e, if◌then◌else◌) (omega arith)
  | inr e ↦ let ih = count-count_incidents k incidents d in rw (e, if◌then◌else◌) (omega arith)
]

count_symptoms-HasUniqueKeys :
    (symptoms : List String) (d : Dict ℕ)
    → HasUniqueKeys d
    → HasUniqueKeys (count_symptoms symptoms d)
unfolding count_symptoms increment
count_symptoms-HasUniqueKeys [] d h = h
count_symptoms-HasUniqueKeys (j ∷ symptoms) d h =
    count_symptoms-HasUniqueKeys symptoms (increment j d) (put-HasUniqueKeys j _ d h)

count_incidents-HasUniqueKeys :
    (incidents : List Incident) (d : Dict ℕ)
    → HasUniqueKeys d
    → HasUniqueKeys (count_incidents incidents d)
unfolding count_incidents increment
count_incidents-HasUniqueKeys [] d h = h
count_incidents-HasUniqueKeys (i ∷ incidents) d h =
    count_incidents-HasUniqueKeys incidents _ (elim (Bool-cases (is_critical i)) [
      | inl e ↦
          rw (e, if◌then◌else◌)
            (count_symptoms-HasUniqueKeys i.symptoms _ (put-HasUniqueKeys i.root_category _ d h))
      | inr e ↦ rw (e, if◌then◌else◌) h
    ])

count-cons :
    (k j : String) (n : ℕ) (d : Dict ℕ)
    → count k ((j, n) ∷ d) ≡ (if str_eq j k then n else count k d)
unfolding count lookup
count-cons k j n d = ground arith

count-none : (k : String) (d : Dict ℕ) → lookup k d ≡ none → count k d ≡ 0
unfolding count
count-none k d h = rw (h, count) refl

first_or_rest :
    (k j : String) (found : Bool) (rest : List String)
    → In k (if found then j ∷ rest else rest)
    → (k ≡ j) × (found ≡ true) ⊎ In k rest
first_or_rest k j true rest (inl same) = inl (same, refl)
first_or_rest k j true rest (inr m) = inr m
first_or_rest k j false rest m = inr m

In-rest :
    (k j : String) (found : Bool) (rest : List String)
    → In k rest
    → In k (if found then j ∷ rest else rest)
In-rest k j true rest m = inr m
In-rest k j false rest m = m

count-first : (k j : String) (n : ℕ) (d : Dict ℕ) → k ≡ j → count k ((j, n) ∷ d) ≡ n
count-first k j n d same =
    let e = (eq_iff j k).1 (sym same) in count-cons k j n d ∙ rw (e, if◌then◌else◌) refl

count-other :
    (k j : String) (n : ℕ) (d : Dict ℕ) → str_eq j k ≡ false → count k ((j, n) ∷ d) ≡ count k d
count-other k j n d e = count-cons k j n d ∙ rw (e, if◌then◌else◌) refl

count-nil : (k : String) → count k [] ≡ 0
unfolding count lookup
count-nil k = refl

-- The loop finds what has a higher count, where the keys are unique.
In-regressions :
    (k : String) (b d : Dict ℕ) → HasUniqueKeys d → In k (regressions b d) → count k b < count k d
unfolding regressions
In-regressions k b [] u m = elim m [ ]
In-regressions k b ((j, n) ∷ d) u m =
    elim (first_or_rest k j (ltb (count j b) n) (regressions b d) m) [
      | inl (same, more) ↦
          let first = count-first k j n d same in
          let same' = ap (λ x. count x b) same in
          let more' = ltb→lt (count j b) n more in omega arith
      | inr later ↦
          let ih = In-regressions k b d u.1 later in
          elim (Bool-cases (str_eq j k)) [
            | inl e ↦
                let missing =
                  count-none k d (subst (λ x. lookup x d ≡ none) ((eq_iff j k).0 e) u.0) in
                absurd (omega arith)
            | inr e ↦ let other = count-other k j n d e in omega arith
          ]
    ]

regressions-In : (k : String) (b d : Dict ℕ) → count k b < count k d → In k (regressions b d)
unfolding regressions
regressions-In k b [] l = absurd (let e = count-nil k in omega arith)
regressions-In k b ((j, n) ∷ d) l = elim (Bool-cases (str_eq j k)) [
  | inl e ↦
      let same = sym ((eq_iff j k).0 e) in
      let first = count-first k j n d same in
      let same' = ap (λ x. count x b) same in
      let more = lt→ltb (count j b) n (omega arith) in rw (more, if◌then◌else◌) (inl same)
  | inr e ↦
      let other = count-other k j n d e in
      In-rest k j (ltb (count j b) n) (regressions b d) (regressions-In k b d (omega arith))
]

critical_category_counts_lem :
    (k : String) (r : Report) → count k (critical_category_counts r) ≡ mentions k r.incidents
unfolding critical_category_counts
critical_category_counts_lem k r =
    let e = count-nil k in let c = count-count_incidents k r.incidents [] in omega arith

compare-In_iff :
    (k : String) (baseline candidate : Report)
    → In k (compare baseline candidate).regression_categories
      ↔ (mentions k baseline.incidents < mentions k candidate.incidents)
unfolding compare critical_category_counts
compare-In_iff k baseline candidate =
    let b = critical_category_counts_lem k baseline in
    let c = critical_category_counts_lem k candidate in
    (
      λ m.
          let more =
            In-regressions k (critical_category_counts baseline)
              (critical_category_counts candidate)
              (count_incidents-HasUniqueKeys candidate.incidents [] tt)
              (In-sort_texts k
                (regressions (critical_category_counts baseline)
                  (critical_category_counts candidate))
                m) in
          omega arith,
      λ l.
          sort_texts-In k
            (regressions (critical_category_counts baseline) (critical_category_counts candidate))
            (regressions-In k (critical_category_counts baseline)
              (critical_category_counts candidate) (omega arith)),
    )

le_or_lt : (m n : ℕ) → (m ≤ n) ⊎ (n < m)
le_or_lt m n = elim (Bool-cases (ltb n m)) [
  | inl e ↦ inr (ltb→lt n m e)
  | inr e ↦ inl (ground arith)
]

empty_or_first : (names : List String) → (is_nil names ≡ true) ⊎ ((k : String) × In k names)
empty_or_first [] = inl refl
empty_or_first (k ∷ names) = inr (k, inl refl)

not_nil : (k : String) (names : List String) → is_nil names ≡ true → In k names → ⊥
not_nil k [] h m = elim m [ ]
not_nil k (j ∷ names) h m = cc

-- A candidate is healthy exactly if the critical incidents of its report name no category, as their
-- root or as a symptom, more often than those of the baseline do; and the categories that are
-- reported as regressions are exactly those that are named more often.
pub compare-healthy_iff :
    (baseline candidate : Report)
    → (((compare baseline candidate).healthy ≡ true)
        ↔ ((k : String) → mentions k candidate.incidents ≤ mentions k baseline.incidents))
      × ((k : String)
          → In k (compare baseline candidate).regression_categories
            ↔ (mentions k baseline.incidents < mentions k candidate.incidents))
unfolding compare
compare-healthy_iff baseline candidate =
    let found = (compare baseline candidate).regression_categories in
    (
      (
        λ h k. elim (le_or_lt (mentions k candidate.incidents) (mentions k baseline.incidents)) [
          | inl l ↦ l
          | inr l ↦ absurd (not_nil k found h ((compare-In_iff k baseline candidate).1 l))
        ],
        λ all. elim (empty_or_first found) [
          | inl e ↦ e
          | inr (k, m) ↦
              absurd
                (let l = all k in let l' = (compare-In_iff k baseline candidate).0 m in omega arith)
        ],
      ),
      λ k. compare-In_iff k baseline candidate,
    )
