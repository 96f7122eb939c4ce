-- ===== src/Supervisor/Issues/Sorted.antt =====
-- sortIssues is a stable sort: it only reorders, the severest issues come first, and issues that
-- the order does not tell apart keep their places.
use Prim.Native.String.{compare as compare_text}
use text.Mathlib.Text.{is_lt}
use infernex_agent.Prelude.Text.{compare_text-asym, text_not_lt}
use infernex_agent.Prelude.{
  sym, str_eq, eq_iff, ◌≤◌, ◌≡◌, refl, ap, ◌∙◌, Bool, true, false, ◌||◌, List, [], ◌∷◌, arith, any,
  keep, length, Bool-cases, inl, inr, if◌then◌else◌,
}
use infernex_agent.Supervisor.Objects.{Issue, Severity, critical, warning, info}
use infernex_agent.Supervisor.Issues.{
  issue_less, insert_issue, sort_issues, rank, has_critical_issue, has_incomplete_observation,
  is_critical, is_incomplete,
}

any-insert_issue :
    (p : Issue → Bool) (i : Issue) (issues : List Issue)
    → any p (insert_issue i issues) ≡ (p i || any p issues)
unfolding insert_issue any
any-insert_issue p i [] = refl
any-insert_issue p i (j ∷ issues) = ground (arith, any-insert_issue p i issues)

any-sort_issues :
    (p : Issue → Bool) (issues : List Issue) → any p (sort_issues issues) ≡ any p issues
unfolding sort_issues any
any-sort_issues p [] = refl
any-sort_issues p (i ∷ issues) =
    any-insert_issue p i (sort_issues issues) ∙ ap (λ b. p i || b) (any-sort_issues p issues)

length-keep-insert_issue :
    (p : Issue → Bool) (i : Issue) (issues : List Issue)
    → length (keep p (insert_issue i issues)) ≡ length (keep p (i ∷ issues))
unfolding insert_issue keep
length-keep-insert_issue p i [] = refl
length-keep-insert_issue p i (j ∷ issues) = ground (arith, length-keep-insert_issue p i issues)

length-keep-sort_issues :
    (p : Issue → Bool) (issues : List Issue)
    → length (keep p (sort_issues issues)) ≡ length (keep p issues)
unfolding sort_issues keep
length-keep-sort_issues p [] = refl
length-keep-sort_issues p (i ∷ issues) =
    ground
      (arith, length-keep-insert_issue p i (sort_issues issues), length-keep-sort_issues p issues)

-- Critical issues are the severest, then warnings, then the rest.
abbrev pub IsAtLeast : Severity → Severity → Type 0
IsAtLeast critical s = Unit
IsAtLeast warning critical = ⊥
IsAtLeast warning warning = Unit
IsAtLeast warning info = Unit
IsAtLeast info critical = ⊥
IsAtLeast info warning = ⊥
IsAtLeast info info = Unit

-- The first issue may stand in front of the second: it is as severe at least; between equally
-- severe ones its code does not come after the other; and with equal codes its resource does not.
pub record MayPrecede (i j : Issue) : Type 0 where
  pub as_severe : IsAtLeast i.severity j.severity
  pub by_code : i.severity ≡ j.severity → is_lt (compare_text j.code i.code) ≡ false
  pub by_resource :
      i.severity ≡ j.severity → i.code ≡ j.code → is_lt (compare_text j.resource i.resource) ≡ false

-- Each issue may stand in front of the next one.
abbrev pub IsOrdered : List Issue → Type 0
IsOrdered [] = Unit
IsOrdered (i ∷ []) = Unit
IsOrdered (i ∷ j ∷ issues) = MayPrecede i j × IsOrdered (j ∷ issues)

IsAtLeast-of_rank : (s t : Severity) → rank s ≤ rank t → IsAtLeast s t
IsAtLeast-of_rank critical t h = tt
IsAtLeast-of_rank warning critical h = omega arith
IsAtLeast-of_rank warning warning h = tt
IsAtLeast-of_rank warning info h = tt
IsAtLeast-of_rank info critical h = omega arith
IsAtLeast-of_rank info warning h = omega arith
IsAtLeast-of_rank info info h = tt

issue_less-MayPrecede : (i j : Issue) → issue_less i j ≡ true → MayPrecede i j
unfolding issue_less
issue_less-MayPrecede i j h = record {
  as_severe = IsAtLeast-of_rank i.severity j.severity (ground arith);
  by_code = λ e.
      let same = ap rank e in
      elim (Bool-cases (str_eq i.code j.code)) [
        | inl c ↦ text_not_lt j.code i.code (sym ((eq_iff i.code j.code).0 c))
        | inr c ↦ compare_text-asym i.code j.code (ground arith)
      ];
  by_resource = λ e c.
      let same = ap rank e in
      let c' = (eq_iff i.code j.code).1 c in compare_text-asym i.resource j.resource (ground arith);
}

issue_less-MayPrecede_unless : (i j : Issue) → issue_less j i ≡ false → MayPrecede i j
unfolding issue_less
issue_less-MayPrecede_unless i j h = record {
  as_severe = IsAtLeast-of_rank i.severity j.severity (ground arith);
  by_code = λ e.
      let same = ap rank e in
      elim (Bool-cases (str_eq j.code i.code)) [
        | inl c ↦ text_not_lt j.code i.code ((eq_iff j.code i.code).0 c)
        | inr c ↦ ground arith
      ];
  by_resource =
      λ e c. let same = ap rank e in let c' = (eq_iff j.code i.code).1 (sym c) in ground arith;
}

IsOrdered-under :
    (i j : Issue) (issues : List Issue)
    → MayPrecede j i
    → IsOrdered (j ∷ issues)
    → IsOrdered (insert_issue i issues)
    → IsOrdered (j ∷ insert_issue i issues)
unfolding insert_issue
IsOrdered-under i j [] l h k = (l, tt)
IsOrdered-under i j (m ∷ issues) l h k = elim (Bool-cases (issue_less m i)) [
  | inl e ↦ rw (e, if◌then◌else◌) (h.0, rw (e, if◌then◌else◌) at k)
  | inr e ↦ rw (e, if◌then◌else◌) (l, rw (e, if◌then◌else◌) at k)
]

IsOrdered-tail : (j : Issue) (issues : List Issue) → IsOrdered (j ∷ issues) → IsOrdered issues
IsOrdered-tail j [] h = tt
IsOrdered-tail j (m ∷ issues) h = h.1

insert_issue-IsOrdered :
    (i : Issue) (issues : List Issue) → IsOrdered issues → IsOrdered (insert_issue i issues)
unfolding insert_issue
insert_issue-IsOrdered i [] h = tt
insert_issue-IsOrdered i (j ∷ issues) h = elim (Bool-cases (issue_less j i)) [
  | inl e ↦
      rw (e, if◌then◌else◌)
        (IsOrdered-under i j issues (issue_less-MayPrecede j i e) h
          (insert_issue-IsOrdered i issues (IsOrdered-tail j issues h)))
  | inr e ↦ rw (e, if◌then◌else◌) (issue_less-MayPrecede_unless i j e, h)
]

sort_issues-IsOrdered : (issues : List Issue) → IsOrdered (sort_issues issues)
unfolding sort_issues
sort_issues-IsOrdered [] = tt
sort_issues-IsOrdered (i ∷ issues) =
    insert_issue-IsOrdered i (sort_issues issues) (sort_issues-IsOrdered issues)

-- A test that holds of issues only that the order does not tell apart.
abbrev pub IsLevel : (Issue → Bool) → Type 0
IsLevel p = (a b : Issue) → p a ≡ true → p b ≡ true → issue_less a b ≡ false

keep-insert_issue :
    (p : Issue → Bool) (i : Issue) (issues : List Issue)
    → IsLevel p
    → keep p (insert_issue i issues) ≡ keep p (i ∷ issues)
unfolding insert_issue keep
keep-insert_issue p i [] level = refl
keep-insert_issue p i (j ∷ issues) level =
    ground (arith, keep-insert_issue p i issues level, level j i)

keep-sort_issues :
    (p : Issue → Bool) (issues : List Issue)
    → IsLevel p
    → keep p (sort_issues issues) ≡ keep p issues
unfolding sort_issues keep
keep-sort_issues p [] level = refl
keep-sort_issues p (i ∷ issues) level =
    keep-insert_issue p i (sort_issues issues) level
    ∙ ground (arith, keep-sort_issues p issues level)

pub record IsSortOf (sorted issues : List Issue) : Type 0 where
  pub reordered : (p : Issue → Bool) → length (keep p sorted) ≡ length (keep p issues)
  pub ordered : IsOrdered sorted
  pub stable : (p : Issue → Bool) → IsLevel p → keep p sorted ≡ keep p issues

-- Sorting the issues only reorders them: as many pass any test as before. Critical issues come
-- first, then warnings, then the others; equally severe ones are in the order of their codes, and
-- those with one code in the order of their resources. Issues that sortIssues does not tell apart
-- stay in the order they had.
pub sort_issues-IsSortOf : (issues : List Issue) → IsSortOf (sort_issues issues) issues
sort_issues-IsSortOf issues = record {
  reordered = λ p. length-keep-sort_issues p issues;
  ordered = sort_issues-IsOrdered issues;
  stable = λ p level. keep-sort_issues p issues level;
}

-- The gates of recovery do not depend on the order of the issues.
pub sort_issues-has_critical_issue :
    (issues : List Issue) → has_critical_issue (sort_issues issues) ≡ has_critical_issue issues
unfolding has_critical_issue
sort_issues-has_critical_issue issues = any-sort_issues is_critical issues

pub sort_issues-has_incomplete_observation :
    (issues : List Issue)
    → has_incomplete_observation (sort_issues issues) ≡ has_incomplete_observation issues
unfolding has_incomplete_observation
sort_issues-has_incomplete_observation issues = any-sort_issues is_incomplete issues
