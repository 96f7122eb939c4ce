-- ===== src/Supervisor/Summary/Counted.antt =====
-- The summary of a snapshot counts what it should.
use mathlib.Core.List.{append_assoc}
use infernex_agent.Prelude.{
  sym, ℕ, ◌+◌, ◌≡◌, refl, ap, ◌∙◌, Bool, true, false, not, List, [], ◌∷◌, ◌++◌, arith, length,
  length-append, if◌then◌else◌,
}
use infernex_agent.Supervisor.Objects.{
  critical, warning, info, Issue, ServiceSnapshot, NamespaceSnapshot, Summary,
}
use infernex_agent.Supervisor.Issues.{is_critical}
use infernex_agent.Supervisor.Summary.{
  add_issue, add_issues, is_analyzed, count_service, add_service, add_services, add_namespaces,
  summarize_snapshot,
}

abbrev pub all_services : List NamespaceSnapshot → List ServiceSnapshot
all_services [] = []
all_services (n ∷ namespaces) = n.services ++ all_services namespaces

abbrev pub all_issues : List ServiceSnapshot → List Issue
all_issues [] = []
all_issues (s ∷ services) = s.issues ++ all_issues services

abbrev pub is_warning : Issue → Bool
is_warning issue = elim issue.severity [ critical ↦ false | warning ↦ true | info ↦ false ]

unfoldable pub count : {A : Type 0} → (A → Bool) → List A → ℕ
count p [] = 0
count p (x ∷ xs) = (if p x then 1 else 0) + count p xs

count-append :
    {A : Type 0} (p : A → Bool) (xs ys : List A) → count p (xs ++ ys) ≡ count p xs + count p ys
unfolding count
count-append p [] ys = omega arith
count-append p (x ∷ xs) ys = omega (arith, count-append p xs ys)

-- A summary that has counted these services and issues beyond another.
record Adds (s s' : Summary) (services : List ServiceSnapshot) (issues : List Issue) : Type 0 where
  same_namespaces : s'.namespaces ≡ s.namespaces
  services_added : s'.services ≡ s.services + length services
  ready_added : s'.ready_services ≡ s.ready_services + count (λ x. x.service.ready) services
  degraded_added :
      s'.degraded_services ≡ s.degraded_services + count (λ x. not x.service.ready) services
  analyzed_added : s'.analyzed_services ≡ s.analyzed_services + count is_analyzed services
  issues_added : s'.issues ≡ s.issues + length issues
  critical_added : s'.critical_issues ≡ s.critical_issues + count is_critical issues
  warning_added : s'.warning_issues ≡ s.warning_issues + count is_warning issues

add_issues-Adds : (s : Summary) (issues : List Issue) → Adds s (add_issues s issues) [] issues
unfolding add_issues count add_issue
add_issues-Adds s [] = record {
  same_namespaces = refl;
  services_added = omega arith;
  ready_added = omega arith;
  degraded_added = omega arith;
  analyzed_added = omega arith;
  issues_added = omega arith;
  critical_added = omega arith;
  warning_added = omega arith;
}
add_issues-Adds s (i ∷ issues) =
    let h = add_issues-Adds (add_issue s i) issues in
    record {
      same_namespaces = ground (arith, h.same_namespaces);
      services_added = ground (arith, h.services_added);
      ready_added = ground (arith, h.ready_added);
      degraded_added = ground (arith, h.degraded_added);
      analyzed_added = ground (arith, h.analyzed_added);
      issues_added = ground (arith, h.issues_added);
      critical_added = ground (arith, h.critical_added);
      warning_added = ground (arith, h.warning_added);
    }

add_service-Adds : (s : Summary) (x : ServiceSnapshot) → Adds s (add_service s x) (x ∷ []) x.issues
unfolding add_service count
add_service-Adds s x =
    let h = add_issues-Adds (count_service s x.service.ready) x.issues in
    record {
      same_namespaces = ground (arith, h.same_namespaces);
      services_added = ground (arith, h.services_added);
      ready_added = ground (arith, h.ready_added);
      degraded_added = ground (arith, h.degraded_added);
      analyzed_added = ground (arith, h.analyzed_added);
      issues_added = ground (arith, h.issues_added);
      critical_added = ground (arith, h.critical_added);
      warning_added = ground (arith, h.warning_added);
    }

Adds-then :
    (s s' s'' : Summary) (xs ys : List ServiceSnapshot) (is js : List Issue)
    → Adds s s' xs is
    → Adds s' s'' ys js
    → Adds s s'' (xs ++ ys) (is ++ js)
Adds-then s s' s'' xs ys is js h k = record {
  same_namespaces = k.same_namespaces ∙ h.same_namespaces;
  services_added = omega (arith, h.services_added, k.services_added, length-append xs ys);
  ready_added = omega (
    arith,
    h.ready_added,
    k.ready_added,
    count-append (λ (x : ServiceSnapshot). x.service.ready) xs ys,
  );
  degraded_added = omega (
    arith,
    h.degraded_added,
    k.degraded_added,
    count-append (λ (x : ServiceSnapshot). not x.service.ready) xs ys,
  );
  analyzed_added =
      omega (arith, h.analyzed_added, k.analyzed_added, count-append is_analyzed xs ys);
  issues_added = omega (arith, h.issues_added, k.issues_added, length-append is js);
  critical_added =
      omega (arith, h.critical_added, k.critical_added, count-append is_critical is js);
  warning_added = omega (arith, h.warning_added, k.warning_added, count-append is_warning is js);
}

Adds-nothing : (s : Summary) → Adds s s [] []
unfolding count
Adds-nothing s = record {
  same_namespaces = refl;
  services_added = omega arith;
  ready_added = omega arith;
  degraded_added = omega arith;
  analyzed_added = omega arith;
  issues_added = omega arith;
  critical_added = omega arith;
  warning_added = omega arith;
}

add_services-Adds :
    (s : Summary) (xs : List ServiceSnapshot) → Adds s (add_services s xs) xs (all_issues xs)
unfolding add_services
add_services-Adds s [] = Adds-nothing s
add_services-Adds s (x ∷ xs) =
    Adds-then s (add_service s x) (add_services (add_service s x) xs) (x ∷ []) xs x.issues
      (all_issues xs) (add_service-Adds s x) (add_services-Adds (add_service s x) xs)

all_issues-append :
    (xs ys : List ServiceSnapshot) → all_issues (xs ++ ys) ≡ all_issues xs ++ all_issues ys
all_issues-append [] ys = refl
all_issues-append (x ∷ xs) ys =
    ap (λ l. x.issues ++ l) (all_issues-append xs ys)
    ∙ sym (append_assoc x.issues (all_issues xs) (all_issues ys))

add_namespaces-Adds :
    (s : Summary) (ns : List NamespaceSnapshot)
    → Adds s (add_namespaces s ns) (all_services ns) (all_issues (all_services ns))
unfolding add_namespaces
add_namespaces-Adds s [] = Adds-nothing s
add_namespaces-Adds s (n ∷ ns) = rw (all_issues-append n.services (all_services ns)) (
    Adds-then s (add_services s n.services) (add_namespaces (add_services s n.services) ns)
      n.services (all_services ns) (all_issues n.services) (all_issues (all_services ns))
      (add_services-Adds s n.services) (add_namespaces-Adds (add_services s n.services) ns))

-- What the summary of these namespaces should say.
pub record Counts (summary : Summary) (namespaces : List NamespaceSnapshot) : Type 0 where
  pub namespaces_right : summary.namespaces ≡ length namespaces
  pub services_right : summary.services ≡ length (all_services namespaces)
  pub ready_right : summary.ready_services ≡ count (λ x. x.service.ready) (all_services namespaces)
  pub split : summary.ready_services + summary.degraded_services ≡ summary.services
  pub analyzed_right : summary.analyzed_services ≡ count is_analyzed (all_services namespaces)
  pub issues_right : summary.issues ≡ length (all_issues (all_services namespaces))
  pub critical_right :
      summary.critical_issues ≡ count is_critical (all_issues (all_services namespaces))
  pub warning_right :
      summary.warning_issues ≡ count is_warning (all_issues (all_services namespaces))

count-not :
    {A : Type 0} (p : A → Bool) (xs : List A) → count p xs + count (λ x. not (p x)) xs ≡ length xs
unfolding count
count-not p [] = refl
count-not p (x ∷ xs) = ground (arith, count-not p xs)

-- The summary of a snapshot counts its namespaces, services, ready services, analyzed services,
-- issues, critical issues and warnings; the ready and the degraded services are all the services.
pub summarize_snapshot-Counts :
    (namespaces : List NamespaceSnapshot) → Counts (summarize_snapshot namespaces) namespaces
unfolding summarize_snapshot
summarize_snapshot-Counts namespaces =
    let h = add_namespaces-Adds _ namespaces in
    record {
      namespaces_right = h.same_namespaces;
      services_right = omega (arith, h.services_added);
      ready_right = omega (arith, h.ready_added);
      split = omega (
        arith,
        h.services_added,
        h.ready_added,
        h.degraded_added,
        count-not (λ (x : ServiceSnapshot). x.service.ready) (all_services namespaces),
      );
      analyzed_right = omega (arith, h.analyzed_added);
      issues_right = omega (arith, h.issues_added);
      critical_right = omega (arith, h.critical_added);
      warning_right = omega (arith, h.warning_added);
    }
