-- ===== src/Supervisor/Summary.antt =====
-- summarizeSnapshot, and SnapshotStore of internal/supervisor/types.go.
pub mod Counted
use infernex_agent.Prelude.{
  ℕ, suc, ◌+◌, Bool, true, false, Option, none, some, String, List, [], ◌∷◌, length, if◌then◌else◌,
}
use infernex_agent.Supervisor.Objects.{
  critical, warning, info, Issue, ServiceSnapshot, NamespaceSnapshot, Summary, Analysis, complete,
  failed, deferred,
}

-- The body of the loop over the issues.
unfoldable pub add_issue : Summary → Issue → Summary
add_issue s issue = elim issue.severity [
  | critical ↦ record s { issues = s.issues + 1; critical_issues = s.critical_issues + 1 }
  | warning ↦ record s { issues = s.issues + 1; warning_issues = s.warning_issues + 1 }
  | info ↦ record s { issues = s.issues + 1 }
]

unfoldable pub add_issues : Summary → List Issue → Summary
unfolding add_issue
add_issues s [] = s
add_issues s (issue ∷ issues) = add_issues (add_issue s issue) issues

abbrev pub is_analyzed : ServiceSnapshot → Bool
is_analyzed service = elim service.analysis [
  | none ↦ false
  | some a ↦ elim a.status [ complete ↦ true | failed ↦ false | deferred ↦ false ]
]

abbrev pub count_service : Summary → Bool → Summary
count_service s true = record s { services = s.services + 1; ready_services = s.ready_services + 1 }
count_service s false = record s {
  services = s.services + 1;
  degraded_services = s.degraded_services + 1;
}

abbrev pub count_analysis : Summary → Bool → Summary
count_analysis s true = record s { analyzed_services = s.analyzed_services + 1 }
count_analysis s false = s

-- The body of the loop over the services.
unfoldable pub add_service : Summary → ServiceSnapshot → Summary
unfolding add_issues
add_service s service =
    count_analysis (add_issues (count_service s service.service.ready) service.issues)
      (is_analyzed service)

unfoldable pub add_services : Summary → List ServiceSnapshot → Summary
unfolding add_service
add_services s [] = s
add_services s (service ∷ services) = add_services (add_service s service) services

unfoldable pub add_namespaces : Summary → List NamespaceSnapshot → Summary
unfolding add_services
add_namespaces s [] = s
add_namespaces s (n ∷ namespaces) = add_namespaces (add_services s n.services) namespaces

unfoldable pub summarize_snapshot : List NamespaceSnapshot → Summary
unfolding add_namespaces
summarize_snapshot namespaces =
    add_namespaces
      (record {
        namespaces = length namespaces;
        services = 0;
        ready_services = 0;
        degraded_services = 0;
        issues = 0;
        critical_issues = 0;
        warning_issues = 0;
        analyzed_services = 0;
      })
      namespaces
