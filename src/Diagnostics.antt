-- ===== src/Diagnostics.antt =====
-- The comparison of two diagnoses, Compare of component/InferNex-Agent/internal/diagnostics.
pub mod Compared
mod Examples
use infernex_agent.Prelude.{
  ℕ, suc, ◌+◌, Bool, true, false, Option, none, some, String, List, [], ◌∷◌, str_eq, ltb, is_nil,
  if◌then◌else◌,
}
use infernex_agent.Prelude.Sort.{sort_texts}
use infernex_agent.Prelude.Dict.{Dict, lookup, put}

-- What Compare reads of an Incident and of a Report.
pub record Incident : Type 0 where
  pub root_category : String
  pub severity : String
  pub symptoms : List String

pub record ServiceReference : Type 0 where
  pub namespace : String
  pub name : String

pub record Report : Type 0 where
  pub service : ServiceReference
  pub incidents : List Incident

pub record Comparison : Type 0 where
  pub healthy : Bool
  pub baseline_critical : ℕ
  pub candidate_critical : ℕ
  pub regression_categories : List String
  pub baseline : ServiceReference
  pub candidate : ServiceReference

abbrev pub is_critical : Incident → Bool
is_critical i = str_eq i.severity "critical"

-- counts[category], and counts[category]++.
unfoldable pub count : String → Dict ℕ → ℕ
unfolding lookup
count k d = elim (lookup k d) [ none ↦ 0 | some n ↦ n ]

increment : String → Dict ℕ → Dict ℕ
unfolding count put
increment k d = put k (count k d + 1) d

count_symptoms : List String → Dict ℕ → Dict ℕ
unfolding increment
count_symptoms [] d = d
count_symptoms (k ∷ symptoms) d = count_symptoms symptoms (increment k d)

count_incidents : List Incident → Dict ℕ → Dict ℕ
unfolding count_symptoms increment
count_incidents [] d = d
count_incidents (i ∷ incidents) d =
    count_incidents incidents
      (if is_critical i then count_symptoms i.symptoms (increment i.root_category d) else d)

critical_category_counts : Report → Dict ℕ
unfolding count_incidents
critical_category_counts r = count_incidents r.incidents []

count_critical : List Incident → ℕ
count_critical [] = 0
count_critical (i ∷ incidents) =
    let rest = count_critical incidents in if is_critical i then suc rest else rest

critical_incident_count : Report → ℕ
unfolding count_critical
critical_incident_count r = count_critical r.incidents

-- The loop over the map of the candidate.
regressions : Dict ℕ → Dict ℕ → List String
unfolding count
regressions b [] = []
regressions b ((k, n) ∷ d) =
    let rest = regressions b d in if ltb (count k b) n then k ∷ rest else rest

unfoldable pub compare : Report → Report → Comparison
unfolding critical_category_counts critical_incident_count regressions sort_texts
compare baseline candidate =
    let found =
      sort_texts
        (regressions (critical_category_counts baseline) (critical_category_counts candidate)) in
    record {
      healthy = is_nil found;
      baseline_critical = critical_incident_count baseline;
      candidate_critical = critical_incident_count candidate;
      regression_categories = found;
      baseline = baseline.service;
      candidate = candidate.service;
    }
