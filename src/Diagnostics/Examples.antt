-- ===== src/Diagnostics/Examples.antt =====
-- Two reports that are compared.
use infernex_agent.Prelude.{◌≡◌, ◌↔◌, ◌≤◌, ◌<◌, refl, true, String, [], ◌∷◌, In}
use infernex_agent.Diagnostics.{Incident, Report, compare}
use infernex_agent.Diagnostics.Compared.{mentions, compare-healthy_iff}

abbrev oom : Incident
oom = record { root_category = "oom"; severity = "critical"; symptoms = "restart" ∷ [] }

abbrev warning : Incident
warning = record { root_category = "restart"; severity = "warning"; symptoms = [] }

abbrev stable : Report
stable = record { service = record { namespace = "models"; name = "chat" }; incidents = oom ∷ [] }

abbrev changed : Report
changed = record {
  service = record { namespace = "models"; name = "trial" };
  incidents = warning ∷ oom ∷ oom ∷ [];
}

-- Both categories of the second incident are regressions, in their order.
regressed : (compare stable changed).regression_categories ≡ "oom" ∷ "restart" ∷ []
unfolding compare
regressed = refl

compare-healthy_iff_example :
    (((compare stable changed).healthy ≡ true)
      ↔ ((k : String) → mentions k changed.incidents ≤ mentions k stable.incidents))
    × ((k : String)
        → In k (compare stable changed).regression_categories
          ↔ (mentions k stable.incidents < mentions k changed.incidents))
compare-healthy_iff_example = compare-healthy_iff stable changed
