-- ===== src/Supervisor/Scan/Analyzed.antt =====
-- An analysis within a scan.
use infernex_agent.Prelude.{
  ℕ, ◌≡◌, refl, Option, String, Bool-cases, Option-cases, Outcome, inl, inr, if◌then◌else◌, is_nil,
  ltb,
}
use infernex_agent.Supervisor.Objects.{Analysis, ServiceSnapshot}
use infernex_agent.Supervisor.Recovery.{Recoverer}
use infernex_agent.Supervisor.Scan.{
  Sources, Config, AnalysisRequest, Scanning, fresh_analysis, analyze_if_needed, cached_analysis,
  analysis_request,
}

module _ (r : Recoverer) (x : Sources r) (config : Config) where
  -- An analysis changes nothing that a scan counts or evaluates.
  pub record IsAnalyzed (s : ServiceSnapshot) (t : Scanning r x config)
      (a : ServiceSnapshot × Scanning r x config) : Type 0 where
    pub analysis : Option Analysis
    pub same_service : a.0 ≡ record s { analysis = analysis }
    pub same_failures : a.1.failures ≡ t.failures
    pub same_active : a.1.active ≡ t.active
    pub same_services : a.1.services ≡ t.services

  unanalyzed : (s : ServiceSnapshot) (t : Scanning r x config) → IsAnalyzed s t (s, t)
  unanalyzed s t = record {
    analysis = s.analysis;
    same_service = refl;
    same_failures = refl;
    same_active = refl;
    same_services = refl;
  }

  fresh_analysis-IsAnalyzed :
      (n : ℕ) (analyze : AnalysisRequest → r.World → Outcome String String × r.World) (key : String)
      (s : ServiceSnapshot) (t : Scanning r x config)
      → IsAnalyzed s t (fresh_analysis r x config n analyze key s t)
  unfolding fresh_analysis
  fresh_analysis-IsAnalyzed n analyze key s t = elim (Bool-cases (ltb t.used_analyses n)) [
    | inl e ↦
        rw (fresh_analysis, e, if◌then◌else◌)
          (record {
            analysis = _;
            same_service = refl;
            same_failures = refl;
            same_active = refl;
            same_services = refl;
          })
    | inr e ↦
        rw (fresh_analysis, e, if◌then◌else◌)
          (record {
            analysis = _;
            same_service = refl;
            same_failures = refl;
            same_active = refl;
            same_services = refl;
          })
  ]

  pub analyze_if_needed-IsAnalyzed :
      (n : ℕ) (key : String) (s : ServiceSnapshot) (t : Scanning r x config)
      → IsAnalyzed s t (analyze_if_needed r x config n key s t)
  unfolding analyze_if_needed
  analyze_if_needed-IsAnalyzed n key s t = elim (Option-cases x.analyze) [
    | inl e ↦ rw (analyze_if_needed, e) (unanalyzed s t)
    | inr (analyze, e) ↦ elim (Bool-cases (is_nil s.issues)) [
      | inl b ↦ rw (analyze_if_needed, e, b, if◌then◌else◌) (unanalyzed s t)
      | inr b ↦
          elim (Option-cases
            (cached_analysis r x config t.cache key (x.fingerprint (analysis_request s)))) [
              | inl c ↦
                  rw (analyze_if_needed, e, b, if◌then◌else◌, c)
                    (fresh_analysis-IsAnalyzed n analyze key s t)
              | inr (found, c) ↦
                  rw (analyze_if_needed, e, b, if◌then◌else◌, c)
                    (record {
                      analysis = _;
                      same_service = refl;
                      same_failures = refl;
                      same_active = refl;
                      same_services = refl;
                    })
            ]
    ]
  ]
