-- ===== src/Experiment/Progress/Completed.antt =====
-- What a completed plan stands for.
use mathlib.Core.Path.{subst}
use infernex_agent.Prelude.{ℕ, ◌≡◌, refl, ap, ◌∙◌, some, String, List, [], ◌∷◌, length}
use infernex_agent.Experiment.{Stage, Plan, Api}
use infernex_agent.Experiment.Machine.{State}
use infernex_agent.Experiment.Plans.{find_plan, run_plan}
use infernex_agent.Experiment.Progress.{
  Terms, terms_of, Linked, PassedFirst, stable_after, IsEarned, AllSound, IsSafe,
}
use infernex_agent.Experiment.Progress.Found.{find_plan-IsKept}
use infernex_agent.Experiment.Progress.Runs.{run_plan-IsSafe}

module _ (a : Api) where
  -- Each stage has passed, and has earned it.
  abbrev pub AllEarned : Terms → List Stage → Type 0
  AllEarned terms [] = Unit
  AllEarned terms (t ∷ stages) = (t.status ≡ "passed") × IsEarned a terms t × AllEarned terms stages

  passed-AllEarned :
      (terms : Terms) (stages : List Stage)
      → PassedFirst (length stages) stages
      → AllSound a terms stages
      → AllEarned terms stages
  passed-AllEarned terms [] passed sound = tt
  passed-AllEarned terms (t ∷ stages) passed sound =
      (passed.0, sound.0.earned passed.0, passed-AllEarned terms stages passed.1 sound.1)

-- The candidate of the last stage.
abbrev pub last_candidate : String → List Stage → String
last_candidate baseline [] = baseline
last_candidate baseline (t ∷ stages) = last_candidate t.candidate_name stages

stable_after-last :
    (baseline : String) (stages : List Stage)
    → stable_after (length stages) baseline stages ≡ last_candidate baseline stages
stable_after-last baseline [] = refl
stable_after-last baseline (t ∷ stages) = stable_after-last t.candidate_name stages

module _ (a : Api) (id : String) where
  open a use {World}

  -- If the plan of the experiment that is saved last, after a run from a log that satisfies IsSafe,
  -- is completed, each of its stages has passed, and holds a comparison without a regression, which
  -- is the comparison of two reports that the diagnoser gave one right after the other: of the
  -- service that is the candidate of the stage before, or the baseline for the first stage, and of
  -- its own candidate; it also holds a passed SLO run if the plan requires the gate; and the stable
  -- service is the last candidate.
  pub run_plan-AllEarned :
      (passes fuel : ℕ) (s : State World) (p : Plan)
      → IsSafe a id s.log
      → find_plan id (run_plan a passes fuel id s).1.log ≡ some p
      → p.status ≡ "completed"
      → AllEarned a (terms_of p) p.stages
        × Linked 0 p.baseline_name p.stages
        × (p.stable_service ≡ last_candidate p.baseline_name p.stages)
  run_plan-AllEarned passes fuel s p safe found completed =
      let (kept, _) =
        find_plan-IsKept a id (run_plan a passes fuel id s).1.log
          (run_plan-IsSafe a id passes fuel s safe) found in
      let all = kept.progressive.all_passed completed in
      (
        passed-AllEarned a (terms_of p) p.stages
            (subst (λ n. PassedFirst n p.stages) all kept.progressive.passed) kept.sound,
        kept.progressive.linked,
        kept.progressive.stable
            ∙ ap (λ n. stable_after n p.baseline_name p.stages) all
            ∙ stable_after-last p.baseline_name p.stages,
      )
