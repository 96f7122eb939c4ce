-- ===== src/Experiment/Progress/Gated.antt =====
-- The SLO gate: where it returns and the stage is not rolled back, the measurement has passed.
use mathlib.Core.Path.{subst}
use infernex_agent.Prelude.{
  ◌≡◌, ◌≢◌, refl, sym, false, not, Option, none, some, String, List, [], ◌∷◌, arith, str_eq, eq_iff,
  Outcome, ok, err,
}
use infernex_agent.Experiment.{
  Service, SloResult, SloProfile, SloIdentity, Stage, ReadError, ExperimentError, Api,
}
use infernex_agent.Experiment.Machine.{Act, ◌>>=◌}
use infernex_agent.Experiment.Machine.Keeps.{Keeps, Keeps-gets, Keeps-attempt}
use infernex_agent.Experiment.Machine.Yields.{
  Yields, Yields-pure, Yields-if, Yields-from, Yields-to, Yields-bind, Yields-modify, Keeps-Yields,
}
use infernex_agent.Experiment.Stages.{fail_stage}
use infernex_agent.Experiment.Candidate.{is_stable}
use infernex_agent.Experiment.Gate.{
  is_prior, parsed_hash, recheck, recheck_slo_identity, or_fail_stage, checked, after_slo_run,
  measure, unmeasured, with_snapshot, run_slo_gate,
}
use infernex_agent.Experiment.Progress.{Terms, HasPassedSlo, Compared, Measured, Stopped}
use infernex_agent.Experiment.Progress.Reads.{
  call-Keeps, check_context-Keeps, new_id-Keeps, get_service-Keeps,
  check_template_fingerprints-Keeps, check_feature_identity-Keeps, identity_or_fail-Keeps,
}
use infernex_agent.Experiment.Progress.Chain.{Open-IsSound}
use infernex_agent.Experiment.Progress.Saved.{
  Running, LogSafe, Running-LogSafe, Running-IsReadable, Running-weaken, with_stage-Running,
  save_plan-Running,
}
use infernex_agent.Experiment.Progress.Ended.{fail_stage-Yields}

abbrev pub PastGate : Api → Terms → Stage → Type 0
PastGate a terms t = t.status ≢ "rolled-back" → Measured a terms t

module _ (a : Api) (id : String) where
  open a use {World}

  abbrev GateYields : (Terms → Stage → Type 0) → Act World (Unit {0}) → Type 0
  GateYields E m = Yields (Running a id E) (λ _. Running a id (PastGate a)) (LogSafe a id) m

  module _ (E : Terms → Stage → Type 0) where
    stops : (reason : String) → GateYields E (fail_stage a reason)
    stops reason =
        Yields-to {Q' = λ _. Running a id Stopped} _
          (λ _ s h. Running-weaken a id Stopped s (λ g t stopped n. absurd (n stopped)) h)
          (fail_stage-Yields a id E reason)

    -- An action that keeps what is known.
    first :
        {A : Type 0} (m : Act World A) (f : A → Act World (Unit {0}))
        → Keeps (Running a id E) m
        → ((x : A) → GateYields E (f x))
        → GateYields E (m >>= f)
    first m f km kf = Keeps-Yields m f (Running-LogSafe a id E) km kf

    or_fail_stage-Yields :
        (reason : String) (r : Outcome ExperimentError (Unit {0})) (rest : Act World (Unit {0}))
        → GateYields E rest
        → GateYields E (or_fail_stage a reason r rest)
    unfolding or_fail_stage
    or_fail_stage-Yields reason (ok _) rest k = k
    or_fail_stage-Yields reason (err _) rest k = stops reason

    checked-Yields :
        (feature_reason template_reason : String) (baseline candidate : Service)
        (rest : Act World (Unit {0}))
        → GateYields E rest
        → GateYields E (checked a feature_reason template_reason baseline candidate rest)
    unfolding checked
    checked-Yields feature_reason template_reason baseline candidate rest k =
        first _ _ (Keeps-attempt _ (check_feature_identity-Keeps a (Running-IsReadable a id E)))
          λ feature. or_fail_stage-Yields _ feature _ (
            first _ _
              (Keeps-attempt _ (
                check_template_fingerprints-Keeps a (Running-IsReadable a id E) baseline candidate))
              λ templates. or_fail_stage-Yields _ templates rest k)

  recheck-Yields :
      (prior : SloIdentity) (rest : Act World (Unit {0})) (found : Outcome ReadError Service)
      → GateYields (Measured a) rest
      → GateYields (Measured a) (recheck a prior rest found)
  unfolding recheck
  recheck-Yields prior rest (err _) k = stops (Measured a) _
  recheck-Yields prior rest (ok current) k =
      Yields-if (not (is_prior a prior current)) _ _ (λ _. stops (Measured a) _)
        λ _. Yields-if (not (is_stable current)) _ _ (λ _. stops (Measured a) _) (λ _. k)

  recheck_slo_identity-Yields :
      (priors : List SloIdentity) → GateYields (Measured a) (recheck_slo_identity a priors)
  unfolding recheck_slo_identity
  recheck_slo_identity-Yields [] =
      Yields-pure _ (λ s h. Running-weaken a id _ s (λ g t measured. λ _. measured) h)
  recheck_slo_identity-Yields (prior ∷ priors) =
      first (Measured a) _ _ (get_service-Keeps a (Running-IsReadable a id (Measured a)) _ _)
        λ found. recheck-Yields prior _ found (recheck_slo_identity-Yields priors)

  -- The result is the one that the stage holds.
  abbrev With : SloResult → Terms → Stage → Type 0
  With result terms t = Compared a terms t × (t.slo ≡ some result)

  With-Measured :
      (result : SloResult)
      → not (str_eq result.decision "passed") ≡ false
      → (terms : Terms) (t : Stage) → With result terms t
      → Measured a terms t
  With-Measured result passed terms t h =
      let decided = (eq_iff result.decision "passed").0 (ground arith) in
      (h.0, subst HasPassedSlo (sym h.1) decided)

  after_slo_run-Yields :
      (b c : SloIdentity) (baseline candidate : Service) (result : Outcome String SloResult)
      → GateYields (Compared a) (after_slo_run a b c baseline candidate result)
  unfolding after_slo_run
  after_slo_run-Yields b c baseline candidate (err text) =
      Yields-bind {Q = λ _. Running a id (Compared a)} _ _
        (Yields-modify _
          (with_stage-Running a id (Compared a) _ (λ t. (refl, refl, refl)) (λ g t h. h)))
        λ _. stops (Compared a) _
  after_slo_run-Yields b c baseline candidate (ok result) =
      Yields-bind {Q = λ _. Running a id (With result)} _ _
        (Yields-modify _
          (with_stage-Running a id (Compared a) _ (λ t. (refl, refl, refl)) (λ g t h. (h, refl))))
        λ _.
          first (With result) _ _
            (save_plan-Running a id (With result) (λ g t h. Open-IsSound a g t h.0.0))
            λ _.
              Yields-if _ _ _ (λ _. stops (With result) _)
                λ passed.
                  Yields-from _ (λ s h. Running-weaken a id _ s (With-Measured result passed) h)
                    (checked-Yields (Measured a) _ _ _ _ _ (recheck_slo_identity-Yields _))

  measure-Yields :
      (profile : SloProfile) (baseline candidate : Service)
      → GateYields (Compared a) (measure a profile baseline candidate)
  unfolding measure
  measure-Yields profile baseline candidate =
      let reads = Running-IsReadable a id (Compared a) in
      first (Compared a) _ _ (identity_or_fail-Keeps a reads baseline) λ b.
        first (Compared a) _ _ (identity_or_fail-Keeps a reads candidate) λ c.
          first (Compared a) _ _ (new_id-Keeps a reads) λ run_id.
            Yields-bind {Q = λ _. Running a id (Compared a)} _ _
              (Yields-modify _
                (with_stage-Running a id (Compared a) _ (λ t. (refl, refl, refl)) (λ g t h. h)))
              λ _.
                first (Compared a) _ _
                  (save_plan-Running a id (Compared a) (λ g t h. Open-IsSound a g t h.0))
                  λ _. first (Compared a) _ _ (Keeps-gets _) λ s.
                    first (Compared a) _ _ (call-Keeps a reads _) λ result.
                      first (Compared a) _ _ (check_context-Keeps a reads)
                        λ _. after_slo_run-Yields b c baseline candidate result

  unmeasured-Yields :
      (profile : SloProfile) (baseline candidate : Service) (prior : Option SloResult)
      → GateYields (Compared a) (unmeasured a profile baseline candidate prior)
  unfolding unmeasured
  unmeasured-Yields profile baseline candidate (some r) =
      Yields-bind {Q = λ _. Running a id (Compared a)} _ _
        (Yields-modify _
          (with_stage-Running a id (Compared a) _ (λ t. (refl, refl, refl)) (λ g t h. h)))
        λ _. stops (Compared a) _
  unmeasured-Yields profile baseline candidate none =
      checked-Yields (Compared a) _ _ _ _ _ (measure-Yields profile baseline candidate)

  with_snapshot-Yields :
      (profile : SloProfile) (baseline candidate : Service) (json : Option String)
      → GateYields (Compared a) (with_snapshot a profile baseline candidate json)
  unfolding with_snapshot
  with_snapshot-Yields profile baseline candidate none = stops (Compared a) _
  with_snapshot-Yields profile baseline candidate (some json) =
      first (Compared a) _ _ (Keeps-gets _) λ s.
        Yields-if (not (parsed_hash a s.plan.slo_profile_sha256 (a.parse_profile json))) _ _
          (λ _. stops (Compared a) _)
          (λ _. unmeasured-Yields profile baseline candidate s.stage.slo)

  pub run_slo_gate-Yields :
      (profile : SloProfile) (baseline candidate : Service)
      → GateYields (Compared a) (run_slo_gate a profile baseline candidate)
  unfolding run_slo_gate
  run_slo_gate-Yields profile baseline candidate =
      with_snapshot-Yields profile baseline candidate profile.encoded
