-- ===== src/Experiment/Progress/Runs.antt =====
-- A run of a plan.
use mathlib.Core.Path.{subst}
use infernex_agent.Prelude.{
  ℕ, zero, suc, ◌≤◌, leb, ◌≡◌, ◌≢◌, refl, sym, ap, ◌∙◌, Bool, true, false, ◌||◌, Option, none, some,
  String, length, leb→le, arith, str_eq, eq_iff, if◌then◌else◌,
}
use infernex_agent.Experiment.{Stage, Plan, Api}
use infernex_agent.Experiment.Machine.{
  State, Act, pure, fail, gets, call, ◌>>=◌, ◌>>◌, with_plan, set, save_plan, check_context,
}
use infernex_agent.Experiment.Machine.Keeps.{
  Moves, Keeps, Keeps-pure, Keeps-fail, Keeps-gets, Keeps-bind, Moves-if, Moves-modify,
  Moves-before, Moves-then, keeps_rules,
}
use infernex_agent.Experiment.Plans.{
  find_plan, get_elem?, hold_plan, hold_stage, after_load, load_plan, resume_if_planned,
  run_current, advance, pass, run_plan,
}
use infernex_agent.Experiment.Progress.{IsKept, IsSafe, IsHolding, IsProgressive, IsSound}
use infernex_agent.Experiment.Progress.Chain.{set-length_eq, set-AllSound, texts_differ}
use infernex_agent.Experiment.Progress.Found.{
  find_plan-IsKept, set-get_elem?, get_elem?-index, get_elem?-IsSound, PassedFirst-le,
}
use infernex_agent.Experiment.Progress.Saved.{
  Running, Holding, LogSafe, Savable, Running-LogSafe, with_plan-Holding, save_plan-Holding,
  save_plan-LogSafe,
}
use infernex_agent.Experiment.Progress.Attempts.{run_stage-Moves}

module _ (a : Api) (id : String) where
  open a use {World}

  -- The stage to be held is the current one.
  abbrev Facing : ℕ → Option Stage → State World → Type 0
  Facing i t s = IsHolding a id s × (s.plan.current_stage ≡ i) × (get_elem? s.plan.stages i ≡ t)

  hold_stage-Moves :
      (i : ℕ) (t : Stage) → Moves (Facing i (some t)) (Running a id (IsSound a)) (hold_stage a i t)
  unfolding hold_stage
  hold_stage-Moves i t = Moves-modify _ λ s h.
      let (same, below) = set-get_elem? s.plan.stages i h.2 in
      let place =
        get_elem?-index 0 s.plan.baseline_name s.plan.stages i h.0.progressive.linked h.2 in
      record {
        safe = h.0.safe;
        same_id = h.0.same_id;
        progressive =
            subst (λ stages. IsProgressive (record s.plan { stages = stages })) (sym same)
              h.0.progressive;
        unfinished = h.0.unfinished;
        current = h.1;
        placed = omega arith;
        in_range = below;
        others = set-AllSound a _ s.plan.stages i h.0.sound;
        held = get_elem?-IsSound a _ s.plan.stages i h.0.sound h.2;
      }

  Facing-LogSafe : (i : ℕ) (t : Option Stage) (s : State World) → Facing i t s → LogSafe a id s
  Facing-LogSafe i t s h = h.0.safe

  run_current-Moves :
      (fuel i : ℕ) (t : Option Stage) → Moves (Facing i t) (LogSafe a id) (run_current a fuel i t)
  unfolding run_current fail
  run_current-Moves fuel i none = record { at = λ s h. h.0.safe }
  run_current-Moves fuel i (some t) =
      Moves-then _ _ (Running-LogSafe a id (IsSound a)) (hold_stage-Moves i t)
        λ _. Moves-before _ _ (run_stage-Moves a id fuel) (λ _. Keeps-pure _)

  -- The stages are exhausted.
  abbrev Exhausted : State World → Type 0
  Exhausted s = IsHolding a id s × (length s.plan.stages ≤ s.plan.current_stage)

  complete-Savable :
      (message : String) (s : State World)
      → Exhausted s
      → Savable a id (record s { plan = record s.plan { status = "completed"; message = message } })
  complete-Savable message s (h, past) =
      let below = PassedFirst-le s.plan.current_stage s.plan.stages h.progressive.passed in
      let same =
        ap (λ i. set s.plan.stages i s.stage) h.no_stage ∙ set-length_eq s.plan.stages s.stage in
      (
        subst
            (λ stages.
              IsKept a (record s.plan { status = "completed"; message = message; stages = stages }))
            (sym same)
            (record {
              progressive = record {
                linked = h.progressive.linked;
                passed = h.progressive.passed;
                stable = h.progressive.stable;
                all_passed = λ _. omega arith;
              };
              sound = h.sound;
            }),
        h.safe,
      )

  complete-Moves :
      (message : String)
      → Moves Exhausted (LogSafe a id) (
          with_plan (λ p. record p { status = "completed"; message = message })
          >> save_plan a
          >> pure false)
  complete-Moves message =
      Moves-before _ _
        (Moves-then _ _ (λ s h. h.1) (Moves-modify _ (complete-Savable message))
          (λ _. save_plan-LogSafe a id))
        λ _. Keeps-pure _

  advance_branch :
      (fuel : ℕ) (s : State World) (done : Bool) (message : String)
      → leb (length s.plan.stages) s.plan.current_stage ≡ done
      → IsHolding a id s
      → LogSafe a id
          ((if done
              then (with_plan (λ p. record p { status = "completed"; message = message })
                  >> save_plan a
                  >> pure false)
              else run_current a fuel s.plan.current_stage
                  (get_elem? s.plan.stages s.plan.current_stage))
            s).1
  advance_branch fuel s true message e h =
      (complete-Moves message).at s (h, leb→le (length s.plan.stages) s.plan.current_stage e)
  advance_branch fuel s false message e h =
      (run_current-Moves fuel s.plan.current_stage
          (get_elem? s.plan.stages s.plan.current_stage)).at
        s (h, refl, refl)

  advance-Moves : (fuel : ℕ) → Moves (Holding a id) (LogSafe a id) (advance a fuel)
  unfolding advance gets ◌>>=◌
  advance-Moves fuel = record { at = λ s h. advance_branch fuel s _ _ refl h }

  resume_if_planned-Holding : Keeps (Holding a id) (resume_if_planned a)
  unfolding resume_if_planned
  resume_if_planned-Holding = Keeps-bind _ _ (Keeps-gets _) λ p.
      Moves-if _ _ _
        (Keeps-bind _ _
          (with_plan-Holding a id (λ _. "running") (λ _. "resumed experiment after Agent restart")
            (λ q. q.updated_at) (λ q h. texts_differ "running" "completed" refl))
          λ _. save_plan-Holding a id)
        (Keeps-pure _)

  hold_plan-Moves :
      (p : Plan)
      → IsKept a p
      → p.id ≡ id
      → p.status ≢ "completed"
      → Moves (LogSafe a id) (Holding a id) (hold_plan a p)
  unfolding hold_plan
  hold_plan-Moves p kept same open_still = Moves-modify _ λ s h. record {
    safe = h;
    same_id = same;
    progressive = kept.progressive;
    sound = kept.sound;
    unfinished = open_still;
    no_stage = refl;
  }

  pass_branch :
      (fuel : ℕ) (p : Plan) (stop : Bool)
      → str_eq p.status "completed" || str_eq p.status "failed" ≡ stop
      → IsKept a p
      → p.id ≡ id
      → Keeps
          (LogSafe a id)
          (if stop then pure false else (hold_plan a p >> resume_if_planned a >> advance a fuel))
  pass_branch fuel p true e kept same = Keeps-pure _
  pass_branch fuel p false e kept same =
      let open_still : p.status ≢ "completed" =
        λ c. (let c' = (eq_iff p.status "completed").1 c in ground arith) in
      Moves-then _ _ (λ s h. h.safe)
        (Moves-then _ _ (λ s h. h) (hold_plan-Moves p kept same open_still)
          (λ _. resume_if_planned-Holding))
        λ _. advance-Moves fuel

  after_load-at :
      {A : Type 0} (loaded : Bool) (found : Option Plan) (f : Plan → Act World A) (s : State World)
      → ((p : Plan) → found ≡ some p → Keeps (LogSafe a id) (f p))
      → LogSafe a id s
      → LogSafe a id ((after_load a loaded found >>= f) s).1
  unfolding after_load ◌>>=◌ pure fail
  after_load-at true (some p) f s k h = (k p refl).at s h
  after_load-at true none f s k h = h
  after_load-at false found f s k h = h

  load_plan-LogSafe :
      {A : Type 0} (f : Plan → Act World A)
      → ((p : Plan) → IsKept a p → p.id ≡ id → Keeps (LogSafe a id) (f p))
      → Keeps (LogSafe a id) (load_plan a id >>= f)
  unfolding load_plan ◌>>=◌ call gets
  load_plan-LogSafe f k = record {
    at = λ s h.
        after_load-at _ (find_plan id s.log) f _
          (λ p e. let (kept, same) = find_plan-IsKept a id s.log h e in k p kept same) h;
  }

  check_context-LogSafe : Keeps (LogSafe a id) (check_context a)
  unfolding check_context
  check_context-LogSafe = search keeps_rules

  pass-LogSafe : (fuel : ℕ) → Keeps (LogSafe a id) (pass a fuel id)
  unfolding pass
  pass-LogSafe fuel =
      Keeps-bind _ _ check_context-LogSafe
        λ _. load_plan-LogSafe _ (λ p kept same. pass_branch fuel p _ refl kept same)

  more-LogSafe :
      (rest : Act World (Unit {0})) (more : Bool)
      → Keeps (LogSafe a id) rest
      → Keeps (LogSafe a id) (elim more [ true ↦ rest | false ↦ pure tt ])
  more-LogSafe rest true k = k
  more-LogSafe rest false k = Keeps-pure _

  run_plan-LogSafe : (passes fuel : ℕ) → Keeps (LogSafe a id) (run_plan a passes fuel id)
  unfolding run_plan
  run_plan-LogSafe zero fuel = Keeps-fail _
  run_plan-LogSafe (suc passes) fuel =
      Keeps-bind _ _ (pass-LogSafe fuel)
        (λ more. more-LogSafe _ more (run_plan-LogSafe passes fuel))

  -- In a run of a plan, from a log that satisfies this, and however the cluster, the stores, the
  -- diagnoser and the SLO runner answer and the run ends: every plan that is saved is a chain of
  -- stages in which the stages before the current one have passed and the stable service is the
  -- candidate of the last of them, or the baseline; it is completed only with all stages; each
  -- stage that has passed holds a comparison without a regression, made of reports that the
  -- diagnoser gave of its two services, and the result "passed" of its SLO run if the plan requires
  -- the gate; each stage with a regression is rolled back; a service
  -- is deleted only right after it was read with the labels of this experiment; and one is created
  -- only with these labels, right after a read did not find its name.
  pub run_plan-IsSafe :
      (passes fuel : ℕ) (s : State World)
      → IsSafe a id s.log
      → IsSafe a id (run_plan a passes fuel id s).1.log
  run_plan-IsSafe passes fuel s h = (run_plan-LogSafe passes fuel).at s h
