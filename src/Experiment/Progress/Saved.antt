-- ===== src/Experiment/Progress/Saved.antt =====
-- The changes of a plan and of its stage, and savePlan.
use mathlib.Core.Path.{subst}
use infernex_agent.Prelude.{ℕ, ◌≢◌, sym, ap, ◌∙◌, String, List, arith}
use infernex_agent.Experiment.{Stage, Plan, not_saved, Api}
use infernex_agent.Experiment.Machine.{
  Event, State, with_plan, set, committed, read_time, append_plan, save_plan,
}
use infernex_agent.Experiment.Machine.Keeps.{
  Moves, Keeps, Keeps-fail, Keeps-bind, Moves-if, Moves-bind, Moves-gets, Moves-modify,
}
use infernex_agent.Experiment.Progress.{
  Terms, terms_of, IsKept, IsSound, IsSafe, IsRunning, IsHolding,
}
use infernex_agent.Experiment.Progress.Reads.{IsReadable, call-Keeps}
use infernex_agent.Experiment.Progress.Chain.{
  SameLinks, set-Linked, set-PassedFirst, set-stable_after, set-length_eq,
}

-- A change of what does not belong to the chain.
abbrev pub retouched : (Plan → String) → (Plan → String) → (Plan → ℕ) → Plan → Plan
retouched status message time p = record p {
  status = status p;
  message = message p;
  updated_at = time p;
}

module _ (a : Api) (id : String) where
  open a use {World}

  abbrev pub Holding : State World → Type 0
  Holding s = IsHolding a id s

  abbrev pub LogSafe : State World → Type 0
  LogSafe s = IsSafe a id s.log

  -- What savePlan writes may be written.
  abbrev pub Savable : State World → Type 0
  Savable s = IsKept a (committed s) × IsSafe a id s.log

  abbrev pub Running : (E : Terms → Stage → Type 0) → State World → Type 0
  Running E s = IsRunning a E id s

  module _ (E : Terms → Stage → Type 0) where
    pub Running-LogSafe : (s : State World) → Running E s → LogSafe s
    Running-LogSafe s h = h.safe

    -- Only the world and the log change.
    pub Running-moved :
        (s : State World) (w : World) (log : List Event)
        → Running E s
        → IsSafe a id log
        → Running E (record s { world = w; log = log })
    Running-moved s w log h safe = record {
      safe = safe;
      same_id = h.same_id;
      progressive = h.progressive;
      unfinished = h.unfinished;
      current = h.current;
      placed = h.placed;
      in_range = h.in_range;
      others = h.others;
      held = h.held;
    }

    pub Running-IsReadable : IsReadable (Running E)
    Running-IsReadable = record {
      on_world = λ s w h. Running-moved s w s.log h h.safe;
      on_read = λ s namespace name found h. Running-moved s s.world _ h h.safe;
    }

    -- Something else is known of the held stage.
    pub Running-known :
        {F : Terms → Stage → Type 0} (s : State World)
        → F (terms_of s.plan) s.stage
        → Running E s
        → Running F s
    Running-known s held h = record {
      safe = h.safe;
      same_id = h.same_id;
      progressive = h.progressive;
      unfinished = h.unfinished;
      current = h.current;
      placed = h.placed;
      in_range = h.in_range;
      others = h.others;
      held = held;
    }

    pub Running-weaken :
        {F : Terms → Stage → Type 0} (s : State World)
        → ((terms : Terms) (t : Stage) → E terms t → F terms t)
        → Running E s
        → Running F s
    Running-weaken s weaken h = Running-known s (weaken _ _ h.held) h

    pub with_stage-Running :
        {F : Terms → Stage → Type 0} (f : Stage → Stage)
        → ((t : Stage) → SameLinks t (f t))
        → ((terms : Terms) (t : Stage) → E terms t → F terms (f t))
        → (s : State World) → Running E s
        → Running F (record s { stage = f s.stage })
    with_stage-Running f same held s h = record {
      safe = h.safe;
      same_id = h.same_id;
      progressive = record {
        linked =
            set-Linked 0 s.plan.baseline_name s.plan.stages s.index s.stage (f s.stage)
              (same s.stage) h.progressive.linked;
        passed =
            set-PassedFirst s.plan.current_stage s.plan.stages s.index s.stage (f s.stage)
              (let c = h.current in omega arith) h.progressive.passed;
        stable =
            h.progressive.stable
            ∙ set-stable_after s.plan.current_stage s.plan.baseline_name s.plan.stages s.index
                s.stage (f s.stage) (same s.stage).2;
        all_passed = λ e. absurd (h.unfinished e);
      };
      unfinished = h.unfinished;
      current = h.current;
      placed = sym (same s.stage).0 ∙ h.placed;
      in_range = h.in_range;
      others = h.others;
      held = held _ _ h.held;
    }

    pub with_plan-Running :
        (status message : Plan → String) (time : Plan → ℕ)
        → ((p : Plan) → p.status ≢ "completed" → status p ≢ "completed")
        → Keeps (Running E) (with_plan (retouched status message time))
    with_plan-Running status message time open_still = Moves-modify _ λ s h. record {
      safe = h.safe;
      same_id = h.same_id;
      progressive = record {
        linked = h.progressive.linked;
        passed = h.progressive.passed;
        stable = h.progressive.stable;
        all_passed = λ e. absurd (open_still s.plan h.unfinished e);
      };
      unfinished = open_still s.plan h.unfinished;
      current = h.current;
      placed = h.placed;
      in_range = h.in_range;
      others = h.others;
      held = h.held;
    }

    append_plan-Running : (p : Plan) → IsKept a p → Keeps (Running E) (append_plan a p)
    unfolding append_plan
    append_plan-Running p kept = Keeps-bind _ _ (call-Keeps a Running-IsReadable _) λ taken.
        Moves-if taken _ _ (Moves-modify _ (λ s h. Running-moved s s.world _ h (kept, h.safe)))
          (Keeps-fail not_saved)

    module _ (sound : (terms : Terms) (t : Stage) → E terms t → IsSound a terms t) where
      pub save_plan-Running : Keeps (Running E) (save_plan a)
      unfolding save_plan read_time
      save_plan-Running = Keeps-bind _ _ (call-Keeps a Running-IsReadable _) λ time.
          Keeps-bind _ _ (with_plan-Running (λ p. p.status) (λ p. p.message) (λ _. time) (λ p h. h))
            λ _. Moves-gets _ _ λ s h.
              append_plan-Running _
                (record { progressive = h.progressive; sound = h.others _ (sound _ _ h.held) })

  pub with_plan-Holding :
      (status message : Plan → String) (time : Plan → ℕ)
      → ((p : Plan) → p.status ≢ "completed" → status p ≢ "completed")
      → Keeps Holding (with_plan (retouched status message time))
  with_plan-Holding status message time open_still = Moves-modify _ λ s h. record {
    safe = h.safe;
    same_id = h.same_id;
    progressive = record {
      linked = h.progressive.linked;
      passed = h.progressive.passed;
      stable = h.progressive.stable;
      all_passed = λ e. absurd (open_still s.plan h.unfinished e);
    };
    sound = h.sound;
    unfinished = open_still s.plan h.unfinished;
    no_stage = h.no_stage;
  }

  Holding-moved :
      (s : State World) (w : World) (log : List Event)
      → Holding s
      → IsSafe a id log
      → Holding (record s { world = w; log = log })
  Holding-moved s w log h safe = record {
    safe = safe;
    same_id = h.same_id;
    progressive = h.progressive;
    sound = h.sound;
    unfinished = h.unfinished;
    no_stage = h.no_stage;
  }

  Holding-IsReadable : IsReadable Holding
  Holding-IsReadable = record {
    on_world = λ s w h. Holding-moved s w s.log h h.safe;
    on_read = λ s namespace name found h. Holding-moved s s.world _ h h.safe;
  }

  pub LogSafe-IsReadable : IsReadable LogSafe
  LogSafe-IsReadable = record { on_world = λ s w h. h; on_read = λ s namespace name found h. h }

  Savable-IsReadable : IsReadable Savable
  Savable-IsReadable = record { on_world = λ s w h. h; on_read = λ s namespace name found h. h }

  Savable-retouched : (time : ℕ) → Keeps Savable (with_plan (λ p. record p { updated_at = time }))
  Savable-retouched time = Moves-modify _ λ s h. (
    record {
      progressive = record {
        linked = h.0.progressive.linked;
        passed = h.0.progressive.passed;
        stable = h.0.progressive.stable;
        all_passed = h.0.progressive.all_passed;
      };
      sound = h.0.sound;
    },
    h.1,
  )

  pub append_plan-LogSafe : (p : Plan) → IsKept a p → Keeps LogSafe (append_plan a p)
  unfolding append_plan
  append_plan-LogSafe p kept =
      Keeps-bind _ _ (call-Keeps a LogSafe-IsReadable _)
        λ taken. Moves-if taken _ _ (Moves-modify _ (λ s h. (kept, h))) (Keeps-fail not_saved)

  pub save_plan-LogSafe : Moves Savable LogSafe (save_plan a)
  unfolding save_plan read_time
  save_plan-LogSafe =
      Moves-bind _ _ (λ s h. h.1) (call-Keeps a Savable-IsReadable _)
        λ time.
          Moves-bind _ _ (λ s h. h.1) (Savable-retouched time)
            λ _.
              Moves-gets _ _ λ s h. record { at = λ s' h'. (append_plan-LogSafe _ h.0).at s' h'.1 }

  append_plan-Holding : (p : Plan) → IsKept a p → Keeps Holding (append_plan a p)
  unfolding append_plan
  append_plan-Holding p kept = Keeps-bind _ _ (call-Keeps a Holding-IsReadable _) λ taken.
      Moves-if taken _ _ (Moves-modify _ (λ s h. Holding-moved s s.world _ h (kept, h.safe)))
        (Keeps-fail not_saved)

  committed-IsKept : (s : State World) → Holding s → IsKept a (committed s)
  committed-IsKept s h =
      subst (λ stages. IsKept a (record s.plan { stages = stages }))
        (sym
          (ap (λ i. set s.plan.stages i s.stage) h.no_stage ∙ set-length_eq s.plan.stages s.stage))
        (record { progressive = h.progressive; sound = h.sound })

  pub save_plan-Holding : Keeps Holding (save_plan a)
  unfolding save_plan read_time
  save_plan-Holding = Keeps-bind _ _ (call-Keeps a Holding-IsReadable _) λ time.
      Keeps-bind _ _ (with_plan-Holding (λ p. p.status) (λ p. p.message) (λ _. time) (λ p h. h))
        λ _. Moves-gets _ _ (λ s h. append_plan-Holding _ (committed-IsKept s h))
