-- ===== src/Experiment/Progress/Soaked.antt =====
-- What a round leaves, and the end of the soak: a stage passes only where it has earned it.
use infernex_agent.Prelude.{
  ℕ, ◌≡◌, refl, sym, ap, ◌∙◌, Bool, true, false, not, ◌||◌, Option, none, some, String, arith,
  str_eq, eq_iff, if◌then◌else◌,
}
use infernex_agent.Experiment.{Service, SloProfile, Stage, Plan, Api}
use infernex_agent.Experiment.Machine.{State, Act, pure, ◌>>=◌}
use infernex_agent.Experiment.Machine.Keeps.{
  Moves, Keeps, Keeps-pure, Keeps-gets, Keeps-bind, Moves-if, Moves-modify,
}
use infernex_agent.Experiment.Machine.Yields.{
  Yields, Yields-pure, Yields-if, Yields-from, Yields-bind, Yields-gets, Moves-Yields, Keeps-Yields,
}
use infernex_agent.Experiment.Stages.{fail_stage, pass_stage}
use infernex_agent.Experiment.Progress.{Terms, Open, Compared}
use infernex_agent.Experiment.Progress.Reads.{wait_context-Keeps}
use infernex_agent.Experiment.Progress.Chain.{Open-IsSound, texts_differ}
use infernex_agent.Experiment.Progress.Saved.{
  Running, LogSafe, Running-LogSafe, Running-IsReadable, Running-known, with_stage-Running,
  save_plan-Running,
}
use infernex_agent.Experiment.Monitor.{
  is_gated, is_compared, is_soaked, ended, poll, gated, gate_of, complete, soak_if_new, soak,
}
use infernex_agent.Experiment.Progress.Ended.{Earning, fail_stage-Moves, pass_stage-Moves}
use infernex_agent.Experiment.Progress.Gated.{PastGate, run_slo_gate-Yields}

module _ (a : Api) (id : String) where
  open a use {World}

  -- After a round that goes on the stage is still open; after the last one the log is safe.
  abbrev pub RoundResult : Option ℕ → State World → Type 0
  RoundResult (some next) s = Running a id (Open a) s
  RoundResult none s = LogSafe a id s

  abbrev pub RoundFrom : (State World → Type 0) → Act World (Option ℕ) → Type 0
  RoundFrom P m = Yields P RoundResult (LogSafe a id) m

  abbrev pub Rounds : (Terms → Stage → Type 0) → Act World (Option ℕ) → Type 0
  Rounds E m = RoundFrom (Running a id E) m

  module _ (E : Terms → Stage → Type 0) where
    pub Rounds-ended :
        (m : Act World (Unit {0})) → Moves (Running a id E) (LogSafe a id) m → Rounds E (ended a m)
    unfolding ended
    Rounds-ended m k =
        Yields-bind {Q = λ _. LogSafe a id} m _ (Moves-Yields m (λ _ s h. h) k)
          (λ _. Yields-pure none (λ s h. h))

    pub Rounds-failed : (reason : String) → Rounds E (ended a (fail_stage a reason))
    Rounds-failed reason = Rounds-ended _ (fail_stage-Moves a id E reason)

  pub Rounds-bind :
      {A : Type 0} (m : Act World A) (f : A → Act World (Option ℕ))
      → Keeps (Running a id (Open a)) m
      → ((x : A) → Rounds (Open a) (f x))
      → Rounds (Open a) (m >>= f)
  Rounds-bind m f km kf = Keeps-Yields m f (Running-LogSafe a id (Open a)) km kf

  pub Rounds-some : (next : ℕ) → Rounds (Open a) (pure (some next))
  Rounds-some next = Yields-pure (some next) (λ s h. h)

  pub Rounds-if :
      (b : Bool) (m n : Act World (Option ℕ))
      → Rounds (Open a) m
      → Rounds (Open a) n
      → Rounds (Open a) (if b then m else n)
  Rounds-if b m n km kn = Yields-if b m n (λ _. km) (λ _. kn)

  -- The stage may pass.
  pass_stage-Rounds :
      (P : State World → Type 0)
      → ((s : State World) → P s → Running a id (Earning a) s)
      → RoundFrom P (ended a (pass_stage a))
  pass_stage-Rounds P earning =
      Yields-from _ earning (Rounds-ended (Earning a) _ (pass_stage-Moves a id))

  pub poll-Rounds : (next : ℕ) → Rounds (Open a) (poll a next)
  unfolding poll
  poll-Rounds next =
      Rounds-bind _ _
        (wait_context-Keeps a (Running-IsReadable a id (Open a)) a.settings.poll_interval)
        (λ _. Rounds-some next)

  -- A stage that is not rolled back has passed the gate.
  Past-Earning :
      (r : State World)
      → str_eq r.stage.status "rolled-back" || str_eq r.plan.status "failed" ≡ false
      → (s : State World) → Running a id (PastGate a) s × (s ≡ r)
      → Running a id (Earning a) s
  Past-Earning r past s (h, same) =
      let status = ap (λ (x : State World). x.stage.status) same in
      let measured =
        h.held λ e.
          (let e' = (eq_iff r.stage.status "rolled-back").1 (sym status ∙ e) in ground arith) in
      Running-known a id (PastGate a) s
        (measured.0.0, (measured.0.1, measured.0.0.1, λ _. measured.1)) h

  gated-Rounds :
      (profile : SloProfile) (baseline candidate : Service)
      → Rounds (Compared a) (gated a profile baseline candidate)
  unfolding gated
  gated-Rounds profile baseline candidate =
      Yields-bind _ _ (run_slo_gate-Yields a id profile baseline candidate) λ _.
        Yields-gets _ _ λ s h.
          Yields-if (str_eq s.stage.status "rolled-back" || str_eq s.plan.status "failed") _ _
            (λ _. Yields-pure none (λ t k. k.0.safe))
            (λ past. pass_stage-Rounds _ (Past-Earning s past))

  gate_of-Rounds :
      (snapshot : Option SloProfile) (baseline candidate : Service)
      → Rounds (Compared a) (gate_of a snapshot baseline candidate)
  unfolding gate_of
  gate_of-Rounds none baseline candidate = Rounds-failed (Compared a) _
  gate_of-Rounds (some profile) baseline candidate =
      Yields-if (not a.settings.has_slo_runner) _ _ (λ _. Rounds-failed (Compared a) _)
        (λ _. gated-Rounds profile baseline candidate)

  -- Without a gate nothing is measured.
  Ungated-Earning :
      (p : Plan)
      → is_gated p ≡ false
      → (s : State World) → Running a id (Compared a) s × (s.plan ≡ p)
      → Running a id (Earning a) s
  Ungated-Earning p open_gate s (h, same) =
      let gated = ap is_gated same in
      Running-known a id (Compared a) s
        (h.held.0, (h.held.1, h.held.0.1, λ g. absurd (ground arith))) h

  complete-Rounds :
      (baseline candidate : Service) → Rounds (Compared a) (complete a baseline candidate)
  unfolding complete
  complete-Rounds baseline candidate = Yields-gets _ _ λ s h.
      Yields-if (is_gated s.plan) _ _
        (λ _. Yields-from _ (λ t k. k.0) (gate_of-Rounds s.plan.slo_snapshot baseline candidate))
        (λ open_gate. pass_stage-Rounds _ (Ungated-Earning s.plan open_gate))

  soak_if_new-Running : (now : ℕ) → Keeps (Running a id (Open a)) (soak_if_new a now)
  unfolding soak_if_new
  soak_if_new-Running now = Keeps-bind _ _ (Keeps-gets _) λ t.
      Moves-if _ _ _
        (Keeps-bind _ _
          (Moves-modify _ (
            with_stage-Running a id (Open a) _ (λ u. (refl, refl, refl))
              (λ g t h. (texts_differ "soaking" "passed" refl, tt))))
          λ _. save_plan-Running a id (Open a) (Open-IsSound a))
        (Keeps-pure _)

  Soaked-Compared :
      (now : ℕ) (t : Stage)
      → is_soaked a now t ≡ true
      → (s : State World) → Running a id (Open a) s × (s.stage ≡ t)
      → Running a id (Compared a) s
  Soaked-Compared now t soaked s (h, same) =
      let comparison = ap (λ (u : Stage). is_compared u.comparison) same in
      Running-known a id (Open a) s (h.held, ground arith) h

  pub soak-Rounds :
      (now next : ℕ) (baseline candidate : Service)
      → Rounds (Open a) (soak a now next baseline candidate)
  unfolding soak
  soak-Rounds now next baseline candidate = Rounds-bind _ _ (soak_if_new-Running now) λ _.
      Yields-gets _ _ λ s h.
        Yields-if (is_soaked a now s.stage) _ _
          (λ soaked.
            Yields-from _ (Soaked-Compared now s.stage soaked) (complete-Rounds baseline candidate))
          (λ _. Yields-from _ (λ t k. k.0) (poll-Rounds next))
