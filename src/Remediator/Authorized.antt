-- ===== src/Remediator/Authorized.antt =====
-- A recovery service is created only with the authority of its source and its profile.
use mathlib.Core.Path.{subst}
use infernex_agent.Prelude.{
  ◌≡◌, refl, sym, ap, ◌∙◌, Bool, true, false, not, ◌||◌, String, inl, inr, str_eq, eq_iff, arith,
  Outcome-cases, Outcome, ok, err,
}
use infernex_agent.Prelude.Text.{trim_space}
use infernex_agent.Prelude.Int.{ℤ, ltb_ℤ}
use infernex_agent.Changes.Record.{ChangeRecord}
use infernex_agent.Remediator.{
  Service, RecoveryConfig, SourceIdentity, Request, Result, Api, RemediatorError, Act, continue,
  ◌>>=◌, pure, refuse, or_else, orelse, source_unread, incomplete_identity, identity_changed,
  not_current, not_opted_in, other_profile, other_name, config_unread, config_terminating,
  not_approved, precondition, no_id, not_planned,
}
use infernex_agent.Remediator.Check.{
  value_at, is_true, identity_of, is_incomplete, differs, recovery_name, verify_preconditions,
  recovery_service,
}
use infernex_agent.Remediator.Create.{
  result_for, with_change, planned_record, reject_plan, recheck, create_or_close, commit, encoded,
  read_time, finish, create_planned, apply_plan, journal_plan, plan_change, create_recovery,
}

module _ (a : Api) where
  open a use {World, Spec}

  pub continue-eq-ok :
      {A B : Type 0} (r : Outcome RemediatorError A) (f : A → Act World B) (w : World) {b : B}
      {w' : World}
      → continue r f w ≡ (ok b, w')
      → (x : A) × (r ≡ ok x) × (f x w ≡ (ok b, w'))
  continue-eq-ok (ok x) f w h = (x, refl, h)
  continue-eq-ok (err e) f w {b = b} h = absurd (let e' : err e ≡ ok b = ap (λ p. p.0) h in cc)

  pub ok-injective :
      {A : Type 0} {x y : A} → ◌≡◌ {A = Outcome RemediatorError A} (ok x) (ok y) → x ≡ y
  ok-injective h = cc

  -- A step of a chain that went on.
  pub step :
      {A B : Type 0} (m : Act World A) (f : A → Act World B) (w : World) {b : B} {w' : World}
      → continue (m w).0 f (m w).1 ≡ (ok b, w')
      → (x : A) × ((m w).0 ≡ ok x) × (f x (m w).1 ≡ (ok b, w'))
  step m f w h = continue-eq-ok (m w).0 f (m w).1 h

  pub refused :
      {B : Type 0} (bad : Bool) (e : RemediatorError) (k : Act World B) (w : World) {b : B}
      {w' : World}
      → continue (refuse bad e w).0 (λ _. k) (refuse bad e w).1 ≡ (ok b, w')
      → (bad ≡ false) × (k w ≡ (ok b, w'))
  refused true e k w {b = b} h = absurd (let e' : err e ≡ ok b = ap (λ p. p.0) h in cc)
  refused false e k w h = (refl, h)

  pub or_else-eq-ok :
      {E A : Type 0} (e : RemediatorError) (r : Outcome E A) {x : A} → or_else e r ≡ ok x → r ≡ ok x
  or_else-eq-ok e (ok y) h = ground arith
  or_else-eq-ok e (err _) h = cc

  -- The source and the profile, as they are read at w, authorize the recovery that is asked for.
  pub record IsAuthorized (request : Request) (identity : SourceIdentity) (w : World) : Type 0 where
    pub source : Service Spec
    pub source_read : (a.get_service request.namespace request.source_name w).0 ≡ ok source
    pub identified : identity_of a source ≡ identity
    pub complete : is_incomplete a identity ≡ false
    pub expected : differs a request.expected_source identity ≡ false
    pub alive : source.is_deleting ≡ false
    pub observed : ltb_ℤ source.observed_generation source.generation ≡ false
    pub opted_in : is_true (value_at "agent.infernex.io/auto-recovery" source.annotations) ≡ true
    pub same_profile :
        trim_space (value_at "agent.infernex.io/recovery-profile" source.annotations)
        ≡ request.profile
    pub same_name : recovery_name a source ≡ request.name
    pub config : RecoveryConfig
    pub config_read :
        (a.get_config a.template_namespace request.profile
          (a.get_service request.namespace request.source_name w).1).0
        ≡ ok config
    pub config_alive : config.is_deleting ≡ false
    pub approved :
        is_true (value_at "agent.infernex.io/approved-recovery-profile" config.labels) ≡ true

  pub verify_preconditions-IsAuthorized :
      (request : Request) (w : World) {identity : SourceIdentity} {w' : World}
      → verify_preconditions a request w ≡ (ok identity, w')
      → IsAuthorized request identity w
  unfolding verify_preconditions
  verify_preconditions-IsAuthorized request w {identity = identity} h =
      let (source, s, h1) =
        step
          (orelse (precondition source_unread)
            (a.get_service request.namespace request.source_name))
          _ w h in
      let (complete, h2) =
        refused (is_incomplete a (identity_of a source)) (precondition incomplete_identity) _ _
          h1 in
      let (expected, h3) =
        refused (differs a request.expected_source (identity_of a source))
          (precondition identity_changed) _ _ h2 in
      let (current, h4) =
        refused (source.is_deleting || ltb_ℤ source.observed_generation source.generation)
          (precondition not_current) _ _ h3 in
      let (opted, h5) =
        refused (not (is_true (value_at "agent.infernex.io/auto-recovery" source.annotations)))
          (precondition not_opted_in) _ _ h4 in
      let (profiled, h6) =
        refused
          (not (
            str_eq (trim_space (value_at "agent.infernex.io/recovery-profile" source.annotations))
              request.profile))
          (precondition other_profile) _ _ h5 in
      let (named, h7) =
        refused (not (str_eq (recovery_name a source) request.name)) (precondition other_name) _ _
          h6 in
      let (config, c, h8) =
        step
          (orelse (precondition config_unread) (a.get_config a.template_namespace request.profile))
          _ _ h7 in
      let (alive, h9) = refused config.is_deleting (precondition config_terminating) _ _ h8 in
      let (approved, h10) =
        refused
          (not (is_true (value_at "agent.infernex.io/approved-recovery-profile" config.labels)))
          (precondition not_approved) _ _ h9 in
      let same : identity_of a source ≡ identity = ok-injective (ap (λ p. p.0) h10) in
      record {
        source = source;
        source_read = or_else-eq-ok (precondition source_unread) _ s;
        identified = same;
        complete = subst (λ i. is_incomplete a i ≡ false) same complete;
        expected = subst (λ i. differs a request.expected_source i ≡ false) same expected;
        alive = ground (arith, current);
        observed = ground (arith, current);
        opted_in = ground (arith, opted);
        same_profile = (eq_iff _ request.profile).0 (ground (arith, profiled));
        same_name = (eq_iff (recovery_name a source) request.name).0 (ground (arith, named));
        config = config;
        config_read = or_else-eq-ok (precondition config_unread) _ c;
        config_alive = alive;
        approved = ground (arith, approved);
      }

  recheck-eq-ok :
      (plan : ChangeRecord) (request : Request) (w : World) {i : SourceIdentity}
      → (recheck a plan request w).0 ≡ ok i
      → (verify_preconditions a request w ≡ (ok i, (verify_preconditions a request w).1))
        × ((recheck a plan request w).1 ≡ (verify_preconditions a request w).1)
  unfolding recheck reject_plan
  recheck-eq-ok plan request w {i = i} h =
      elim (Outcome-cases (verify_preconditions a request w).0) [
        | inl (e, o) ↦ absurd (let bad : err _ ≡ ok i = rw (recheck, o) at h in cc)
        | inr (j, o) ↦
            let same : j ≡ i = ok-injective (rw (recheck, o) at h) in
            (λ k. ((o ∙ ap ok same) k, (verify_preconditions a request w).1), rw (recheck, o) refl)
      ]

  create_or_close-eq-ok :
      (plan : ChangeRecord) (desired : Service Spec) (w : World) {s : Service Spec}
      → (create_or_close a plan desired w).0 ≡ ok s
      → (a.create desired w).0 ≡ ok s
  unfolding create_or_close
  create_or_close-eq-ok plan desired w {s = s} h = elim (Outcome-cases (a.create desired w).0) [
    | inl (e, o) ↦ absurd (let bad : err _ ≡ ok s = rw (create_or_close, o) at h in cc)
    | inr (t, o) ↦ o ∙ ap ok (ok-injective (rw (create_or_close, o) at h))
  ]

  -- How a recovery service came to be created: the plan was in the journal first, the source and the
  -- profile were then checked again, and the service was created in the world of that check.
  pub record IsJustified (request : Request) (r : Result) : Type 0 where
    pub id : String
    pub raw : String
    pub time : ℤ
    pub desired : Service Spec
    pub desired_eq :
        desired
        ≡ with_change a id
            (recovery_service a request.namespace request.name request.source_name request.profile)
    pub before : World
    pub journaled : (a.append (planned_record a id desired raw time) before).0 ≡ ok tt
    pub identity : SourceIdentity
    pub authorized :
        IsAuthorized request identity (a.append (planned_record a id desired raw time) before).1
    pub created : Service Spec
    pub was_created :
        (a.create desired
          (verify_preconditions a request
            (a.append (planned_record a id desired raw time) before).1).1).0
        ≡ ok created
    pub result_eq : r ≡ result_for a desired request.profile "created" id

  module _ (request : Request) (id : String) where
    abbrev desired_for : Service Spec
    desired_for =
        with_change a id
          (recovery_service a request.namespace request.name request.source_name request.profile)

    -- What is known once the plan is journaled, at the world after that.
    record IsApplied (plan : ChangeRecord) (desired : Service Spec) (w : World) (r : Result)
        : Type 0 where
      identity : SourceIdentity
      authorized : IsAuthorized request identity w
      created : Service Spec
      was_created : (a.create desired (verify_preconditions a request w).1).0 ≡ ok created
      result_eq : r ≡ result_for a desired request.profile "created" id

    create_planned-eq-ok :
        (plan : ChangeRecord) (desired : Service Spec) (w : World) {r : Result} {w' : World}
        → create_planned a plan desired id request w ≡ (ok r, w')
        → (s : Service Spec) × ((a.create desired w).0 ≡ ok s)
          × (r ≡ result_for a desired request.profile "created" id)
    unfolding create_planned finish
    create_planned-eq-ok plan desired w h =
        let (s, c, k) =
          step (create_or_close a plan desired) (finish a plan desired id request) w h in
        let (_, _, k') =
          step (commit a plan s) (λ _. pure (result_for a desired request.profile "created" id))
            (create_or_close a plan desired w).1 k in
        (s, create_or_close-eq-ok plan desired w c, sym (ok-injective (ap (λ x. x.0) k')))

    apply_plan-IsApplied :
        (plan : ChangeRecord) (desired : Service Spec) (w : World) {r : Result} {w' : World}
        → apply_plan a plan desired id request w ≡ (ok r, w')
        → IsApplied plan desired w r
    unfolding apply_plan
    apply_plan-IsApplied plan desired w h =
        let (identity, v, k) =
          step (recheck a plan request) (λ _. create_planned a plan desired id request) w h in
        let (checked, here) = recheck-eq-ok plan request w v in
        let (created, c, e) = create_planned-eq-ok plan desired (recheck a plan request w).1 k in
        record {
          identity = identity;
          authorized = verify_preconditions-IsAuthorized request w checked;
          created = created;
          was_created = subst (λ x. (a.create desired x).0 ≡ ok created) here c;
          result_eq = e;
        }

    journal_plan-IsJustified :
        (raw : String) (time : ℤ) (w : World) {r : Result} {w' : World}
        → journal_plan a desired_for id request raw time w ≡ (ok r, w')
        → IsJustified request r
    unfolding journal_plan
    journal_plan-IsJustified raw time w h =
        let plan = planned_record a id desired_for raw time in
        let (_, p, k) =
          step (orelse not_planned (a.append plan)) (λ _. apply_plan a plan desired_for id request)
            w h in
        let x = apply_plan-IsApplied plan desired_for (a.append plan w).1 k in
        record {
          id = id;
          raw = raw;
          time = time;
          desired = desired_for;
          desired_eq = refl;
          before = w;
          journaled = or_else-eq-ok not_planned _ p;
          identity = x.identity;
          authorized = x.authorized;
          created = x.created;
          was_created = x.was_created;
          result_eq = x.result_eq;
        }

    plan_change-IsJustified :
        (w : World) {r : Result} {w' : World}
        → plan_change a request id w ≡ (ok r, w')
        → IsJustified request r
    unfolding plan_change
    plan_change-IsJustified w h =
        let (raw, _, k) =
          step (encoded a desired_for)
            (λ raw. ◌>>=◌ (read_time a) (λ time. journal_plan a desired_for id request raw time)) w
            h in
        let (time, _, k') =
          step (read_time a) (λ time. journal_plan a desired_for id request raw time)
            (encoded a desired_for w).1 k in
        journal_plan-IsJustified raw time (read_time a (encoded a desired_for w).1).1 k'

  pub create_recovery-IsJustified :
      (request : Request) (w : World) {r : Result} {w' : World}
      → create_recovery a request w ≡ (ok r, w')
      → IsJustified request r
  unfolding create_recovery
  create_recovery-IsJustified request w h =
      let (id, _, k) = step (orelse no_id a.new_id) (plan_change a request) w h in
      plan_change-IsJustified request id (a.new_id w).1 k
