-- ===== src/Remediator/Create.antt =====
-- The creation of a recovery service by EnsureRecovery of remediator.go, within its entries in the
-- journal.
use infernex_agent.Prelude.{none, some, String, Outcome, ok, err}
use infernex_agent.Prelude.Dict.{put}
use infernex_agent.Prelude.Int.{ℤ}
use infernex_agent.Changes.Record.{ChangeRecord}
use infernex_agent.Remediator.{
  Service, SourceIdentity, Request, Result, Api, RemediatorError, Act, ◌>>=◌, ◌>>◌, pure, fail,
  orelse, event, precondition, rejected_unpersisted, no_id, not_encoded, not_planned, create_failed,
  rolled_back, rollback_failed, not_found, failed,
}
use infernex_agent.Remediator.Check.{verify_preconditions, recovery_service}

module _ (a : Api) where
  open a use {World, Spec}

  abbrev pub result_for : Service Spec → String → String → String → Result
  result_for s profile action change_id = record {
    namespace = s.namespace;
    name = s.name;
    profile = profile;
    action = action;
    change_id = change_id;
  }

  abbrev pub with_change : String → Service Spec → Service Spec
  with_change id s = record s { annotations = put "agent.infernex.io/change-id" id s.annotations }

  abbrev pub planned_record : String → Service Spec → String → ℤ → ChangeRecord
  planned_record id desired raw time = record {
    api_version = "agent.infernex.io/v1alpha1";
    kind = "InferNexChange";
    id = id;
    action = "create-recovery";
    status = "planned";
    target = record {
      api_version = a.group_version;
      kind = "InferNexService";
      namespace = desired.namespace;
      name = desired.name;
      uid = "";
    };
    before = "";
    desired = raw;
    occurred_at = time;
    message = "target did not exist before automatic recovery";
  }

  abbrev pub rejection : RemediatorError → Outcome String (Unit {0}) → RemediatorError
  rejection e (ok _) = e
  rejection (precondition p) (err _) = rejected_unpersisted p
  rejection e (err _) = e

  -- The second check failed: the change is closed.
  unfoldable pub reject_plan : {A : Type 0} → ChangeRecord → RemediatorError → Act World A
  reject_plan r e w =
      let (time, w1) = a.now w in
      let (stored, w2) = a.append (event r "apply-failed" time (a.error_text e)) w1 in
      (err (rejection e stored), w2)

  unfoldable pub recheck : ChangeRecord → Request → Act World SourceIdentity
  recheck r request w =
      let (checked, w') = verify_preconditions a request w in
      elim checked [ ok i ↦ (ok i, w') | err e ↦ reject_plan r e w' ]

  unfoldable pub create_or_close : ChangeRecord → Service Spec → Act World (Service Spec)
  create_or_close r desired w =
      let (created, w1) = a.create desired w in
      elim created [
        | ok s ↦ (ok s, w1)
        | err e ↦
            let (time, w2) = a.now w1 in
            let (_, w3) = a.append (event r "apply-failed" time e) w2 in (err create_failed, w3)
      ]

  unfoldable pub roll_back : {A : Type 0} → Service Spec → Act World A
  roll_back created w =
      let (deleted, w') = a.delete created w in
      elim deleted [
        | ok _ ↦ (err rolled_back, w')
        | err not_found ↦ (err rolled_back, w')
        | err failed ↦ (err rollback_failed, w')
      ]

  unfoldable pub commit : ChangeRecord → Service Spec → Act World (Unit {0})
  unfolding roll_back
  commit r created w =
      let (time, w1) = a.now w in
      let (stored, w2) =
        a.append (event r "committed" time "approved recovery service created") w1 in
      elim stored [ ok _ ↦ (ok tt, w2) | err _ ↦ roll_back created w2 ]

  unfoldable pub encoded : Service Spec → Act World String
  encoded s = elim (a.encode s) [ none ↦ fail not_encoded | some raw ↦ pure raw ]

  unfoldable pub read_time : Act World ℤ
  read_time w = let (time, w') = a.now w in (ok time, w')

  -- What follows the creation, the second check and the journal entry of the plan, in this order
  -- from the last.
  unfoldable pub finish :
      ChangeRecord → Service Spec → String → Request → Service Spec → Act World Result
  unfolding commit roll_back
  finish plan desired id request created = do
    commit plan created
    pure (result_for desired request.profile "created" id)

  unfoldable pub create_planned : ChangeRecord → Service Spec → String → Request → Act World Result
  unfolding create_or_close finish
  create_planned plan desired id request =
      create_or_close plan desired >>= finish plan desired id request

  unfoldable pub apply_plan : ChangeRecord → Service Spec → String → Request → Act World Result
  unfolding recheck reject_plan create_planned
  apply_plan plan desired id request =
      recheck plan request >>= λ _. create_planned plan desired id request

  unfoldable pub journal_plan : Service Spec → String → Request → String → ℤ → Act World Result
  unfolding apply_plan
  journal_plan desired id request raw time =
      orelse not_planned (a.append (planned_record id desired raw time)) >>= λ _.
      apply_plan (planned_record id desired raw time) desired id request

  unfoldable pub plan_change : Request → String → Act World Result
  unfolding recovery_service put encoded read_time journal_plan
  plan_change request id = do
    let base = recovery_service a request.namespace request.name request.source_name request.profile
    let desired = with_change id base
    raw ← encoded desired
    time ← read_time
    journal_plan desired id request raw time

  unfoldable pub create_recovery : Request → Act World Result
  unfolding plan_change
  create_recovery request = orelse no_id a.new_id >>= plan_change request
