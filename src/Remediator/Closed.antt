-- ===== src/Remediator/Closed.antt =====
-- Start closes the changes that a crash has left open.
use mathlib.Core.Path.{subst}
use infernex_agent.Prelude.{
  ◌≡◌, refl, sym, ap, Bool, true, false, not, Option, none, some, String, List, [], ◌∷◌, str_eq,
  eq_iff, if◌then◌else◌, Outcome, ok, err,
}
use infernex_agent.Prelude.Int.{ℤ}
use infernex_agent.Changes.Record.{ChangeRecord, is_pending}
use infernex_agent.Remediator.{
  Service, Api, ClientError, orelse, event, not_loaded, not_recovered, not_closed, not_found,
  failed,
}
use infernex_agent.Remediator.Start.{
  is_ours, closing, append_closing, close_found, close_change, close_changes, start,
}
use infernex_agent.Remediator.Authorized.{step, or_else-eq-ok}

module _ (a : Api) where
  open a use {World, Spec}

  -- The event closes the change, and commits it only if its target is owned by it.
  pub record Closes (r e : ChangeRecord) (found : Outcome ClientError (Service Spec)) : Type 0 where
    pub same_id : e.id ≡ r.id
    pub closed : is_pending e ≡ false
    pub committed_iff :
        e.status ≡ "committed" → (s : Service Spec) × (found ≡ ok s) × (is_ours a r s ≡ true)

  some-injective : {x y : ChangeRecord} → ◌≡◌ {A = Option ChangeRecord} (some x) (some y) → x ≡ y
  some-injective h = cc

  texts_differ : (s t : String) → str_eq s t ≡ false → s ≡ t → ⊥
  texts_differ s t h same = let same' = (eq_iff s t).1 same in cc

  unowned-Closes :
      (r : ChangeRecord) (found : Outcome ClientError (Service Spec)) (status message : String)
      (time : ℤ) {e : ChangeRecord}
      → is_pending (event r status time message) ≡ false
      → str_eq status "committed" ≡ false
      → event r status time message ≡ e
      → Closes r e found
  unowned-Closes r found status message time closed other same =
      subst (λ x. Closes r x found) same
        (record {
          same_id = refl;
          closed = closed;
          committed_iff = λ c. absurd (texts_differ status "committed" other c);
        })

  owned-Closes :
      (r : ChangeRecord) (s : Service Spec) (ours : Bool) (committed other : String) (time : ℤ)
      {e : ChangeRecord}
      → is_ours a r s ≡ ours
      → (if ours then event r "committed" time committed else event r "rollback-failed" time other)
        ≡ e
      → Closes r e (ok s)
  owned-Closes r s true committed other time owned same =
      subst (λ x. Closes r x (ok s)) same
        (record { same_id = refl; closed = refl; committed_iff = λ _. (s, refl, owned) })
  owned-Closes r s false committed other time owned same =
      unowned-Closes r (ok s) "rollback-failed" other time refl refl same

  closing-Closes :
      (r : ChangeRecord) (found : Outcome ClientError (Service Spec)) (time : ℤ) {e : ChangeRecord}
      → closing a r found time ≡ some e
      → Closes r e found
  unfolding closing
  closing-Closes r (err failed) time {e = e} h = absurd (let n : none ≡ some e = h in cc)
  closing-Closes r (err not_found) time h =
      unowned-Closes r _ "apply-failed" _ time refl refl (some-injective h)
  closing-Closes r (ok s) time h = owned-Closes r s (is_ours a r s) _ _ time refl (some-injective h)

  -- What the loop of Start does with a change that it goes on from: it leaves a change of another
  -- kind as it is, or it appends the event that closes the change, by what it read of its target.
  pub data Handles (r : ChangeRecord) (w w' : World) : Type 0 where
    other_kind : str_eq r.action "create-recovery" ≡ false → w' ≡ w → Handles r w w'
    appended :
        (e : ChangeRecord)
        → Closes r e (a.get_service r.target.namespace r.target.name w).0
        → (before : World) → a.append e before ≡ (ok tt, w')
        → Handles r w w'

  append_closing-eq-ok :
      (e : Option ChangeRecord) (w : World) {u : Unit {0}} {w' : World}
      → append_closing a e w ≡ (ok u, w')
      → (x : ChangeRecord) × (e ≡ some x) × (a.append x w ≡ (ok tt, w'))
  unfolding append_closing
  append_closing-eq-ok none w {u = u} h = absurd (let e' : err _ ≡ ok u = ap (λ p. p.0) h in cc)
  append_closing-eq-ok (some x) w {u = u} h =
      let stored = or_else-eq-ok a not_closed (a.append x w).0 (ap (λ p. p.0) h) in
      (x, refl, λ i. (stored i, (h i).1))

  close_found-Handles :
      (r : ChangeRecord) (found : Outcome ClientError (Service Spec)) (w v : World) {u : Unit {0}}
      {w' : World}
      → (a.get_service r.target.namespace r.target.name w).0 ≡ found
      → close_found a r found v ≡ (ok u, w')
      → Handles r w w'
  unfolding close_found
  close_found-Handles r (err failed) w v {u = u} same h =
      absurd (let e' : err not_recovered ≡ ok u = ap (λ p. p.0) h in cc)
  close_found-Handles r (err not_found) w v same h =
      let (e, closed, stored) = append_closing-eq-ok _ _ h in
      appended e (subst (λ f. Closes r e f) (sym same) (closing-Closes r (err not_found) _ closed))
        _ stored
  close_found-Handles r (ok s) w v same h =
      let (e, closed, stored) = append_closing-eq-ok _ _ h in
      appended e (subst (λ f. Closes r e f) (sym same) (closing-Closes r (ok s) _ closed)) _ stored

  branch-Handles :
      (r : ChangeRecord) (w : World) (ours : Bool) {u : Unit {0}} {w' : World}
      → str_eq r.action "create-recovery" ≡ ours
      → (if not ours
          then (ok tt, w)
          else close_found a r
              (a.get_service r.target.namespace r.target.name w).0
              (a.get_service r.target.namespace r.target.name w).1)
        ≡ (ok u, w')
      → Handles r w w'
  branch-Handles r w true kind h = close_found-Handles r _ w _ refl h
  branch-Handles r w false kind h = other_kind kind (sym (ap (λ p. p.1) h))

  close_change-Handles :
      (r : ChangeRecord) (w : World) {u : Unit {0}} {w' : World}
      → close_change a r w ≡ (ok u, w')
      → Handles r w w'
  unfolding close_change
  close_change-Handles r w h = branch-Handles r w _ refl h

  -- The worlds that the loop passes through.
  pub data HandlesAll : List ChangeRecord → World → World → Type 0 where
    done : {w : World} → HandlesAll [] w w
    next :
        {r : ChangeRecord} {records : List ChangeRecord} {w v w' : World}
        → Handles r w v
        → HandlesAll records v w'
        → HandlesAll (r ∷ records) w w'

  close_changes-HandlesAll :
      (records : List ChangeRecord) (w : World) {u : Unit {0}} {w' : World}
      → close_changes a records w ≡ (ok u, w')
      → HandlesAll records w w'
  unfolding close_changes
  close_changes-HandlesAll [] w h = subst (λ v. HandlesAll [] w v) (ap (λ p. p.1) h) done
  close_changes-HandlesAll (r ∷ records) w h =
      let (_, first, rest) = step a (close_change a r) (λ _. close_changes a records) w h in
      next (close_change-Handles r w (λ i. (first i, (close_change a r w).1)))
        (close_changes-HandlesAll records _ rest)

  -- Where Start succeeds, it has read the pending changes and gone through all of them in their
  -- order. It left a change of another kind as it was. To every other change it appended an event
  -- with the change's own id that is not pending any more, and that commits the change only if the
  -- target was read then and is managed by the Agent under the id of this change.
  pub start-HandlesAll :
      (w : World) {u : Unit {0}} {w' : World}
      → start a w ≡ (ok u, w')
      → (records : List ChangeRecord) × ((a.pending w).0 ≡ ok records)
        × HandlesAll records (a.pending w).1 w'
  unfolding start
  start-HandlesAll w h =
      let (records, read, rest) = step a (orelse not_loaded a.pending) (close_changes a) w h in
      (records, or_else-eq-ok a not_loaded _ read, close_changes-HandlesAll records _ rest)
