-- ===== src/Remediator/Start.antt =====
-- Start of remediator.go.
use infernex_agent.Prelude.{
  Bool, not, ◌&&◌, Option, none, some, List, [], ◌∷◌, str_eq, if◌then◌else◌, Outcome, ok, err,
}
use infernex_agent.Prelude.Int.{ℤ}
use infernex_agent.Changes.Record.{ChangeRecord}
use infernex_agent.Remediator.{
  Service, Api, ClientError, Act, ◌>>=◌, ◌>>◌, pure, fail, orelse, event, not_loaded, not_recovered,
  not_closed, not_found, failed,
}
use infernex_agent.Remediator.Check.{value_at}

module _ (a : Api) where
  open a use {World, Spec}

  abbrev pub is_ours : ChangeRecord → Service Spec → Bool
  is_ours r s =
      str_eq (value_at "app.kubernetes.io/managed-by" s.labels) "infernex-agent"
      && str_eq (value_at "agent.infernex.io/change-id" s.annotations) r.id

  -- The event that closes a pending change, by what is read of its target; none where the read fails.
  unfoldable pub closing :
      ChangeRecord → Outcome ClientError (Service Spec) → ℤ → Option ChangeRecord
  unfolding value_at
  closing r (err failed) time = none
  closing r (err not_found) time =
      some (event r "apply-failed" time "Agent restarted before the recovery service was created")
  closing r (ok s) time = some (
      if is_ours r s
      then event r "committed" time "Agent resumed after recovery creation and committed the change"
      else event r "rollback-failed" time
          "recovery target exists but change ownership cannot be proven")

  unfoldable pub append_closing : Option ChangeRecord → Act World (Unit {0})
  append_closing none = fail not_recovered
  append_closing (some e) = orelse not_closed (a.append e)

  unfoldable pub close_found :
      ChangeRecord → Outcome ClientError (Service Spec) → Act World (Unit {0})
  unfolding closing append_closing
  close_found r (err failed) w = (err not_recovered, w)
  close_found r (err not_found) w =
      let (time, w') = a.now w in append_closing (closing r (err not_found) time) w'
  close_found r (ok s) w = let (time, w') = a.now w in append_closing (closing r (ok s) time) w'

  -- The body of the loop of Start.
  unfoldable pub close_change : ChangeRecord → Act World (Unit {0})
  unfolding close_found
  close_change r w =
      let (found, w') = a.get_service r.target.namespace r.target.name w in
      if not (str_eq r.action "create-recovery") then (ok tt, w) else close_found r found w'

  unfoldable pub close_changes : List ChangeRecord → Act World (Unit {0})
  unfolding close_change
  close_changes [] = pure tt
  close_changes (r ∷ records) = close_change r >> close_changes records

  unfoldable pub start : Act World (Unit {0})
  unfolding close_changes
  start = orelse not_loaded a.pending >>= close_changes
