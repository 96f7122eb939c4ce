-- ===== src/Remediator/Examples.antt =====
-- A cluster with one source and its approved profile, for the theorems on the remediator.
use infernex_agent.Prelude.{
  ℕ, suc, ◌≡◌, refl, true, false, if◌then◌else◌, some, String, List, [], ◌∷◌, str_eq, ok, err,
}
use infernex_agent.Prelude.Int.{pos}
use infernex_agent.Changes.Record.{ChangeRecord}
use infernex_agent.Remediator.{
  Service, RecoveryConfig, SourceIdentity, Request, Result, Api, not_found,
}
use infernex_agent.Remediator.Check.{verify_preconditions}
use infernex_agent.Remediator.Ensure.{normalized, bound_to, ensure_recovery}
use infernex_agent.Remediator.Start.{start}
use infernex_agent.Remediator.Authorized.{IsAuthorized}
use infernex_agent.Remediator.Ensured.{IsEnsured, ensure_recovery-IsEnsured}
use infernex_agent.Remediator.Closed.{HandlesAll, start-HandlesAll}

abbrev source : Service String
source = record {
  namespace = "models";
  name = "chat";
  uid = "u1";
  generation = pos 2;
  observed_generation = pos 2;
  is_deleting = false;
  labels = [];
  annotations =
      ("agent.infernex.io/auto-recovery", "true")
      ∷ ("agent.infernex.io/recovery-profile", "small")
      ∷ ("agent.infernex.io/recovery-name", "spare")
      ∷ [];
  spec = "large";
}

abbrev config : RecoveryConfig
config = record {
  is_deleting = false;
  labels = ("agent.infernex.io/approved-recovery-profile", "true") ∷ [];
}

abbrev open_change : ChangeRecord
open_change = record {
  api_version = "agent.infernex.io/v1alpha1";
  kind = "InferNexChange";
  id = "c0";
  action = "create-recovery";
  status = "planned";
  target = record {
    api_version = "v1";
    kind = "InferNexService";
    namespace = "models";
    name = "old";
    uid = "";
  };
  before = "";
  desired = "{}";
  occurred_at = pos 1;
  message = "";
}

-- The world is the number of events in the journal.
abbrev cluster : Api
cluster = record {
  World = ℕ;
  Spec = String;
  spec_of = λ profile. profile;
  same_spec = str_eq;
  get_service = λ namespace name w. (if str_eq name "chat" then ok source else err not_found, w);
  get_config = λ namespace name w. (ok config, w);
  create = λ s w. (ok s, w);
  delete = λ s w. (ok tt, w);
  new_id = λ w. (ok "c1", w);
  now = λ w. (pos 5, w);
  append = λ r w. (ok tt, suc w);
  pending = λ w. (ok (open_change ∷ []), w);
  encode = λ s. some "{}";
  is_dns_label = λ s. true;
  is_dns_subdomain = λ s. true;
  short_hash = λ s. "00000000";
  template_namespace = "templates";
  group_version = "v1";
  error_text = λ e. "failed";
}

abbrev request : Request
request = record {
  namespace = "models";
  source_name = "chat";
  profile = "small";
  name = "spare";
  expected_source = some (record { uid = "u1"; generation = pos 2 });
}

abbrev result : Result
result = record {
  namespace = "models";
  name = "spare";
  profile = "small";
  action = "created";
  change_id = "c1";
}

-- The recovery is created, with two events.
creates : ensure_recovery cluster request 0 ≡ (ok result, 2)
unfolding ensure_recovery verify_preconditions
creates = refl

ensure_recovery-IsEnsured_example :
    (identity : SourceIdentity) × IsAuthorized cluster (normalized cluster request) identity 0
    × IsEnsured cluster (bound_to cluster (normalized cluster request) identity) result
ensure_recovery-IsEnsured_example = ensure_recovery-IsEnsured cluster request 0 creates

-- The change that is open is closed, with one event.
closes : start cluster 0 ≡ (ok tt, 1)
unfolding start
closes = refl

start-HandlesAll_example :
    (records : List ChangeRecord) × ((cluster.pending 0).0 ≡ ok records)
    × HandlesAll cluster records (cluster.pending 0).1 1
start-HandlesAll_example = start-HandlesAll cluster 0 closes
