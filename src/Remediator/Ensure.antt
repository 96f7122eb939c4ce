-- ===== src/Remediator/Ensure.antt =====
-- EnsureRecovery of remediator.go.
use infernex_agent.Prelude.{
  Bool, false, not, Option, none, some, String, str_eq, if◌then◌else◌, ok, err,
}
use infernex_agent.Prelude.Text.{trim_space}
use infernex_agent.Remediator.{
  Service, SourceIdentity, Request, Result, Api, Act, ◌>>=◌, ◌>>◌, pure, refuse,
  incomplete_expected, invalid_namespace, invalid_source, invalid_profile, invalid_name,
  precondition, check_failed, not_found, failed,
}
use infernex_agent.Remediator.Check.{
  value_at, default_recovery_name, is_incomplete, verify_preconditions, recovery_service,
  verify_recovery,
}
use infernex_agent.Remediator.Create.{result_for, create_recovery}

module _ (a : Api) where
  open a use {World, Spec}

  -- The target, where it is there.
  unfoldable pub look : String → String → Act World (Option (Service Spec))
  look namespace name w =
      let (found, w') = a.get_service namespace name w in
      elim found [
        | ok s ↦ (ok (some s), w')
        | err not_found ↦ (ok none, w')
        | err failed ↦ (err check_failed, w')
      ]

  unfoldable pub unchanged : Request → Service Spec → Act World Result
  unfolding recovery_service verify_recovery value_at
  unchanged request current = do
    let desired =
        recovery_service a request.namespace request.name request.source_name request.profile
    verify_recovery a current request.source_name request.profile desired.spec
    pure (
        result_for a desired request.profile "unchanged"
          (value_at "agent.infernex.io/change-id" current.annotations))

  unfoldable pub create_or_keep : Request → Option (Service Spec) → Act World Result
  unfolding unchanged create_recovery
  create_or_keep request none = create_recovery a request
  create_or_keep request (some current) = unchanged request current

  abbrev pub or_default_name : String → String → String
  or_default_name name source = if str_eq name "" then default_recovery_name a source else name

  abbrev pub is_malformed : Option SourceIdentity → Bool
  is_malformed none = false
  is_malformed (some i) = is_incomplete a i

  -- The request with its names trimmed, and the default name.
  unfoldable pub normalized : Request → Request
  unfolding trim_space default_recovery_name
  normalized request = record request {
    namespace = trim_space request.namespace;
    source_name = trim_space request.source_name;
    profile = trim_space request.profile;
    name = trim_space (or_default_name (trim_space request.name) (trim_space request.source_name));
  }

  -- Direct callers are bound to the source that was read at the start of the attempt.
  abbrev pub bound_to : Request → SourceIdentity → Request
  bound_to request identity = record request { expected_source = some identity }

  unfoldable pub ensure_bound : Request → Act World Result
  unfolding look create_or_keep
  ensure_bound request = look request.namespace request.name >>= create_or_keep request

  unfoldable pub ensure_normalized : Request → Act World Result
  unfolding ensure_bound
  ensure_normalized request = do
    refuse (not (a.is_dns_label request.namespace)) invalid_namespace
    refuse (not (a.is_dns_subdomain request.source_name)) invalid_source
    refuse (not (a.is_dns_subdomain request.profile)) invalid_profile
    refuse (not (a.is_dns_subdomain request.name)) invalid_name
    refuse (is_malformed request.expected_source) (precondition incomplete_expected)
    identity ← verify_preconditions a request
    ensure_bound (bound_to request identity)

  unfoldable pub ensure_recovery : Request → Act World Result
  unfolding normalized ensure_normalized
  ensure_recovery request = ensure_normalized (normalized request)
