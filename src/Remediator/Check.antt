-- ===== src/Remediator/Check.antt =====
-- verifyPreconditions and verifyRecovery of remediator.go.
use Prim.Native.String.{len, slice, ◌++◌ as add_text}
use Prim.Native.Char.{code}
use infernex_agent.Prelude.{
  ◌+◌, ◌-◌, Bool, false, not, ◌&&◌, ◌||◌, Option, none, some, String, [], ◌∷◌, str_eq, leb, ◌==◌,
  if◌then◌else◌,
}
use infernex_agent.Prelude.Text.{trim_space, equal_fold}
use infernex_agent.Prelude.Dict.{Dict, lookup}
use infernex_agent.Prelude.Int.{pos, ltb_ℤ, eqb_ℤ}
use infernex_agent.Remediator.{
  Service, SourceIdentity, Request, Api, Act, ◌>>=◌, ◌>>◌, pure, refuse, orelse, source_unread,
  incomplete_identity, identity_changed, not_current, not_opted_in, other_profile, other_name,
  config_unread, config_terminating, not_approved, precondition, not_ours, spec_drift,
}

-- m[key]: empty where the key is missing.
unfoldable pub value_at : String → Dict String → String
unfolding lookup
value_at key d = elim (lookup key d) [ none ↦ "" | some v ↦ v ]

unfoldable pub is_true : String → Bool
unfolding equal_fold trim_space
is_true value = equal_fold (trim_space value) "true"

-- strings.TrimRight(s, "-.")
trim_separators : String → String
trim_separators String.[] = String.[]
trim_separators (String.◌∷◌ c s) =
    let rest = trim_separators s in
    if (code c == b'-' || code c == b'.') && str_eq rest String.[]
    then String.[]
    else String.◌∷◌ c rest

module _ (a : Api) where
  open a use {World, Spec}

  unfoldable pub default_recovery_name : String → String
  unfolding trim_separators
  default_recovery_name source =
      if leb (len source + 9) 253
      then add_text source "-recovery"
      else add_text (trim_separators (slice source 0 (253 - 9 - len (a.short_hash source) - 1)))
          (add_text "-" (add_text (a.short_hash source) "-recovery"))

  abbrev pub identity_of : Service Spec → SourceIdentity
  identity_of s = record { uid = s.uid; generation = s.generation }

  abbrev pub is_incomplete : SourceIdentity → Bool
  is_incomplete i = str_eq i.uid "" || not (ltb_ℤ (pos 0) i.generation)

  abbrev pub differs : Option SourceIdentity → SourceIdentity → Bool
  differs none i = false
  differs (some e) i = not (str_eq i.uid e.uid && eqb_ℤ i.generation e.generation)

  -- The name that the source asks for.
  unfoldable pub recovery_name : Service Spec → String
  unfolding value_at trim_space default_recovery_name
  recovery_name source =
      let name = trim_space (value_at "agent.infernex.io/recovery-name" source.annotations) in
      if str_eq name "" then default_recovery_name source.name else name

  unfoldable pub verify_preconditions : Request → Act World SourceIdentity
  unfolding value_at is_true trim_space recovery_name
  verify_preconditions request = do
    source ←
        orelse (precondition source_unread) (a.get_service request.namespace request.source_name)
    refuse (is_incomplete (identity_of source)) (precondition incomplete_identity)
    refuse (differs request.expected_source (identity_of source)) (precondition identity_changed)
    refuse (source.is_deleting || ltb_ℤ source.observed_generation source.generation)
        (precondition not_current)
    refuse (not (is_true (value_at "agent.infernex.io/auto-recovery" source.annotations)))
        (precondition not_opted_in)
    refuse
        (not (
          str_eq (trim_space (value_at "agent.infernex.io/recovery-profile" source.annotations))
            request.profile))
        (precondition other_profile)
    refuse (not (str_eq (recovery_name source) request.name)) (precondition other_name)
    config ← orelse (precondition config_unread) (a.get_config a.template_namespace request.profile)
    refuse config.is_deleting (precondition config_terminating)
    refuse (not (is_true (value_at "agent.infernex.io/approved-recovery-profile" config.labels)))
        (precondition not_approved)
    pure (identity_of source)

  unfoldable pub recovery_service : String → String → String → String → Service Spec
  recovery_service namespace name source profile = record {
    namespace = namespace;
    name = name;
    uid = "";
    generation = pos 0;
    observed_generation = pos 0;
    is_deleting = false;
    labels =
        ("agent.infernex.io/managed", "true")
        ∷ ("app.kubernetes.io/managed-by", "infernex-agent")
        ∷ [];
    annotations =
        ("agent.infernex.io/recovery-profile", profile)
        ∷ ("agent.infernex.io/recovery-source", source)
        ∷ [];
    spec = a.spec_of profile;
  }

  unfoldable pub verify_recovery : Service Spec → String → String → Spec → Act World (Unit {0})
  unfolding value_at
  verify_recovery current source profile expected = do
    refuse
        (not (str_eq (value_at "agent.infernex.io/managed" current.labels) "true")
          || not (str_eq (value_at "agent.infernex.io/recovery-source" current.annotations) source)
          || not
              (str_eq (value_at "agent.infernex.io/recovery-profile" current.annotations) profile))
        not_ours
    refuse (not (a.same_spec current.spec expected)) spec_drift
