-- ===== src/Supervisor/Setup.antt =====
-- New and normalizedNamespaces of internal/supervisor/scanner.go. The observer and the store are
-- given here; New refuses nil ones.
use infernex_agent.Prelude.{
  ℕ, ◌≤◌, ◌≡◌, ◌≢◌, sym, ap, ◌∙◌, true, false, not, ◌||◌, String, List, [], ◌∷◌, In, ◌⊎◌, inl, inr,
  str_eq, eq_iff, is_nil, any, any-In, arith, Bool-cases, if◌then◌else◌, Outcome, ok, ◌>>◌, reject,
  reject-eq-ok, >>=-eq-ok,
}
use mathlib.Core.Path.{subst}
use infernex_agent.Prelude.Sort.{sort_texts, sort_texts-In}
use infernex_agent.Prelude.Text.{trim_space}
use infernex_agent.Prelude.Int.{ℤ, pos, pos_part, ltb_ℤ}
use infernex_agent.Supervisor.Scan.{Config}

-- The loop of normalizedNamespaces, with the names seen so far.
distinct : List String → List String → List String
unfolding any trim_space
distinct seen [] = []
distinct seen (value ∷ values) =
    let name = trim_space value in
    let skipped = distinct seen values in
    let rest = distinct (name ∷ seen) values in
    if str_eq name "" || any (str_eq name) seen then skipped else name ∷ rest

unfoldable pub normalized_namespaces : List String → List String
unfolding distinct sort_texts
normalized_namespaces values = sort_texts (distinct [] values)

-- Config as it is given to New.
pub record Settings : Type 0 where
  pub namespaces : List String
  pub interval : ℤ
  pub event_since_minutes : ℤ
  pub event_limit : ℤ
  pub max_analyses_per_scan : ℤ
  pub max_diagnostics_per_scan : ℤ
  pub min_critical_scans : ℤ

pub data SetupError : Type 0 where
  no_namespace bad_interval : SetupError

abbrev or_default : ℤ → ℕ → ℕ
or_default given default = if ltb_ℤ (pos 0) given then pos_part given else default

unfoldable pub new_scanner : Settings → Outcome SetupError Config
new_scanner s = do
  let names = normalized_namespaces s.namespaces
  reject (is_nil names) no_namespace
  reject (not (ltb_ℤ (pos 0) s.interval)) bad_interval
  ok (record {
    namespaces = names;
    event_since_minutes = or_default s.event_since_minutes 60;
    event_limit = or_default s.event_limit 25;
    max_analyses_per_scan = or_default s.max_analyses_per_scan 10;
    max_diagnostics_per_scan = or_default s.max_diagnostics_per_scan 10;
    min_critical_scans = or_default s.min_critical_scans 3;
  })

abbrev Found : List String → List String → String → Type 0
Found seen names name = In name seen ⊎ In name names

-- The first value is skipped, as it is blank or was seen.
skipped :
    (seen names : List String) (v value : String) (values : List String)
    → str_eq (trim_space v) "" || any (str_eq (trim_space v)) seen ≡ true
    → trim_space value ≢ ""
    → (In value values → Found seen names (trim_space value))
    → In value (v ∷ values)
    → Found seen names (trim_space value)
skipped seen names v value values e n ih (inr m) = ih m
skipped seen names v value values e n ih (inl same) =
    let found : any (str_eq (trim_space v)) seen ≡ true =
      ground (arith, eq_iff (trim_space v) "", ap trim_space same) in
    let (a, m, t) = any-In (str_eq (trim_space v)) seen found in
    inl (subst (λ k. In k seen) (sym (ap trim_space same ∙ (eq_iff (trim_space v) a).0 t)) m)

kept :
    (seen names : List String) (v value : String) (values : List String)
    → (In value values → Found (trim_space v ∷ seen) names (trim_space value))
    → In value (v ∷ values)
    → Found seen (trim_space v ∷ names) (trim_space value)
kept seen names v value values ih (inl same) = inr (inl (ap trim_space same))
kept seen names v value values ih (inr m) = elim (ih m) [
  | inr there ↦ inr (inr there)
  | inl before ↦ elim before [ inl here ↦ inr (inl here) | inr s ↦ inl s ]
]

distinct-In :
    (seen values : List String) (value : String)
    → trim_space value ≢ ""
    → In value values
    → Found seen (distinct seen values) (trim_space value)
unfolding distinct
distinct-In seen [] value n m = elim m [ ]
distinct-In seen (v ∷ values) value n m =
    elim (Bool-cases (str_eq (trim_space v) "" || any (str_eq (trim_space v)) seen)) [
      | inl e ↦
          rw (e, if◌then◌else◌)
            (skipped seen (distinct seen values) v value values e n
              (distinct-In seen values value n) m)
      | inr e ↦
          rw (e, if◌then◌else◌)
            (kept seen (distinct (trim_space v ∷ seen) values) v value values
              (distinct-In (trim_space v ∷ seen) values value n) m)
    ]

-- What a scanner can rely on.
pub record IsUsable (s : Settings) (c : Config) : Type 0 where
  pub some_namespace : is_nil c.namespaces ≡ false
  pub all_namespaces :
      (value : String)
      → In value s.namespaces
      → trim_space value ≢ ""
      → In (trim_space value) c.namespaces
  pub counts_scans : 1 ≤ c.min_critical_scans
  pub analyzes : 1 ≤ c.max_analyses_per_scan
  pub diagnoses : 1 ≤ c.max_diagnostics_per_scan
  pub reads_events : 1 ≤ c.event_limit

-- Where New accepts its settings, there is a namespace to scan, every namespace that was given is
-- scanned but for blank ones, and all counts and budgets are positive, whatever was given for them.
-- So recovery waits for one critical scan at least.
pub new_scanner-IsUsable : (s : Settings) (c : Config) → new_scanner s ≡ ok c → IsUsable s c
unfolding new_scanner normalized_namespaces
new_scanner-IsUsable s c h =
    let names = normalized_namespaces s.namespaces in
    let (_, some_name, h1) = >>=-eq-ok (reject (is_nil names) no_namespace) _ h in
    let (_, positive, h2) = >>=-eq-ok (reject (not (ltb_ℤ (pos 0) s.interval)) bad_interval) _ h1 in
    let same : names ≡ c.namespaces = ground (arith, h2) in
    record {
      some_namespace = rw (← same) (reject-eq-ok (is_nil names) no_namespace some_name);
      all_namespaces = λ value m n. subst (In (trim_space value)) same (
          sort_texts-In (trim_space value) (distinct [] s.namespaces)
            (elim (distinct-In [] s.namespaces value n m) [
              | inl impossible ↦ absurd impossible
              | inr there ↦ there
            ]));
      counts_scans = ground (arith, h2);
      analyzes = ground (arith, h2);
      diagnoses = ground (arith, h2);
      reads_events = ground (arith, h2);
    }
