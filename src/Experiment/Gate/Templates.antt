-- ===== src/Experiment/Gate/Templates.antt =====
-- The fingerprints of templates in controller.go: templateFingerprints and
-- checkTemplateFingerprints. The limit on the depth is what the recursion is on.
use infernex_agent.Prelude.{
  ℕ, zero, suc, Bool, false, not, ◌&&◌, none, some, String, List, [], ◌∷◌, ◌++◌, str_eq, any, all,
  keep, length, is_nil, ltb, if◌then◌else◌,
}
use Prim.Native.String.{◌++◌ as add_text}
use infernex_agent.Prelude.Dict.{Dict, lookup, put, member}
use infernex_agent.Experiment.{
  Service, ServiceConfig, graph_too_large, graph_cycle, empty_reference, template_unread,
  no_fingerprints, template_drifted, Api,
}
use infernex_agent.Experiment.Machine.{Act, pure, fail, gets, call, or_else, ◌>>=◌, ◌>>◌, refuse}

pub record Graph : Type 0 where
  pub result : Dict String
  pub visiting : List String

module _ {World : Type 0} where
  unfoldable pub visit_refs :
      (String → Graph → Act World Graph) → List String → Graph → Act World Graph
  visit_refs visit [] g = pure g
  visit_refs visit (name ∷ names) g = visit name g >>= visit_refs visit names

-- equality.Semantic.DeepEqual of two maps
abbrev pub within : Dict String → Dict String → Bool
unfolding all lookup
within d e =
    all (λ (p : String × String). elim (lookup p.0 e) [ none ↦ false | some v ↦ str_eq p.1 v ]) d

module _ (a : Api) where
  open a use {World}

  abbrev pub fingerprint : ServiceConfig → String
  fingerprint c = add_text c.uid (add_text ":" (a.config_sha256 c.spec))

  abbrev pub entered : String → ServiceConfig → Graph → Graph
  unfolding put
  entered name c g = record {
    result = put name (fingerprint c) g.result;
    visiting = name ∷ g.visiting;
  }

  abbrev pub left : String → Graph → Graph
  unfolding keep
  left name g = record g { visiting = keep (λ n. not (str_eq n name)) g.visiting }

  unfoldable pub expand : (String → Graph → Act World Graph) → String → Graph → Act World Graph
  expand visit name g = do
    found ← call (a.get_config a.settings.template_namespace name)
    config ← or_else template_unread found
    g' ← visit_refs visit config.spec.base_refs (entered name config g)
    pure (left name g')

  -- The guards of a visit.
  unfoldable pub enter : String → Graph → Act World Graph → Act World Graph
  unfolding any member
  enter name g expanded =
      if ltb 32 (length g.result)
      then fail graph_too_large
      else if any (str_eq name) g.visiting
      then fail graph_cycle
      else if member name g.result
      then pure g
      else if str_eq name ""
      then fail empty_reference
      else expanded

  -- The number is that of the levels that may still be entered.
  unfoldable pub visit : ℕ → String → Graph → Act World Graph
  visit zero name g = fail graph_too_large
  visit (suc levels) name g = enter name g (expand (visit levels) name g)

  unfoldable pub template_fingerprints : List String → Act World (Dict String)
  template_fingerprints names = do
    g ← visit_refs (visit 33) names (record { result = []; visiting = [] })
    pure g.result

  unfoldable pub check_template_fingerprints : Service → Service → Act World (Unit {0})
  unfolding within
  check_template_fingerprints baseline candidate = do
    t ← gets (λ s. s.stage)
    refuse (is_nil t.template_fingerprints) no_fingerprints
    current ← template_fingerprints (baseline.spec.base_refs ++ candidate.spec.base_refs)
    refuse (not (within current t.template_fingerprints && within t.template_fingerprints current))
        template_drifted
