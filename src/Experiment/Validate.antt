-- ===== src/Experiment/Validate.antt =====
-- validateRequest of controller.go. The code writes the trimmed profiles into the caller's slice,
-- which nothing reads after an error.
pub mod Sound
use infernex_agent.Prelude.{
  ℕ, not, ◌||◌, String, List, [], ◌∷◌, str_eq, any, is_nil, ltb, length, Outcome, ok, ◌>>=◌, ◌>>◌,
  reject,
}
use infernex_agent.Prelude.Text.{trim_space}
use infernex_agent.Experiment.{
  Request, ExperimentError, invalid_namespace, invalid_baseline, invalid_prefix, invalid_count,
  invalid_profile, duplicated, not_confirmed, Api,
}

abbrev pub max_feature_profiles : ℕ
max_feature_profiles = 16

module _ (a : Api) where
  -- The loop over the profiles, with those seen so far.
  unfoldable pub trim_profiles : List String → List String → Outcome ExperimentError (List String)
  unfolding trim_space any
  trim_profiles seen [] = ok []
  trim_profiles seen (profile ∷ profiles) =
      let name = trim_space profile in
      let rest = trim_profiles (name ∷ seen) profiles in
      do
        reject (not (a.is_dns_subdomain name)) invalid_profile
        reject (any (str_eq name) seen) duplicated
        names ← rest
        ok (name ∷ names)

  unfoldable pub validate_request : Request → Outcome ExperimentError Request
  unfolding trim_space trim_profiles
  validate_request request = do
    let namespace = trim_space request.namespace
    let baseline = trim_space request.baseline_name
    let prefix = trim_space request.candidate_prefix
    reject (not (a.is_dns_label namespace)) invalid_namespace
    reject (not (a.is_dns_subdomain baseline)) invalid_baseline
    reject (not (a.is_dns_subdomain prefix)) invalid_prefix
    reject
        (is_nil request.feature_profiles
          || ltb max_feature_profiles (length request.feature_profiles))
        invalid_count
    profiles ← trim_profiles [] request.feature_profiles
    reject (not request.confirm) not_confirmed
    ok (record request {
      namespace = namespace;
      baseline_name = baseline;
      candidate_prefix = prefix;
      feature_profiles = profiles;
    })
