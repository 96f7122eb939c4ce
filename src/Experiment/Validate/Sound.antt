-- ===== src/Experiment/Validate/Sound.antt =====
-- validateRequest accepts exactly the requests that its messages describe.
use mathlib.Core.Path.{subst}
use infernex_agent.Prelude.{
  suc, ◌≤◌, ◌≡◌, ◌≢◌, refl, sym, ap, ◌∙◌, Bool, true, false, not, ◌||◌, ◌↔◌, String, List, [], ◌∷◌,
  map, arith, str_eq, eq_iff, any, is_nil, ltb, Bool-cases, inl, inr, length, All, Outcome, ok, err,
  ◌>>=◌, reject, reject-eq-ok, >>=-eq-ok,
}
use infernex_agent.Prelude.Text.{trim_space}
use infernex_agent.Experiment.{
  Request, invalid_profile, duplicated, invalid_namespace, invalid_baseline, invalid_prefix,
  invalid_count, not_confirmed, Api,
}
use infernex_agent.Experiment.Validate.{max_feature_profiles, trim_profiles, validate_request}

abbrev pub Distinct : List String → Type 0
Distinct [] = Unit
Distinct (x ∷ xs) = All (λ y. y ≢ x) xs × Distinct xs

abbrev pub trimmed : Request → Request
trimmed request = record request {
  namespace = trim_space request.namespace;
  baseline_name = trim_space request.baseline_name;
  candidate_prefix = trim_space request.candidate_prefix;
  feature_profiles = map trim_space request.feature_profiles;
}

pub record IsValid (a : Api) (r : Request) : Type 0 where
  pub dns_namespace : a.is_dns_label r.namespace ≡ true
  pub dns_baseline : a.is_dns_subdomain r.baseline_name ≡ true
  pub dns_prefix : a.is_dns_subdomain r.candidate_prefix ≡ true
  pub dns_profiles : All (λ p. a.is_dns_subdomain p ≡ true) r.feature_profiles
  pub distinct : Distinct r.feature_profiles
  pub one_or_more : 1 ≤ length r.feature_profiles
  pub at_most : length r.feature_profiles ≤ 16
  pub confirmed : r.confirm ≡ true

module _ {E : Type 0} where
  -- A chain whose first step succeeds.
  >>=-ok :
      {A B : Type 0} (m : Outcome E A) (f : A → Outcome E B) (x : A) {b : B}
      → m ≡ ok x
      → f x ≡ ok b
      → (m >>= f) ≡ ok b
  >>=-ok (ok y) f x {b = b} e h =
      let same : y ≡ x = (let e' : ◌≡◌ {A = Outcome E _} (ok y) (ok x) = e in cc) in
      subst (λ z. f z ≡ ok b) (sym same) h
  >>=-ok (err _) f x e h = cc

  reject-ok : (bad : Bool) (e : E) → bad ≡ false → reject bad e ≡ ok tt
  reject-ok false e h = refl
  reject-ok true e h = cc

-- Not among those that were seen.
abbrev New : List String → String → Type 0
New seen name = any (str_eq name) seen ≡ false

New-both : (x : String) (seen : List String) (y : String) → New (x ∷ seen) y → (y ≢ x) × New seen y
unfolding any
New-both x seen y h = (λ same. (let e = (eq_iff y x).1 same in ground arith), ground arith)

New-from : (x : String) (seen : List String) (y : String) → y ≢ x → New seen y → New (x ∷ seen) y
unfolding any
New-from x seen y n h = elim (Bool-cases (str_eq y x)) [
  | inl e ↦ absurd (n ((eq_iff y x).0 e))
  | inr e ↦ ground arith
]

All-New_both :
    (x : String) (seen names : List String)
    → All (New (x ∷ seen)) names
    → All (λ y. y ≢ x) names × All (New seen) names
All-New_both x seen [] h = (tt, tt)
All-New_both x seen (y ∷ names) h =
    let (n, k) = New-both x seen y h.0 in
    let (ns, ks) = All-New_both x seen names h.1 in ((n, ns), (k, ks))

All-New_from :
    (x : String) (seen names : List String)
    → All (λ y. y ≢ x) names
    → All (New seen) names
    → All (New (x ∷ seen)) names
All-New_from x seen [] n k = tt
All-New_from x seen (y ∷ names) n k = (New-from x seen y n.0 k.0, All-New_from x seen names n.1 k.1)

All-New_nil : (names : List String) → All (New []) names
unfolding any
All-New_nil [] = tt
All-New_nil (y ∷ names) = (refl, All-New_nil names)

ok-injective : {E A : Type 0} {x y : A} → ◌≡◌ {A = Outcome E A} (ok x) (ok y) → x ≡ y
ok-injective h = cc

length-map : (f : String → String) (xs : List String) → length (map f xs) ≡ length xs
length-map f [] = refl
length-map f (x ∷ xs) = ap suc (length-map f xs)

module _ (a : Api) where
  -- What the loop has found out of the profiles.
  abbrev Checked : List String → List String → Type 0
  Checked seen names =
      All (λ p. a.is_dns_subdomain p ≡ true) names × Distinct names × All (New seen) names

  trim_profiles-eq_ok :
      (seen profiles names : List String)
      → trim_profiles a seen profiles ≡ ok names
      → (names ≡ map trim_space profiles) × Checked seen names
  unfolding trim_profiles
  trim_profiles-eq_ok seen [] names h =
      let same = ok-injective h in
      subst (λ ns. (ns ≡ []) × Checked seen ns) same (refl, (tt, tt, tt))
  trim_profiles-eq_ok seen (profile ∷ profiles) names h =
      let (_, dns, h1) = >>=-eq-ok (reject (not (a.is_dns_subdomain (trim_space profile))) _) _ h in
      let (_, new, h2) =
        >>=-eq-ok (reject (any (str_eq (trim_space profile)) seen) duplicated) _ h1 in
      let (rest, found, h3) =
        >>=-eq-ok (trim_profiles a (trim_space profile ∷ seen) profiles) _ h2 in
      let (same, checked) = trim_profiles-eq_ok (trim_space profile ∷ seen) profiles rest found in
      let (others, news) = All-New_both (trim_space profile) seen rest checked.2 in
      subst (λ ns. (ns ≡ map trim_space (profile ∷ profiles)) × Checked seen ns) (ok-injective h3)
        (
          ap (λ ns. trim_space profile ∷ ns) same,
          (
            (let e = reject-eq-ok _ _ dns in ground arith, checked.0),
            (others, checked.1),
            (reject-eq-ok _ _ new, news),
          ),
        )

  trim_profiles-ok :
      (seen profiles : List String)
      → Checked seen (map trim_space profiles)
      → trim_profiles a seen profiles ≡ ok (map trim_space profiles)
  unfolding trim_profiles
  trim_profiles-ok seen [] h = refl
  trim_profiles-ok seen (profile ∷ profiles) h =
      >>=-ok _ _ tt
        (reject-ok (not (a.is_dns_subdomain (trim_space profile))) invalid_profile
          (let e = h.0.0 in ground arith))
        (>>=-ok _ _ tt (reject-ok (any (str_eq (trim_space profile)) seen) duplicated h.2.0) (
          >>=-ok _ (λ names. ok (trim_space profile ∷ names)) (map trim_space profiles)
            (trim_profiles-ok (trim_space profile ∷ seen) profiles
              (h.0.1, h.1.1, All-New_from (trim_space profile) seen _ h.1.0 h.2.1))
            refl))

  -- What validateRequest tests of the numbers of profiles.
  counted :
      (profiles : List String)
      → is_nil profiles || ltb max_feature_profiles (length profiles) ≡ false
      → (1 ≤ length profiles) × (length profiles ≤ 16)
  counted [] h = absurd (ground arith)
  counted (x ∷ profiles) h = (omega arith, ground arith)

  count-false :
      (profiles : List String)
      → 1 ≤ length profiles
      → length profiles ≤ 16
      → is_nil profiles || ltb max_feature_profiles (length profiles) ≡ false
  count-false [] h k = absurd (omega arith)
  count-false (x ∷ profiles) h k = ground arith

  validate_request_sound :
      (request r : Request)
      → validate_request a request ≡ ok r
      → (r ≡ trimmed request) × IsValid a r
  unfolding validate_request
  validate_request_sound request r h =
      let namespace = trim_space request.namespace in
      let baseline = trim_space request.baseline_name in
      let prefix = trim_space request.candidate_prefix in
      let given = request.feature_profiles in
      let (_, e1, h1) = >>=-eq-ok (reject (not (a.is_dns_label namespace)) invalid_namespace) _ h in
      let (_, e2, h2) =
        >>=-eq-ok (reject (not (a.is_dns_subdomain baseline)) invalid_baseline) _ h1 in
      let (_, e3, h3) = >>=-eq-ok (reject (not (a.is_dns_subdomain prefix)) invalid_prefix) _ h2 in
      let (_, e4, h4) =
        >>=-eq-ok (reject (is_nil given || ltb max_feature_profiles (length given)) invalid_count) _
          h3 in
      let (profiles, found, h5) = >>=-eq-ok (trim_profiles a [] given) _ h4 in
      let (_, e6, h6) = >>=-eq-ok (reject (not request.confirm) not_confirmed) _ h5 in
      let (same, checked) = trim_profiles-eq_ok [] given profiles found in
      let count = counted given (reject-eq-ok _ _ e4) in
      let same_length = ap length same ∙ length-map trim_space given in
      subst (λ q. (q ≡ trimmed request) × IsValid a q) (ok-injective h6)
        (
          ap (λ names. record (trimmed request) { feature_profiles = names }) same,
          record {
            dns_namespace = let e = reject-eq-ok _ _ e1 in ground arith;
            dns_baseline = let e = reject-eq-ok _ _ e2 in ground arith;
            dns_prefix = let e = reject-eq-ok _ _ e3 in ground arith;
            dns_profiles = checked.0;
            distinct = checked.1;
            one_or_more = omega arith;
            at_most = omega arith;
            confirmed = let e = reject-eq-ok _ _ e6 in ground arith;
          },
        )

  validate_request_complete :
      (request : Request)
      → IsValid a (trimmed request)
      → validate_request a request ≡ ok (trimmed request)
  unfolding validate_request
  validate_request_complete request v =
      let given = request.feature_profiles in
      let same_length = length-map trim_space given in
      >>=-ok _ _ tt
        (reject-ok (not (a.is_dns_label (trim_space request.namespace))) invalid_namespace
          (let e = v.dns_namespace in ground arith))
        (>>=-ok _ _ tt
          (reject-ok (not (a.is_dns_subdomain (trim_space request.baseline_name))) invalid_baseline
            (let e = v.dns_baseline in ground arith))
          (>>=-ok _ _ tt
            (reject-ok (not (a.is_dns_subdomain (trim_space request.candidate_prefix)))
              invalid_prefix (let e = v.dns_prefix in ground arith))
            (>>=-ok _ _ tt
              (reject-ok _ invalid_count (
                count-false given (let n = v.one_or_more in omega arith)
                  (let n = v.at_most in omega arith)))
              (>>=-ok _ _ (map trim_space given)
                (trim_profiles-ok [] given
                  (v.dns_profiles, v.distinct, All-New_nil (map trim_space given)))
                (>>=-ok _ (λ _. ok (trimmed request)) tt
                  (reject-ok (not request.confirm) not_confirmed
                    (let e = v.confirmed in ground arith))
                  refl)))))

  -- validateRequest accepts a request exactly if, with its names trimmed, the namespace is a DNS
  -- label, the names of the baseline, the candidates and the profiles are DNS names, there are 1 to
  -- 16 profiles, none twice, and the request is confirmed; it returns the trimmed request.
  pub validate_request-ok_iff :
      (request r : Request)
      → (validate_request a request ≡ ok r) ↔ ((r ≡ trimmed request) × IsValid a r)
  validate_request-ok_iff request r = (
    validate_request_sound request r,
    λ (same, valid).
        validate_request_complete request (subst (IsValid a) same valid) ∙ ap ok (sym same),
  )
