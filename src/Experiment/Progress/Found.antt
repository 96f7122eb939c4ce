-- ===== src/Experiment/Progress/Found.antt =====
-- The plan that the store holds, and its current stage.
use mathlib.Core.Path.{subst}
use infernex_agent.Prelude.{
  ℕ, zero, suc, ◌+◌, ◌≤◌, ◌<◌, ◌≡◌, refl, sym, ap, Bool, true, false, Option, none, some, String,
  List, [], ◌∷◌, length, arith, str_eq, eq_iff, if◌then◌else◌,
}
use infernex_agent.Experiment.{Api, Stage, Plan}
use infernex_agent.Experiment.Machine.{Event, read, deleted, created, saved, set}
use infernex_agent.Experiment.Plans.{find_plan, get_elem?}
use infernex_agent.Experiment.Progress.{
  Terms, IsKept, IsSafe, PassedFirst, Linked, IsSound, AllSound,
}

some-injective : {A : Type 0} {x y : A} → ◌≡◌ {A = Option A} (some x) (some y) → x ≡ y
some-injective h = cc

module _ (a : Api) where
  found_plan :
      (id : String) (q : Plan) (same : Bool) (rest : Option Plan) {p : Plan}
      → str_eq q.id id ≡ same
      → IsKept a q
      → (rest ≡ some p → IsKept a p × (p.id ≡ id))
      → (if same then some q else rest) ≡ some p
      → IsKept a p × (p.id ≡ id)
  found_plan id q false rest s h k e = k e
  found_plan id q true rest {p = p} s h k e =
      subst (λ x. IsKept a x × (x.id ≡ id)) (some-injective e) (h, (eq_iff q.id id).0 s)

  pub find_plan-IsKept :
      (id : String) (log : List Event) {p : Plan}
      → IsSafe a id log
      → find_plan id log ≡ some p
      → IsKept a p × (p.id ≡ id)
  unfolding find_plan
  find_plan-IsKept id [] {p = p} h e = absurd (let e' : none ≡ some p = e in cc)
  find_plan-IsKept id (saved q ∷ log) h e =
      found_plan id q (str_eq q.id id) (find_plan id log) refl h.0
        (λ e'. find_plan-IsKept id log h.1 e') e
  find_plan-IsKept id (read namespace name found ∷ log) h e = find_plan-IsKept id log h e
  find_plan-IsKept id (deleted s ∷ log) h e = find_plan-IsKept id log h.2 e
  find_plan-IsKept id (created s ∷ log) h e = find_plan-IsKept id log h.2 e

-- The current stage is the one that `set` would change.
pub set-get_elem? :
    (stages : List Stage) (k : ℕ) {t : Stage}
    → get_elem? stages k ≡ some t
    → (set stages k t ≡ stages) × (k < length stages)
unfolding get_elem? set
set-get_elem? [] k {t = t} e = absurd (let e' : none ≡ some t = e in cc)
set-get_elem? (s ∷ stages) zero {t = t} e =
    (let e' : some s ≡ some t = e in ap (λ u. u ∷ stages) (some-injective (sym e')), omega arith)
set-get_elem? (s ∷ stages) (suc k) e =
    let (same, below) = set-get_elem? stages k e in (ap (λ r. s ∷ r) same, omega arith)

pub get_elem?-index :
    (i : ℕ) (baseline : String) (stages : List Stage) (k : ℕ) {t : Stage}
    → Linked i baseline stages
    → get_elem? stages k ≡ some t
    → t.index ≡ i + k
unfolding get_elem?
get_elem?-index i baseline [] k {t = t} h e = absurd (let e' : none ≡ some t = e in cc)
get_elem?-index i baseline (s ∷ stages) zero {t = t} h e =
    let same : s ≡ t = some-injective e in
    let n = ap (λ (u : Stage). u.index) same in let i' = h.0 in omega arith
get_elem?-index i baseline (s ∷ stages) (suc k) h e =
    let ih = get_elem?-index (suc i) s.candidate_name stages k h.2 e in omega arith

pub PassedFirst-le : (n : ℕ) (stages : List Stage) → PassedFirst n stages → n ≤ length stages
PassedFirst-le zero stages h = omega arith
PassedFirst-le (suc n) [] h = absurd h
PassedFirst-le (suc n) (t ∷ stages) h = let ih = PassedFirst-le n stages h.1 in omega arith

module _ (a : Api) where
  pub get_elem?-IsSound :
      (terms : Terms) (stages : List Stage) (k : ℕ) {t : Stage}
      → AllSound a terms stages
      → get_elem? stages k ≡ some t
      → IsSound a terms t
  unfolding get_elem?
  get_elem?-IsSound terms [] k {t = t} h e = absurd (let e' : none ≡ some t = e in cc)
  get_elem?-IsSound terms (s ∷ stages) zero {t = t} h e =
      subst (IsSound a terms) (let e' : some s ≡ some t = e in some-injective e') h.0
  get_elem?-IsSound terms (s ∷ stages) (suc k) h e = get_elem?-IsSound terms stages k h.1 e
