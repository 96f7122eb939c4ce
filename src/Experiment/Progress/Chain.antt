-- ===== src/Experiment/Progress/Chain.antt =====
-- A list of stages in which one is changed.
use mathlib.Core.Path.{subst}
use infernex_agent.Prelude.{
  ℕ, zero, suc, ◌≤◌, ◌<◌, ◌≡◌, ◌≢◌, refl, sym, ap, ◌∙◌, false, String, List, [], ◌∷◌, length, arith,
  str_eq, eq_iff,
}
use infernex_agent.Experiment.{Api, Stage}
use infernex_agent.Experiment.Machine.{set}
use infernex_agent.Experiment.Progress.{
  Terms, Linked, PassedFirst, stable_after, IsSound, AllSound, Open, Stopped,
}

-- The names that link a stage to the others.
abbrev pub SameLinks : Stage → Stage → Type 0
SameLinks t u =
    (t.index ≡ u.index)
    × (t.baseline_name ≡ u.baseline_name)
    × (t.candidate_name ≡ u.candidate_name)

pub set-Linked :
    (i : ℕ) (baseline : String) (stages : List Stage) (k : ℕ) (t u : Stage)
    → SameLinks t u
    → Linked i baseline (set stages k t)
    → Linked i baseline (set stages k u)
unfolding set
set-Linked i baseline [] k t u e h = h
set-Linked i baseline (s ∷ stages) zero t u e h =
    (sym e.0 ∙ h.0, sym e.1 ∙ h.1, subst (λ c. Linked (suc i) c stages) e.2 h.2)
set-Linked i baseline (s ∷ stages) (suc k) t u e h =
    (h.0, h.1, set-Linked (suc i) s.candidate_name stages k t u e h.2)

pub set-PassedFirst :
    (n : ℕ) (stages : List Stage) (k : ℕ) (t u : Stage)
    → n ≤ k
    → PassedFirst n (set stages k t)
    → PassedFirst n (set stages k u)
unfolding set
set-PassedFirst zero stages k t u l h = tt
set-PassedFirst (suc n) [] k t u l h = h
set-PassedFirst (suc n) (s ∷ stages) zero t u l h = absurd (omega arith)
set-PassedFirst (suc n) (s ∷ stages) (suc k) t u l h =
    (h.0, set-PassedFirst n stages k t u (omega arith) h.1)

pub set-stable_after :
    (n : ℕ) (baseline : String) (stages : List Stage) (k : ℕ) (t u : Stage)
    → t.candidate_name ≡ u.candidate_name
    → stable_after n baseline (set stages k t) ≡ stable_after n baseline (set stages k u)
unfolding set
set-stable_after zero baseline stages k t u e = refl
set-stable_after (suc n) baseline [] k t u e = refl
set-stable_after (suc n) baseline (s ∷ stages) zero t u e = ap (λ c. stable_after n c stages) e
set-stable_after (suc n) baseline (s ∷ stages) (suc k) t u e =
    set-stable_after n s.candidate_name stages k t u e

pub length-set : (stages : List Stage) (k : ℕ) (t : Stage) → length (set stages k t) ≡ length stages
unfolding set
length-set [] k t = refl
length-set (s ∷ stages) zero t = refl
length-set (s ∷ stages) (suc k) t = ap suc (length-set stages k t)

-- With the held stage passed, one more stage has passed.
pub passed-PassedFirst :
    (stages : List Stage) (k : ℕ) (t u : Stage)
    → k < length stages
    → u.status ≡ "passed"
    → PassedFirst k (set stages k t)
    → PassedFirst (suc k) (set stages k u)
unfolding set
passed-PassedFirst [] k t u l e h = absurd (omega arith)
passed-PassedFirst (s ∷ stages) zero t u l e h = (e, tt)
passed-PassedFirst (s ∷ stages) (suc k) t u l e h =
    (h.0, passed-PassedFirst stages k t u (omega arith) e h.1)

pub passed-stable_after :
    (baseline : String) (stages : List Stage) (k : ℕ) (u : Stage)
    → k < length stages
    → stable_after (suc k) baseline (set stages k u) ≡ u.candidate_name
unfolding set
passed-stable_after baseline [] k u l = absurd (omega arith)
passed-stable_after baseline (s ∷ stages) zero u l = refl
passed-stable_after baseline (s ∷ stages) (suc k) u l =
    passed-stable_after s.candidate_name stages k u (omega arith)

-- No stage is held.
pub set-length_eq : (stages : List Stage) (t : Stage) → set stages (length stages) t ≡ stages
unfolding set
set-length_eq [] t = refl
set-length_eq (s ∷ stages) t = ap (λ r. s ∷ r) (set-length_eq stages t)

pub texts_differ : (s t : String) → str_eq s t ≡ false → s ≢ t
texts_differ s t h same = let same' = (eq_iff s t).1 same in cc

module _ (a : Api) where
  pub set-AllSound :
      (terms : Terms) (stages : List Stage) (k : ℕ)
      → AllSound a terms stages
      → (t : Stage) → IsSound a terms t
      → AllSound a terms (set stages k t)
  unfolding set
  set-AllSound terms [] k h t sound = tt
  set-AllSound terms (s ∷ stages) zero h t sound = (sound, h.1)
  set-AllSound terms (s ∷ stages) (suc k) h t sound = (h.0, set-AllSound terms stages k h.1 t sound)

  pub Open-IsSound : (terms : Terms) (t : Stage) → Open a terms t → IsSound a terms t
  Open-IsSound terms t h = record { healthy = λ _. h.1; earned = λ e. absurd (h.0 e) }

  pub Stopped-IsSound : (terms : Terms) (t : Stage) → Stopped terms t → IsSound a terms t
  Stopped-IsSound terms t h = record {
    healthy = λ n. absurd (n h);
    earned = λ e. absurd (texts_differ "rolled-back" "passed" refl (sym h ∙ e));
  }
