-- ===== src/Experiment/Progress/Owned.antt =====
-- A candidate is created where none was, and only one that the experiment owns is deleted.
use mathlib.Core.Path.{subst}
use infernex_agent.Prelude.{
  ◌≡◌, refl, sym, Bool, true, false, not, String, List, ◌∷◌, arith, eq_iff, Outcome, ok, err,
}
use infernex_agent.Experiment.{Service, Stage, ReadError, not_found, failed, Api, not_owned}
use infernex_agent.Experiment.Machine.{
  Event, read, State, Act, pure, fail, call, ◌>>=◌, refuse, modify, get_service, delete_service,
}
use infernex_agent.Experiment.Machine.Keeps.{
  Moves, Keeps, Keeps-pure, Keeps-fail, Moves-modify, Moves-before,
}
use infernex_agent.Experiment.Candidate.{
  value_at, is_owned, verify_owned_candidate, after_deletion, delete_owned, delete_owned_candidate,
}
use infernex_agent.Experiment.Progress.{Terms, WasRead, HasOwner, IsRunning}
use infernex_agent.Experiment.Progress.Reads.{call-Keeps}
use infernex_agent.Experiment.Progress.Saved.{Running, Running-moved, Running-IsReadable}

is_owned-HasOwner :
    (id change_id : String) (s : Service) → is_owned id change_id s ≡ true → HasOwner id s
unfolding is_owned
is_owned-HasOwner id change_id s h = (
  (eq_iff (value_at "app.kubernetes.io/managed-by" s.labels) "infernex-agent").0 (ground arith),
  (eq_iff (value_at "agent.infernex.io/experiment-id" s.labels) id).0 (ground arith),
)

module _ (a : Api) (id : String) (E : Terms → Stage → Type 0) where
  open a use {World}

  -- The last event is what get_service has read.
  abbrev pub After : String → String → Outcome ReadError Service → State World → Type 0
  After namespace name found s =
      IsRunning a E id s × ((log : List Event) × (s.log ≡ read namespace name found ∷ log))

  pub get_service-Moves :
      {A : Type 0} {Q : State World → Type 0} (namespace name : String)
      (f : Outcome ReadError Service → Act World A)
      → ((found : Outcome ReadError Service) → Moves (After namespace name found) Q (f found))
      → Moves (Running a id E) Q (get_service a namespace name >>= f)
  unfolding get_service ◌>>=◌ call modify pure
  get_service-Moves namespace name f k = record {
    at = λ s h.
        let (found, w) = a.get_service namespace name s.world in
        (k found).at _ (Running-moved a id E s w _ h h.safe, (s.log, refl));
  }

  pub forget :
      (namespace name : String) (found : Outcome ReadError Service) (s : State World)
      → After namespace name found s
      → Running a id E s
  forget namespace name found s h = h.0

  -- What holds where only the state before is known to be running.
  pub weaken :
      {A : Type 0} (namespace name : String) (found : Outcome ReadError Service) (m : Act World A)
      → Keeps (Running a id E) m
      → Moves (After namespace name found) (Running a id E) m
  weaken namespace name found m k = record { at = λ s h. k.at s h.0 }

  after_deletion-Running :
      (r : Outcome ReadError (Unit {0})) → Keeps (Running a id E) (after_deletion a r)
  unfolding after_deletion
  after_deletion-Running (ok _) = Keeps-pure _
  after_deletion-Running (err (not_found _)) = Keeps-pure _
  after_deletion-Running (err (failed _)) = Keeps-fail _

  delete_service-Moves :
      (namespace name : String) (s : Service)
      → HasOwner id s
      → Moves (After namespace name (ok s)) (Running a id E) (delete_service a s)
  unfolding delete_service
  delete_service-Moves namespace name s owner =
      Moves-before _ _
        (Moves-modify _ λ t h.
          Running-moved a id E t t.world _ h.0
            (owner, subst (WasRead s) (sym h.1.1) refl, h.0.safe))
        λ _. call-Keeps a (Running-IsReadable a id E) _

  -- The guard of verifyOwnedCandidate.
  delete_verified-Moves :
      (namespace name change_id : String) (s : Service) (owned : Bool)
      → is_owned id change_id s ≡ owned
      → Moves
          (After namespace name (ok s))
          (Running a id E)
          (refuse (not owned) not_owned >>= λ _. delete_service a s >>= after_deletion a)
  unfolding ◌>>=◌ pure fail
  delete_verified-Moves namespace name change_id s false e = record { at = λ t h. h.0 }
  delete_verified-Moves namespace name change_id s true e =
      let m =
        Moves-before (delete_service a s) (after_deletion a)
          (delete_service-Moves namespace name s (is_owned-HasOwner id change_id s e))
          after_deletion-Running in
      record { at = m.at }

  delete_owned-Moves :
      (namespace name change_id : String) (found : Outcome ReadError Service)
      → Moves (After namespace name found) (Running a id E) (delete_owned a id change_id found)
  unfolding delete_owned verify_owned_candidate
  delete_owned-Moves namespace name change_id (err (not_found _)) =
      weaken namespace name _ _ (Keeps-pure _)
  delete_owned-Moves namespace name change_id (err (failed _)) =
      weaken namespace name _ _ (Keeps-fail _)
  delete_owned-Moves namespace name change_id (ok s) =
      delete_verified-Moves namespace name change_id s (is_owned id change_id s) refl

  pub delete_owned_candidate-Running :
      (namespace name experiment_id change_id : String)
      → experiment_id ≡ id
      → Keeps (Running a id E) (delete_owned_candidate a namespace name experiment_id change_id)
  unfolding delete_owned_candidate
  delete_owned_candidate-Running namespace name experiment_id change_id same =
      subst (λ i. Keeps (Running a id E) (delete_owned_candidate a namespace name i change_id))
        (sym same)
        (get_service-Moves namespace name _ (delete_owned-Moves namespace name change_id))
