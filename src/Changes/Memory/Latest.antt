-- ===== src/Changes/Memory/Latest.antt =====
-- The journal's contract: the last record that was appended is the one that is read.
use infernex_agent.Prelude.{
  ◌≡◌, ◌≢◌, refl, sym, ap, ◌∙◌, false, some, String, List, [], ◌∷◌, ◌++◌, str_eq, eq_iff, arith,
  if◌then◌else◌, ok, >>=-eq-ok,
}
use infernex_agent.Prelude.Dict.{put, lookup-put}
use infernex_agent.Changes.Record.{ChangeRecord, validate_record}
use infernex_agent.Changes.Memory.{MemoryStore, records_of, last_of, append, latest}

pub last_of-append :
    (records : List ChangeRecord) (r : ChangeRecord) → last_of (records ++ r ∷ []) ≡ some r
last_of-append [] r = refl
last_of-append (s ∷ []) r = refl
last_of-append (s ∷ t ∷ records) r = last_of-append (t ∷ records) r

records_of-put :
    (s : MemoryStore) (k id : String) (records : List ChangeRecord)
    → records_of (put k records s) id ≡ (if str_eq k id then records else records_of s id)
unfolding records_of
records_of-put s k id records = ground (arith, lookup-put k id records s)

-- After a record was appended, it is the latest of its change, and the latest record of every other
-- change, or its absence, is what it was.
pub append-latest :
    (s s' : MemoryStore) (r : ChangeRecord)
    → append s r ≡ ok s'
    → (latest s' r.id ≡ ok r) × ((id : String) → r.id ≢ id → latest s' id ≡ latest s id)
unfolding append latest
append-latest s s' r h =
    let (_, _, k) = >>=-eq-ok (validate_record r) _ h in
    let same : put r.id (records_of s r.id ++ r ∷ []) s ≡ s' = ground (arith, k) in
    let eq : (id : String)
        → records_of s' id
          ≡ (if str_eq r.id id then records_of s r.id ++ r ∷ [] else records_of s id) =
      λ id.
        ap (λ x. records_of x id) (sym same)
        ∙ records_of-put s r.id id (records_of s r.id ++ r ∷ []) in
    (
      rw (latest, eq r.id, (eq_iff r.id r.id).1 refl, if◌then◌else◌)
          (rw (last_of-append (records_of s r.id) r) refl),
      λ id n.
          let d : str_eq r.id id ≡ false = ground (arith, eq_iff r.id id) in
          rw (latest, eq id, d, if◌then◌else◌) refl,
    )
