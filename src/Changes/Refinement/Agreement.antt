-- ===== src/Changes/Refinement/Agreement.antt =====
-- After any appends the two stores answer alike.
use mathlib.Core.Path.{subst}
use infernex_agent.Prelude.{
  ◌≡◌, refl, sym, ap, none, some, String, List, [], ◌∷◌, ◌++◌, All, ◌⊎◌, inl, inr, str_eq, eq_iff,
  Bool-cases, Outcome-cases, if◌then◌else◌, Outcome, ok, err,
}
use infernex_agent.Prelude.Dict.{lookup, put}
use infernex_agent.Changes.Record.{
  ChangeRecord, ChangeError, invalid_id, not_found, validate_record, valid_id,
}
use infernex_agent.Changes.Memory.{
  MemoryStore, records_of, append as append_memory, latest as latest_memory,
}
use infernex_agent.Changes.Files.{Codec, File, FileStore, files_of, append, latest}
use infernex_agent.Changes.Refinement.{
  reread, RoundTrips, Holds, Implements, read_latest-Holds, Holds-valid_id, append-eq, append-Holds,
  Implements-put,
}

-- A store that refuses a record stays as it is.
abbrev pub or_same : {S : Type 0} → S → Outcome ChangeError S → S
or_same s (ok s') = s'
or_same s (err e) = s

module _ (c : Codec) where
  unfoldable pub file_store_of : List ChangeRecord → FileStore → FileStore
  file_store_of [] fs = fs
  file_store_of (r ∷ records) fs = file_store_of records (or_same fs (append c fs r))

  unfoldable pub memory_store_of : List ChangeRecord → MemoryStore → MemoryStore
  memory_store_of [] ms = ms
  memory_store_of (r ∷ records) ms = memory_store_of records (or_same ms (append_memory ms r))

  append-refuses :
      (fs : FileStore) (ms : MemoryStore) (r : ChangeRecord) {e : ChangeError}
      → validate_record r ≡ err e
      → (append c fs r ≡ err e) × (append_memory ms r ≡ err e)
  unfolding append append_memory
  append-refuses fs ms r h = (rw (append, h) refl, rw (append_memory, h) refl)

  append_memory-eq :
      (ms : MemoryStore) (r : ChangeRecord)
      → validate_record r ≡ ok tt
      → append_memory ms r ≡ ok (put r.id (records_of ms r.id ++ r ∷ []) ms)
  unfolding append_memory
  append_memory-eq ms r h = rw (append_memory, h) refl

  append-Implements :
      (fs : FileStore) (ms : MemoryStore) (r : ChangeRecord)
      → RoundTrips c r
      → Implements c fs ms
      → Implements c (or_same fs (append c fs r)) (or_same ms (append_memory ms r))
  append-Implements fs ms r t i = elim (Outcome-cases (validate_record r)) [
    | inl (e, h) ↦ let (f, m) = append-refuses fs ms r h in rw (f, m) i
    | inr (_, h) ↦
        rw (append-eq c fs r h, append_memory-eq ms r h)
          (Implements-put c r.id _ _ fs ms
            (append-Holds c r (files_of fs r.id) (records_of ms r.id) h t) i)
  ]

  stores-Implements :
      (records : List ChangeRecord) (fs : FileStore) (ms : MemoryStore)
      → All (RoundTrips c) records
      → Implements c fs ms
      → Implements c (file_store_of records fs) (memory_store_of records ms)
  unfolding file_store_of memory_store_of
  stores-Implements [] fs ms t i = i
  stores-Implements (r ∷ records) fs ms t i =
      stores-Implements records _ _ t.1 (append-Implements fs ms r t.0 i)

  -- The stores both know a change, or neither does.
  lookup-Implements :
      (id : String) (fs : FileStore) (ms : MemoryStore)
      → Implements c fs ms
      → ((lookup id fs ≡ none) × (lookup id ms ≡ none))
        ⊎ ((files : List File) × (records : List ChangeRecord) × (lookup id fs ≡ some files)
            × (lookup id ms ≡ some records)
            × Holds c id files records)
  unfolding lookup
  lookup-Implements id [] [] i = inl (refl, refl)
  lookup-Implements id [] (_ ∷ _) i = absurd i
  lookup-Implements id (_ ∷ _) [] i = absurd i
  lookup-Implements id ((k, files) ∷ fs) ((k', records) ∷ ms) (same, held, rest) =
      let e : str_eq k' id ≡ str_eq k id = ap (λ x. str_eq x id) (sym same) in
      elim (Bool-cases (str_eq k id)) [
        | inl b ↦ inr (
          files,
          records,
          rw (lookup, b, if◌then◌else◌) refl,
          rw (lookup, e, b, if◌then◌else◌) refl,
          subst (λ x. Holds c x files records) ((eq_iff k id).0 b) held,
        )
        | inr b ↦ rw (lookup, e, b, if◌then◌else◌) (lookup-Implements id fs ms rest)
      ]

  -- What the journal answers, the file store answers, but for the spacing of the JSON texts.
  abbrev pub Agrees : String → FileStore → MemoryStore → Type 0
  Agrees id fs ms =
      ((r : ChangeRecord) × (latest_memory ms id ≡ ok r) × (latest c fs id ≡ ok (reread c r)))
      ⊎ ((e : ChangeError) × (e' : ChangeError) × (latest_memory ms id ≡ err e)
          × (latest c fs id ≡ err e'))

  latest-Agrees :
      (id : String) (fs : FileStore) (ms : MemoryStore) → Implements c fs ms → Agrees id fs ms
  unfolding latest latest_memory records_of
  latest-Agrees id fs ms i = elim (lookup-Implements id fs ms i) [
    | inl (f, m) ↦ elim (Bool-cases (valid_id id)) [
      | inl v ↦
          inr (not_found, not_found, rw (latest_memory, records_of, m) refl, rw (latest, v, f) refl)
      | inr v ↦
          inr (not_found, invalid_id, rw (latest_memory, records_of, m) refl, rw (latest, v) refl)
    ]
    | inr (files, records, f, m, held) ↦ inl (
      held.newest,
      rw (latest_memory, records_of, m) (rw held.is_last refl),
      rw (latest, Holds-valid_id c id files records held, f)
          (read_latest-Holds c id files records held),
    )
  ]

  -- Whatever was appended, to an empty file store and to an empty journal, accepted or refused: for
  -- each id both find no change, or the file store reads the very record that the journal has last,
  -- but for the spacing of its JSON texts. This where the JSON text of each record can be read back.
  pub file_store-Agrees :
      (records : List ChangeRecord) (id : String)
      → All (RoundTrips c) records
      → Agrees id (file_store_of records []) (memory_store_of records [])
  file_store-Agrees records id t = latest-Agrees id _ _ (stores-Implements records [] [] t tt)
