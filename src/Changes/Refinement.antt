-- ===== src/Changes/Refinement.antt =====
-- The file store implements the plain journal: what is appended is read again.
pub mod Agreement
use mathlib.Core.Path.{subst}
use infernex_agent.Prelude.{
  ℕ, zero, suc, ◌+◌, ◌≤◌, ◌<◌, ◌≡◌, ◌≢◌, refl, sym, ap, ◌∙◌, Bool, true, false, not, ◌&&◌, ◌||◌,
  Option, none, some, String, List, [], ◌∷◌, ◌++◌, All, All-append, All-map, map, ◌⊎◌, inl, inr,
  any, str_eq, eq_iff, ltb, leb, ◌==◌, arith, Bool-cases, Outcome-cases, if◌then◌else◌, Outcome, ok,
  err, ◌>>◌, ◌>>=◌, reject, reject-eq-ok, >>=-eq-ok,
}
use infernex_agent.Prelude.Dict.{lookup, put}
use infernex_agent.Prelude.Int.{ltb_ℤ}
use infernex_agent.Changes.Record.{
  ChangeRecord, ChangeError, invalid_id, not_found, validate_record, valid_id,
}
use infernex_agent.Changes.Memory.{
  MemoryStore, records_of, last_of, append as append_memory, latest as latest_memory,
}
use infernex_agent.Changes.Memory.Latest.{last_of-append}
use infernex_agent.Changes.Files.{
  Codec, File, FileStore, files_of, next_sequence, has_file, name_less, latest_file, create, append,
  read_event, read_latest, latest,
}

-- A file is older than a sequence number.
abbrev Older : ℕ → File → Type 0
Older n f = f.sequence < n

next_sequence-grows : (next : ℕ) (files : List File) → next ≤ next_sequence next files
unfolding next_sequence
next_sequence-grows next [] = omega arith
next_sequence-grows next (f ∷ files) =
    ground (arith, next_sequence-grows (if leb next f.sequence then suc f.sequence else next) files)

next_sequence-Older : (next : ℕ) (files : List File) → All (Older (next_sequence next files)) files
unfolding next_sequence
next_sequence-Older next [] = tt
next_sequence-Older next (f ∷ files) =
    let next' = if leb next f.sequence then suc f.sequence else next in
    (ground (arith, next_sequence-grows next' files), next_sequence-Older next' files)

has_file-Older :
    (n : ℕ) (status : String) (files : List File)
    → All (Older n) files
    → has_file n status files ≡ false
unfolding has_file any
has_file-Older n status [] h = refl
has_file-Older n status (f ∷ files) h = ground (arith, has_file-Older n status files h.1)

-- A file that is newer than all is the latest.
latest_file-newest :
    (g : Option File) (files : List File) (f : File)
    → All (Older f.sequence) files
    → ((h : File) → g ≡ some h → h.sequence < f.sequence)
    → latest_file g (files ++ f ∷ []) ≡ some f
unfolding latest_file
latest_file-newest none [] f a b = refl
latest_file-newest (some g) [] f a b = ground (arith, b g refl)
latest_file-newest none (e ∷ files) f a b =
    latest_file-newest (some e) files f a.1 (λ h k. ground (arith, a.0))
latest_file-newest (some g) (e ∷ files) f a b = elim (Bool-cases (name_less g e)) [
  | inl l ↦
      rw (latest_file, l, if◌then◌else◌)
        (latest_file-newest (some e) files f a.1 (λ h k. ground (arith, a.0)))
  | inr l ↦ rw (latest_file, l, if◌then◌else◌) (latest_file-newest (some g) files f a.1 b)
]

module _ (c : Codec) where
  -- The record as it is read again.
  abbrev pub reread : ChangeRecord → ChangeRecord
  reread r = record r { before = c.respaced r.before; desired = c.respaced r.desired }

  -- The JSON text of the record can be read back.
  abbrev pub RoundTrips : ChangeRecord → Type 0
  RoundTrips r = c.decode (c.encode r) ≡ some (reread r)

  -- The files hold the journal's last record of a change as the latest file.
  pub record Holds (id : String) (files : List File) (records : List ChangeRecord) : Type 0 where
    pub newest : ChangeRecord
    pub is_last : last_of records ≡ some newest
    pub valid : validate_record newest ≡ ok tt
    pub of_change : newest.id ≡ id
    pub file : File
    pub is_latest : latest_file none files ≡ some file
    pub decodes : c.decode file.contents ≡ some (reread newest)

  -- The two stores, entry by entry.
  abbrev pub Implements : FileStore → MemoryStore → Type 0
  Implements [] [] = Unit
  Implements [] (_ ∷ _) = ⊥
  Implements (_ ∷ _) [] = ⊥
  Implements ((id, files) ∷ fs) ((id', records) ∷ ms) =
      (id ≡ id') × Holds id files records × Implements fs ms

  validate_record-reread : (r : ChangeRecord) → validate_record (reread r) ≡ validate_record r
  unfolding validate_record
  validate_record-reread r = refl

  read_latest-Holds :
      (id : String) (files : List File) (records : List ChangeRecord) (h : Holds id files records)
      → read_latest c files ≡ ok (reread h.newest)
  unfolding read_latest read_event
  read_latest-Holds id files records h =
      rw (read_latest, h.is_latest)
        (rw (read_event, h.decodes) (rw (validate_record-reread h.newest) (rw h.valid refl)))

  Holds-valid_id :
      (id : String) (files : List File) (records : List ChangeRecord)
      → Holds id files records
      → valid_id id ≡ true
  unfolding validate_record
  Holds-valid_id id files records h =
      subst (λ k. valid_id k ≡ true) h.of_change
        (let (_, e, _) = >>=-eq-ok (reject (not (valid_id h.newest.id)) invalid_id) _ h.valid in
          ground (arith, reject-eq-ok (not (valid_id h.newest.id)) invalid_id e))

  abbrev new_file : ChangeRecord → List File → File
  new_file r files = record {
    sequence = next_sequence 1 files;
    status = r.status;
    contents = c.encode r;
  }

  create-first :
      (n : ℕ) (r : ChangeRecord) (files : List File)
      → has_file n r.status files ≡ false
      → create c 100 n r files
        ≡ ok (files ++ record { sequence = n; status = r.status; contents = c.encode r } ∷ [])
  unfolding create
  create-first n r files h = rw (create, h) refl

  append-eq :
      (fs : FileStore) (r : ChangeRecord)
      → validate_record r ≡ ok tt
      → append c fs r ≡ ok (put r.id (files_of fs r.id ++ new_file r (files_of fs r.id) ∷ []) fs)
  unfolding append
  append-eq fs r h =
      let files = files_of fs r.id in
      let made =
        create-first (next_sequence 1 files) r files
          (has_file-Older (next_sequence 1 files) r.status files (next_sequence-Older 1 files)) in
      rw (append, h) (rw made refl)

  append-Holds :
      (r : ChangeRecord) (files : List File) (records : List ChangeRecord)
      → validate_record r ≡ ok tt
      → RoundTrips r
      → Holds r.id (files ++ new_file r files ∷ []) (records ++ r ∷ [])
  append-Holds r files records h t = record {
    newest = r;
    is_last = last_of-append records r;
    valid = h;
    of_change = refl;
    file = new_file r files;
    is_latest =
        latest_file-newest none files (new_file r files) (next_sequence-Older 1 files)
          (λ g k. absurd (ground (arith, k)));
    decodes = t;
  }

  Implements-put :
      (id : String) (files : List File) (records : List ChangeRecord) (fs : FileStore)
      (ms : MemoryStore)
      → Holds id files records
      → Implements fs ms
      → Implements (put id files fs) (put id records ms)
  unfolding put
  Implements-put id files records [] [] h i = (refl, h, tt)
  Implements-put id files records [] (_ ∷ _) h i = absurd i
  Implements-put id files records (_ ∷ _) [] h i = absurd i
  Implements-put id files records ((k, old) ∷ fs) ((k', old') ∷ ms) h (same, held, rest) =
      let e : str_eq k' id ≡ str_eq k id = ap (λ x. str_eq x id) (sym same) in
      elim (Bool-cases (str_eq k id)) [
        | inl b ↦ rw (put, e, b, if◌then◌else◌) (refl, h, rest)
        | inr b ↦
            rw (put, e, b, if◌then◌else◌) (same, held, Implements-put id files records fs ms h rest)
      ]
