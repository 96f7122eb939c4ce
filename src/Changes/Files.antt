-- ===== src/Changes/Files.antt =====
-- FileStore of internal/changesafety/store.go: one directory for each change, one file for each
-- event. A file is named by a sequence number of 20 digits and the status, so that names compare as
-- the numbers do, then as the statuses; an int has 19 digits at most. The JSON encoding is a
-- parameter. Failures of the file system are not modelled, nor are files of other programs.
use Prim.Native.String.{compare as compare_text}
use text.Mathlib.Text.{is_lt}
use infernex_agent.Prelude.{
  ℕ, zero, suc, Bool, not, ◌&&◌, ◌||◌, Option, none, some, String, List, [], ◌∷◌, ◌++◌, str_eq, any,
  ltb, leb, ◌==◌, if◌then◌else◌, Outcome, ok, err, ◌>>◌, ◌>>=◌, reject,
}
use infernex_agent.Prelude.Dict.{Dict, lookup, put}
use infernex_agent.Changes.Record.{
  ChangeRecord, ChangeError, invalid_id, not_found, no_events, not_decoded, not_unique, valid_id,
  validate_record,
}

-- json.MarshalIndent and json.Unmarshal on ChangeRecord. A record that is read again has the same
-- fields, but its JSON texts may be spaced otherwise.
pub record Codec : Type 0 where
  pub encode : ChangeRecord → String
  pub decode : String → Option ChangeRecord
  pub respaced : String → String

pub record File : Type 0 where
  pub sequence : ℕ
  pub status : String
  pub contents : String

abbrev pub FileStore : Type 0
FileStore = Dict (List File)

unfoldable pub files_of : FileStore → String → List File
unfolding lookup
files_of s id = elim (lookup id s) [ none ↦ [] | some files ↦ files ]

-- The loop that finds the next sequence number.
unfoldable pub next_sequence : ℕ → List File → ℕ
next_sequence next [] = next
next_sequence next (f ∷ files) =
    next_sequence (if leb next f.sequence then suc f.sequence else next) files

-- os.ErrExist: the file is there.
unfoldable pub has_file : ℕ → String → List File → Bool
unfolding any
has_file sequence status files =
    any (λ (f : File). f.sequence == sequence && str_eq f.status status) files

abbrev pub name_less : File → File → Bool
name_less f g =
    ltb f.sequence g.sequence || f.sequence == g.sequence && is_lt (compare_text f.status g.status)

-- The loop of latestUnlocked.
unfoldable pub latest_file : Option File → List File → Option File
latest_file latest [] = latest
latest_file none (f ∷ files) = latest_file (some f) files
latest_file (some g) (f ∷ files) = latest_file (if name_less g f then some f else some g) files

module _ (c : Codec) where
  -- The loop over the attempts, on those that are left.
  unfoldable pub create : ℕ → ℕ → ChangeRecord → List File → Outcome ChangeError (List File)
  unfolding has_file
  create zero sequence r files = err not_unique
  create (suc left) sequence r files =
      let retried = create left (suc sequence) r files in
      if has_file sequence r.status files
      then retried
      else ok
          (files ++ record { sequence = sequence; status = r.status; contents = c.encode r } ∷ [])

  unfoldable pub append : FileStore → ChangeRecord → Outcome ChangeError FileStore
  unfolding validate_record files_of create next_sequence put
  append s r = do
    validate_record r
    files ← create 100 (next_sequence 1 (files_of s r.id)) r (files_of s r.id)
    ok (put r.id files s)

  unfoldable pub read_event : File → Outcome ChangeError ChangeRecord
  unfolding validate_record
  read_event f = elim (c.decode f.contents) [
    | none ↦ err not_decoded
    | some r ↦ validate_record r >> ok r
  ]

  unfoldable pub read_latest : List File → Outcome ChangeError ChangeRecord
  unfolding latest_file read_event
  read_latest files = elim (latest_file none files) [ none ↦ err no_events | some f ↦ read_event f ]

  unfoldable pub latest : FileStore → String → Outcome ChangeError ChangeRecord
  unfolding lookup valid_id read_latest
  latest s id =
      reject (not (valid_id id)) invalid_id
      >> elim (lookup id s) [ none ↦ err not_found | some files ↦ read_latest files ]
