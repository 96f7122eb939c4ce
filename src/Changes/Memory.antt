-- ===== src/Changes/Memory.antt =====
-- MemoryStore of internal/changesafety/memory.go: the plain journal.
pub mod Latest
use infernex_agent.Prelude.{
  Bool, true, false, Option, none, some, String, List, [], ◌∷◌, ◌++◌, if◌then◌else◌, Outcome, ok,
  err, ◌>>◌, ◌>>=◌,
}
use infernex_agent.Prelude.Dict.{Dict, lookup, put}
use infernex_agent.Changes.Record.{ChangeRecord, ChangeError, not_found, validate_record}

abbrev pub MemoryStore : Type 0
MemoryStore = Dict (List ChangeRecord)

-- records[id], and its last entry.
unfoldable pub records_of : MemoryStore → String → List ChangeRecord
unfolding lookup
records_of s id = elim (lookup id s) [ none ↦ [] | some records ↦ records ]

abbrev pub last_of : List ChangeRecord → Option ChangeRecord
last_of [] = none
last_of (r ∷ []) = some r
last_of (r ∷ s ∷ records) = last_of (s ∷ records)

unfoldable pub append : MemoryStore → ChangeRecord → Outcome ChangeError MemoryStore
unfolding validate_record records_of put
append s r = validate_record r >> ok (put r.id (records_of s r.id ++ r ∷ []) s)

unfoldable pub latest : MemoryStore → String → Outcome ChangeError ChangeRecord
unfolding records_of
latest s id = elim (last_of (records_of s id)) [ none ↦ err not_found | some r ↦ ok r ]
