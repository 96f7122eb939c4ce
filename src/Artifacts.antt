-- ===== src/Artifacts.antt =====
-- The artifacts of a chat session, artifactStore of component/InferNex-Agent/internal/chat.
pub mod Budget
pub mod Read
pub mod Lines
pub mod Pages
pub mod Roundtrip
mod Examples
use Prim.Native.Char.{code}
use Prim.Native.String.{len, ◌++◌ as add_text}
use infernex_agent.Prelude.{
  ℕ, suc, ◌+◌, ◌==◌, Bool, true, false, Option, none, some, String, ltb, if◌then◌else◌, Outcome, ok,
  err,
}
use infernex_agent.Prelude.Dict.{Dict, lookup, put as put_entry}

pub record ArtifactRecord : Type 0 where
  pub id : String
  pub sha256 : String
  pub path : String
  pub bytes : ℕ
  pub lines : ℕ

-- New sets a positive limit.
pub record ArtifactStore : Type 0 where
  pub directory : String
  pub max_session_bytes : ℕ
  pub used_bytes : ℕ
  pub records : Dict ArtifactRecord

pub data ArtifactError : Type 0 where
  limit_exceeded not_written not_protected : ArtifactError

-- The digest, the file system and the letters. A file that was written stays where it cannot be protected.
pub record System : Type 1 where
  pub World : Type 0
  pub sum : String → String  -- the SHA-256 sum in hex
  pub join : String → String → String
  pub write : String → String → World → Bool × World
  pub protect : String → World → Bool × World
  pub open_file : String → World → Option String  -- what is read of it until its end
  pub lower : String → String  -- strings.ToLower, with the tables of Unicode

-- bytes.Count of line feeds, and one more for a last line without one.
unfoldable pub line_feeds : String → ℕ
line_feeds String.[] = 0
line_feeds (String.◌∷◌ c s) = let rest = line_feeds s in if code c == 10 then suc rest else rest

unfoldable pub ends_open : String → Bool
ends_open String.[] = false
ends_open (String.◌∷◌ c String.[]) = if code c == 10 then false else true
ends_open (String.◌∷◌ c (String.◌∷◌ d s)) = ends_open (String.◌∷◌ d s)

unfoldable pub count_lines : String → ℕ
unfolding line_feeds ends_open
count_lines s = if ends_open s then line_feeds s + 1 else line_feeds s

abbrev pub id_of : System → String → String
id_of y content = add_text "sha256:" (y.sum content)

module _ (y : System) where
  open y use {World}

  abbrev pub Put : Type 0
  Put = Outcome ArtifactError ArtifactRecord × ArtifactStore × World

  abbrev pub record_of : ArtifactStore → String → ArtifactRecord
  unfolding count_lines
  record_of s content = record {
    id = id_of y content;
    sha256 = y.sum content;
    path = y.join s.directory (add_text (y.sum content) ".log");
    bytes = len content;
    lines = count_lines content;
  }

  abbrev pub added : ArtifactStore → ArtifactRecord → ArtifactStore
  unfolding put_entry
  added s r = record s { used_bytes = s.used_bytes + r.bytes; records = put_entry r.id r s.records }

  saved : ArtifactStore → ArtifactRecord → Bool → Bool → World → World → Put
  saved s r true true w w' = (ok r, added s r, w')
  saved s r true false w w' = (err not_protected, s, w')
  saved s r false protected w w' = (err not_written, s, w)

  save : ArtifactStore → String → World → Put
  unfolding saved
  save s content w =
      let r = record_of s content in
      let (written, w1) = y.write r.path content w in
      let (protected, w2) = y.protect r.path w1 in saved s r written protected w1 w2

  unfoldable pub put : ArtifactStore → String → World → Put
  unfolding save lookup
  put s content w = elim (lookup (id_of y content) s.records) [
    | some r ↦ (ok r, s, w)
    | none ↦
        if ltb s.max_session_bytes (s.used_bytes + len content)
        then (err limit_exceeded, s, w)
        else save s content w
  ]
