-- ===== src/Artifacts/Read.antt =====
-- artifactStore.read: its arguments, and the scan of the lines of an artifact.
use Prim.Native.Char.{Char, code}
use Prim.Native.String.{len, ◌++◌ as add_text}
use infernex_agent.Prelude.{
  ℕ, suc, ◌+◌, ◌==◌, ltb, leb, Bool, true, false, not, ◌&&◌, ◌||◌, Option, none, some, String, List,
  [], ◌∷◌, str_eq, if◌then◌else◌, Outcome, ok, err, ◌>>=◌, ◌>>◌, reject,
}
use infernex_agent.Prelude.Text.{trim_space, contains, show_number}
use infernex_agent.Prelude.Int.{ℤ, pos, negsuc}
use infernex_agent.Prelude.Dict.{Dict, lookup}
use infernex_agent.Artifacts.{ArtifactRecord, ArtifactStore, System}

abbrev pub max_read_bytes : ℕ
max_read_bytes = 65536

-- A value of the arguments; a number is whole or another one. A whole one of 2^63 exactly, which
-- artifactInteger lets through and whose conversion to an int Go leaves to the platform, counts as
-- another one.
pub data Argument : Type 0 where
  text : String → Argument
  whole : ℤ → Argument
  other : Argument

pub data ReadError : Type 0 where
  no_id unknown_id not_opened too_long : ReadError
  bad_integer : String → ReadError

-- What is returned, before its encoding.
pub record ReadResult : Type 0 where
  pub artifact_id : String
  pub sha256 : String
  pub total_lines : ℕ
  pub start_line : ℕ
  pub returned_lines : ℕ
  pub content : String
  pub truncated : Bool

abbrev pub text_of : String → Dict Argument → String
unfolding lookup
text_of name arguments = elim (lookup name arguments) [
  | none ↦ ""
  | some (text s) ↦ s
  | some (whole n) ↦ ""
  | some other ↦ ""
]

abbrev integer_in : String → ℕ → ℕ → ℤ → Outcome ReadError ℕ
integer_in name minimum maximum (pos n) =
    if leb minimum n && leb n maximum then ok n else err (bad_integer name)
integer_in name minimum maximum (negsuc n) = err (bad_integer name)

abbrev artifact_integer : Dict Argument → String → ℕ → ℕ → ℕ → Outcome ReadError ℕ
unfolding lookup
artifact_integer arguments name otherwise minimum maximum = elim (lookup name arguments) [
  | none ↦ ok otherwise
  | some (text s) ↦ err (bad_integer name)
  | some (whole n) ↦ integer_in name minimum maximum n
  | some other ↦ err (bad_integer name)
]

-- bufio.ScanLines: the lines without their line feeds, and without a carriage return at the end.
abbrev pub begin_line : Char → List String → List String
begin_line c [] = String.◌∷◌ c "" ∷ []
begin_line c (line ∷ lines) = String.◌∷◌ c line ∷ lines

unfoldable pub split_lines : String → List String
split_lines String.[] = []
split_lines (String.◌∷◌ c s) =
    let rest = split_lines s in if code c == 10 then "" ∷ rest else begin_line c rest

unfoldable pub drop_return : String → String
drop_return String.[] = ""
drop_return (String.◌∷◌ c String.[]) = if code c == 13 then "" else String.◌∷◌ c ""
drop_return (String.◌∷◌ c (String.◌∷◌ d s)) = String.◌∷◌ c (drop_return (String.◌∷◌ d s))

abbrev pub numbered_line : ℕ → String → String
unfolding show_number
numbered_line number line = add_text (show_number number) (add_text ": " (add_text line "\n"))

pub record Page : Type 0 where
  pub content : String
  pub selected : ℕ
  pub truncated : Bool

pub data Step : Type 0 where
  next done : Page → Step
  long_line : Step

module _ (y : System) where
  open y use {World}

  -- One pass of the loop, for the line of the number. A line that fills the buffer is an error.
  module _ (start_line max_lines : ℕ) (filter : String) (total : ℕ) where
    abbrev pub is_skipped : ℕ → String → Bool
    is_skipped number line =
        ltb number start_line || not (str_eq filter "") && not (contains (y.lower line) filter)

    abbrev pub with_line : ℕ → String → Page → Page
    with_line number line page = record page {
      content = add_text page.content (numbered_line number line);
      selected = page.selected + 1;
    }

    unfoldable pub step : ℕ → Page → String → Step
    unfolding drop_return
    step number page raw =
        let line = drop_return raw in
        let longer = with_line number line page in
        if leb max_read_bytes (len raw)
        then long_line
        else if is_skipped number line
        then next page
        else if ltb max_read_bytes (len page.content + len (numbered_line number line))
        then done (record page { truncated = true })
        else if leb max_lines longer.selected
        then done (record longer { truncated = ltb number total })
        else next longer

    -- The loop, after the lines that have been counted.
    unfoldable pub scan : ℕ → Page → List String → Outcome ReadError Page
    scan number page [] = ok page
    scan number page (raw ∷ raws) = elim (step (suc number) page raw) [
      | next longer ↦ scan (suc number) longer raws
      | done last ↦ ok last
      | long_line ↦ err too_long
    ]

  abbrev pub no_page : Page
  no_page = record { content = ""; selected = 0; truncated = false }

  abbrev pub result_of : String → ℕ → ArtifactRecord → Page → ReadResult
  result_of id start_line r page = record {
    artifact_id = id;
    sha256 = r.sha256;
    total_lines = r.lines;
    start_line = start_line;
    returned_lines = page.selected;
    content = page.content;
    truncated = page.truncated;
  }

  unfoldable pub read_file :
      String → ℕ → ℕ → String → ArtifactRecord → Option String → Outcome ReadError ReadResult
  unfolding scan split_lines
  read_file id start_line max_lines filter r none = err not_opened
  read_file id start_line max_lines filter r (some content) = do
    page ← scan start_line max_lines filter r.lines 0 no_page (split_lines content)
    ok (result_of id start_line r page)

  unfoldable pub read_record :
      String → ℕ → ℕ → String → World → Option ArtifactRecord → Outcome ReadError ReadResult
  unfolding read_file
  read_record id start_line max_lines filter w none = err unknown_id
  read_record id start_line max_lines filter w (some r) =
      read_file id start_line max_lines filter r (y.open_file r.path w)

  -- What follows once the texts are trimmed.
  unfoldable pub read_trimmed :
      ArtifactStore → String → String → Dict Argument → World → Outcome ReadError ReadResult
  unfolding read_record lookup
  read_trimmed s id filter arguments w = do
    reject (str_eq id "") no_id
    start_line ← artifact_integer arguments "start_line" 1 1 9223372036854775807
    max_lines ← artifact_integer arguments "max_lines" 120 1 500
    read_record id start_line max_lines filter w (lookup id s.records)

  unfoldable pub read : ArtifactStore → Dict Argument → World → Outcome ReadError ReadResult
  unfolding trim_space
  read s arguments w =
      read_trimmed s (trim_space (text_of "artifact_id" arguments))
        (y.lower (trim_space (text_of "contains" arguments))) arguments w
