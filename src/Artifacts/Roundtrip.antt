-- ===== src/Artifacts/Roundtrip.antt =====
-- What is put is what is read.
use Prim.Native.String.append
use Prim.Native.String.{len, ◌++◌ as add_text}
use infernex_agent.Prelude.{
  ℕ, ◌≤◌, ◌≡◌, Bool, true, Option, none, some, String, [], ◌∷◌, map, length, take, drop, ltb, ok,
  err, if◌then◌else◌,
}
use infernex_agent.Prelude.Text.{trim_space}
use infernex_agent.Prelude.Int.{pos}
use infernex_agent.Prelude.Dict.{Dict}
use infernex_agent.Artifacts.{
  ArtifactRecord, ArtifactStore, System, limit_exceeded, id_of, record_of, save, Put,
}
use infernex_agent.Artifacts.Read.{
  Argument, text, whole, ReadResult, max_read_bytes, drop_return, split_lines,
}
use infernex_agent.Artifacts.Pages.{numbered}

-- What the file system, the digest and the letters do.
pub record IsFaithful (y : System) : Type 0 where
  pub kept :
      (path content : String) (w : y.World)
      → (y.write path content w).0 ≡ true
      → (y.protect path (y.write path content w).1).0 ≡ true
      → y.open_file path (y.protect path (y.write path content w).1).1 ≡ some content
  pub trimmed : (content : String) → trim_space (id_of y content) ≡ id_of y content
  pub lower_empty : y.lower "" ≡ ""

-- The result has lines of the content in their order, the first one after `skipped` lines, as many
-- as were asked for unless there are no more or they do not fit, and says whether more follow.
pub record IsRead (content : String) (skipped max_lines : ℕ) (result : ReadResult) : Type 0 where
  pub same_content :
      result.content
      ≡ numbered skipped
          (take result.returned_lines (map drop_return (drop skipped (split_lines content))))
  pub at_most : result.returned_lines ≤ max_lines
  pub bounded : len result.content ≤ max_read_bytes
  pub same_total : result.total_lines ≡ length (split_lines content)
  pub rest :
      result.truncated ≡ ltb result.returned_lines (length (drop skipped (split_lines content)))

module _ (y : System) (faithful : IsFaithful y) where
  open y use {World}

  -- The arguments of a read.
  abbrev pub arguments_of : String → ℕ → ℕ → Dict Argument
  arguments_of id start_line max_lines =
      ("artifact_id", text id)
      ∷ ("start_line", whole (pos start_line))
      ∷ ("max_lines", whole (pos max_lines))
      ∷ []

  abbrev stored : ArtifactStore → String → World → World
  stored s content w =
      let path = (record_of y s content).path in (y.protect path (y.write path content w).1).1

  abbrev attempted : ArtifactStore → String → World → Option ArtifactRecord → Bool → Put y
  attempted s content w found large = elim found [
    | some r ↦ (ok r, s, w)
    | none ↦ if large then (err limit_exceeded, s, w) else save y s content w
  ]
