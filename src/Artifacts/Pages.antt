-- ===== src/Artifacts/Pages.antt =====
-- The page that a scan returns.
use Prim.Native.String.{len, ◌++◌ as add_text}
use mathlib.Core.Path.{subst}
use text.Mathlib.TextLemmas.{append-nil, append_assoc}
use text.Mathlib.TextPositions.{len-append}
use infernex_agent.Prelude.{
  ℕ, zero, suc, ◌+◌, ◌≤◌, ◌<◌, ◌≡◌, refl, sym, ap, ◌∙◌, Bool, true, false, String, List, [], ◌∷◌,
  map, length, take, drop, All, arith, ltb, leb, Outcome, ok, err, if◌then◌else◌,
}
use infernex_agent.Artifacts.{System}
use infernex_agent.Artifacts.Read.{
  max_read_bytes, ReadError, too_long, numbered_line, drop_return, Page, Step, next, done,
  long_line, is_skipped, with_line, step, no_page, scan,
}

-- The lines with their numbers, after the first n.
abbrev pub numbered : ℕ → List String → String
numbered n [] = ""
numbered n (line ∷ lines) = add_text (numbered_line (suc n) line) (numbered (suc n) lines)

-- A line that the buffer of the scanner can hold.
abbrev pub IsShort : String → Type 0
IsShort line = len line < max_read_bytes

if-false : {A : Type 0} (b : Bool) (x z : A) → b ≡ false → (if b then x else z) ≡ z
if-false false x z h = refl
if-false true x z h = absurd (ground arith)

if-true : {A : Type 0} (b : Bool) (x z : A) → b ≡ true → (if b then x else z) ≡ x
if-true true x z h = refl
if-true false x z h = absurd (ground arith)

ltb-suc : (m n : ℕ) → ltb m n ≡ ltb (suc m) (suc n)
ltb-suc m n = ground arith

module _ (y : System) (start_line max_lines total : ℕ) where
  -- The page continues with some of the lines that come after the first n, and says whether all of
  -- them are there.
  pub record IsPage (n : ℕ) (raws : List String) (page : Page) (r : Outcome ReadError Page)
      : Type 0 where
    pub count : ℕ
    pub last : Page
    pub is_ok : r ≡ ok last
    pub same_content :
        last.content ≡ add_text page.content (numbered n (take count (map drop_return raws)))
    pub same_count : last.selected ≡ page.selected + count
    pub at_most : last.selected ≤ max_lines
    pub bounded : len last.content ≤ max_read_bytes
    pub within : count ≤ length raws
    pub rest : last.truncated ≡ ltb count (length raws)

  -- What step does with a line that it does not skip.
  abbrev fitted : ℕ → Page → Page → Bool → Bool → Step
  fitted number page longer big full =
      if big
      then done (record page { truncated = true })
      else if full
      then done (record longer { truncated = ltb number total })
      else next longer

  step-short :
      (n : ℕ) (page : Page) (raw : String)
      → start_line ≤ suc n
      → IsShort raw
      → step y start_line max_lines "" total (suc n) page raw ≡ (
          let line = drop_return raw in
          let longer = with_line y start_line max_lines "" total (suc n) line page in
          fitted
            (suc n)
            page
            longer
            (ltb max_read_bytes (len page.content + len (numbered_line (suc n) line)))
            (leb max_lines longer.selected))
  unfolding step
  step-short n page raw start short =
      if-false (leb max_read_bytes (len raw)) _ _ (ground arith)
      ∙ if-false (is_skipped y start_line max_lines "" total (suc n) (drop_return raw)) _ _
          (ground arith)

  abbrev goes_on : ℕ → List String → Step → Outcome ReadError Page
  goes_on n raws (next longer) = scan y start_line max_lines "" total (suc n) longer raws
  goes_on n raws (done last) = ok last
  goes_on n raws long_line = err too_long

  select_branch :
      (n : ℕ) (page : Page) (raw : String) (raws : List String) (big full : Bool)
      → ltb max_read_bytes (len page.content + len (numbered_line (suc n) (drop_return raw))) ≡ big
      → leb max_lines (page.selected + 1) ≡ full
      → total ≡ n + suc (length raws)
      → page.selected < max_lines
      → len page.content ≤ max_read_bytes
      → ((longer : Page)
          → longer.selected < max_lines
          → len longer.content ≤ max_read_bytes
          → longer.truncated ≡ page.truncated
          → IsPage (suc n) raws longer (scan y start_line max_lines "" total (suc n) longer raws))
      → IsPage n (raw ∷ raws) page (
          goes_on n raws (
            fitted
              (suc n)
              page
              (with_line y start_line max_lines "" total (suc n) (drop_return raw) page)
              big
              full))
  select_branch n page raw raws true full e f sum few small ih = record {
    count = 0;
    last = record page { truncated = true };
    is_ok = refl;
    same_content = sym (append-nil page.content);
    same_count = omega arith;
    at_most = omega arith;
    bounded = small;
    within = omega arith;
    rest = ground arith;
  }
  select_branch n page raw raws false true e f sum few small ih =
      let added = numbered_line (suc n) (drop_return raw) in
      let size = len-append page.content added in
      record {
        count = 1;
        last = record page {
          content = add_text page.content added;
          selected = page.selected + 1;
          truncated = ltb (suc n) total;
        };
        is_ok = refl;
        same_content = ap (add_text page.content) (sym (append-nil added));
        same_count = refl;
        at_most = omega arith;
        bounded = ground arith;
        within = omega arith;
        rest = ground arith;
      }
  select_branch n page raw raws false false e f sum few small ih =
      let added = numbered_line (suc n) (drop_return raw) in
      let size = len-append page.content added in
      let q =
        ih (with_line y start_line max_lines "" total (suc n) (drop_return raw) page) (ground arith)
          (ground arith) refl in
      record {
        count = suc q.count;
        last = q.last;
        is_ok = q.is_ok;
        same_content =
            q.same_content
            ∙ append_assoc page.content added
                (numbered (suc n) (take q.count (map drop_return raws)));
        same_count = let c = q.same_count in omega arith;
        at_most = q.at_most;
        bounded = q.bounded;
        within = let w = q.within in omega arith;
        rest = q.rest ∙ ltb-suc q.count (length raws);
      }

  select :
      (n : ℕ) (page : Page) (raws : List String)
      → start_line ≤ suc n
      → total ≡ n + length raws
      → page.selected < max_lines
      → len page.content ≤ max_read_bytes
      → page.truncated ≡ false
      → All IsShort raws
      → IsPage n raws page (scan y start_line max_lines "" total n page raws)
  unfolding scan
  select n page [] start sum few small whole_page short = record {
    count = 0;
    last = page;
    is_ok = refl;
    same_content = sym (append-nil page.content);
    same_count = omega arith;
    at_most = omega arith;
    bounded = small;
    within = omega arith;
    rest = whole_page;
  }
  select n page (raw ∷ raws) start sum few small whole_page short =
      subst (λ r. IsPage n (raw ∷ raws) page (goes_on n raws r))
        (sym (step-short n page raw start short.0))
        (select_branch n page raw raws _ _ refl refl sum few small λ longer fewer smaller whole.
          select (suc n) longer raws (omega arith) (omega arith) fewer smaller (whole ∙ whole_page)
            short.1)

  step-skips :
      (n : ℕ) (page : Page) (raw : String)
      → suc n < start_line
      → IsShort raw
      → step y start_line max_lines "" total (suc n) page raw ≡ next page
  unfolding step
  step-skips n page raw before short =
      if-false (leb max_read_bytes (len raw)) _ _ (ground arith)
      ∙ if-true (is_skipped y start_line max_lines "" total (suc n) (drop_return raw)) _ _
          (ground arith)

  -- The scan goes past the lines before the first one that is asked for.
  pub scan-IsPage :
      (d n : ℕ) (raws : List String)
      → start_line ≡ suc (n + d)
      → total ≡ n + length raws
      → 0 < max_lines
      → All IsShort raws
      → IsPage
          (n + d)
          (drop d raws)
          (no_page y)
          (scan y start_line max_lines "" total n (no_page y) raws)
  unfolding scan
  scan-IsPage zero n raws start sum some_lines short =
      subst
        (λ m. IsPage m raws (no_page y) (scan y start_line max_lines "" total n (no_page y) raws))
        (let e : n ≡ n + zero = omega arith in e)
        (select n (no_page y) raws (omega arith) sum some_lines (omega arith) refl short)
  scan-IsPage (suc d) n [] start sum some_lines short = record {
    count = 0;
    last = no_page y;
    is_ok = refl;
    same_content = refl;
    same_count = refl;
    at_most = omega arith;
    bounded = omega arith;
    within = omega arith;
    rest = refl;
  }
  scan-IsPage (suc d) n (raw ∷ raws) start sum some_lines short =
      subst (λ r. IsPage (n + suc d) (drop d raws) (no_page y) (goes_on n raws r))
        (sym (step-skips n (no_page y) raw (omega arith) short.0))
        (subst
          (λ m.
            IsPage m (drop d raws) (no_page y)
              (scan y start_line max_lines "" total (suc n) (no_page y) raws))
          (let e : suc n + d ≡ n + suc d = omega arith in e)
          (scan-IsPage d (suc n) raws (omega arith) (omega arith) some_lines short.1))
