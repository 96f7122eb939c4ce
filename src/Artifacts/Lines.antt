-- ===== src/Artifacts/Lines.antt =====
-- The number of lines that put counts is that of the lines that a scan reads.
use Prim.Native.Char.{Char, code}
use infernex_agent.Prelude.{
  ℕ, suc, ◌+◌, ◌≤◌, ◌==◌, ◌≡◌, refl, Bool, true, false, String, List, [], ◌∷◌, length, arith,
  if◌then◌else◌,
}
use infernex_agent.Artifacts.{line_feeds, ends_open, count_lines}
use infernex_agent.Artifacts.Read.{begin_line, split_lines}

length-begin_line :
    (c : Char) (lines : List String) → 1 ≤ length lines → length (begin_line c lines) ≡ length lines
length-begin_line c [] h = absurd (omega arith)
length-begin_line c (line ∷ lines) h = refl

begin_line-some : (c : Char) (lines : List String) → 1 ≤ length (begin_line c lines)
begin_line-some c [] = omega arith
begin_line-some c (line ∷ lines) = omega arith

some_lines :
    (c : Char) (lines : List String) (feed : Bool)
    → 1 ≤ length (if feed then "" ∷ lines else begin_line c lines)
some_lines c lines true = omega arith
some_lines c lines false = begin_line-some c lines

split_lines-some : (c : Char) (s : String) → 1 ≤ length (split_lines (String.◌∷◌ c s))
unfolding split_lines
split_lines-some c s = some_lines c (split_lines s) (code c == 10)

one_line :
    (c : Char) (feed : Bool)
    → (if (if feed then false else true)
        then (if feed then 1 else 0) + 1
        else (if feed then 1 else 0))
      ≡ length (if feed then "" ∷ [] else begin_line c [])
one_line c true = refl
one_line c false = refl

more_lines :
    (c : Char) (lines : List String) (n : ℕ) (open_end feed : Bool)
    → 1 ≤ length lines
    → (if open_end then n + 1 else n) ≡ length lines
    → (if open_end then (if feed then suc n else n) + 1 else (if feed then suc n else n))
      ≡ length (if feed then "" ∷ lines else begin_line c lines)
more_lines c lines n true true some h = omega arith
more_lines c lines n false true some h = omega arith
more_lines c lines n true false some h = let e = length-begin_line c lines some in omega arith
more_lines c lines n false false some h = let e = length-begin_line c lines some in omega arith

pub count_lines-length : (s : String) → count_lines s ≡ length (split_lines s)
unfolding count_lines line_feeds ends_open split_lines
count_lines-length String.[] = refl
count_lines-length (String.◌∷◌ c String.[]) = one_line c (code c == 10)
count_lines-length (String.◌∷◌ c (String.◌∷◌ d s)) =
    more_lines c (split_lines (String.◌∷◌ d s)) (line_feeds (String.◌∷◌ d s))
      (ends_open (String.◌∷◌ d s)) (code c == 10) (split_lines-some d s)
      (count_lines-length (String.◌∷◌ d s))
