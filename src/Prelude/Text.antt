-- ===== src/Prelude/Text.antt =====
-- The functions of Go's `strings` package that the components use, over native texts.
use Prim.Native.Char.{Char, code}
use Prim.Native.Nat.compare as compare_ℕ
use Prim.Native.String.compare as compare_text
use Prim.Native.Nat.{ℕ, zero, suc, ◌+◌, ◌/◌, ◌%◌, Ordering, compare as compare_ℕ}
use Prim.Native.String.{
  String, len, slice, ◌++◌ as add_text, compare as compare_text, then as and_then,
}
use mathlib.Core.Path.{◌≡◌, refl, sym, ap, ◌∙◌}
use mathlib.Core.Bool.{Bool, true, false, ◌&&◌, ◌||◌, false≢true}
use mathlib.Core.Option.{none, some}
use mathlib.Core.List.{List, [], ◌∷◌, map}
use text.Mathlib.Text.{◌==◌ as str_eq, starts_with, find?, is_lt}
use text.Mathlib.TextPositions.{compare_refl}
use infernex_agent.Prelude.Tests.{leb, ◌==◌, if◌then◌else◌}

abbrev pub codes : String → List ℕ
codes String.[] = []
codes (String.◌∷◌ c s) = code c ∷ codes s

-- unicode.IsSpace
unfoldable pub is_space : ℕ → Bool
is_space c =
    (leb 9 c && leb c 13)
    || c == 32
    || c == 133
    || c == 160
    || c == 5760
    || (leb 8192 c && leb c 8202)
    || c == 8232
    || c == 8233
    || c == 8239
    || c == 8287
    || c == 12288

trim_left : String → String
unfolding is_space
trim_left String.[] = String.[]
trim_left (String.◌∷◌ c s) =
    let rest = trim_left s in if is_space (code c) then rest else String.◌∷◌ c s

trim_right : String → String
unfolding is_space
trim_right String.[] = String.[]
trim_right (String.◌∷◌ c s) =
    let rest = trim_right s in
    if is_space (code c) && str_eq rest String.[] then String.[] else String.◌∷◌ c rest

-- strings.TrimSpace
unfoldable pub trim_space : String → String
unfolding trim_left trim_right
trim_space s = trim_left (trim_right s)

-- strings.HasPrefix, strings.TrimPrefix and strings.Contains
abbrev pub has_prefix : String → String → Bool
has_prefix s p = starts_with s p

abbrev pub trim_prefix : String → String → String
trim_prefix s p = if starts_with s p then slice s (len p) (len s) else s

abbrev pub contains : String → String → Bool
contains s t = elim (find? s t) [ none ↦ false | some i ↦ true ]

lower_code : ℕ → ℕ
lower_code c = if leb b'A' c && leb c b'Z' then c + 32 else c

equal_codes : List ℕ → List ℕ → Bool
equal_codes [] [] = true
equal_codes (a ∷ s) (b ∷ t) = a == b && equal_codes s t
equal_codes _ _ = false

-- strings.EqualFold against a constant of ASCII letters other than k and s, which no letter
-- outside ASCII folds to.
unfoldable pub equal_fold : String → String → Bool
unfolding lower_code equal_codes
equal_fold s t = equal_codes (map lower_code (codes s)) (map lower_code (codes t))

trim_space_runs : trim_space " \t gpu x\n" ≡ "gpu x"
unfolding trim_space
trim_space_runs = refl

equal_fold_runs : equal_fold (trim_space " True ") "true" ≡ true
unfolding equal_fold trim_space
equal_fold_runs = refl

-- strings.ToLower(s) == t for a text t of ASCII letters. Besides A to Z, the letters that Go lowers
-- to an ASCII letter are the Kelvin sign and the dotted capital I.
go_lower_code : ℕ → ℕ
unfolding lower_code
go_lower_code c = if c == 8490 then b'k' else if c == 304 then b'i' else lower_code c

unfoldable pub lowers_to : String → String → Bool
unfolding go_lower_code equal_codes
lowers_to s t = equal_codes (map go_lower_code (codes s)) (codes t)

-- The character that stands in the second text where c stands in the first, or c.
paired : String → String → Char → Char
paired (String.◌∷◌ a s) (String.◌∷◌ b t) c =
    let rest = paired s t c in if code a == code c then b else rest
paired _ _ c = c

unfoldable pub translate : String → String → String → String
unfolding paired
translate from to String.[] = String.[]
translate from to (String.◌∷◌ c s) = String.◌∷◌ (paired from to c) (translate from to s)

-- strings.ToUpper on ASCII text
unfoldable pub to_upper : String → String
unfolding translate
to_upper s = translate "abcdefghijklmnopqrstuvwxyz" "ABCDEFGHIJKLMNOPQRSTUVWXYZ" s

-- utf8.RuneCountInString and string([]rune(s)[:n])
abbrev pub count_runes : String → ℕ
count_runes String.[] = 0
count_runes (String.◌∷◌ c s) = suc (count_runes s)

abbrev pub take_runes : ℕ → String → String
take_runes zero s = String.[]
take_runes (suc n) String.[] = String.[]
take_runes (suc n) (String.◌∷◌ c s) = String.◌∷◌ c (take_runes n s)

-- The decimal digits of a number, on fuel.
show_digits : ℕ → ℕ → String
show_digits zero n = ""
show_digits (suc fuel) n =
    let rest = show_digits fuel (n / 10) in
    let last = slice "0123456789" (n % 10) (n % 10 + 1) in
    if leb 10 n then add_text rest last else last

-- strconv.Itoa of a number that an int holds, which has 19 digits at most.
unfoldable pub show_number : ℕ → String
unfolding show_digits
show_number n = show_digits 19 n

show_number_example : show_number 1203 ≡ "1203"
unfolding show_number
show_number_example = refl

-- The other way round.
abbrev flipped : Ordering → Ordering
flipped Ordering.lt = Ordering.gt
flipped Ordering.eq = Ordering.eq
flipped Ordering.gt = Ordering.lt

compare_ℕ-flipped : (m n : ℕ) → compare_ℕ n m ≡ flipped (compare_ℕ m n)
compare_ℕ-flipped zero zero = compare_ℕ.zero-zero ∙ ap flipped (sym compare_ℕ.zero-zero)
compare_ℕ-flipped zero (suc n) = compare_ℕ.suc-zero n ∙ ap flipped (sym (compare_ℕ.zero-suc n))
compare_ℕ-flipped (suc m) zero = compare_ℕ.zero-suc m ∙ ap flipped (sym (compare_ℕ.suc-zero m))
compare_ℕ-flipped (suc m) (suc n) =
    compare_ℕ.suc-suc n m ∙ compare_ℕ-flipped m n ∙ ap flipped (sym (compare_ℕ.suc-suc m n))

and_then-flipped : (o p : Ordering) → and_then (flipped o) (flipped p) ≡ flipped (and_then o p)
and_then-flipped Ordering.lt p = refl
and_then-flipped Ordering.eq p = refl
and_then-flipped Ordering.gt p = refl

compare_text-flipped : (s t : String) → compare_text t s ≡ flipped (compare_text s t)
compare_text-flipped String.[] String.[] =
    compare_text.nil-nil ∙ ap flipped (sym compare_text.nil-nil)
compare_text-flipped String.[] (String.◌∷◌ d t) =
    compare_text.cons-nil d t ∙ ap flipped (sym (compare_text.nil-cons d t))
compare_text-flipped (String.◌∷◌ c s) String.[] =
    compare_text.nil-cons c s ∙ ap flipped (sym (compare_text.cons-nil c s))
compare_text-flipped (String.◌∷◌ c s) (String.◌∷◌ d t) =
    compare_text.cons-cons d c t s
    ∙ (λ i. and_then (compare_ℕ-flipped (code c) (code d) i) (compare_text-flipped s t i))
    ∙ and_then-flipped (compare_ℕ (code c) (code d)) (compare_text s t)
    ∙ ap flipped (sym (compare_text.cons-cons c d s t))

is_lt-flipped : (o : Ordering) → is_lt o ≡ true → is_lt (flipped o) ≡ false
is_lt-flipped Ordering.lt h = refl
is_lt-flipped Ordering.eq h = absurd (false≢true h)
is_lt-flipped Ordering.gt h = absurd (false≢true h)

-- A text that comes before another does not come after it.
pub compare_text-asym :
    (s t : String) → is_lt (compare_text s t) ≡ true → is_lt (compare_text t s) ≡ false
compare_text-asym s t h = ap is_lt (compare_text-flipped s t) ∙ is_lt-flipped (compare_text s t) h

-- A text does not come before an equal one.
pub text_not_lt : (s t : String) → s ≡ t → is_lt (compare_text s t) ≡ false
text_not_lt s t e = ap (λ x. is_lt (compare_text s x)) (sym e) ∙ ap is_lt (compare_refl s)
