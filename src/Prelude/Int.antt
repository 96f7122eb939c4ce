-- ===== src/Prelude/Int.antt =====
-- Signed integers over the native numbers: sums and orders go through the two parts of an
-- integer, which are numbers that `omega` reads.
use Prim.Native.Nat.{ℕ, zero, suc, ◌+◌, ◌-◌, ◌≤◌}
use mathlib.Core.Path.{◌≡◌, refl, sym, ap}
use mathlib.Core.Bool.{Bool, true, false, ◌&&◌}
use native.Mathlib.Omega.{arith}
use infernex_agent.Prelude.Tests.{ltb, leb, ◌==◌, if◌then◌else◌}

-- `negsuc n` is -(n + 1).
pub data ℤ : Type 0 where
  pos : ℕ → ℤ
  negsuc : ℕ → ℤ

abbrev pub pos_part : ℤ → ℕ
pos_part (pos n) = n
pos_part (negsuc n) = 0

abbrev pub neg_part : ℤ → ℕ
neg_part (pos n) = 0
neg_part (negsuc n) = suc n

abbrev pub sub_ℕ : ℕ → ℕ → ℤ
sub_ℕ a b = if leb b a then pos (a - b) else negsuc (b - a - 1)

infixl 65 ◌+ℤ◌ ◌-ℤ◌
infix 50 ◌≤ℤ◌
unfoldable pub ◌+ℤ◌ : ℤ → ℤ → ℤ
a +ℤ b = sub_ℕ (pos_part a + pos_part b) (neg_part a + neg_part b)

unfoldable pub ◌-ℤ◌ : ℤ → ℤ → ℤ
a -ℤ b = sub_ℕ (pos_part a + neg_part b) (neg_part a + pos_part b)

abbrev pub ◌≤ℤ◌ : ℤ → ℤ → Type 0
a ≤ℤ b = pos_part a + neg_part b ≤ pos_part b + neg_part a

abbrev pub ltb_ℤ : ℤ → ℤ → Bool
ltb_ℤ a b = ltb (pos_part a + neg_part b) (pos_part b + neg_part a)

abbrev pub max_ℤ : ℤ → ℤ → ℤ
max_ℤ a b = if ltb_ℤ a b then b else a

-- n copies of a.
unfoldable pub times : ℕ → ℤ → ℤ
times zero a = pos 0
times (suc n) a = times n a +ℤ a

pub +ℤ_parts :
    (a b : ℤ)
    → pos_part (a +ℤ b) + neg_part a + neg_part b ≡ neg_part (a +ℤ b) + pos_part a + pos_part b
unfolding ◌+ℤ◌
+ℤ_parts a b = ground arith

pub -ℤ_parts :
    (a b : ℤ)
    → pos_part (a -ℤ b) + neg_part a + pos_part b ≡ neg_part (a -ℤ b) + pos_part a + neg_part b
unfolding ◌-ℤ◌
-ℤ_parts a b = ground arith

pub eq_of_parts : (a b : ℤ) → pos_part a + neg_part b ≡ pos_part b + neg_part a → a ≡ b
eq_of_parts a b h = ground arith

pub ltb_ℤ→le : (a b : ℤ) → ltb_ℤ a b ≡ false → b ≤ℤ a
ltb_ℤ→le a b h = ground arith

pub ruleset int_laws = (arith, +ℤ_parts, -ℤ_parts, eq_of_parts)

pub times-zero : (a : ℤ) → times zero a ≡ pos 0
unfolding times
times-zero a = refl

pub times-suc : (n : ℕ) (a : ℤ) → times (suc n) a ≡ times n a +ℤ a
unfolding times
times-suc n a = refl

pub +ℤ_zero : (a : ℤ) → a +ℤ pos 0 ≡ a
unfolding ◌+ℤ◌
+ℤ_zero a = ground arith

pub -ℤ_zero : (a : ℤ) → a -ℤ pos 0 ≡ a
unfolding ◌-ℤ◌
-ℤ_zero a = ground arith

pub +ℤ_comm : (a b : ℤ) → a +ℤ b ≡ b +ℤ a
+ℤ_comm a b = omega int_laws

pub +ℤ_assoc : (a b c : ℤ) → a +ℤ b +ℤ c ≡ a +ℤ (b +ℤ c)
+ℤ_assoc a b c = omega int_laws

pub -ℤ_-ℤ : (a b c : ℤ) → a -ℤ b -ℤ c ≡ a -ℤ (b +ℤ c)
-ℤ_-ℤ a b c = omega int_laws

pub max_ℤ_zero : (a : ℤ) → pos 0 ≤ℤ a → max_ℤ a (pos 0) ≡ a
max_ℤ_zero a h = ground arith

pub max_ℤ_zero_left : (a : ℤ) → pos 0 ≤ℤ a → max_ℤ (pos 0) a ≡ a
max_ℤ_zero_left a h = ground arith

pub max_ℤ_nonneg : (a b : ℤ) → pos 0 ≤ℤ a → pos 0 ≤ℤ max_ℤ a b
max_ℤ_nonneg a b h = ground arith

pub +ℤ_nonneg : (a b : ℤ) → pos 0 ≤ℤ a → pos 0 ≤ℤ b → pos 0 ≤ℤ a +ℤ b
+ℤ_nonneg a b h k = omega int_laws

pub -ℤ_+ℤ : (a b : ℤ) → a -ℤ b +ℤ b ≡ a
-ℤ_+ℤ a b = omega int_laws

-- What is left after one more copy of `r` has been taken.
pub take_one_more : (x t r a : ℤ) → x +ℤ t ≡ a -ℤ r → x +ℤ (t +ℤ r) ≡ a
take_one_more x t r a h = rw (← +ℤ_assoc x t r) (rw h (-ℤ_+ℤ a r))

pub sub_nonneg : (a r : ℤ) → r ≤ℤ a → pos 0 ≤ℤ a -ℤ r
sub_nonneg a r h = omega int_laws

-- If what is left of `a - o` after `t` is not negative, then `t + o` is within `a`.
pub within : (x t a o : ℤ) → x +ℤ t ≡ a -ℤ o → pos 0 ≤ℤ x → t +ℤ o ≤ℤ a
within x t a o e h =
    let e₁ : pos_part (x +ℤ t) ≡ pos_part (a -ℤ o) = ap pos_part e in
    let e₂ : neg_part (x +ℤ t) ≡ neg_part (a -ℤ o) = ap neg_part e in omega int_laws

pub times_nonneg : (n : ℕ) (a : ℤ) → pos 0 ≤ℤ a → pos 0 ≤ℤ times n a
unfolding times
times_nonneg zero a h = omega arith
times_nonneg (suc n) a h = +ℤ_nonneg (times n a) a (times_nonneg n a h) h

-- Where n + 1 copies of `x` fit in `a`, one fits, and n fit in what it leaves.
pub fits_one : (t x a : ℤ) → pos 0 ≤ℤ t → t +ℤ x ≤ℤ a → x ≤ℤ a
fits_one t x a h k = omega int_laws

pub fits_rest : (t x a : ℤ) → t +ℤ x ≤ℤ a → t ≤ℤ a -ℤ x
fits_rest t x a k = omega int_laws

pub times-one : (a : ℤ) → times (suc zero) a ≡ a
unfolding times ◌+ℤ◌
times-one a = ground arith

pub times_shift : (n : ℕ) (a r : ℤ) → a +ℤ times (suc n) r ≡ a +ℤ r +ℤ times n r
times_shift n a r = rw (times-suc n r) (rw (+ℤ_comm (times n r) r) (sym (+ℤ_assoc a r (times n r))))

pub max_ℤ_assoc : (a b c : ℤ) → max_ℤ (max_ℤ a b) c ≡ max_ℤ a (max_ℤ b c)
max_ℤ_assoc a b c = ground arith

pub zero_+ℤ : (a : ℤ) → pos 0 +ℤ a ≡ a
unfolding ◌+ℤ◌
zero_+ℤ a = ground arith

abbrev pub eqb_ℤ : ℤ → ℤ → Bool
eqb_ℤ a b = pos_part a == pos_part b && neg_part a == neg_part b

pub eqb_ℤ_iff : (a b : ℤ) → eqb_ℤ a b ≡ true → a ≡ b
eqb_ℤ_iff a b h = ground arith
