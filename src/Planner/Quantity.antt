-- ===== src/Planner/Quantity.antt =====
-- resource.Quantity of k8s.io/apimachinery, which is not part of the repository: a section
-- parameter. Its documentation promises exact fixed-point numbers, so it comes with the number of
-- nano-units that a quantity stands for, and the laws of the operations over that number.
use Prim.Native.String.{len}
use infernex_agent.Prelude.{ℕ, ◌≡◌, refl, Option, some, String, Bool}
use infernex_agent.Prelude.Int.{ℤ, pos, ◌+ℤ◌, ◌-ℤ◌, ltb_ℤ}

pub record QuantityApi : Type 1 where
  pub Quantity : Type 0
  pub nanos : Quantity → ℤ
  -- The zero value of the struct, which a read of a missing key returns.
  pub nil : Quantity
  pub of_int : ℕ → Quantity  -- resource.NewQuantity(n, resource.DecimalSI)
  pub parse : String → Option Quantity  -- resource.ParseQuantity
  pub text : Quantity → String  -- String
  pub add : Quantity → Quantity → Quantity
  pub sub : Quantity → Quantity → Quantity
  pub less : Quantity → Quantity → Bool  -- a.Cmp(b) < 0
  pub round_milli : Quantity → Quantity  -- resource.NewMilliQuantity(q.MilliValue(), …)
  pub nanos-nil : nanos nil ≡ pos 0
  pub nanos-add : (a b : Quantity) → nanos (add a b) ≡ nanos a +ℤ nanos b
  pub nanos-sub : (a b : Quantity) → nanos (sub a b) ≡ nanos a -ℤ nanos b
  pub less_lem : (a b : Quantity) → less a b ≡ ltb_ℤ (nanos a) (nanos b)

-- The assumptions can be met: quantities that are integers, a number written as that many characters.
abbrev pub whole_units : QuantityApi
whole_units = record {
  Quantity = ℤ;
  nanos = λ a. a;
  nil = pos 0;
  of_int = pos;
  parse = λ s. some (pos (len s));
  text = λ a. "";
  add = ◌+ℤ◌;
  sub = ◌-ℤ◌;
  less = ltb_ℤ;
  round_milli = λ a. a;
  nanos-nil = refl;
  nanos-add = λ a b. refl;
  nanos-sub = λ a b. refl;
  less_lem = λ a b. refl;
}
