-- ===== src/Base/Floats.antt =====
-- Python's floats as a parameter of the model: a type of finite doubles with the operations that the
-- program uses. `IsLawful` states what the proofs rely on, each a documented fact of IEEE doubles
-- and of Python's correctly rounded `/` between integers; Base/Floats/Fixed.antt meets it.
pub mod Fixed
pub mod Laws
use ulpx.Base.Tests.{if◌then◌else◌}
use ulpx.Base.Int.{ℤ}
use Prim.Native.Nat.{ℕ, ◌*◌, ◌≤◌, ◌<◌}
use mathlib.Core.Path.{◌≡◌}
use mathlib.Core.Bool.{Bool, true, false, not}

pub record Floats : Type 1 where
  pub F : Type 0
  -- `m / n` between integers. A literal such as 0.95 is `ratio 95 100`.
  pub ratio : ℕ → ℕ → F
  pub add : F → F → F
  pub sub : F → F → F
  pub mul : F → F → F
  pub div : F → F → F
  -- `a < b` and `a == b`
  pub lt : F → F → Bool
  pub eq : F → F → Bool
  -- `n == b` for an integer `n`
  pub eq_int : ℤ → F → Bool
  -- `round(x, digits)`
  pub round : F → ℕ → F

module _ (fl : Floats) where
  open fl use {F, ratio, sub, lt}

  abbrev pub zero_float : F
  zero_float = ratio 0 1

  abbrev pub one_float : F
  one_float = ratio 1 1

  -- `a >= b`
  abbrev pub ge : F → F → Bool
  ge a b = not (lt a b)

  -- `max(a, b)` keeps its first argument unless the second is greater; `min` likewise.
  abbrev pub max : F → F → F
  max a b = if lt a b then b else a

  abbrev pub min : F → F → F
  min a b = if lt b a then b else a

  abbrev pub abs : F → F
  abs a = if lt a zero_float then sub zero_float a else a

  -- `a <= b`, as a statement.
  abbrev pub AtMost : F → F → Type 0
  AtMost a b = lt b a ≡ false

pub record IsLawful (fl : Floats) : Type 0 where
  -- The order of finite doubles is total.
  pub lt_irrefl : (a : fl.F) → fl.lt a a ≡ false
  pub lt_asymm : (a b : fl.F) → fl.lt a b ≡ true → fl.lt b a ≡ false
  pub le_trans : (a b c : fl.F) → AtMost fl a b → AtMost fl b c → AtMost fl a c
  pub eq_refl : (a : fl.F) → fl.eq a a ≡ true
  pub lt_of_eq : (a b : fl.F) → fl.eq a b ≡ true → fl.lt a b ≡ false
  -- The division of integers and `round` are monotone, and exact where the result is 0 or 1.
  pub ratio_le :
      (a b c d : ℕ) → 0 < b → 0 < d → a * d ≤ c * b → AtMost fl (fl.ratio a b) (fl.ratio c d)
  pub ratio_zero : (n : ℕ) → 0 < n → fl.ratio 0 n ≡ zero_float fl
  pub ratio_one : (n : ℕ) → 0 < n → fl.ratio n n ≡ one_float fl
  pub ratio_lt_one : (a b : ℕ) → a < b → b ≤ 1_000_000 → fl.lt (fl.ratio a b) (one_float fl) ≡ true
  pub round_le : (a b : fl.F) (n : ℕ) → AtMost fl a b → AtMost fl (fl.round a n) (fl.round b n)
  pub round_zero : (n : ℕ) → fl.round (zero_float fl) n ≡ zero_float fl
  pub round_one : (n : ℕ) → fl.round (one_float fl) n ≡ one_float fl
  pub sub_nonneg : (a b : fl.F) → AtMost fl a b → AtMost fl (zero_float fl) (fl.sub b a)
  pub sub_nonpos : (a b : fl.F) → AtMost fl a b → AtMost fl (fl.sub a b) (zero_float fl)
  -- Exact results at zero.
  pub sub_zero : (a : fl.F) → fl.sub a (zero_float fl) ≡ a
  pub sub_self : (a : fl.F) → fl.sub a a ≡ zero_float fl
  pub add_zero : (a : fl.F) → fl.add a (zero_float fl) ≡ a
  pub mul_zero : (a : fl.F) → fl.mul a (zero_float fl) ≡ zero_float fl
  pub zero_mul : (a : fl.F) → fl.mul (zero_float fl) a ≡ zero_float fl
  pub zero_div :
      (a : fl.F) → fl.lt (zero_float fl) a ≡ true → fl.div (zero_float fl) a ≡ zero_float fl
