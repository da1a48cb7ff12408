-- ===== src/Base/Floats/Fixed.antt =====
-- The float interface can be met: signed fixed-point numbers in units of a millionth.
use Prim.Native.Nat.{ℕ, suc, ◌+◌, ◌-◌, ◌*◌, ◌/◌, ◌≤◌, ◌<◌}
use mathlib.Core.Path.{refl, ap}
use mathlib.Core.Bool.{Bool}
use native.Mathlib.Omega.{arith}
use native.Mathlib.Nat.{
  le-div_iff_mul-le, div-lt_iff_lt-mul, div-mul-le_self, mul-le-mul_right, le_of_mul-le-mul_right,
  mul-div_right, mul_comm,
}
use ulpx.Base.Tests.{ltb, leb, eqb, if◌then◌else◌}
use ulpx.Base.Int.{ℤ, pos, negsuc}
use ulpx.Base.Floats.{Floats, IsLawful, AtMost}

abbrev pos_part : ℤ → ℕ
pos_part (pos n) = n
pos_part (negsuc n) = 0

abbrev neg_part : ℤ → ℕ
neg_part (pos n) = 0
neg_part (negsuc n) = suc n

abbrev sub_ℕ : ℕ → ℕ → ℤ
sub_ℕ a b = if leb b a then pos (a - b) else negsuc (b - a - 1)

abbrev unit : ℕ
unit = 1_000_000

abbrev fixed_add : ℤ → ℤ → ℤ
fixed_add a b = sub_ℕ (pos_part a + pos_part b) (neg_part a + neg_part b)

abbrev fixed_sub : ℤ → ℤ → ℤ
fixed_sub a b = sub_ℕ (pos_part a + neg_part b) (neg_part a + pos_part b)

abbrev fixed_mul : ℤ → ℤ → ℤ
fixed_mul a b =
    sub_ℕ ((pos_part a * pos_part b + neg_part a * neg_part b) / unit)
      ((pos_part a * neg_part b + neg_part a * pos_part b) / unit)

-- Rounded towards zero; the sign of the divisor moves to the dividend.
abbrev fixed_div : ℤ → ℤ → ℤ
fixed_div a (pos n) = sub_ℕ (pos_part a * unit / n) (neg_part a * unit / n)
fixed_div a (negsuc n) = sub_ℕ (neg_part a * unit / suc n) (pos_part a * unit / suc n)

abbrev fixed_lt : ℤ → ℤ → Bool
fixed_lt a b = ltb (pos_part a + neg_part b) (pos_part b + neg_part a)

abbrev fixed_eq : ℤ → ℤ → Bool
fixed_eq a b = eqb (pos_part a + neg_part b) (pos_part b + neg_part a)

-- A number has six digits, so rounding to fewer is left out: the identity is monotone.
abbrev pub fixed : Floats
fixed = record {
  F = ℤ;
  ratio = λ m n. pos (m * unit / n);
  add = fixed_add;
  sub = fixed_sub;
  mul = fixed_mul;
  div = fixed_div;
  lt = fixed_lt;
  eq = fixed_eq;
  eq_int = λ n a. fixed_eq (fixed_mul n (pos (unit * unit))) a;
  round = λ a _. a;
}

-- Quotients compare as the cross products do.
quotient_le : (a b c d : ℕ) → 0 < b → 0 < d → a * d ≤ c * b → a * unit / b ≤ c * unit / d
quotient_le a b c d hb hd h = (le-div_iff_mul-le hd).1 (le_of_mul-le-mul_right scaled hb)
  where
    below : a * unit / b * b ≤ a * unit
    below = div-mul-le_self (a * unit) b

    scaled : a * unit / b * d * b ≤ c * unit * b
    scaled =
        omega (arith, mul-le-mul_right d below, mul-le-mul_right unit h, mul_comm (a * unit / b) d)

quotient_lt_unit : (a b : ℕ) → a < b → a * unit / b < unit
quotient_lt_unit a b h = (div-lt_iff_lt-mul (omega arith)).1 (omega arith)

ratio_le :
    (a b c d : ℕ)
    → 0 < b
    → 0 < d
    → a * d ≤ c * b
    → AtMost fixed (pos (a * unit / b)) (pos (c * unit / d))
ratio_le a b c d hb hd h = ground (arith, quotient_le a b c d hb hd h)

pub fixed-IsLawful : IsLawful fixed
fixed-IsLawful = record {
  lt_irrefl = λ a. ground arith;
  lt_asymm = λ a b h. ground arith;
  le_trans = λ a b c h k. ground arith;
  eq_refl = λ a. ground arith;
  lt_of_eq = λ a b h. ground arith;
  ratio_le = ratio_le;
  ratio_zero = λ n h. ground arith;
  ratio_one = λ n h. ap pos (mul-div_right unit h);
  ratio_lt_one = λ a b h k. ground (arith, quotient_lt_unit a b h);
  round_le = λ a b n h. h;
  round_zero = λ n. refl;
  round_one = λ n. refl;
  sub_nonneg = λ a b h. ground arith;
  sub_nonpos = λ a b h. ground arith;
  sub_zero = λ a. ground arith;
  sub_self = λ a. ground arith;
  add_zero = λ a. ground arith;
  mul_zero = λ a. ground arith;
  zero_mul = λ a. ground arith;
  zero_div = λ a h. grind arith;
}
