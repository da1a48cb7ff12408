-- ===== src/Base/Floats/Laws.antt =====
-- Consequences of the laws that several components use.
use ulpx.Base.Floats.{Floats, IsLawful, AtMost, max, min, zero_float}
use ulpx.Base.Tests.{Bool-cases, if_intro}
use mathlib.Core.Path.{◌≡◌}
use mathlib.Core.Logic.{inl, inr}
use mathlib.Core.Bool.{true}

module _ (fl : Floats) (laws : IsLawful fl) where
  -- A value that is below another stays at most it.
  pub le_of_lt : (a b : fl.F) → fl.lt a b ≡ true → AtMost fl a b
  le_of_lt = laws.lt_asymm

  pub lt_of_le_of_lt : (a b c : fl.F) → AtMost fl a b → fl.lt b c ≡ true → fl.lt a c ≡ true
  lt_of_le_of_lt a b c ab bc = elim (Bool-cases (fl.lt a c)) [
    | inl yes' ↦ yes'
    | inr no' ↦ absurd (clash (laws.le_trans c a b no' ab) bc)
  ]
    where
      clash : AtMost fl c b → fl.lt b c ≡ true → ⊥
      clash p q = cc

  pub max_left : (a b : fl.F) → AtMost fl a (max fl a b)
  max_left a b =
      if_intro (AtMost fl a) (fl.lt a b) b a (λ h. laws.lt_asymm a b h) (λ _. laws.lt_irrefl a)

  pub max_least : (a b c : fl.F) → AtMost fl a c → AtMost fl b c → AtMost fl (max fl a b) c
  max_least a b c p q = if_intro (λ x. AtMost fl x c) (fl.lt a b) b a (λ _. q) (λ _. p)

  pub min_left : (a b : fl.F) → AtMost fl (min fl a b) a
  min_left a b =
      if_intro (λ x. AtMost fl x a) (fl.lt b a) b a (λ h. laws.lt_asymm b a h)
        (λ _. laws.lt_irrefl a)

  -- Nothing is left of a maximum with zero if the value is at most zero.
  pub max_zero : (a : fl.F) → AtMost fl a (zero_float fl) → max fl (zero_float fl) a ≡ zero_float fl
  max_zero a h = rw h
