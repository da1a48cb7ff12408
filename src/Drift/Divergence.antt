-- ===== src/Drift/Divergence.antt =====
-- ml/drift/structural.py: the total variation distance of two format distributions.
use ulpx.Base.{ℕ, ◌+◌, ◌||◌, eqb, String, Option, none, some, List, [], ◌∷◌, ◌++◌, if◌then◌else◌}
use ulpx.Base.Dict.{Dict, lookup, contains, keys}
use ulpx.Base.Floats.{Floats, zero_float, one_float, min, max, abs}

-- `sum(d.values())`
unfoldable pub total : Dict ℕ → ℕ
total [] = 0
total ((_, n) ∷ d) = n + total d

-- The keys of both, each once; the order in which the source sums over the set is not fixed.
unfoldable pub all_keys : Dict ℕ → Dict ℕ → List String
unfolding contains
all_keys a [] = keys a
all_keys a ((k, _) ∷ b) = let rest = all_keys a b in if contains k a then rest else rest ++ k ∷ []

module _ (fl : Floats) where
  open fl use {F, ratio, sub, add, mul}

  -- `p.get(k, 0.0)` of the distribution with this total.
  abbrev share_of : ℕ → Option ℕ → F
  share_of sum none = zero_float fl
  share_of sum (some n) = ratio n sum

  abbrev pub gap : ℕ → ℕ → Option ℕ → Option ℕ → F
  gap sum_a sum_b a b = abs fl (sub (share_of sum_a a) (share_of sum_b b))

  unfoldable pub sum_gaps : ℕ → ℕ → Dict ℕ → Dict ℕ → List String → F → F
  unfolding lookup
  sum_gaps sum_a sum_b a b [] acc = acc
  sum_gaps sum_a sum_b a b (k ∷ ks) acc =
      sum_gaps sum_a sum_b a b ks (add acc (gap sum_a sum_b (lookup k a) (lookup k b)))

  unfoldable pub calculate_distribution_divergence : Dict ℕ → Dict ℕ → F
  unfolding total all_keys sum_gaps
  calculate_distribution_divergence a b =
      let tvd = mul (ratio 1 2) (sum_gaps (total a) (total b) a b (all_keys a b) (zero_float fl)) in
      if eqb (total a) 0 || eqb (total b) 0
      then zero_float fl
      else min fl (one_float fl) (max fl (zero_float fl) tvd)
