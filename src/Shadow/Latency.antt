-- ===== src/Shadow/Latency.antt =====
-- `_evaluate_latencies`: the 95th percentiles and their relative difference. `int(n * 0.95)` is
-- `n * 95 / 100`, the product of doubles being exact enough for every length of a list.
use ulpx.Base.{ℕ, zero, suc, ◌*◌, ◌/◌, Bool, ◌&&◌, List, [], ◌∷◌, length, if◌then◌else◌}
use ulpx.Base.Floats.{Floats, zero_float}
use ulpx.Base.Sort.{sorted}

module _ (fl : Floats) where
  open fl use {F}

  -- The item at an index, or the last one.
  pub item : F → List F → ℕ → F
  item last [] i = last
  item last (x ∷ xs) zero = x
  item last (x ∷ xs) (suc i) = item x xs i

  -- `min(idx, len(sorted_lat) - 1)` is the bound that `item` keeps.
  unfoldable pub p95 : List F → F
  unfolding sorted item
  p95 latencies = item (zero_float fl) (sorted fl.lt latencies) (length latencies * 95 / 100)

  pub record LatencyComparison : Type 0 where
    pub active_p95 : F
    pub candidate_p95 : F
    pub delta_pct : F
    -- Whether the message about an increase is given.
    pub increased : Bool

  unfoldable pub evaluate_latencies : List F → List F → LatencyComparison
  unfolding p95
  evaluate_latencies active candidate =
      let a = p95 active in
      let c = p95 candidate in
      let pct =
        if fl.lt (zero_float fl) a
        then fl.mul (fl.div (fl.sub c a) a) (fl.ratio 100 1)
        else zero_float fl in
      record {
        active_p95 = fl.round a 4;
        candidate_p95 = fl.round c 4;
        delta_pct = fl.round pct 2;
        increased = fl.lt (fl.ratio 20 1) pct && fl.lt (fl.ratio 1 1) (fl.sub c a);
      }
