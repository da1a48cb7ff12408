-- ===== src/Shadow/Compare/Same.antt =====
-- A candidate that gives the active parser's events at the same latencies passes.
use ulpx.Base.{
  ℕ, String, ◌≡◌, refl, ◌∙◌, ap, true, Option, List, arith, if◌then◌else◌, All, Bool-cases, inl,
  inr,
}
use ulpx.Base.Floats.{Floats, IsLawful, zero_float, one_float, AtMost}
use ulpx.Base.Value.{Value}
use ulpx.Shadow.{Event, ready_for_promotion}
use ulpx.Shadow.Flatten.Distinct.{WellFormedEvent}
use ulpx.Shadow.Congruence.Same.{congruence_self}
use ulpx.Shadow.Critical.Same.{critical_self}
use ulpx.Shadow.Unknown.Same.{unknown_self}
use ulpx.Shadow.Dps.{evaluate_dps_comparison, calc_dps}
use ulpx.Shadow.Latency.{evaluate_latencies, p95}
use ulpx.Shadow.Compare.{Parsers, metrics_of, compare}
use ulpx.Shadow.Compare.Ready.{IsClear, verdict-ready_iff}

module _ (fl : Floats) (laws : IsLawful fl) (repr : Value fl.F → String) where
  open fl use {F}

  dps_delta_self :
      (evs : List (Event F)) → (evaluate_dps_comparison fl repr evs evs).dps_delta ≡ zero_float fl
  unfolding evaluate_dps_comparison
  dps_delta_self evs =
      ap (λ x. fl.round x 4) (laws.sub_self (fl.round (calc_dps fl repr evs) 4)) ∙ laws.round_zero 4

  -- The relative difference of a percentile and itself.
  pct_self :
      (a : F)
      → (if fl.lt (zero_float fl) a
          then fl.mul (fl.div (fl.sub a a) a) (fl.ratio 100 1)
          else zero_float fl)
        ≡ zero_float fl
  pct_self a = elim (Bool-cases (fl.lt (zero_float fl) a)) [
    | inl p ↦ rw (p, laws.sub_self a, laws.zero_div a p) (laws.zero_mul (fl.ratio 100 1))
    | inr n ↦ rw n
  ]

  delta_pct_self : (ms : List F) → (evaluate_latencies fl ms ms).delta_pct ≡ zero_float fl
  unfolding evaluate_latencies
  delta_pct_self ms = ap (λ x. fl.round x 2) (pct_self (p95 fl ms)) ∙ laws.round_zero 2

  not_above : (m : ℕ) → AtMost fl (zero_float fl) (fl.ratio m 1)
  not_above m = laws.ratio_le 0 1 m 1 (omega arith) (omega arith) (omega arith)

  metrics-IsClear :
      (evs : List (Event F)) (ms : List F)
      → All (WellFormedEvent fl) evs
      → IsClear fl true (metrics_of fl repr evs evs ms ms)
  unfolding metrics_of
  metrics-IsClear evs ms w = record {
    isolation = refl;
    detections = rw (dps_delta_self evs) (laws.lt_irrefl (zero_float fl));
    semantics = rw (critical_self fl laws evs w) (laws.lt_irrefl (zero_float fl));
    unknowns = rw (unknown_self fl laws evs) (laws.lt_irrefl (one_float fl));
    matches =
        rw (congruence_self fl laws evs w)
          (laws.ratio_le 98 100 1 1 (omega arith) (omega arith) (omega arith));
    latency = rw (delta_pct_self ms, not_above 50);
  }

  -- Comparing a stream of well-formed events with itself, at the same latencies and with downstream
  -- isolation verified, recommends the candidate for promotion.
  pub compare_self :
      (parsers : Parsers) (evs : List (Event F)) (ms : Option (List F))
      → All (WellFormedEvent fl) evs
      → (compare fl repr parsers evs evs ms ms true).recommendation ≡ ready_for_promotion
  unfolding compare
  compare_self parsers evs ms w = (verdict-ready_iff fl laws true _ _ _).1 (metrics-IsClear evs _ w)
