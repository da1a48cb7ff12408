-- ===== src/Shadow/Compare/Ready.antt =====
-- When a candidate is ready for promotion.
use ulpx.Base.{◌≡◌, ◌↔◌, Bool, true, false, List, arith, ◌&&◌}
use ulpx.Base.Floats.{Floats, IsLawful, zero_float, one_float, AtMost}
use ulpx.Shadow.{ready_for_promotion, ShadowMetrics}
use ulpx.Shadow.Compare.{Reason, verdict}

module _ (fl : Floats) where
  open fl use {F, lt, ratio}

  -- The latency grew by over half and by over a millisecond.
  abbrev pub is_slow : ShadowMetrics F → Bool
  is_slow m =
      lt (ratio 50 1) m.latency_delta_pct
      && lt (ratio 1 1) (fl.sub m.candidate_latency_p95_ms m.active_latency_p95_ms)

  -- None of the refusal and review conditions holds.
  pub record IsClear (isolated : Bool) (m : ShadowMetrics F) : Type 0 where
    pub isolation : isolated ≡ true
    pub detections : AtMost fl (zero_float fl) m.dps_delta
    pub semantics : AtMost fl m.critical_semantic_divergence (zero_float fl)
    pub unknowns : AtMost fl (one_float fl) m.unknown_field_retention
    pub matches : AtMost fl (ratio 98 100) m.field_match_rate
    pub latency : is_slow m ≡ false

module _ (fl : Floats) (laws : IsLawful fl) where
  open fl use {F, lt, ratio}

  -- The review bound lies above the failure bound.
  above_failure : (x : F) → AtMost fl (ratio 98 100) x → AtMost fl (ratio 90 100) x
  above_failure x h =
      laws.le_trans (ratio 90 100) (ratio 98 100) x
        (laws.ratio_le 90 100 98 100 (omega arith) (omega arith) (omega arith)) h

  -- A candidate is recommended for promotion exactly when downstream isolation holds, its detection
  -- score did not fall, no event diverged critically, all unknown fields are kept, at least 98% of
  -- the fields match, and the latency did not grow by over 50% and over a millisecond, each as the
  -- rounded metrics show it.
  pub verdict-ready_iff :
      (isolated : Bool) (m : ShadowMetrics F) (more more' : List (Reason F))
      → ((verdict fl isolated m more more').recommendation ≡ ready_for_promotion)
        ↔ IsClear fl isolated m
  unfolding verdict
  verdict-ready_iff isolated m more more' = (
    λ h. record {
      isolation = ground arith;
      detections = ground arith;
      semantics = ground arith;
      unknowns = ground arith;
      matches = ground arith;
      latency = ground arith;
    },
    λ c. ground (arith, above_failure m.field_match_rate c.matches),
  )
