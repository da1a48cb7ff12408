-- ===== src/Shadow/Compare.antt =====
-- `ShadowComparator.compare`: the five evaluations, the flags that they raise, and the verdict.
pub mod Ready
pub mod Same
use ulpx.Base.{
  ℕ, ◌-◌, String, Bool, true, false, not, ◌&&◌, Option, none, some, List, [], ◌∷◌, ◌++◌, leb,
  length, is_empty, or_default, if◌then◌else◌,
}
use ulpx.Base.Floats.{Floats, zero_float, one_float}
use ulpx.Base.Value.{Value}
use ulpx.Shadow.{
  Event, ShadowState, passed, failed, suspected, ShadowRecommendation, ready_for_promotion, reject,
  require_human_review, ShadowMetrics, FieldDivergence,
}
use ulpx.Shadow.Congruence.{evaluate_field_congruence}
use ulpx.Shadow.Critical.{CriticalDetail, evaluate_critical_semantics}
use ulpx.Shadow.Unknown.{UnknownDetail, evaluate_unknown_retention}
use ulpx.Shadow.Dps.{DpsComparison, evaluate_dps_comparison}
use ulpx.Shadow.Latency.{LatencyComparison, evaluate_latencies}

-- The texts of `recommendation_reasons`.
pub data Reason (F : Type 0) : Type 0 where
  isolation_violation : Reason F
  dps_regression : F → F → Reason F
  critical_divergence : F → Reason F
  retention_violation : F → Reason F
  match_rate_low : F → Reason F
  match_rate_review : F → Reason F
  latency_regression : F → F → Reason F
  critical_detail : CriticalDetail F → Reason F
  dps_detail : F → F → F → Reason F
  unknown_detail : UnknownDetail → Reason F
  latency_detail : F → F → Reason F
  no_critical_divergence : Reason F
  dps_preserved : F → Reason F
  retention_full : Reason F
  latency_delta : F → F → F → Reason F
  isolation_verified : Reason F

pub record Parsers : Type 0 where
  pub source_id : String
  pub active_parser_id : String
  pub active_parser_version : String
  pub candidate_parser_id : String
  pub candidate_parser_version : String

pub record ShadowComparisonReport (F : Type 0) : Type 0 where
  pub parsers : Parsers
  pub shadow_state : ShadowState
  pub sample_count : ℕ
  pub metrics : ShadowMetrics F
  pub field_divergences : List (FieldDivergence F)
  pub downstream_isolation_verified : Bool
  pub recommendation : ShadowRecommendation
  pub recommendation_reasons : List (Reason F)

abbrev pub flag {ℓ} : {A : Type ℓ} → Bool → A → List A
flag b r = if b then r ∷ [] else []

abbrev map_list {ℓ κ} : {A : Type ℓ} {B : Type κ} → (A → B) → List A → List B
map_list f [] = []
map_list f (x ∷ xs) = f x ∷ map_list f xs

-- `latencies or [1.0]`
abbrev or_one {ℓ} : {A : Type ℓ} → A → Option (List A) → List A
or_one one none = one ∷ []
or_one one (some []) = one ∷ []
or_one one (some (x ∷ xs)) = x ∷ xs

module _ (fl : Floats) where
  open fl use {F, lt, ratio}

  abbrev pub failure_flags : Bool → ShadowMetrics F → List (Reason F)
  failure_flags isolated m =
      flag (not isolated) isolation_violation
      ++ (flag (lt m.dps_delta (zero_float fl)) (dps_regression m.candidate_dps m.active_dps)
          ++ (flag (lt (zero_float fl) m.critical_semantic_divergence)
                (critical_divergence m.critical_semantic_divergence)
              ++ (flag (lt m.unknown_field_retention (one_float fl))
                    (retention_violation m.unknown_field_retention)
                  ++ flag (lt m.field_match_rate (ratio 90 100))
                      (match_rate_low m.field_match_rate))))

  abbrev pub suspected_flags : ShadowMetrics F → List (Reason F)
  suspected_flags m =
      flag (not (lt m.field_match_rate (ratio 90 100)) && lt m.field_match_rate (ratio 98 100))
        (match_rate_review m.field_match_rate)
      ++ flag
          (lt (ratio 50 1) m.latency_delta_pct
            && lt (ratio 1 1) (fl.sub m.candidate_latency_p95_ms m.active_latency_p95_ms))
          (latency_regression m.latency_delta_pct
            (fl.sub m.candidate_latency_p95_ms m.active_latency_p95_ms))

  pub record Verdict : Type 0 where
    pub shadow_state : ShadowState
    pub recommendation : ShadowRecommendation
    pub reasons : List (Reason F)

  abbrev passed_reasons : ShadowMetrics F → List (Reason F)
  passed_reasons m =
      no_critical_divergence
      ∷ dps_preserved m.candidate_dps
      ∷ retention_full
      ∷ latency_delta m.latency_delta_pct m.candidate_latency_p95_ms m.active_latency_p95_ms
      ∷ isolation_verified
      ∷ []

  -- The state and recommendation from the two lists of flags, with the messages behind them.
  abbrev pub decide :
      List (Reason F)
      → List (Reason F)
      → List (Reason F)
      → List (Reason F)
      → List (Reason F)
      → Verdict
  decide (r ∷ failures) suspicions more_failed more_suspected fine = record {
    shadow_state = failed;
    recommendation = reject;
    reasons = (r ∷ failures) ++ more_failed;
  }
  decide [] (r ∷ suspicions) more_failed more_suspected fine = record {
    shadow_state = suspected;
    recommendation = require_human_review;
    reasons = (r ∷ suspicions) ++ more_suspected;
  }
  decide [] [] more_failed more_suspected fine = record {
    shadow_state = passed;
    recommendation = ready_for_promotion;
    reasons = fine;
  }

  unfoldable pub verdict : Bool → ShadowMetrics F → List (Reason F) → List (Reason F) → Verdict
  verdict isolated m more_failed more_suspected =
      decide (failure_flags isolated m) (suspected_flags m) more_failed more_suspected
        (passed_reasons m)

module _ (fl : Floats) (repr : Value fl.F → String) where
  open fl use {F}

  unfoldable pub metrics_of : List (Event F) → List (Event F) → List F → List F → ShadowMetrics F
  metrics_of active candidate active_ms candidate_ms =
      let dps = evaluate_dps_comparison fl repr active candidate in
      let latency = evaluate_latencies fl active_ms candidate_ms in
      record {
        field_match_rate = (evaluate_field_congruence fl active candidate).0;
        critical_semantic_divergence = (evaluate_critical_semantics fl active candidate).0;
        unknown_field_retention = (evaluate_unknown_retention fl active candidate).0;
        active_dps = dps.active_dps;
        candidate_dps = dps.candidate_dps;
        dps_delta = dps.dps_delta;
        active_latency_p95_ms = latency.active_p95;
        candidate_latency_p95_ms = latency.candidate_p95;
        latency_delta_pct = latency.delta_pct;
      }

  -- The messages of the evaluations, in the order in which a failure lists them.
  abbrev failure_details : List (Event F) → List (Event F) → List (Reason F)
  failure_details active candidate =
      let dps = evaluate_dps_comparison fl repr active candidate in
      map_list critical_detail (evaluate_critical_semantics fl active candidate).1
      ++ (flag dps.regressed (dps_detail dps.candidate_dps dps.dps_delta dps.active_dps)
          ++ map_list unknown_detail (evaluate_unknown_retention fl active candidate).1)

  abbrev suspicion_details : List F → List F → List (Reason F)
  suspicion_details active_ms candidate_ms =
      let latency = evaluate_latencies fl active_ms candidate_ms in
      flag latency.increased (latency_detail latency.candidate_p95 latency.active_p95)

  unfoldable pub compare :
      Parsers
      → List (Event F)
      → List (Event F)
      → Option (List F)
      → Option (List F)
      → Bool
      → ShadowComparisonReport F
  compare parsers active candidate active_latencies candidate_latencies isolated =
      let active_ms = or_one (one_float fl) active_latencies in
      let candidate_ms = or_one (one_float fl) candidate_latencies in
      let m = metrics_of active candidate active_ms candidate_ms in
      let v =
        verdict fl isolated m (failure_details active candidate)
          (suspicion_details active_ms candidate_ms) in
      record {
        parsers = parsers;
        shadow_state = v.shadow_state;
        sample_count =
            if leb (length active) (length candidate) then length candidate else length active;
        metrics = m;
        field_divergences = (evaluate_field_congruence fl active candidate).1;
        downstream_isolation_verified = isolated;
        recommendation = v.recommendation;
        recommendation_reasons = v.reasons;
      }
