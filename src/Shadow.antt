-- ===== src/Shadow.antt =====
-- ml/shadow: the enums and records of comparator.py. Messages are constructors that carry the
-- values which the text shows.
pub mod Flatten
pub mod Congruence
pub mod Critical
pub mod Unknown
pub mod Dps
pub mod Latency
pub mod Compare
pub mod Parsing
pub mod Runner
use ulpx.Base.{ℕ, Bool, String, List}
use ulpx.Base.Dict.{Dict}
use ulpx.Base.Value.{Value}

pub data ShadowState : Type 0 where
  passed failed suspected : ShadowState

pub data ShadowRecommendation : Type 0 where
  ready_for_promotion reject require_human_review : ShadowRecommendation

pub record ShadowMetrics (F : Type 0) : Type 0 where
  pub field_match_rate : F
  pub critical_semantic_divergence : F
  pub unknown_field_retention : F
  pub active_dps : F
  pub candidate_dps : F
  pub dps_delta : F
  pub active_latency_p95_ms : F
  pub candidate_latency_p95_ms : F
  pub latency_delta_pct : F

pub data DivergenceType : Type 0 where
  value_mismatch field_missing_in_candidate new_field_in_candidate type_mismatch : DivergenceType

-- The type of a divergence with the pair of values that shows it.
pub record Mismatch (F : Type 0) : Type 0 where
  pub divergence_type : DivergenceType
  pub active : Value F
  pub candidate : Value F

pub record FieldDivergence (F : Type 0) : Type 0 where
  pub field : String
  pub match_rate : F
  pub mismatch : Mismatch F

-- A normalized event.
abbrev pub Event : Type 0 → Type 0
Event F = Dict (Value F)
