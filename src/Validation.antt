-- ===== src/Validation.antt =====
-- ml/validation/validator.py: the validation engine. The record parsers of the source profiler are an
-- interface (Validation/Extract.antt); `int`, `float` and `strptime` are another
-- (Validation/Transform.antt).
pub mod Extract
pub mod Transform
pub mod Measure
pub mod Engine
use ulpx.Base.{String, Bool, List, Option, none, some, ◌==◌, if◌then◌else◌}
use ulpx.Base.Text.{◌<>◌}
use ulpx.Base.Dict.{Dict}
use ulpx.Base.Floats.{Floats}
use ulpx.Base.Value.{Value}
use ulpx.Passport.{ValidationEvidence}

-- The messages, with the values that they show.
pub data Violation (F : Type 0) : Type 0 where
  extraction_mismatch : String → Value F → Value F → Violation F
  critical_failed : String → Value F → Value F → Violation F
  unknown_not_retained : String → Violation F
  blocked_connection_failed : Violation F

pub record ValidationReport (F : Type 0) (DateTime : Type 0) : Type 0 where
  pub source_id : String
  pub parser_id : String
  pub parser_version : String
  pub passed : Bool
  pub metrics : Dict (Value F)
  pub critical_passed : Bool
  pub mandatory_dps_passed : Bool
  pub violations : List (Violation F)
  pub completed_at : DateTime

module _ (fl : Floats) (DateTime : Type 0) (aware : DateTime → Bool)
    (timestamp : DateTime → String) where
  open fl use {F}

  -- `run_id or f"val-{source_id}-{fresh}"`, for a fresh hexadecimal text.
  abbrev run_id_or : Option String → String → String → String
  run_id_or none source_id fresh = "val-" <> source_id <> "-" <> fresh
  run_id_or (some id) source_id fresh = if id == "" then "val-" <> source_id <> "-" <> fresh else id

  abbrev pub to_evidence :
      ValidationReport F DateTime
      → Option String
      → String
      → String
      → ValidationEvidence fl DateTime aware timestamp
  to_evidence r run_id drift_state fresh = record {
    run_id = run_id_or run_id r.source_id fresh;
    completed_at = r.completed_at;
    passed = r.passed;
    metrics = r.metrics;
    drift_state = some (if r.passed then drift_state else "SUSPECTED");
    drift_observed_at = some r.completed_at;
  }
