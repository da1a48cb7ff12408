-- ===== src/Drift/Semantic/Detect.antt =====
-- ml/drift/semantic.py: `detect_semantic_drift`. The times of the report are left out.
use ulpx.Base.{
  ℕ, String, not, ◌||◌, Option, some, List, [], ◌∷◌, ◌++◌, length, Result, ok, ◌>>=◌, if◌then◌else◌,
}
use ulpx.Base.Floats.{Floats, zero_float}
use ulpx.Base.Value.{Value}
use ulpx.Spec.{ParserSpec}
use ulpx.Shadow.{Event}
use ulpx.Drift.{
  DriftState, stable, suspected, drifted, DriftThresholds, DriftSignals, DriftDetail, DriftReport,
  semantics_within_bounds, is_stable,
}
use ulpx.Drift.Semantic.{SemanticError, SemanticDriftThresholds}
use ulpx.Drift.Semantic.Mappings.{check_critical_mapping_drift}
use ulpx.Drift.Semantic.Enums.{check_enum_behavior_drift}
use ulpx.Drift.Semantic.Families.{check_event_family_drift}
use ulpx.Drift.Semantic.Blocks.{check_dps_regression}

-- What the four checks return.
pub record SemanticFindings (F : Type 0) : Type 0 where
  pub crit : F × List (DriftDetail F)
  pub enum : F × List (DriftDetail F)
  pub fam : F × List (DriftDetail F)
  pub dps : F × List (DriftDetail F)

module _ (fl : Floats) (repr : Value fl.F → String) where
  open fl use {F, lt, ratio}

  -- The defaults of the dataclass.
  abbrev pub default_semantic_thresholds : SemanticDriftThresholds F
  default_semantic_thresholds = record {
    dps_regression = ratio 0 1;
    enum_drift_score = ratio 5 100;
    critical_mapping_drift = ratio 0 1;
    event_family_drift = ratio 10 100;
  }

  -- A check's messages are kept if its score is above the threshold.
  abbrev above : F → F × List (DriftDetail F) → List (DriftDetail F)
  above threshold (score, details) = if lt threshold score then details else []

  abbrev pub all_details : SemanticDriftThresholds F → SemanticFindings F → List (DriftDetail F)
  all_details t s =
      above t.critical_mapping_drift s.crit
      ++ (above t.enum_drift_score s.enum
          ++ (above t.event_family_drift s.fam ++ above t.dps_regression s.dps))

  abbrev pub semantic_state : SemanticDriftThresholds F → SemanticFindings F → DriftState
  semantic_state t s =
      if lt t.dps_regression s.dps.0
        || (lt t.critical_mapping_drift s.crit.0 || lt t.enum_drift_score s.enum.0)
      then drifted
      else if lt t.event_family_drift s.fam.0
      then suspected
      else stable

  -- `if not details: details.append(...)`, in the stable state only.
  abbrev with_semantic_default : DriftState → List (DriftDetail F) → List (DriftDetail F)
  with_semantic_default stable [] = semantics_within_bounds ∷ []
  with_semantic_default stable (d ∷ ds) = d ∷ ds
  with_semantic_default suspected ds = ds
  with_semantic_default drifted ds = ds

  abbrev pub semantic_signals : SemanticFindings F → DriftSignals F
  semantic_signals s = record {
    parse_failure_rate = zero_float fl;
    unknown_field_ratio = zero_float fl;
    type_violation_rate = zero_float fl;
    key_set_distance = zero_float fl;
    distribution_divergence = zero_float fl;
    dps_regression = some s.dps.0;
    enum_drift_score = some s.enum.0;
    critical_mapping_drift = some s.crit.0;
    event_family_drift = some s.fam.0;
  }

  abbrev merged_thresholds : SemanticDriftThresholds F → DriftThresholds F → DriftThresholds F
  merged_thresholds t structural = record {
    parse_failure_rate = structural.parse_failure_rate;
    unknown_field_ratio = structural.unknown_field_ratio;
    type_violation_rate = structural.type_violation_rate;
    key_set_distance = structural.key_set_distance;
    distribution_divergence = structural.distribution_divergence;
    dps_regression = some t.dps_regression;
    enum_drift_score = some t.enum_drift_score;
    critical_mapping_drift = some t.critical_mapping_drift;
    event_family_drift = some t.event_family_drift;
  }

  unfoldable pub semantic_findings :
      SemanticDriftThresholds F
      → ParserSpec
      → ParserSpec
      → List (Event F)
      → List (Event F)
      → Result SemanticError (SemanticFindings F)
  unfolding check_critical_mapping_drift check_enum_behavior_drift check_event_family_drift
      check_dps_regression
  semantic_findings t baseline candidate baseline_events candidate_events =
      check_enum_behavior_drift fl baseline candidate candidate_events >>= λ enum.
      check_event_family_drift fl repr t.event_family_drift baseline_events candidate_events
      >>= λ fam. ok (record {
        crit = check_critical_mapping_drift fl baseline candidate;
        enum = enum;
        fam = fam;
        dps = check_dps_regression fl repr baseline_events candidate_events;
      })

  abbrev pub semantic_report :
      SemanticDriftThresholds F
      → DriftThresholds F
      → ℕ
      → String
      → String
      → String
      → Option String
      → SemanticFindings F
      → DriftReport F
  semantic_report t structural count source_id parser_id parser_version baseline_run_id s =
      let state = semantic_state t s in
      record {
        source_id = source_id;
        parser_id = parser_id;
        parser_version = parser_version;
        drift_state = state;
        sample_count = count;
        signals = semantic_signals s;
        thresholds = merged_thresholds t structural;
        drift_details = with_semantic_default state (all_details t s);
        remediation_recommended = not (is_stable state);
        baseline_run_id = baseline_run_id;
      }

  unfoldable pub detect_semantic_drift :
      SemanticDriftThresholds F
      → DriftThresholds F
      → ParserSpec
      → ParserSpec
      → List (Event F)
      → List (Event F)
      → String
      → String
      → String
      → Option String
      → Result SemanticError (DriftReport F)
  unfolding semantic_findings
  detect_semantic_drift t structural baseline candidate baseline_events candidate_events source_id
        parser_id parser_version baseline_run_id =
      semantic_findings t baseline candidate baseline_events candidate_events >>= λ s. ok (
        semantic_report t structural (length candidate_events) source_id parser_id parser_version
          baseline_run_id s)
