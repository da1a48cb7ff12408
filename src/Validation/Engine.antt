-- ===== src/Validation/Engine.antt =====
-- ml/validation/validator.py, `validate_event`: one raw event against its expected fields. The time of
-- completion is an argument.
pub mod Gate
pub mod Retention
pub mod Certify
use ulpx.Base.{
  ℕ, String, Bool, true, false, ◌&&◌, Option, List, [], ◌∷◌, ◌++◌, ◌==◌, all, length, is_empty, eqb,
  Result, ok, ◌>>=◌, if◌then◌else◌,
}
use ulpx.Base.Text.{◌<>◌}
use ulpx.Base.Dict.{Dict}
use ulpx.Base.Floats.{Floats, zero_float, one_float, ge}
use ulpx.Base.Value.{Value, float}
use ulpx.Spec.{ParserSpec, fields_of, id_or, version_or}
use ulpx.Validation.{Violation, ValidationReport}
use ulpx.Shadow.Runner.{ProfilerError}
use ulpx.Validation.Extract.{RecordParsers, extract_raw}
use ulpx.Validation.Transform.{Casts, map_configured, mapped_raw_keys, retain_unmapped}
use ulpx.Validation.Measure.{
  share_or, is_preserved, measure_extraction, measure_critical, measure_unknown,
  evaluate_detection_contracts,
}

-- What the engine is given about the event.
pub record Golden (F : Type 0) : Type 0 where
  pub expected_extracted : Dict (Value F)
  pub critical_fields : List String
  pub expected_unknown : Dict (Value F)
  pub min_accuracy : F

module _ (fl : Floats) (repr : Value fl.F → String) where
  open fl use {F, ratio}

  -- The five measures and the two flags of a run.
  pub record Measured : Type 0 where
    pub extraction_acc : F
    pub semantic_acc : F
    pub raw_retention : F
    pub unknown_retention : F
    pub dps_score : F
    pub critical_passed : Bool
    pub mandatory_dps_passed : Bool
    pub violations : List (Violation F)

  -- The mapped and the unmapped fields against what is expected.
  unfoldable pub measure : Golden F → Dict (Value F) → Dict (Value F) → Measured
  unfolding measure_extraction measure_critical measure_unknown evaluate_detection_contracts
      is_preserved
  measure g canonical unmapped =
      let (matched, mismatches) = measure_extraction fl repr canonical g.expected_extracted in
      let extraction = share_or fl repr (one_float fl) matched (length g.expected_extracted) in
      let (preserved, failures) =
        measure_critical fl repr canonical g.expected_extracted g.critical_fields in
      let (retained, losses) = measure_unknown fl repr unmapped g.expected_unknown in
      let (dps, mandatory, broken) =
        evaluate_detection_contracts fl repr canonical g.expected_extracted in
      record {
        extraction_acc = extraction;
        semantic_acc = share_or fl repr extraction preserved (length g.critical_fields);
        raw_retention = one_float fl;
        unknown_retention = share_or fl repr (one_float fl) retained (length g.expected_unknown);
        dps_score = dps;
        critical_passed =
            all (is_preserved fl repr canonical g.expected_extracted) g.critical_fields;
        mandatory_dps_passed = mandatory;
        violations = mismatches ++ (failures ++ (losses ++ broken));
      }

  abbrev pub gate : F → Measured → Bool
  gate min_accuracy m =
      ge fl m.extraction_acc min_accuracy
      && (ge fl m.semantic_acc (ratio 95 100)
          && (m.critical_passed
              && (fl.eq m.raw_retention (one_float fl)
                  && (fl.eq m.unknown_retention (one_float fl)
                      && (ge fl m.dps_score (ratio 95 100) && m.mandatory_dps_passed)))))

  abbrev pub measured_metrics : Measured → Dict (Value F)
  measured_metrics m =
      ("extraction_accuracy", float (fl.round m.extraction_acc 4))
      ∷ ("semantic_accuracy", float (fl.round m.semantic_acc 4))
      ∷ ("raw_retention", float (fl.round m.raw_retention 4))
      ∷ ("unknown_field_retention", float (fl.round m.unknown_retention 4))
      ∷ ("detection_preservation", float (fl.round m.dps_score 4))
      ∷ []

  module _ (DateTime : Type 0) where
    abbrev pub validation_report :
        ParserSpec → String → F → DateTime → Measured → ValidationReport F DateTime
    validation_report spec source_id min_accuracy now m = record {
      source_id = source_id;
      parser_id = id_or (source_id <> ".parser") spec;
      parser_version = version_or "1.0.0" spec;
      passed = gate min_accuracy m;
      metrics = measured_metrics m;
      critical_passed = m.critical_passed;
      mandatory_dps_passed = m.mandatory_dps_passed;
      violations = m.violations;
      completed_at = now;
    }

    module _ (parsers : RecordParsers F) (casts : Casts F) where
      -- The extracted fields under their canonical names.
      abbrev pub canonical_fields : Dict (Value F) → ParserSpec → Dict (Value F)
      canonical_fields extracted spec = map_configured fl repr casts (fields_of spec) extracted []

      -- The extracted fields that are kept as unknown.
      abbrev pub extension_fields : Dict (Value F) → ParserSpec → Dict (Value F)
      extension_fields extracted spec =
          retain_unmapped (mapped_raw_keys (fields_of spec) extracted) extracted

      abbrev pub report_on :
          ParserSpec → Golden F → String → DateTime → Dict (Value F) → ValidationReport F DateTime
      report_on spec g source_id now extracted =
          validation_report spec source_id g.min_accuracy now
            (measure g (canonical_fields extracted spec) (extension_fields extracted spec))

      unfoldable pub validate_event :
          String
          → ParserSpec
          → Golden F
          → String
          → DateTime
          → Result ProfilerError (ValidationReport F DateTime)
      unfolding extract_raw map_configured mapped_raw_keys retain_unmapped measure
      validate_event raw spec g source_id now = extract_raw parsers spec raw >>= λ extracted.
          ok (report_on spec g source_id now extracted)
