-- ===== src/Tests/Validating.antt =====
-- The validation engine on one blocked connection, over fixed-point floats; a datetime is its UTC text.
use ulpx.Base.{String, ◌≡◌, ◌⊎◌, refl, Bool, true, false, Option, none, some, [], ◌∷◌, ok}
use ulpx.Base.Dict.{Dict, lookup, insert, contains}
use ulpx.Base.Text.{lower, strip, is_in}
use ulpx.Base.Int.{ℤ}
use ulpx.Base.Floats.Fixed.{fixed, fixed-IsLawful}
use ulpx.Base.Value.{Value, null, str, get}
use ulpx.Base.Value.Equality.{same}
use ulpx.Spec.{FieldDef, ParserSpec, fields_of}
use ulpx.Shadow.Runner.{canonical_of}
use ulpx.Passport.{
  failed, no_scores, assess, unmeasured, required_text, Passport, not_certified, certified_passport,
  build,
}
use ulpx.Passport.Honest.{IsText}
use ulpx.Validation.{ValidationReport, to_evidence}
use ulpx.Validation.Extract.{RecordParsers, extract_raw, extract_key_value}
use ulpx.Validation.Transform.{
  Casts, map_configured, transform, transform_text, mapped_raw_keys, retain_unmapped,
}
use ulpx.Validation.Measure.{
  is_extracted, is_preserved, is_kept_unknown, is_block_scenario, matched_block, measure_extraction,
  measure_critical, measure_unknown, evaluate_detection_contracts,
}
use ulpx.Validation.Engine.{
  Golden, measure, canonical_fields, extension_fields, report_on, validate_event,
}
use ulpx.Validation.Engine.Retention.{extracted_retained}
use ulpx.Validation.Engine.Certify.{validate_event_certified, validate_event_uncertified}

abbrev repr : Value ℤ → String
repr _ = ""

abbrev aware : String → Bool
aware at = true

abbrev stamp : String → String
stamp at = at

abbrev record_of : String → Option (Dict (Value ℤ))
record_of raw = some (("act", str " Deny ") ∷ ("src", str "10.0.0.1") ∷ ("zone", str "dmz") ∷ [])

abbrev parsers : RecordParsers ℤ
parsers = record {
  syslog_5424 = λ raw. ok none;
  syslog_3164 = λ raw. none;
  key_value = record_of;
  csv_line = λ raw delimiter headers. none;
  json = λ raw. null;
  cef = λ raw. none;
  leef = λ raw. ok none;
  parse_record = λ raw hint. ok none;
}

abbrev casts : Casts ℤ
casts = record {
  int_of_text = λ s. none;
  int_of_float = λ x. x;
  float_of_text = λ s. none;
  float_of_int = λ n. n;
  Moment = String;
  strptime = λ s fmt. none;
  has_zone = λ at. true;
  in_utc = λ at. at;
  utc_text = λ at. at;
}

abbrev firewall : ParserSpec
firewall = record {
  parser = none;
  match_format = some "kv";
  body_parser = some (record { type = some "key_value"; delimiter = none; headers = none });
  fields = some (
      (
        "act",
        record {
          type = some "string";
          map_to = some "event.action";
          enum = [];
          transformations = "trim" ∷ "lowercase" ∷ [];
        },
      )
      ∷ (
        "src",
        record { type = some "ipv4"; map_to = some "src.ip"; enum = []; transformations = [] },
      )
      ∷ []);
}

abbrev golden : Golden ℤ
golden = record {
  expected_extracted = ("event.action", str "deny") ∷ ("src.ip", str "10.0.0.1") ∷ [];
  critical_fields = "event.action" ∷ [];
  expected_unknown = ("zone", str "dmz") ∷ [];
  min_accuracy = fixed.ratio 95 100;
}

-- No source gives the destination that is expected here.
abbrev demanding : Golden ℤ
demanding = record {
  expected_extracted = ("dst.ip", str "10.0.0.2") ∷ [];
  critical_fields = [];
  expected_unknown = [];
  min_accuracy = fixed.ratio 95 100;
}

abbrev fields : Dict (Value ℤ)
fields = ("act", str " Deny ") ∷ ("src", str "10.0.0.1") ∷ ("zone", str "dmz") ∷ []

abbrev run : Golden ℤ → ValidationReport ℤ String
run g = report_on fixed repr String parsers casts firewall g "fw" "2026-01-01T00:00:00Z" fields

extracted : extract_raw parsers firewall "act= Deny " ≡ ok fields
unfolding extract_raw extract_key_value lower
extracted = refl

returned :
    (g : Golden ℤ)
    → validate_event fixed repr String parsers casts "act= Deny " firewall g "fw"
        "2026-01-01T00:00:00Z"
      ≡ ok (run g)
unfolding validate_event extract_raw extract_key_value lower strip is_in
returned g = refl

golden_passes : (run golden).passed ≡ true
unfolding map_configured transform transform_text mapped_raw_keys retain_unmapped measure
    measure_extraction measure_critical measure_unknown is_extracted is_preserved is_kept_unknown
    evaluate_detection_contracts is_block_scenario matched_block lookup insert contains get lower
    strip is_in same
golden_passes = refl

demanding_fails : (run demanding).passed ≡ false
unfolding map_configured transform transform_text mapped_raw_keys retain_unmapped measure
    measure_extraction measure_critical measure_unknown is_extracted is_preserved is_kept_unknown
    evaluate_detection_contracts is_block_scenario matched_block lookup insert contains get lower
    strip is_in
demanding_fails = refl

text_of_run : IsText "run-1"
unfolding strip
text_of_run = refl

text_of_source : IsText "fw"
unfolding strip
text_of_source = refl

text_of_parser : IsText "fw.parser"
unfolding strip
text_of_parser = refl

text_of_version : IsText "1.0.0"
unfolding strip
text_of_version = refl

validate_event_certified_example :
    build fixed String aware stamp "fw"
      (run golden).parser_id
      (run golden).parser_version
      (some (to_evidence fixed String aware stamp (run golden) (some "run-1") "STABLE" "0a1b2c3d"))
    ≡ ok (
        certified_passport fixed String aware stamp "fw"
          (run golden).parser_id
          (run golden).parser_version
          (to_evidence fixed String aware stamp (run golden) (some "run-1") "STABLE" "0a1b2c3d"))
validate_event_certified_example =
    validate_event_certified fixed fixed-IsLawful repr String aware stamp parsers casts "act= Deny "
      firewall golden "fw" "run-1" "0a1b2c3d" "2026-01-01T00:00:00Z" (run golden) (returned golden)
      refl text_of_run text_of_source text_of_parser text_of_version golden_passes

zone_extracted : lookup "zone" fields ≡ some (str "dmz")
unfolding lookup
zone_extracted = refl

extracted_retained_example :
    ((f : FieldDef) × (lookup "zone" (fields_of firewall) ≡ some f)
      × (contains
            (canonical_of "zone" f)
            (canonical_fields fixed repr String parsers casts fields firewall)
          ≡ true))
    ⊎ (lookup "zone" (extension_fields fixed repr String parsers casts fields firewall)
        ≡ some (str "dmz"))
extracted_retained_example =
    extracted_retained fixed repr String parsers casts "act= Deny " firewall fields "zone"
      (str "dmz") extracted zone_extracted

abbrev refused : Passport fixed String aware stamp
refused = record {
  source_id = "fw";
  parser_id = "fw.parser";
  parser_version = "1.0.0";
  validation_status = failed;
  run_id = some "run-2";
  completed_at = some "2026-01-01T00:00:00Z";
  certification_status = not_certified;
  certified_at = none;
  scores = no_scores fixed String aware stamp;
  drift_state = some "NOT_YET_MEASURED";
  drift_observed_at = none;
}

refused_built :
    build fixed String aware stamp "fw" (run demanding).parser_id (run demanding).parser_version (
      some
        (to_evidence fixed String aware stamp (run demanding) (some "run-2") "STABLE" "0a1b2c3d"))
    ≡ ok refused
unfolding build assess unmeasured required_text strip map_configured transform transform_text
    mapped_raw_keys retain_unmapped measure measure_extraction measure_critical measure_unknown
    is_extracted is_preserved is_kept_unknown evaluate_detection_contracts is_block_scenario
    matched_block lookup insert contains get lower is_in
refused_built = refl

validate_event_uncertified_example : refused.certification_status ≡ not_certified
validate_event_uncertified_example =
    validate_event_uncertified fixed fixed-IsLawful repr String aware stamp parsers casts
      "act= Deny " firewall demanding "fw" (some "run-2") "STABLE" "0a1b2c3d" "2026-01-01T00:00:00Z"
      (run demanding) refused (returned demanding) refused_built demanding_fails
