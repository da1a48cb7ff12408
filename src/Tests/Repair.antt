-- ===== src/Tests/Repair.antt =====
-- A repair with the automatic mode, over fixed-point floats.
use ulpx.Base.{
  Bool, String, ◌≡◌, ◌≢◌, ◌↔◌, ◌⊎◌, refl, true, Option, none, some, List, [], ◌∷◌, ◌==◌, Result, ok,
  err, or_default, if◌then◌else◌,
}
use ulpx.Base.Dict.{Dict}
use ulpx.Base.Floats.{zero_float, one_float}
use ulpx.Base.Floats.Fixed.{fixed, fixed-IsLawful}
use ulpx.Base.Value.{Value, str}
use ulpx.Spec.{FieldDef, ParserSpec}
use ulpx.Deploy.{SpecDeploymentEngine, init, get_active_spec}
use ulpx.Profiler.{no_block_id}
use ulpx.Shadow.Runner.{LogFormat, ProfilerError, record_error, Readings}
use ulpx.Shadow.Runner.Outcomes.{RaisedOn}
use ulpx.Promotion.{
  manual_approval, automatic_conditional, promoted, rejected, escalated_for_approval, GateResults,
  evaluate, refusal_reasons, refuses,
}
use ulpx.Promotion.Refusals.{PassesGates, evaluate_iff}
use ulpx.Healing.{SelfHealingReport, runner_error, major_version, handle_repair, compiled_of}
use ulpx.Healing.Safety.{IsPromotable, repair_outcome}

abbrev F : Type 0
F = fixed.F

abbrev mapped : String → FieldDef
mapped path = record { type = none; map_to = some path; enum = []; transformations = [] }

abbrev candidate : ParserSpec
candidate = record {
  parser = some (record { id = some "fw.cef"; version = some "2.0.1" });
  match_format = some "cef";
  body_parser = none;
  fields = some (("act", mapped "event.action") ∷ ("src", mapped "src.ip") ∷ []);
}

abbrev record_parser : String → Option LogFormat → Result ProfilerError (Option (Dict (Value F)))
record_parser text hint =
    if text == "[]"
    then err no_block_id
    else ok (some (("act", str text) ∷ ("src", str "10.0.0.1") ∷ []))

abbrev repr : Value F → String
repr v = "?"

abbrev dumps : Bool → ParserSpec → String
dumps sort_keys spec = "{}"

abbrev sha256 : String → String
sha256 text = "00"

abbrev readings : Readings F
readings = record {
  t0 = zero_float fixed;
  t1 = one_float fixed;
  t2 = zero_float fixed;
  t3 = one_float fixed;
}

abbrev samples : List (String × Readings F)
samples = ("DENY", readings) ∷ []

version_two : major_version "2.0.1" ≡ ok 2
unfolding major_version
version_two = refl

repair_outcome_example :
    ((report : SelfHealingReport F) × (e' : SpecDeploymentEngine) × (handle_repair fixed
          record_parser repr dumps sha256 init manual_approval "fw" candidate candidate samples
          (some automatic_conditional)
        ≡ ok (report, e'))
      × (((report.decision ≢ promoted) × (e' ≡ init))
          ⊎ ((report.decision ≡ promoted)
              × (or_default (some automatic_conditional) manual_approval ≡ automatic_conditional)
              × PassesGates fixed report.gates
              × IsPromotable candidate
              × (samples ≢ [])
              × (get_active_spec e' "fw"
                  ≡ some (compiled_of fixed record_parser repr dumps sha256 "fw" candidate 2)))))
    ⊎ ((x : ProfilerError) × (handle_repair fixed record_parser repr dumps sha256 init
            manual_approval "fw" candidate candidate samples
            (some automatic_conditional)
          ≡ err (runner_error (record_error x)))
        × RaisedOn fixed record_parser samples x)
repair_outcome_example =
    repair_outcome fixed fixed-IsLawful record_parser repr dumps sha256 init manual_approval "fw"
      candidate candidate samples (some automatic_conditional) 2 version_two

abbrev gates : GateResults F
gates = record {
  schema_passed = true;
  schema_details = "";
  validation_passed = true;
  extraction_accuracy = one_float fixed;
  semantic_accuracy = one_float fixed;
  dps = one_float fixed;
  raw_retention = one_float fixed;
  unknown_retention = one_float fixed;
  shadow_passed = true;
  shadow_state = "PASSED";
  field_match_rate = one_float fixed;
  dps_delta = zero_float fixed;
  downstream_isolation_verified = true;
}

automatic_is_promoted :
    (evaluate fixed manual_approval gates (some automatic_conditional)).0 ≡ promoted
unfolding evaluate refusal_reasons refuses
automatic_is_promoted = refl

evaluate_iff_example :
    (((evaluate fixed manual_approval gates none).0 ≡ promoted)
      ↔ (PassesGates fixed gates × (or_default none manual_approval ≡ automatic_conditional)))
    × (((evaluate fixed manual_approval gates none).0 ≡ escalated_for_approval)
        ↔ (PassesGates fixed gates × (or_default none manual_approval ≡ manual_approval)))
    × (((evaluate fixed manual_approval gates none).0 ≡ rejected) ↔ (¬ PassesGates fixed gates))
evaluate_iff_example = evaluate_iff fixed manual_approval gates none
