-- ===== src/Healing.antt =====
-- ml/self_healing/workflow.py: the repair of a drifted source, from the candidate spec to the
-- registry. `json.dumps` with its `sort_keys`, SHA-256 and the clock are arguments; so is the profiler's
-- `parse_record`, which may raise.
pub mod Safety
use ulpx.Base.{
  ℕ, String, Bool, true, false, not, ◌&&◌, ◌||◌, Option, none, some, List, [], ◌∷◌, any, ◌==◌,
  is_empty, is_some, or_default, or_else, Result, ok, err, ◌>>=◌, if◌then◌else◌,
}
use ulpx.Base.Text.{◌<>◌, before_dot, digits_from, starts_with_digit}
use ulpx.Base.Floats.{Floats, zero_float, one_float, ge}
use ulpx.Base.Dict.{Dict}
use ulpx.Base.Value.{Value}
use ulpx.Spec.{FieldDef, ParserInfo, ParserSpec, fields_of, id_or, version_or, no_info}
use ulpx.Compiler.{CompiledParserSpec, python_native}
use ulpx.Deploy.{SpecDeploymentEngine, DeployError, Receipt, deploy_spec}
use ulpx.Shadow.{ShadowState, passed, failed, suspected}
use ulpx.Shadow.Compare.{ShadowComparisonReport}
use ulpx.Shadow.Runner.{LogFormat, ProfilerError, Readings, RunnerError, execute_dual}
use ulpx.Shadow.Runner.Outcomes.{lines}
use ulpx.Promotion.{
  PromotionMode, PromotionDecision, promoted, rejected, escalated_for_approval, GateResults,
  Refusal, evaluate,
}

pub data RepairError : Type 0 where
  -- IndexError: the candidate's version is the empty text.
  empty_version : RepairError
  -- ValueError: its major version starts with a digit and is no number.
  bad_version : String → RepairError
  runner_error : RunnerError → RepairError
  deploy_error : DeployError → RepairError

-- Texts of the report that depend on one branch each.
pub data AppliedBy : Type 0 where
  policy_engine operator_escalation policy_refusal_engine : AppliedBy

pub record SelfHealingReport (F : Type 0) : Type 0 where
  pub source_id : String
  pub active_parser_id : String
  pub active_parser_version : String
  pub candidate_parser_id : String
  pub candidate_parser_version : String
  pub candidate_spec_hash : String
  pub gates : GateResults F
  pub promotion_mode : PromotionMode
  pub refusal_conditions_checked : List Refusal
  pub refusal_reasons : List Refusal
  pub decision : PromotionDecision
  pub applied_by : AppliedBy

abbrev pub state_value : ShadowState → String
state_value passed = "PASSED"
state_value failed = "FAILED"
state_value suspected = "SUSPECTED"

abbrev pub is_passed : ShadowState → Bool
is_passed passed = true
is_passed failed = false
is_passed suspected = false

-- `_validate_spec_schema`; a spec is a dictionary here.
unfoldable pub validate_spec_schema : ParserSpec → Bool × String
validate_spec_schema spec =
    if not (is_some (or_default spec.parser no_info).id)
      || not (is_some (or_default spec.parser no_info).version)
    then (false, "Missing parser object with id and version")
    else if not (is_some spec.fields)
    then (false, "Missing or invalid fields dictionary")
    else (true, "Candidate spec conforms to parser_spec.schema.json structure")

abbrev maps_to : String → Option String → Bool
maps_to path none = false
maps_to path (some p) = p == path

-- `any(f.get("map_to") == path for f in fields.values())`
abbrev pub has_mapping : String → Dict FieldDef → Bool
has_mapping path fields = any (λ e. maps_to path e.1.map_to) fields

-- `int(version.split(".")[0]) if version[0].isdigit() else 2`, for plain decimal digits.
abbrev number_or_error : String → Option ℕ → Result RepairError ℕ
number_or_error version none = err (bad_version version)
number_or_error version (some n) = ok n

unfoldable pub major_version : String → Result RepairError ℕ
unfolding before_dot digits_from starts_with_digit
major_version version =
    if version == ""
    then err empty_version
    else if starts_with_digit version
    then number_or_error version (digits_from 0 (before_dot version))
    else ok 2

module _ (fl : Floats) where
  open fl use {F}

  pub record Empirical : Type 0 where
    pub passed : Bool
    pub extraction_accuracy : F
    pub semantic_accuracy : F
    pub dps : F
    pub raw_retention : F
    pub unknown_retention : F

  abbrev failed_with : F → Empirical
  failed_with retention = record {
    passed = false;
    extraction_accuracy = zero_float fl;
    semantic_accuracy = zero_float fl;
    dps = zero_float fl;
    raw_retention = retention;
    unknown_retention = retention;
  }

  -- The score of the mappings that a spec has.
  abbrev mapping_dps : Dict FieldDef → F
  mapping_dps fields =
      if has_mapping "event.action" fields
        && any (λ e. maps_to "src.ip" e.1.map_to || maps_to "dst.ip" e.1.map_to) fields
      then one_float fl
      else zero_float fl

  -- `_run_empirical_validation`
  unfoldable pub run_empirical_validation : ParserSpec → Bool → Empirical
  run_empirical_validation candidate no_samples =
      if no_samples
      then failed_with (zero_float fl)
      else if is_empty (fields_of candidate)
      then failed_with (one_float fl)
      else record {
        passed =
            ge fl (mapping_dps (fields_of candidate)) (one_float fl)
            && ge fl (one_float fl) (fl.ratio 90 100);
        extraction_accuracy = one_float fl;
        semantic_accuracy = one_float fl;
        dps = mapping_dps (fields_of candidate);
        raw_retention = one_float fl;
        unknown_retention = one_float fl;
      }

  -- What the shadow gate contributes to the results.
  pub record ShadowGate : Type 0 where
    pub shadow_passed : Bool
    pub shadow_state : String
    pub field_match_rate : F
    pub dps_delta : F
    pub downstream_isolation : Bool

  abbrev pub no_shadow : ShadowGate
  no_shadow = record {
    shadow_passed = false;
    shadow_state = "FAILED";
    field_match_rate = zero_float fl;
    dps_delta = fl.sub (zero_float fl) (one_float fl);
    downstream_isolation = true;
  }

  abbrev pub gate_of : ShadowComparisonReport F → ShadowGate
  gate_of r = record {
    shadow_passed = is_passed r.shadow_state;
    shadow_state = state_value r.shadow_state;
    field_match_rate = r.metrics.field_match_rate;
    dps_delta = r.metrics.dps_delta;
    downstream_isolation = r.downstream_isolation_verified;
  }

  abbrev from_runner : Result RunnerError (ShadowComparisonReport F) → Result RepairError ShadowGate
  from_runner (ok r) = ok (gate_of r)
  from_runner (err e) = err (runner_error e)

  abbrev pub gates_of : Bool × String → Empirical → ShadowGate → GateResults F
  gates_of (schema_passed, details) v s = record {
    schema_passed = schema_passed;
    schema_details = details;
    validation_passed = v.passed;
    extraction_accuracy = v.extraction_accuracy;
    semantic_accuracy = v.semantic_accuracy;
    dps = v.dps;
    raw_retention = v.raw_retention;
    unknown_retention = v.unknown_retention;
    shadow_passed = s.shadow_passed;
    shadow_state = s.shadow_state;
    field_match_rate = s.field_match_rate;
    dps_delta = s.dps_delta;
    downstream_isolation_verified = s.downstream_isolation;
  }

module _ (fl : Floats)
    (parse_record : String → Option LogFormat → Result ProfilerError (Option (Dict (Value fl.F))))
    (repr : Value fl.F → String) (dumps : Bool → ParserSpec → String)
    (sha256 : String → String) where
  open fl use {F}

  unfoldable pub shadow_gate :
      Bool
      → String
      → ParserSpec
      → ParserSpec
      → List (String × Readings F)
      → Result RepairError (ShadowGate fl)
  shadow_gate schema_passed source_id active candidate samples =
      if schema_passed && not (is_empty samples)
      then from_runner fl
          (execute_dual fl parse_record repr (lines fl parse_record samples) active candidate
            source_id none true).0
      else ok (no_shadow fl)

  abbrev pub empirical_gate : Bool → ParserSpec → List (String × Readings F) → Empirical fl
  empirical_gate true candidate samples = run_empirical_validation fl candidate (is_empty samples)
  empirical_gate false candidate samples = failed_with fl (one_float fl)

  abbrev pub spec_hash_of : ParserSpec → String
  spec_hash_of candidate = "sha256-" <> sha256 (dumps true candidate)

  abbrev pub compiled_of : String → ParserSpec → ℕ → CompiledParserSpec
  compiled_of source_id candidate major = record {
    spec_id = id_or (source_id <> ".candidate") candidate <> (":" <> version_or "1.1.0" candidate);
    source_id = source_id;
    version = major;
    target_runtime = python_native;
    mappings = [];
    compiled_code = dumps false candidate;
    spec_hash = spec_hash_of candidate;
  }

  abbrev from_deploy :
      Result DeployError (Receipt × SpecDeploymentEngine)
      → Result RepairError (AppliedBy × SpecDeploymentEngine)
  from_deploy (ok (receipt, e)) = ok (policy_engine, e)
  from_deploy (err x) = err (deploy_error x)

  -- Step 5: only a promotion reaches the deployer.
  unfoldable pub apply_decision :
      PromotionDecision
      → String
      → ParserSpec
      → SpecDeploymentEngine
      → Result RepairError (AppliedBy × SpecDeploymentEngine)
  apply_decision promoted source_id candidate e =
      major_version (version_or "1.1.0" candidate) >>= λ major.
      from_deploy (deploy_spec e (compiled_of source_id candidate major) true)
  apply_decision escalated_for_approval source_id candidate e = ok (operator_escalation, e)
  apply_decision rejected source_id candidate e = ok (policy_refusal_engine, e)

  abbrev pub results_of : ParserSpec → List (String × Readings F) → ShadowGate fl → GateResults F
  results_of candidate samples shadow =
      let schema = validate_spec_schema candidate in
      gates_of fl schema (empirical_gate schema.0 candidate samples) shadow

  -- The decision with the reasons and the conditions checked.
  abbrev pub decide :
      PromotionMode
      → Option PromotionMode
      → GateResults F
      → PromotionDecision × List Refusal × List Refusal
  decide default_mode mode gates =
      evaluate fl default_mode gates (some (or_default mode default_mode))

  abbrev pub repair_report :
      PromotionMode
      → String
      → ParserSpec
      → ParserSpec
      → Option PromotionMode
      → GateResults F
      → AppliedBy
      → SelfHealingReport F
  repair_report default_mode source_id active candidate mode gates applied_by =
      let outcome = decide default_mode mode gates in
      record {
        source_id = source_id;
        active_parser_id = id_or (source_id <> ".active") active;
        active_parser_version = version_or "1.0.0" active;
        candidate_parser_id = id_or (source_id <> ".candidate") candidate;
        candidate_parser_version = version_or "1.1.0" candidate;
        candidate_spec_hash = spec_hash_of candidate;
        gates = gates;
        promotion_mode = or_default mode default_mode;
        refusal_conditions_checked = outcome.2;
        refusal_reasons = outcome.1;
        decision = outcome.0;
        applied_by = applied_by;
      }

  -- Steps 4 and 5, once the gates have their results.
  unfoldable pub settle :
      SpecDeploymentEngine
      → PromotionMode
      → String
      → ParserSpec
      → ParserSpec
      → Option PromotionMode
      → GateResults F
      → Result RepairError (SelfHealingReport F × SpecDeploymentEngine)
  settle e default_mode source_id active candidate mode gates =
      apply_decision (decide default_mode mode gates).0 source_id candidate e >>= λ applied.
      ok (repair_report default_mode source_id active candidate mode gates applied.0, applied.1)

  unfoldable pub handle_repair :
      SpecDeploymentEngine
      → PromotionMode
      → String
      → ParserSpec
      → ParserSpec
      → List (String × Readings F)
      → Option PromotionMode
      → Result RepairError (SelfHealingReport F × SpecDeploymentEngine)
  handle_repair e default_mode source_id active candidate samples mode =
      shadow_gate (validate_spec_schema candidate).0 source_id active candidate samples
      >>= λ shadow.
          settle e default_mode source_id active candidate mode
            (results_of candidate samples shadow)
