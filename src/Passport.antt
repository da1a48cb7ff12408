-- ===== src/Passport.antt =====
-- ml/passport/passport.py: the telemetry passport from validation evidence. A datetime is a type of
-- the model with `aware`, whether it has a time zone, and `timestamp`, its UTC text; all floats of
-- the model are finite, so `isfinite` holds.
pub mod Honest
use ulpx.Base.{
  ℕ, String, Bool, true, false, not, ◌||◌, ◌&&◌, Option, none, some, List, [], ◌∷◌, ◌==◌, all, any,
  map, leb, Result, ok, err, ◌>>=◌, if◌then◌else◌,
}
use ulpx.Base.Int.{ℤ}
use ulpx.Base.Text.{strip}
use ulpx.Base.Dict.{Dict, lookup, contains, keys}
use ulpx.Base.Floats.{Floats, zero_float, one_float}
use ulpx.Base.Value.{Value, str, int, float, or_null, get}

-- The ValueErrors, in the order in which the code can raise them.
pub data PassportError : Type 0 where
  required : String → PassportError
  naive_completed_at unmeasured_drift naive_drift_observed_at wrong_metrics : PassportError
  bad_metric : String → PassportError

pub data ValidationStatus : Type 0 where
  passed failed not_yet_measured : ValidationStatus

pub data CertificationStatus : Type 0 where
  certified not_certified : CertificationStatus

abbrev pub metric_names : List String
metric_names =
    "extraction_accuracy" ∷ "semantic_accuracy" ∷ "raw_retention" ∷ "unknown_field_retention"
    ∷ "detection_preservation" ∷ []

abbrev pub drift_states : List String
drift_states = "STABLE" ∷ "SUSPECTED" ∷ "DRIFTED" ∷ []

-- `x in xs`
abbrev is_one_of : String → List String → Bool
is_one_of x xs = any (λ y. y == x) xs

unfoldable pub required_text : String → String → Result PassportError (Unit {0})
unfolding strip
required_text name value = if strip value == "" then err (required name) else ok tt

-- `if condition: raise error`
unfoldable pub refuse : Bool → PassportError → Result PassportError (Unit {0})
refuse true e = err e
refuse false e = ok tt

module _ (fl : Floats) (DateTime : Type 0) (aware : DateTime → Bool)
    (timestamp : DateTime → String) where
  open fl use {F, lt}

  pub record ValidationEvidence : Type 0 where
    pub run_id : String
    pub completed_at : DateTime
    pub passed : Bool
    pub metrics : Dict (Value F)
    pub drift_state : Option String
    pub drift_observed_at : Option DateTime

  pub record Passport : Type 0 where
    pub source_id : String
    pub parser_id : String
    pub parser_version : String
    pub validation_status : ValidationStatus
    pub run_id : Option String
    pub completed_at : Option String
    pub certification_status : CertificationStatus
    pub certified_at : Option String
    pub scores : Dict (Value F)
    pub drift_state : Option String
    pub drift_observed_at : Option String

  -- `value` is an int or a float, no bool, from 0 to 1.
  abbrev pub is_score : Value F → Bool
  is_score (int (ℤ.pos n)) = leb n 1
  is_score (float x) = not (lt x (zero_float fl)) && not (lt (one_float fl) x)
  is_score _ = false

  unfoldable pub check_metrics : Dict (Value F) → Result PassportError (Unit {0})
  check_metrics [] = ok tt
  check_metrics ((name, v) ∷ metrics) =
      let rest = check_metrics metrics in if is_score v then rest else err (bad_metric name)

  -- `set(evidence.metrics) == set(METRIC_NAMES)`
  unfoldable pub has_exact_metrics : Dict (Value F) → Bool
  unfolding contains
  has_exact_metrics metrics =
      all (λ k. is_one_of k metric_names) (keys metrics)
      && all (λ name. contains name metrics) metric_names

  abbrev pub is_measured : Option String → Option DateTime → Bool
  is_measured (some state) (some at) = is_one_of state drift_states
  is_measured _ _ = false

  abbrev pub is_naive : Option DateTime → Bool
  is_naive none = false
  is_naive (some at) = not (aware at)

  unfoldable pub validate_evidence : ValidationEvidence → Result PassportError (Unit {0})
  unfolding required_text refuse has_exact_metrics check_metrics
  validate_evidence e = required_text "validation run_id" e.run_id >>= λ _.
      refuse (not (aware e.completed_at)) naive_completed_at >>= λ _.
      refuse (not (is_measured e.drift_state e.drift_observed_at)) unmeasured_drift >>= λ _.
      refuse (is_naive e.drift_observed_at) naive_drift_observed_at >>= λ _.
      refuse (not (has_exact_metrics e.metrics)) wrong_metrics >>= λ _. check_metrics e.metrics

  -- The metrics by name; after the validation none is missing.
  abbrev pub scores_of : Dict (Value F) → Dict (Value F)
  scores_of metrics = map (λ name. (name, get metrics name)) metric_names

  abbrev pub no_scores : Dict (Value F)
  no_scores = map (λ name. (name, str "NOT YET MEASURED")) metric_names

  abbrev stamp : Option DateTime → Option String
  stamp none = none
  stamp (some at) = some (timestamp at)

  abbrev blank_passport :
      String → String → String → ValidationStatus → Option String → Option String → Passport
  blank_passport source_id parser_id parser_version status run_id at = record {
    source_id = source_id;
    parser_id = parser_id;
    parser_version = parser_version;
    validation_status = status;
    run_id = run_id;
    completed_at = at;
    certification_status = not_certified;
    certified_at = none;
    scores = no_scores;
    drift_state = some "NOT_YET_MEASURED";
    drift_observed_at = none;
  }

  -- `_unmeasured`
  unfoldable pub unmeasured :
      String → String → String → Option ValidationEvidence → Result PassportError Passport
  unfolding required_text
  unmeasured source_id parser_id parser_version none =
      ok (blank_passport source_id parser_id parser_version not_yet_measured none none)
  unmeasured source_id parser_id parser_version (some e) =
      required_text "validation run_id" e.run_id >>= λ _. ok (
        blank_passport source_id parser_id parser_version failed (some e.run_id)
          (some (timestamp e.completed_at)))

  abbrev pub certified_passport : String → String → String → ValidationEvidence → Passport
  certified_passport source_id parser_id parser_version e = record {
    source_id = source_id;
    parser_id = parser_id;
    parser_version = parser_version;
    validation_status = passed;
    run_id = some e.run_id;
    completed_at = some (timestamp e.completed_at);
    certification_status = certified;
    certified_at = some (timestamp e.completed_at);
    scores = scores_of e.metrics;
    drift_state = e.drift_state;
    drift_observed_at = stamp e.drift_observed_at;
  }

  -- What follows the checks of the three texts.
  unfoldable pub assess :
      String → String → String → Option ValidationEvidence → Result PassportError Passport
  unfolding unmeasured validate_evidence
  assess source_id parser_id parser_version none =
      unmeasured source_id parser_id parser_version none
  assess source_id parser_id parser_version (some e) =
      if not e.passed
      then unmeasured source_id parser_id parser_version (some e)
      else validate_evidence e >>= λ _. ok (certified_passport source_id parser_id parser_version e)

  unfoldable pub build :
      String → String → String → Option ValidationEvidence → Result PassportError Passport
  unfolding required_text assess
  build source_id parser_id parser_version evidence = required_text "source_id" source_id >>= λ _.
      required_text "parser_id" parser_id >>= λ _.
      required_text "parser_version" parser_version >>= λ _.
      assess source_id parser_id parser_version evidence
