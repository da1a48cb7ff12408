-- ===== src/Drift.antt =====
-- ml/drift/structural.py: the structural comparison of two source profiles. The format
-- distribution's values are counts, as the profiler gives them.
pub mod Divergence
pub mod States
pub mod Same
pub mod Semantic
use text.Mathlib.Text.{is_lt}
use Prim.Native.String.{compare}
use ulpx.Base.{
  ℕ, zero, suc, ◌+◌, String, Bool, true, false, not, ◌||◌, ◌&&◌, Option, none, some, List, [], ◌∷◌,
  ◌++◌, ◌==◌, is_empty, length, map, take, if◌then◌else◌, or_default,
}
use ulpx.Base.Dict.{Dict, lookup, contains, keys}
use ulpx.Base.Sort.{sorted}
use ulpx.Base.Floats.{Floats, zero_float, one_float}
use Divergence.{calculate_distribution_divergence}

pub data DriftState : Type 0 where
  stable suspected drifted : DriftState

pub record DriftThresholds (F : Type 0) : Type 0 where
  pub parse_failure_rate : F
  pub unknown_field_ratio : F
  pub type_violation_rate : F
  pub key_set_distance : F
  pub distribution_divergence : F
  pub dps_regression : Option F
  pub enum_drift_score : Option F
  pub critical_mapping_drift : Option F
  pub event_family_drift : Option F

pub record DriftSignals (F : Type 0) : Type 0 where
  pub parse_failure_rate : F
  pub unknown_field_ratio : F
  pub type_violation_rate : F
  pub key_set_distance : F
  pub distribution_divergence : F
  pub dps_regression : Option F
  pub enum_drift_score : Option F
  pub critical_mapping_drift : Option F
  pub event_family_drift : Option F

-- `field '{k}' mutated from {base_type} to {curr_type}`
pub record TypeMutation : Type 0 where
  pub field : String
  pub base_type : String
  pub curr_type : String

-- The messages, with the signal, the threshold and what else they show.
pub data DriftDetail (F : Type 0) : Type 0 where
  parse_failures : F → F → DriftDetail F
  key_sets : F → F → List String → List String → DriftDetail F
  unknown_fields : F → F → DriftDetail F
  type_violations : F → F → List TypeMutation → DriftDetail F
  formats : F → F → DriftDetail F
  within_bounds : DriftDetail F
  -- Those of ml/drift/semantic.py.
  mapping_dropped : String → String → DriftDetail F
  mapping_moved : String → String → String → DriftDetail F
  enum_inverted : String → String → String → DriftDetail F
  enum_unmapped : F → DriftDetail F
  families_diverged : F → String → String → DriftDetail F
  dps_regressed : F → F → F → DriftDetail F
  semantics_within_bounds : DriftDetail F

pub record DriftReport (F : Type 0) : Type 0 where
  pub source_id : String
  pub parser_id : String
  pub parser_version : String
  pub drift_state : DriftState
  pub sample_count : ℕ
  pub signals : DriftSignals F
  pub thresholds : DriftThresholds F
  pub drift_details : List (DriftDetail F)
  pub remediation_recommended : Bool
  pub baseline_run_id : Option String

-- What the detector reads of a source profile: the fields with their inferred types.
pub record Profile : Type 0 where
  pub total_records : ℕ
  pub corrupted_records : ℕ
  pub fields : Dict String
  pub format_distribution : Dict ℕ

abbrev pub is_stable : DriftState → Bool
is_stable stable = true
is_stable suspected = false
is_stable drifted = false

-- The keys of the first that the second has, or has not.
unfoldable pub shared_keys : Dict String → Dict String → List String
unfolding contains
shared_keys [] e = []
shared_keys ((k, _) ∷ d) e = let rest = shared_keys d e in if contains k e then k ∷ rest else rest

unfoldable pub own_keys : Dict String → Dict String → List String
unfolding contains
own_keys [] e = []
own_keys ((k, _) ∷ d) e = let rest = own_keys d e in if contains k e then rest else k ∷ rest

-- `max(1, n)`
abbrev pub at_least_one : ℕ → ℕ
at_least_one zero = 1
at_least_one (suc n) = suc n

abbrev is_mutation : String → String → Bool
is_mutation base curr = not (base == curr) && (not (base == "null") && not (curr == "null"))

-- One shared field.
abbrev mutation_of : String → String → Option String → List TypeMutation → List TypeMutation
mutation_of k base none rest = rest
mutation_of k base (some curr) rest =
    if is_mutation base curr
    then record { field = k; base_type = base; curr_type = curr } ∷ rest
    else rest

unfoldable pub type_mutations : Dict String → Dict String → List TypeMutation
unfolding lookup
type_mutations [] curr = []
type_mutations ((k, base) ∷ d) curr = mutation_of k base (lookup k curr) (type_mutations d curr)

module _ (fl : Floats) where
  open fl use {F, ratio, lt, sub}

  -- The defaults of the dataclass.
  abbrev pub default_thresholds : DriftThresholds F
  default_thresholds = record {
    parse_failure_rate = ratio 2 100;
    unknown_field_ratio = ratio 5 100;
    type_violation_rate = ratio 5 1000;
    key_set_distance = ratio 15 100;
    distribution_divergence = ratio 20 100;
    dps_regression = none;
    enum_drift_score = none;
    critical_mapping_drift = none;
    event_family_drift = none;
  }

  -- `m / n`, or another value if there is nothing to divide by.
  abbrev pub share : ℕ → ℕ → F → F
  share m zero otherwise = otherwise
  share m (suc n) otherwise = ratio m (suc n)

  abbrev pub jaccard_distance : ℕ → ℕ → F
  jaccard_distance inter zero = zero_float fl
  jaccard_distance inter (suc union) = sub (one_float fl) (ratio inter (suc union))

  unfoldable pub signals_of : Profile → Profile → DriftSignals F
  unfolding shared_keys own_keys type_mutations calculate_distribution_divergence
  signals_of baseline current =
      let inter = length (shared_keys baseline.fields current.fields) in
      let new = length (own_keys current.fields baseline.fields) in
      record {
        parse_failure_rate = ratio current.corrupted_records (at_least_one current.total_records);
        unknown_field_ratio = share new (length current.fields) (zero_float fl);
        type_violation_rate =
            share (length (type_mutations baseline.fields current.fields)) inter (zero_float fl);
        key_set_distance = jaccard_distance inter (length baseline.fields + new);
        distribution_divergence =
            calculate_distribution_divergence fl baseline.format_distribution
              current.format_distribution;
        dps_regression = none;
        enum_drift_score = none;
        critical_mapping_drift = none;
        event_family_drift = none;
      }

  abbrev pub state_of : DriftThresholds F → DriftSignals F → DriftState
  state_of t s =
      if lt t.type_violation_rate s.type_violation_rate
        || (lt t.parse_failure_rate s.parse_failure_rate
            || lt t.key_set_distance s.key_set_distance)
      then drifted
      else if lt t.unknown_field_ratio s.unknown_field_ratio
          || lt t.distribution_divergence s.distribution_divergence
      then suspected
      else stable

  abbrev detail : Bool → DriftDetail F → List (DriftDetail F)
  detail true d = d ∷ []
  detail false d = []

  abbrev first_sorted : List String → List String
  first_sorted ks = take 5 (sorted (λ a b. is_lt (compare a b)) ks)

  -- The messages of the signals above their thresholds, in the order of the source.
  unfoldable pub details_of :
      DriftThresholds F → DriftSignals F → Profile → Profile → List (DriftDetail F)
  unfolding own_keys type_mutations sorted
  details_of t s baseline current =
      detail (lt t.parse_failure_rate s.parse_failure_rate)
        (parse_failures s.parse_failure_rate t.parse_failure_rate)
      ++ (detail (lt t.key_set_distance s.key_set_distance) (
            key_sets s.key_set_distance t.key_set_distance
              (first_sorted (own_keys current.fields baseline.fields))
              (first_sorted (own_keys baseline.fields current.fields)))
          ++ (detail (lt t.unknown_field_ratio s.unknown_field_ratio)
                (unknown_fields s.unknown_field_ratio t.unknown_field_ratio)
              ++ (detail (lt t.type_violation_rate s.type_violation_rate) (
                    type_violations s.type_violation_rate t.type_violation_rate
                      (take 5 (type_mutations baseline.fields current.fields)))
                  ++ detail (lt t.distribution_divergence s.distribution_divergence)
                      (formats s.distribution_divergence t.distribution_divergence))))

  -- `if not details: details.append(...)`, in the stable state only.
  abbrev pub with_default : DriftState → List (DriftDetail F) → List (DriftDetail F)
  with_default stable [] = within_bounds ∷ []
  with_default stable (d ∷ ds) = d ∷ ds
  with_default suspected ds = ds
  with_default drifted ds = ds

  unfoldable pub compare_profiles :
      DriftThresholds F
      → Profile
      → Profile
      → String
      → String
      → String
      → Option String
      → DriftReport F
  unfolding signals_of details_of
  compare_profiles t baseline current source_id parser_id parser_version baseline_run_id =
      let s = signals_of baseline current in
      let state = state_of t s in
      record {
        source_id = source_id;
        parser_id = parser_id;
        parser_version = parser_version;
        drift_state = state;
        sample_count = current.total_records;
        signals = s;
        thresholds = t;
        drift_details = with_default state (details_of t s baseline current);
        remediation_recommended = not (is_stable state);
        baseline_run_id = baseline_run_id;
      }

  -- The profiler's `profile` is an argument.
  unfoldable pub detect_from_logs :
      (List String → Profile)
      → DriftThresholds F
      → Profile
      → List String
      → String
      → String
      → String
      → Option String
      → DriftReport F
  unfolding compare_profiles
  detect_from_logs profile t baseline current_logs source_id parser_id parser_version run_id =
      compare_profiles t baseline (profile current_logs) source_id parser_id parser_version run_id
