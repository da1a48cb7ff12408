-- ===== src/Tests/Drifting.antt =====
-- The structural detector on two small profiles, over fixed-point floats.
use ulpx.Base.{◌≡◌, ◌≢◌, ◌↔◌, refl, none, [], ◌∷◌}
use ulpx.Base.Dict.{NodupKeys, lookup}
use ulpx.Base.Floats.Fixed.{fixed, fixed-IsLawful}
use ulpx.Drift.{Profile, stable, drifted, default_thresholds, compare_profiles}
use ulpx.Drift.States.{IsWithin, IsBroken, compare_profiles_outcome}
use ulpx.Drift.Same.{quiet, failures, compare_profiles_self}

abbrev baseline : Profile
baseline = record {
  total_records = 100;
  corrupted_records = 1;
  fields = ("src", "ipv4") ∷ ("port", "integer") ∷ [];
  format_distribution = ("csv", 100) ∷ [];
}

abbrev changed : Profile
changed = record {
  total_records = 100;
  corrupted_records = 1;
  fields = ("src", "string") ∷ ("dport", "integer") ∷ [];
  format_distribution = ("csv", 60) ∷ ("json", 40) ∷ [];
}

compare_profiles_outcome_example :
    let r =
      compare_profiles fixed
        (default_thresholds fixed)
        baseline
        changed
        "fw"
        "fw.csv"
        "1.0.0"
        none in
    ((r.drift_state ≡ stable) ↔ IsWithin fixed (default_thresholds fixed) r.signals)
    × ((r.drift_state ≡ drifted) ↔ IsBroken fixed (default_thresholds fixed) r.signals)
    × (r.drift_details ≢ [])
compare_profiles_outcome_example =
    compare_profiles_outcome fixed (default_thresholds fixed) baseline changed "fw" "fw.csv" "1.0.0"
      none

baseline-NodupKeys : NodupKeys baseline.fields
unfolding lookup
baseline-NodupKeys = (refl, (refl, tt))

baseline-IsWithin :
    IsWithin fixed
      (default_thresholds fixed)
      (quiet fixed fixed-IsLawful (failures fixed fixed-IsLawful baseline))
baseline-IsWithin = record {
  parses = refl;
  keys = refl;
  unknowns = refl;
  types = refl;
  formats = refl;
}

compare_profiles_self_example :
    (compare_profiles fixed
      (default_thresholds fixed)
      baseline
      baseline
      "fw"
      "fw.csv"
      "1.0.0"
      none).drift_state
    ≡ stable
compare_profiles_self_example =
    compare_profiles_self fixed fixed-IsLawful (default_thresholds fixed) baseline "fw" "fw.csv"
      "1.0.0" none baseline-NodupKeys baseline-IsWithin
