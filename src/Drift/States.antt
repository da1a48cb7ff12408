-- ===== src/Drift/States.antt =====
-- The drift state against the signals and the thresholds.
use ulpx.Base.{String, ◌≡◌, ◌≢◌, ◌↔◌, ◌⊎◌, true, Option, [], arith}
use ulpx.Base.Floats.{Floats, AtMost}
use ulpx.Drift.{
  stable, drifted, DriftThresholds, DriftSignals, Profile, signals_of, state_of, details_of,
  with_default, compare_profiles,
}

module _ (fl : Floats) where
  open fl use {F, lt}

  -- No signal is above its threshold.
  pub record IsWithin (t : DriftThresholds F) (s : DriftSignals F) : Type 0 where
    pub parses : AtMost fl s.parse_failure_rate t.parse_failure_rate
    pub keys : AtMost fl s.key_set_distance t.key_set_distance
    pub unknowns : AtMost fl s.unknown_field_ratio t.unknown_field_ratio
    pub types : AtMost fl s.type_violation_rate t.type_violation_rate
    pub formats : AtMost fl s.distribution_divergence t.distribution_divergence

  -- Failed parses, changed types or a changed set of keys.
  abbrev pub IsBroken : DriftThresholds F → DriftSignals F → Type 0
  IsBroken t s =
      (lt t.type_violation_rate s.type_violation_rate ≡ true)
      ⊎ ((lt t.parse_failure_rate s.parse_failure_rate ≡ true)
          ⊎ (lt t.key_set_distance s.key_set_distance ≡ true))

  pub stable_iff :
      (t : DriftThresholds F) (s : DriftSignals F) → (state_of fl t s ≡ stable) ↔ IsWithin t s
  stable_iff t s = (
    λ h. record {
      parses = ground (arith);
      keys = ground (arith);
      unknowns = ground (arith);
      types = ground (arith);
      formats = ground (arith);
    },
    λ w. ground (arith),
  )

  drifted_iff :
      (t : DriftThresholds F) (s : DriftSignals F) → (state_of fl t s ≡ drifted) ↔ IsBroken t s
  drifted_iff t s = (λ h. ground (arith), λ b. ground (arith))

  described :
      (t : DriftThresholds F) (s : DriftSignals F) (baseline current : Profile)
      → with_default fl (state_of fl t s) (details_of fl t s baseline current) ≢ []
  unfolding details_of
  described t s baseline current = λ e. ground (arith)

  -- A report is stable exactly when no signal is above its threshold, drifted exactly when the
  -- failed parses, the changed types or the key sets are above theirs; it always gives a detail.
  pub compare_profiles_outcome :
      (t : DriftThresholds F) (baseline current : Profile)
      (source_id parser_id parser_version : String) (run_id : Option String)
      → let r = compare_profiles fl t baseline current source_id parser_id parser_version run_id in
        ((r.drift_state ≡ stable) ↔ IsWithin t r.signals)
        × ((r.drift_state ≡ drifted) ↔ IsBroken t r.signals)
        × (r.drift_details ≢ [])
  unfolding compare_profiles
  compare_profiles_outcome t baseline current source_id parser_id parser_version run_id =
      let s = signals_of fl baseline current in
      (stable_iff t s, drifted_iff t s, described t s baseline current)
