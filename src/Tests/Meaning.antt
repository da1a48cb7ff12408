-- ===== src/Tests/Meaning.antt =====
-- The semantic detector on a firewall's spec and two streams, over fixed-point floats.
use ulpx.Base.{String, ◌≡◌, ◌↔◌, refl, not, none, some, List, [], ◌∷◌, Result, ok, Returns, All}
use ulpx.Base.Dict.{lookup}
use ulpx.Base.Text.{lower, is_in}
use ulpx.Base.Int.{ℤ}
use ulpx.Base.Floats.{zero_float}
use ulpx.Base.Floats.Fixed.{fixed, fixed-IsLawful}
use ulpx.Base.Value.{Value, str, get}
use ulpx.Spec.{ParserSpec, fields_of}
use ulpx.Shadow.{Event}
use ulpx.Shadow.Dps.{count_blocks, is_security_event, has_address}
use ulpx.Drift.{stable, drifted, DriftReport, default_thresholds, is_stable}
use ulpx.Drift.Semantic.{SemanticError}
use ulpx.Drift.Semantic.Blocks.{eval_blocked_preservation, preserved_blocks}
use ulpx.Drift.Semantic.Detect.{
  SemanticFindings, default_semantic_thresholds, semantic_signals, semantic_findings,
  detect_semantic_drift,
}
use ulpx.Drift.Semantic.States.{
  AreWithin, IsSilentLoss, SettledByShare, detect_semantic_drift_outcome,
  detect_semantic_drift_self, detect_semantic_drift_lost,
}
use ulpx.Drift.Semantic.Enums.{action_enum}
use ulpx.Base.Dict.{NodupKeys}
use ulpx.Drift.Semantic.Readable.{IsReadable, text, absent, detect_semantic_drift-Returns}

abbrev repr : Value ℤ → String
repr _ = ""

abbrev firewall : ParserSpec
firewall = record {
  parser = none;
  match_format = some "kv";
  body_parser = none;
  fields = some (
      (
        "act",
        record {
          type = some "string";
          map_to = some "event.action";
          enum = ("deny", "deny") ∷ [];
          transformations = [];
        },
      )
      ∷ (
        "src",
        record { type = some "ipv4"; map_to = some "src.ip"; enum = []; transformations = [] },
      )
      ∷ []);
}

abbrev kept : List (Event ℤ)
kept = (("event.action", str "deny") ∷ ("src.ip", str "10.0.0.1") ∷ []) ∷ []

abbrev lost : List (Event ℤ)
lost = (("event.action", str "allow") ∷ ("src.ip", str "10.0.0.1") ∷ []) ∷ []

kept-IsReadable : All IsReadable kept
unfolding get lookup
kept-IsReadable = ((text "deny", absent), tt)

lost-IsReadable : All IsReadable lost
unfolding get lookup
lost-IsReadable = ((text "allow", absent), tt)

abbrev detect : List (Event ℤ) → List (Event ℤ) → Result SemanticError (DriftReport ℤ)
detect bs cs =
    detect_semantic_drift fixed repr (default_semantic_thresholds fixed repr)
      (default_thresholds fixed) firewall firewall bs cs "fw" "fw.kv" "1.0.0" none

detect_semantic_drift-Returns_example : Returns (detect kept lost)
detect_semantic_drift-Returns_example =
    detect_semantic_drift-Returns fixed repr (default_semantic_thresholds fixed repr)
      (default_thresholds fixed) firewall firewall kept lost "fw" "fw.kv" "1.0.0" none
      kept-IsReadable lost-IsReadable

report : (bs cs : List (Event ℤ)) → All IsReadable bs → All IsReadable cs → Returns (detect bs cs)
report bs cs hb hc =
    detect_semantic_drift-Returns fixed repr (default_semantic_thresholds fixed repr)
      (default_thresholds fixed) firewall firewall bs cs "fw" "fw.kv" "1.0.0" none hb hc

abbrev lost_report : Returns (detect kept lost)
lost_report = report kept lost kept-IsReadable lost-IsReadable

abbrev same_report : Returns (detect kept kept)
same_report = report kept kept kept-IsReadable kept-IsReadable

detect_semantic_drift_outcome_example :
    (s : SemanticFindings ℤ) × (semantic_findings fixed repr
        (default_semantic_thresholds fixed repr)
        firewall
        firewall
        kept
        lost
      ≡ ok s)
    × ((lost_report.0.signals ≡ semantic_signals fixed repr s)
        × ((lost_report.0.drift_state ≡ stable)
            ↔ AreWithin fixed repr (default_semantic_thresholds fixed repr) s)
        × ((lost_report.0.drift_state ≡ drifted)
            ↔ IsSilentLoss fixed repr (default_semantic_thresholds fixed repr) s)
        × (lost_report.0.remediation_recommended ≡ not (is_stable lost_report.0.drift_state)))
detect_semantic_drift_outcome_example =
    detect_semantic_drift_outcome fixed repr (default_semantic_thresholds fixed repr)
      (default_thresholds fixed) firewall firewall kept lost "fw" "fw.kv" "1.0.0" none lost_report.0
      lost_report.1

one_action : NodupKeys (action_enum (fields_of firewall))
unfolding action_enum lookup
one_action = (refl, tt)

detect_semantic_drift_self_example :
    (same_report.0.signals.critical_mapping_drift ≡ some (zero_float fixed))
    × (same_report.0.signals.event_family_drift ≡ some (zero_float fixed))
    × (same_report.0.signals.dps_regression ≡ some (zero_float fixed))
    × SettledByShare fixed fixed-IsLawful repr
        (default_semantic_thresholds fixed repr)
        firewall
        kept
        same_report.0
detect_semantic_drift_self_example =
    detect_semantic_drift_self fixed fixed-IsLawful repr (default_semantic_thresholds fixed repr)
      (default_thresholds fixed) firewall kept "fw" "fw.kv" "1.0.0" none same_report.0 one_action
      (refl, refl, refl) same_report.1

one_kept : eval_blocked_preservation fixed repr kept ≡ (1, 1)
unfolding count_blocks is_security_event has_address get lookup lower is_in
one_kept = refl

none_kept : preserved_blocks fixed repr lost ≡ 0
unfolding count_blocks is_security_event has_address get lookup lower is_in
none_kept = refl

detect_semantic_drift_lost_example : lost_report.0.drift_state ≡ drifted
detect_semantic_drift_lost_example =
    detect_semantic_drift_lost fixed fixed-IsLawful repr (default_semantic_thresholds fixed repr)
      (default_thresholds fixed) firewall firewall kept lost "fw" "fw.kv" "1.0.0" none lost_report.0
      0 lost_report.1 one_kept none_kept refl
