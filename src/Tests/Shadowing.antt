-- ===== src/Tests/Shadowing.antt =====
-- A firewall event through the comparator and the runner, over fixed-point floats.
use mathlib.Core.Option.{some-injective, none-ne-some}
use ulpx.Base.{
  List, String, ◌≡◌, refl, ◌↔◌, true, false, Option, none, some, [], ◌∷◌, ◌++◌, All, Result, ok,
  err, ◌==◌, ◌⊎◌, Bool-cases, inl, inr, subst, map, take, if◌then◌else◌,
}
use ulpx.Base.Int
use ulpx.Base.Dict.{Dict, lookup, insert}
use ulpx.Base.Text.{lower, is_in}
use ulpx.Base.Floats.{zero_float, one_float, AtMost}
use ulpx.Base.Floats.Fixed.{fixed, fixed-IsLawful}
use ulpx.Base.Value.{Value, str, int, dict, end, entry}
use ulpx.Base.Value.Equality.{WellFormed}
use ulpx.Spec.{FieldDef, ParserSpec}
use ulpx.Shadow.{Event, ready_for_promotion, ShadowMetrics}
use ulpx.Shadow.Flatten.{flatten_event}
use ulpx.Shadow.Flatten.Distinct.{WellFormedEvent}
use ulpx.Shadow.Dps.{is_security_event, evaluate_dps_comparison}
use ulpx.Shadow.Dps.Bounds.{dps_bounds, dps_blind}
use ulpx.Shadow.Compare.{Parsers, ShadowComparisonReport, compare, verdict, metrics_of}
use ulpx.Shadow.Compare.Ready.{IsClear, verdict-ready_iff}
use ulpx.Shadow.Compare.Same.{compare_self}
use ulpx.Profiler.{no_block_id}
use ulpx.Shadow.Runner.{
  LogFormat, ProfilerError, record_error, Raw, line, Readings, canonical_of, hint_of, parse,
  execute_dual,
}
use ulpx.Shadow.Runner.Outcomes.{AreParsed, RaisedOn, active_events, reach}
use ulpx.Shadow.Runner.Streams.{
  execute_parsed_streams, execute_dual-streams, tagged_by, active_latency, candidate_latency,
}
use ulpx.Shadow.Runner.Isolation.{SparesShadow, bus-execute_dual, isolation-execute_dual}

abbrev F : Type 0
F = fixed.F

abbrev repr : Value F → String
repr v = "?"

abbrev blocked : Event F
blocked =
    ("event", dict (entry "action" (str "Blocked") end))
    ∷ ("src.ip", str "10.0.0.1")
    ∷ ("unknown_fields", dict (entry "x" (int (Int.pos 7)) end))
    ∷ []

abbrev allowed : Event F
allowed = ("event", dict (entry "action" (str "allowed") end)) ∷ ("src.ip", str "10.0.0.1") ∷ []

flattened :
    flatten_event blocked ≡ ("event.action", str "Blocked") ∷ ("src.ip", str "10.0.0.1") ∷ []
unfolding flatten_event
flattened = refl

abbrev parsers : Parsers
parsers = record {
  source_id = "fw";
  active_parser_id = "a";
  active_parser_version = "1.0.0";
  candidate_parser_id = "c";
  candidate_parser_version = "1.1.0";
}

blocked-wf : All (WellFormedEvent fixed) (blocked ∷ [])
unfolding WellFormed lookup
blocked-wf = ((refl, (refl, tt, tt), (refl, tt, (refl, (refl, tt, tt), tt))), tt)

compare_self_example :
    (compare fixed repr parsers (blocked ∷ []) (blocked ∷ []) none none true).recommendation
    ≡ ready_for_promotion
compare_self_example = compare_self fixed fixed-IsLawful repr parsers (blocked ∷ []) none blocked-wf

abbrev metrics : ShadowMetrics F
metrics = metrics_of fixed repr (blocked ∷ []) (allowed ∷ []) [] []

verdict-ready_iff_example :
    ((verdict fixed true metrics [] []).recommendation ≡ ready_for_promotion)
    ↔ IsClear fixed true metrics
verdict-ready_iff_example = verdict-ready_iff fixed fixed-IsLawful true metrics [] []

allowed_is_quiet : All (λ ev. is_security_event fixed repr ev ≡ false) (allowed ∷ [])
unfolding is_security_event lookup
allowed_is_quiet = (refl, tt)

dps_blind_example :
    ((evaluate_dps_comparison fixed repr (blocked ∷ []) (allowed ∷ [])).candidate_dps
      ≡ one_float fixed)
    × AtMost fixed
        (zero_float fixed)
        (evaluate_dps_comparison fixed repr (blocked ∷ []) (allowed ∷ [])).dps_delta
    × ((evaluate_dps_comparison fixed repr (blocked ∷ []) (allowed ∷ [])).regressed ≡ false)
dps_blind_example =
    dps_blind fixed fixed-IsLawful repr (blocked ∷ []) (allowed ∷ []) allowed_is_quiet

dps_bounds_example :
    let d = evaluate_dps_comparison fixed repr (blocked ∷ []) (allowed ∷ []) in
    (AtMost fixed (zero_float fixed) d.active_dps × AtMost fixed d.active_dps (one_float fixed))
    × (AtMost fixed (zero_float fixed) d.candidate_dps
        × AtMost fixed d.candidate_dps (one_float fixed))
dps_bounds_example = dps_bounds fixed fixed-IsLawful repr (blocked ∷ []) (allowed ∷ [])

abbrev record_parser : String → Option LogFormat → Result ProfilerError (Option (Dict (Value F)))
record_parser text hint =
    if text == "[]" then err no_block_id else ok (some (("act", str text) ∷ ("spt", str "80") ∷ []))

abbrev action_field : FieldDef
action_field = record {
  type = none;
  map_to = some "event.action";
  enum = ("DENY", "blocked") ∷ [];
  transformations = [];
}

abbrev fw_spec : ParserSpec
fw_spec = record {
  parser = none;
  match_format = some "cef";
  body_parser = none;
  fields = some (("act", action_field) ∷ []);
}

abbrev readings : Readings F
readings = record {
  t0 = zero_float fixed;
  t1 = one_float fixed;
  t2 = zero_float fixed;
  t3 = one_float fixed;
}

abbrev denied : List (Raw F × Readings F)
denied = (line "DENY", readings) ∷ []

-- The second line is one on which the profiler raises.
abbrev broken : List (Raw F × Readings F)
broken = (line "DENY", readings) ∷ (line "[]", readings) ∷ (line "DENY", readings) ∷ []

bus-execute_dual_example :
    (execute_dual fixed record_parser repr broken fw_spec fw_spec "fw" (some (allowed ∷ [])) true).1
    ≡ some (
        (allowed ∷ [])
        ++ active_events fixed record_parser fw_spec
            (take (reach fixed record_parser fw_spec broken) broken))
bus-execute_dual_example =
    bus-execute_dual fixed record_parser repr broken fw_spec fw_spec "fw" (allowed ∷ []) true

abbrev denied_event : Event F
denied_event =
    ("event.action", str "blocked") ∷ ("unknown_fields", dict (entry "spt" (str "80") end)) ∷ []

-- One event was delivered.
broken_delivers :
    active_events fixed record_parser fw_spec
      (take (reach fixed record_parser fw_spec broken) broken)
    ≡ denied_event ∷ []
unfolding active_events reach parse lookup insert hint_of lower is_in
broken_delivers = refl

fw_spec-SparesShadow : SparesShadow fw_spec
unfolding lookup
fw_spec-SparesShadow k f h = elim (Bool-cases ("act" == k)) [
  | inl same ↦
      subst (λ (g : FieldDef). (canonical_of k g == "_shadow") ≡ false)
        (some-injective action_field f (rw same at h)) refl
  | inr other ↦ absurd (none-ne-some f (rw other at h))
]

isolation-execute_dual_example :
    ((report : ShadowComparisonReport F) × ((execute_dual fixed record_parser repr denied fw_spec
          fw_spec "fw"
          (some (allowed ∷ []))
          true).0
        ≡ ok report)
      × (report.downstream_isolation_verified ≡ true))
    ⊎ ((e : ProfilerError) × ((execute_dual fixed record_parser repr denied fw_spec fw_spec "fw"
            (some (allowed ∷ []))
            true).0
          ≡ err (record_error e))
        × RaisedOn fixed record_parser (("DENY", readings) ∷ []) e)
isolation-execute_dual_example =
    isolation-execute_dual fixed record_parser repr (("DENY", readings) ∷ []) fw_spec fw_spec "fw"
      (allowed ∷ []) true fw_spec-SparesShadow

denied-AreParsed : AreParsed fixed record_parser fw_spec denied (denied_event ∷ [])
unfolding AreParsed parse lookup insert hint_of lower is_in
denied-AreParsed = (refl, tt)

execute_dual-streams_example :
    (execute_dual fixed record_parser repr denied fw_spec fw_spec "fw" (some []) true).0
    ≡ execute_parsed_streams fixed record_parser repr "fw" fw_spec fw_spec
        (denied_event ∷ [])
        (map (tagged_by fixed record_parser repr "fw" fw_spec) (denied_event ∷ []))
        (some (map (active_latency fixed record_parser repr) denied))
        (some (map (candidate_latency fixed record_parser repr) denied))
        (some (denied_event ∷ []))
        true
execute_dual-streams_example =
    execute_dual-streams fixed record_parser repr denied fw_spec fw_spec "fw" true
      (denied_event ∷ []) (denied_event ∷ []) denied-AreParsed denied-AreParsed
