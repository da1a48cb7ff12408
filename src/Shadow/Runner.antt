-- ===== src/Shadow/Runner.antt =====
-- ml/shadow/runner.py: both parsers on every raw event. The clock's readings are arguments, and so is
-- the source profiler's `parse_record`, which may raise. Candidate events go to the shadow sink alone.
pub mod Isolation
pub mod Outcomes
pub mod Lines
pub mod Streams
use ulpx.Base.{
  ℕ, String, Bool, true, false, Option, none, some, List, [], ◌∷◌, ◌++◌, length, drop, Result, ok,
  err, ◌>>=◌,
}
use ulpx.Base.Text.{◌<>◌}
use ulpx.Base.Floats.{Floats, max}
use ulpx.Base.Dict.{Dict, lookup, insert}
use ulpx.Base.Value.{Value, null, bool, int, float, str, arr, dict, end, entry, get, entries}
use ulpx.Spec.{ParserSpec, id_or, version_or}
pub use ulpx.Profiler.{ProfilerError, LogFormat}
use ulpx.Shadow.{Event}
pub use ulpx.Shadow.Parsing.{
  Raw, structured, line, RunnerError, no_attribute, no_mapping, record_error, canonical_of,
  apply_enum, add_unknowns, map_extracted, from_record, as_extracted, spec_hint,
}
unfoldable pub use ulpx.Shadow.Parsing.{hint_of, map_structured, map_record, parse}
use ulpx.Shadow.Compare.{Parsers, ShadowComparisonReport, compare}

-- The four readings of the clock around the two parses.
pub record Readings (F : Type 0) : Type 0 where
  pub t0 : F
  pub t1 : F
  pub t2 : F
  pub t3 : F

module _ (fl : Floats)
    (parse_record : String
      → Option LogFormat
      → Result ProfilerError (Option (Dict (Value fl.F)))) where
  open fl use {F}

  -- The audit tag of a candidate event.
  abbrev tag_of : String → String → Value F
  tag_of id version = dict (
      entry "candidate_parser_id" (str id)
        (entry "candidate_parser_version" (str version) (entry "is_shadow" (bool true) end)))

  abbrev pub tagged : String → String → Event F → Event F
  tagged id version ev = insert "_shadow" (tag_of id version) ev

  -- The outputs, the latencies and the bus as the loop goes on.
  pub record Run : Type 0 where
    pub active_outputs : List (Event F)
    pub candidate_outputs : List (Event F)
    pub active_latencies_ms : List F
    pub candidate_latencies_ms : List F
    pub downstream_bus : Option (List (Event F))

  abbrev pub latency_ms : F → F → F
  latency_ms from to = max fl (fl.ratio 1 1000) (fl.mul (fl.sub to from) (fl.ratio 1000 1))

  abbrev pub publish : Bool → Event F → Option (List (Event F)) → Option (List (Event F))
  publish true ev (some bus) = some (bus ++ ev ∷ [])
  publish false ev (some bus) = some bus
  publish _ ev none = none

  -- The state after the active parser's part of an iteration, and after the candidate's.
  abbrev pub add_active : Bool → Event F → Readings F → Run → Run
  add_active publishing ev t r = record {
    active_outputs = r.active_outputs ++ ev ∷ [];
    candidate_outputs = r.candidate_outputs;
    active_latencies_ms = r.active_latencies_ms ++ latency_ms t.t0 t.t1 ∷ [];
    candidate_latencies_ms = r.candidate_latencies_ms;
    downstream_bus = publish publishing ev r.downstream_bus;
  }

  abbrev pub add_candidate : Event F → Readings F → Run → Run
  add_candidate ev t r = record {
    active_outputs = r.active_outputs;
    candidate_outputs = r.candidate_outputs ++ ev ∷ [];
    active_latencies_ms = r.active_latencies_ms;
    candidate_latencies_ms = r.candidate_latencies_ms ++ latency_ms t.t2 t.t3 ∷ [];
    downstream_bus = r.downstream_bus;
  }

  -- An exception inside the loop comes with the state that it leaves behind.
  abbrev Interrupted : Type 0
  Interrupted = RunnerError × Run

  abbrev pub raising_in : Run → Result RunnerError (Event F) → Result Interrupted (Event F)
  raising_in r (ok ev) = ok ev
  raising_in r (err e) = err (e, r)

  -- One iteration: the active parser and its route to the bus, then the candidate.
  abbrev pub step :
      ParserSpec
      → ParserSpec
      → String
      → String
      → Bool
      → Raw F
      → Readings F
      → Run
      → Result Interrupted Run
  step active candidate id version publishing raw t r =
      raising_in r (parse fl parse_record raw active) >>= λ a.
      raising_in (add_active publishing a t r) (parse fl parse_record raw candidate) >>= λ c.
      ok (add_candidate (tagged id version c) t (add_active publishing a t r))

  unfoldable pub run_all :
      ParserSpec
      → ParserSpec
      → String
      → String
      → Bool
      → List (Raw F × Readings F)
      → Run
      → Result Interrupted Run
  run_all active candidate id version publishing [] r = ok r
  run_all active candidate id version publishing ((raw, t) ∷ raws) r =
      step active candidate id version publishing raw t r >>= λ r'.
      run_all active candidate id version publishing raws r'

  -- `ev.get("_shadow", {}).get("is_shadow") is True`
  abbrev is_true : Value F → Bool
  is_true (bool b) = b
  is_true _ = false

  abbrev shadow_mark : Option (Value F) → Result RunnerError Bool
  shadow_mark none = ok false
  shadow_mark (some (dict es)) = ok (is_true (get (entries es) "is_shadow"))
  shadow_mark (some _) = err no_attribute

  -- Whether the events carry no shadow mark; the scan stops at the first that does.
  abbrev unless_marked : Result RunnerError Bool → Result RunnerError Bool → Result RunnerError Bool
  unless_marked (ok true) rest = ok false
  unless_marked (ok false) rest = rest
  unless_marked (err e) rest = err e

  unfoldable pub scan : List (Event F) → Result RunnerError Bool
  unfolding lookup get
  scan [] = ok true
  scan (ev ∷ evs) = unless_marked (shadow_mark (lookup "_shadow" ev)) (scan evs)

  abbrev pub start : Option (List (Event F)) → Run
  start bus = record {
    active_outputs = [];
    candidate_outputs = [];
    active_latencies_ms = [];
    candidate_latencies_ms = [];
    downstream_bus = bus;
  }

  abbrev pub bus_size : Option (List (Event F)) → ℕ
  bus_size none = 0
  bus_size (some bus) = length bus

  -- The events that the run put on the bus.
  abbrev pub new_events : ℕ → Option (List (Event F)) → List (Event F)
  new_events n none = []
  new_events n (some bus) = drop n bus

  module _ (repr : Value F → String) where
    abbrev pub report_of : ParserSpec → ParserSpec → String → Run → Bool → ShadowComparisonReport F
    report_of active candidate source_id r isolated =
        compare fl repr
          (record {
            source_id = source_id;
            active_parser_id = id_or (source_id <> ".active") active;
            active_parser_version = version_or "1.0.0" active;
            candidate_parser_id = id_or (source_id <> ".candidate") candidate;
            candidate_parser_version = version_or "1.1.0" candidate;
          })
          r.active_outputs r.candidate_outputs (some r.active_latencies_ms)
          (some r.candidate_latencies_ms) isolated

    abbrev finish :
        ParserSpec
        → ParserSpec
        → String
        → Option (List (Event F))
        → Result Interrupted Run
        → Result RunnerError (ShadowComparisonReport F) × Option (List (Event F))
    finish active candidate source_id bus (err (e, r)) = (err e, r.downstream_bus)
    finish active candidate source_id bus (ok r) = (
      scan (new_events (bus_size bus) r.downstream_bus) >>= λ isolated.
          ok (report_of active candidate source_id r isolated),
      r.downstream_bus,
    )

    -- The loop over the raw events, from empty outputs.
    abbrev pub dual_loop :
        List (Raw F × Readings F)
        → ParserSpec
        → ParserSpec
        → String
        → Option (List (Event F))
        → Bool
        → Result Interrupted Run
    dual_loop raws active candidate source_id bus publishing =
        run_all active candidate (id_or (source_id <> ".candidate") candidate)
          (version_or "1.1.0" candidate) publishing raws (start bus)

    -- The bus after the call, beside the report or the exception.
    unfoldable pub execute_dual :
        List (Raw F × Readings F)
        → ParserSpec
        → ParserSpec
        → String
        → Option (List (Event F))
        → Bool
        → Result RunnerError (ShadowComparisonReport F) × Option (List (Event F))
    unfolding run_all scan
    execute_dual raws active candidate source_id bus publishing =
        finish active candidate source_id bus
          (dual_loop raws active candidate source_id bus publishing)
