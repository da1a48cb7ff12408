-- ===== src/Shadow/Runner/Streams.antt =====
-- ml/shadow/runner.py: the comparison of streams that were parsed before, as a dual run makes it.
use mathlib.Core.List.{append_assoc, append-nil}
use ulpx.Base.{
  String, ◌≡◌, refl, sym, ◌∙◌, Bool, true, ◌&&◌, Option, some, List, [], ◌∷◌, ◌++◌, map, Result, ok,
  ◌>>=◌, or_default,
}
use ulpx.Base.Text.{◌<>◌}
use ulpx.Base.Floats.{Floats}
use ulpx.Base.Dict.{Dict}
use ulpx.Base.Value.{Value}
use ulpx.Spec.{ParserSpec, id_or, version_or}
use ulpx.Shadow.{Event}
use ulpx.Shadow.Compare.{ShadowComparisonReport, compare}
use ulpx.Shadow.Runner.{
  LogFormat, ProfilerError, Raw, RunnerError, Readings, Run, latency_ms, tagged, add_active,
  add_candidate, run_all, start, scan, execute_dual,
}
use ulpx.Shadow.Runner.Outcomes.{
  published, AreParsed, append-published_nil, append-published_cons, publish-some,
}

module _ (fl : Floats)
    (parse_record : String → Option LogFormat → Result ProfilerError (Option (Dict (Value fl.F))))
    (repr : Value fl.F → String) where
  open fl use {F}

  -- A scan of the whole bus can only withdraw the caller's word.
  unfoldable pub execute_parsed_streams :
      String
      → ParserSpec
      → ParserSpec
      → List (Event F)
      → List (Event F)
      → Option (List F)
      → Option (List F)
      → Option (List (Event F))
      → Bool
      → Result RunnerError (ShadowComparisonReport F)
  execute_parsed_streams source_id active candidate active_events candidate_events la lc bus
        verified =
      scan fl parse_record (or_default bus []) >>= λ clear. ok (
        compare fl repr
          (record {
            source_id = source_id;
            active_parser_id = id_or (source_id <> ".active") active;
            active_parser_version = version_or "1.0.0" active;
            candidate_parser_id = id_or (source_id <> ".candidate") candidate;
            candidate_parser_version = version_or "1.1.0" candidate;
          })
          active_events candidate_events la lc (verified && clear))

  abbrev pub tagged_by : String → ParserSpec → Event F → Event F
  tagged_by source_id candidate =
      tagged fl parse_record (id_or (source_id <> ".candidate") candidate)
        (version_or "1.1.0" candidate)

  abbrev pub active_latency : Raw F × Readings F → F
  active_latency (raw, t) = latency_ms fl parse_record t.t0 t.t1

  abbrev pub candidate_latency : Raw F × Readings F → F
  candidate_latency (raw, t) = latency_ms fl parse_record t.t2 t.t3

  -- A state with what the parsed events add to it.
  abbrev extended :
      (Event F → Event F)
      → Bool
      → List (Raw F × Readings F)
      → List (Event F)
      → List (Event F)
      → List (Event F)
      → Run fl parse_record
      → Run fl parse_record
  extended tag publishing raws evs cevs bus r = record {
    active_outputs = r.active_outputs ++ evs;
    candidate_outputs = r.candidate_outputs ++ map tag cevs;
    active_latencies_ms = r.active_latencies_ms ++ map active_latency raws;
    candidate_latencies_ms = r.candidate_latencies_ms ++ map candidate_latency raws;
    downstream_bus = some (bus ++ published publishing evs);
  }

  run_all-parsed :
      (active candidate : ParserSpec) (source_id : String) (publishing : Bool)
      (raws : List (Raw F × Readings F)) (evs cevs bus : List (Event F)) (r : Run fl parse_record)
      → r.downstream_bus ≡ some bus
      → AreParsed fl parse_record active raws evs
      → AreParsed fl parse_record candidate raws cevs
      → run_all fl parse_record active candidate
          (id_or (source_id <> ".candidate") candidate)
          (version_or "1.1.0" candidate)
          publishing
          raws
          r
        ≡ ok (extended (tagged_by source_id candidate) publishing raws evs cevs bus r)
  unfolding run_all AreParsed
  run_all-parsed active candidate source_id publishing [] [] [] bus r h p q =
      rw
        (
          append-nil r.active_outputs,
          append-nil r.candidate_outputs,
          append-nil r.active_latencies_ms,
          append-nil r.candidate_latencies_ms,
          append-published_nil bus publishing,
          sym h,
        )
        refl
  run_all-parsed active candidate source_id publishing ((raw, t) ∷ raws) (a ∷ evs) (c ∷ cevs) bus r
        h (x, p) (y, q) =
      rw (x, y)
        (run_all-parsed active candidate source_id publishing raws evs cevs
            (bus ++ published publishing (a ∷ []))
            (add_candidate fl parse_record (tagged_by source_id candidate c) t
              (add_active fl parse_record publishing a t r))
            (rw h (publish-some fl parse_record publishing a bus)) p q
          ∙ rw
              (
                append_assoc r.active_outputs,
                append_assoc r.candidate_outputs,
                append_assoc r.active_latencies_ms,
                append_assoc r.candidate_latencies_ms,
                append-published_cons bus publishing a evs,
              )
              refl)
  run_all-parsed active candidate source_id publishing [] (a ∷ evs) cevs bus r h p q = absurd p
  run_all-parsed active candidate source_id publishing [] [] (c ∷ cevs) bus r h p q = absurd q
  run_all-parsed active candidate source_id publishing (x ∷ raws) [] cevs bus r h p q = absurd p
  run_all-parsed active candidate source_id publishing (x ∷ raws) (a ∷ evs) [] bus r h p q =
      absurd q

  -- If both parsers make an event of every raw input, a dual run over an empty bus reports, or
  -- raises, what the comparison of parsed streams does on the active events, the candidate events with
  -- the audit tag, the latencies that the clock's readings give, and a bus with the active events if
  -- publishing is on and without any if it is off.
  pub execute_dual-streams :
      (raws : List (Raw F × Readings F)) (active candidate : ParserSpec) (source_id : String)
      (publishing : Bool) (evs cevs : List (Event F))
      → AreParsed fl parse_record active raws evs
      → AreParsed fl parse_record candidate raws cevs
      → (execute_dual fl parse_record repr raws active candidate source_id (some []) publishing).0
        ≡ execute_parsed_streams source_id active candidate evs
            (map (tagged_by source_id candidate) cevs)
            (some (map active_latency raws))
            (some (map candidate_latency raws))
            (some (published publishing evs))
            true
  unfolding execute_dual execute_parsed_streams
  execute_dual-streams raws active candidate source_id publishing evs cevs p q =
      rw
        (run_all-parsed active candidate source_id publishing raws evs cevs []
          (start fl parse_record (some [])) refl p q)
        refl
