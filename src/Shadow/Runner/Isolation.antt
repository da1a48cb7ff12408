-- ===== src/Shadow/Runner/Isolation.antt =====
-- Candidate output never reaches the downstream bus.
use mathlib.Core.List.{append_assoc, append-nil}
use ulpx.Base.{
  String, ◌≡◌, refl, ◌∙◌, ◌⊎◌, inl, inr, subst, Bool, true, false, Option, none, some, List, [],
  ◌∷◌, ◌++◌, All, ◌==◌, length, drop, take, Result, ok, err, Result-cases, bind_ok, ok-injective,
}
use ulpx.Base.Text.{◌<>◌}
use ulpx.Base.Floats.{Floats}
use ulpx.Base.Dict.{Dict, lookup, insert, lookup-insert, lookup-nil}
use ulpx.Base.Value.{Value, dict, from_dict}
use ulpx.Spec.{FieldDef, ParserSpec, fields_of, id_or, version_or}
use ulpx.Shadow.{Event}
use ulpx.Shadow.Compare.{ShadowComparisonReport, compare}
use ulpx.Shadow.Runner.{
  Raw, line, LogFormat, ProfilerError, record_error, Readings, canonical_of, map_record,
  map_extracted, apply_enum, add_unknowns, as_extracted, spec_hint, parse, publish, scan, start,
  dual_loop, execute_dual, report_of,
}
use ulpx.Shadow.Runner.Outcomes.{
  published, lines, RaisedOn, active_events, reach, bus_of, run_all-bus,
}
use ulpx.Shadow.Runner.Lines.{run_all-Ends}

-- No field of the spec is mapped to the audit key.
abbrev pub SparesShadow : ParserSpec → Type 0
SparesShadow spec =
    (k : String) (f : FieldDef)
    → lookup k (fields_of spec) ≡ some f
    → (canonical_of k f == "_shadow") ≡ false

module _ (fl : Floats)
    (parse_record : String
      → Option LogFormat
      → Result ProfilerError (Option (Dict (Value fl.F)))) where
  open fl use {F}

  execute_dual-bus_of :
      (repr : Value F → String) (raws : List (Raw F × Readings F)) (active candidate : ParserSpec)
      (source_id : String) (bus : Option (List (Event F))) (publishing : Bool)
      → (execute_dual fl parse_record repr raws active candidate source_id bus publishing).1
        ≡ bus_of fl parse_record
            (dual_loop fl parse_record repr raws active candidate source_id bus publishing)
  unfolding execute_dual
  execute_dual-bus_of repr raws active candidate source_id bus publishing =
      elim (Result-cases
        (dual_loop fl parse_record repr raws active candidate source_id bus publishing)) [
          | inl (r, h) ↦ rw h refl
          | inr (e, h) ↦ rw h refl
        ]

  -- After a dual run the bus holds what it held before, followed by nothing if publishing is off,
  -- and if it is on by the active parser's outputs, in order and each unchanged, on the raw events up
  -- to the first on which a parser raises, including that event if only the candidate raises on it,
  -- and on all raw events if no parser raises. The candidate spec decides nothing else of the bus.
  pub bus-execute_dual :
      (repr : Value F → String) (raws : List (Raw F × Readings F)) (active candidate : ParserSpec)
      (source_id : String) (bus : List (Event F)) (publishing : Bool)
      → (execute_dual fl parse_record repr raws active candidate source_id (some bus) publishing).1
        ≡ some (
            bus
            ++ published publishing (
                active_events fl parse_record active
                  (take (reach fl parse_record candidate raws) raws)))
  bus-execute_dual repr raws active candidate source_id bus publishing =
      execute_dual-bus_of repr raws active candidate source_id (some bus) publishing
      ∙ run_all-bus fl parse_record active candidate (id_or (source_id <> ".candidate") candidate)
          (version_or "1.1.0" candidate) publishing raws (start fl parse_record (some bus)) bus refl

  abbrev Unmarked : Event F → Type 0
  Unmarked ev = lookup "_shadow" ev ≡ none

  scan-Unmarked : (evs : List (Event F)) → All Unmarked evs → scan fl parse_record evs ≡ ok true
  unfolding scan
  scan-Unmarked [] h = refl
  scan-Unmarked (ev ∷ evs) (p, h) = rw p (scan-Unmarked evs h)

  insert-Unmarked :
      (k : String) (v : Value F) (d : Event F)
      → (k == "_shadow") ≡ false
      → Unmarked d
      → Unmarked (insert k v d)
  insert-Unmarked k v d h u = lookup-insert k "_shadow" v d ∙ rw h u

  map_extracted-Unmarked :
      (spec : ParserSpec) (k : String) (v : Value F) (r : Dict (Value F) × Dict (Value F))
      (f : Option FieldDef)
      → SparesShadow spec
      → lookup k (fields_of spec) ≡ f
      → Unmarked r.0
      → Unmarked (map_extracted f k v r).0
  map_extracted-Unmarked spec k v (result, unknowns) none s e u = u
  map_extracted-Unmarked spec k v (result, unknowns) (some f) s e u =
      insert-Unmarked (canonical_of k f) (apply_enum f.enum v) result (s k f e) u

  map_record-Unmarked :
      (spec : ParserSpec) (d : Dict (Value F)) (r : Dict (Value F) × Dict (Value F))
      → SparesShadow spec
      → Unmarked r.0
      → Unmarked (map_record (fields_of spec) d r).0
  unfolding map_record
  map_record-Unmarked spec [] r s u = u
  map_record-Unmarked spec ((k, v) ∷ d) r s u =
      map_record-Unmarked spec d (map_extracted (lookup k (fields_of spec)) k v r) s
        (map_extracted-Unmarked spec k v r (lookup k (fields_of spec)) s refl u)

  add_unknowns-Unmarked :
      (unknowns result : Dict (Value F)) → Unmarked result → Unmarked (add_unknowns unknowns result)
  add_unknowns-Unmarked [] result u = u
  add_unknowns-Unmarked (e ∷ unknowns) result u =
      insert-Unmarked "unknown_fields" (dict (from_dict (e ∷ unknowns))) result refl u

  parse_line-Unmarked :
      (spec : ParserSpec) (text : String) (ev : Event F)
      → SparesShadow spec
      → parse fl parse_record (line text) spec ≡ ok ev
      → Unmarked ev
  unfolding parse
  parse_line-Unmarked spec text ev s h =
      let (d, x, y) =
        bind_ok (as_extracted (parse_record text (spec_hint fl parse_record spec))) _ h in
      let read =
        add_unknowns-Unmarked (map_record (fields_of spec) d ([], [])).1
          (map_record (fields_of spec) d ([], [])).0
          (map_record-Unmarked spec d ([], []) s (lookup-nil "_shadow")) in
      subst Unmarked (ok-injective y) read

  All-append :
      (xs : List (Event F)) (ev : Event F)
      → All Unmarked xs
      → Unmarked ev
      → All Unmarked (xs ++ ev ∷ [])
  All-append [] ev h u = (u, tt)
  All-append (x ∷ xs) ev (p, h) u = (p, All-append xs ev h u)

  drop-length : (xs ys : List (Event F)) → drop (length xs) (xs ++ ys) ≡ ys
  drop-length [] ys = refl
  drop-length (x ∷ xs) ys = drop-length xs ys

  publish-none :
      (publishing : Bool) (ev : Event F) (bus : Option (List (Event F)))
      → bus ≡ none
      → publish fl parse_record publishing ev bus ≡ none
  publish-none true ev bus h = rw h refl
  publish-none false ev bus h = rw h refl

  -- The bus is the one before the run, followed by events without a mark.
  abbrev IsClean : List (Event F) → Option (List (Event F)) → Type 0
  IsClean before bus = (evs : List (Event F)) × (bus ≡ some (before ++ evs)) × All Unmarked evs

  publish-IsClean :
      (before : List (Event F)) (publishing : Bool) (ev : Event F) (bus : Option (List (Event F)))
      → Unmarked ev
      → IsClean before bus
      → IsClean before (publish fl parse_record publishing ev bus)
  publish-IsClean before true ev bus u (evs, h, all) =
      (evs ++ ev ∷ [], rw (h, append_assoc) refl, All-append evs ev all u)
  publish-IsClean before false ev bus u (evs, h, all) = (evs, rw h refl, all)

  -- On lines of text, over a bus and with an active spec that maps no field to the audit key, a dual
  -- run either raises what the source profiler raises on one of the lines, or returns a report which
  -- says that downstream isolation is verified.
  pub isolation-execute_dual :
      (repr : Value F → String) (texts : List (String × Readings F)) (active candidate : ParserSpec)
      (source_id : String) (bus : List (Event F)) (publishing : Bool)
      → SparesShadow active
      → ((report : ShadowComparisonReport F) × ((execute_dual fl parse_record repr
              (lines fl parse_record texts)
              active
              candidate
              source_id
              (some bus)
              publishing).0
            ≡ ok report)
          × (report.downstream_isolation_verified ≡ true))
        ⊎ ((e : ProfilerError) × ((execute_dual fl parse_record repr
                (lines fl parse_record texts)
                active
                candidate
                source_id
                (some bus)
                publishing).0
              ≡ err (record_error e))
            × RaisedOn fl parse_record texts e)
  unfolding execute_dual compare
  isolation-execute_dual repr texts active candidate source_id bus publishing s =
      elim (run_all-Ends fl parse_record (IsClean bus) active candidate
        (id_or (source_id <> ".candidate") candidate) (version_or "1.1.0" candidate) publishing
        (λ text ev b h p.
          publish-IsClean bus publishing ev b (parse_line-Unmarked active text ev s h) p)
        texts (start fl parse_record (some bus)) ([], rw append-nil refl, tt)) [
          | inl (r, h, (evs, on_bus, clean)) ↦ inl (
            report_of fl parse_record repr active candidate source_id r true,
            rw (h, on_bus, drop-length, scan-Unmarked evs clean) refl,
            refl,
          )
          | inr (e, r, h, on) ↦ inr (e, rw h refl, on)
        ]

  -- Without a bus a dual run on lines returns a report or raises what the profiler raises on a line.
  pub execute_dual-no_bus :
      (repr : Value F → String) (texts : List (String × Readings F)) (active candidate : ParserSpec)
      (source_id : String) (publishing : Bool)
      → ((report : ShadowComparisonReport F) × ((execute_dual fl parse_record repr
              (lines fl parse_record texts)
              active
              candidate
              source_id
              none
              publishing).0
            ≡ ok report))
        ⊎ ((e : ProfilerError) × ((execute_dual fl parse_record repr
                (lines fl parse_record texts)
                active
                candidate
                source_id
                none
                publishing).0
              ≡ err (record_error e))
            × RaisedOn fl parse_record texts e)
  unfolding execute_dual scan
  execute_dual-no_bus repr texts active candidate source_id publishing =
      elim (run_all-Ends fl parse_record (λ b. b ≡ none) active candidate
        (id_or (source_id <> ".candidate") candidate) (version_or "1.1.0" candidate) publishing
        (λ text ev b h p. publish-none publishing ev b p) texts (start fl parse_record none) refl) [
          | inl (r, h, no_bus) ↦ inl (
            report_of fl parse_record repr active candidate source_id r true,
            rw (h, no_bus) refl,
          )
          | inr (e, r, h, on) ↦ inr (e, rw h refl, on)
        ]
