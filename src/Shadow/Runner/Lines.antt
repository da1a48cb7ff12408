-- ===== src/Shadow/Runner/Lines.antt =====
-- ml/shadow/runner.py: the loop over lines of text, which only the source profiler can stop.
use ulpx.Base.{
  String, ◌≡◌, refl, ◌⊎◌, inl, inr, Bool, Option, List, [], ◌∷◌, Result, ok, err, ◌>>=◌,
}
use ulpx.Base.Floats.{Floats}
use ulpx.Base.Dict.{Dict}
use ulpx.Base.Value.{Value}
use ulpx.Spec.{ParserSpec, fields_of}
use ulpx.Shadow.{Event}
use ulpx.Shadow.Runner.{
  line, LogFormat, ProfilerError, RunnerError, record_error, Readings, parse, publish, tagged,
  as_extracted, from_record, map_record, spec_hint, add_active, add_candidate, Run, run_all,
}
use ulpx.Shadow.Runner.Outcomes.{lines, RaisedOn}

module _ (fl : Floats)
    (parse_record : String
      → Option LogFormat
      → Result ProfilerError (Option (Dict (Value fl.F)))) where
  open fl use {F}

  extracted-cases :
      (r : Result ProfilerError (Option (Dict (Value F)))) (event_of : Dict (Value F) → Event F)
      → ((ev : Event F) × ((as_extracted r >>= λ d. ok (event_of d)) ≡ ok ev))
        ⊎ ((e : ProfilerError) × ((as_extracted r >>= λ d. ok (event_of d)) ≡ err (record_error e))
            × (r ≡ err e))
  extracted-cases (ok fields) event_of = inl (_, refl)
  extracted-cases (err e) event_of = inr (e, refl, refl)

  -- A line is parsed, or the profiler raises on it.
  parse_line-cases :
      (text : String) (spec : ParserSpec)
      → ((ev : Event F) × (parse fl parse_record (line text) spec ≡ ok ev))
        ⊎ ((e : ProfilerError) × (parse fl parse_record (line text) spec ≡ err (record_error e))
            × (parse_record text (spec_hint fl parse_record spec) ≡ err e))
  unfolding parse
  parse_line-cases text spec =
      extracted-cases (parse_record text (spec_hint fl parse_record spec))
        (λ d. from_record (map_record (fields_of spec) d ([], [])))

  module _ (P : Option (List (Event F)) → Type 0) (active candidate : ParserSpec)
      (id version : String) (publishing : Bool) where
    -- The loop ends with a bus for which P holds, or with what the profiler raises on a line.
    abbrev pub Ends :
        List (String × Readings F)
        → Result (RunnerError × Run fl parse_record) (Run fl parse_record)
        → Type 0
    Ends texts x =
        ((r : Run fl parse_record) × (x ≡ ok r) × P r.downstream_bus)
        ⊎ ((e : ProfilerError) × (r : Run fl parse_record) × (x ≡ err (record_error e, r))
            × RaisedOn fl parse_record texts e)

    raised_later :
        (text : String) (t : Readings F) (texts : List (String × Readings F))
        (x : Result (RunnerError × Run fl parse_record) (Run fl parse_record))
        → Ends texts x
        → Ends ((text, t) ∷ texts) x
    unfolding RaisedOn
    raised_later text t texts x (inl h) = inl h
    raised_later text t texts x (inr (e, r, h, on)) = inr (e, r, h, inr on)

    pub run_all-Ends :
        ((text : String) (ev : Event F) (bus : Option (List (Event F)))
          → parse fl parse_record (line text) active ≡ ok ev
          → P bus
          → P (publish fl parse_record publishing ev bus))
        → (texts : List (String × Readings F)) (r : Run fl parse_record) → P r.downstream_bus
        → Ends texts (
            run_all fl parse_record active candidate id version publishing
              (lines fl parse_record texts)
              r)
    unfolding run_all RaisedOn
    run_all-Ends keeps [] r p = inl (r, refl, p)
    run_all-Ends keeps ((text, t) ∷ texts) r p = elim (parse_line-cases text active) [
      | inr (e, x, on) ↦ inr (e, r, rw x refl, inl (spec_hint fl parse_record active, on))
      | inl (a, x) ↦
          let with_a = add_active fl parse_record publishing a t r in
          elim (parse_line-cases text candidate) [
            | inr (e, y, on) ↦
                inr (e, with_a, rw (x, y) refl, inl (spec_hint fl parse_record candidate, on))
            | inl (c, y) ↦
                rw (x, y)
                  (raised_later text t texts _ (
                    run_all-Ends keeps texts
                      (add_candidate fl parse_record (tagged fl parse_record id version c) t with_a)
                      (keeps text a r.downstream_bus x p)))
          ]
    ]
