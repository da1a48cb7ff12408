-- ===== src/Shadow/Runner/Outcomes.antt =====
-- ml/shadow/runner.py: how the loop over the raw events ends, with its state or with an exception.
use mathlib.Core.List.{append_assoc, append-nil}
use ulpx.Base.{
  ℕ, suc, String, ◌≡◌, refl, ◌∙◌, ap, ◌⊎◌, inl, inr, Bool, true, false, Option, some, List, [], ◌∷◌,
  ◌++◌, take, Result, ok, err, Result-cases,
}
use ulpx.Base.Floats.{Floats}
use ulpx.Base.Dict.{Dict}
use ulpx.Base.Value.{Value}
use ulpx.Spec.{ParserSpec}
use ulpx.Shadow.{Event}
use ulpx.Shadow.Runner.{
  Raw, line, LogFormat, ProfilerError, RunnerError, Readings, parse, publish, tagged, add_active,
  add_candidate, Run, run_all,
}

module _ {F : Type 0} where
  abbrev pub published : Bool → List (Event F) → List (Event F)
  published true evs = evs
  published false evs = []

  pub append-published_nil :
      (bus : List (Event F)) (publishing : Bool) → bus ++ published publishing [] ≡ bus
  append-published_nil bus true = append-nil bus
  append-published_nil bus false = append-nil bus

  pub append-published_cons :
      (bus : List (Event F)) (publishing : Bool) (ev : Event F) (evs : List (Event F))
      → (bus ++ published publishing (ev ∷ [])) ++ published publishing evs
        ≡ bus ++ published publishing (ev ∷ evs)
  append-published_cons bus true ev evs = append_assoc bus (ev ∷ []) evs
  append-published_cons bus false ev evs = append-nil (bus ++ [])

module _ (fl : Floats)
    (parse_record : String
      → Option LogFormat
      → Result ProfilerError (Option (Dict (Value fl.F)))) where
  open fl use {F}

  abbrev until_raised : Result RunnerError (Event F) → List (Event F) → List (Event F)
  until_raised (ok ev) evs = ev ∷ evs
  until_raised (err e) evs = []

  abbrev if_parsed : Result RunnerError (Event F) → ℕ → ℕ
  if_parsed (ok ev) n = n
  if_parsed (err e) n = 0

  abbrev pub lines : List (String × Readings F) → List (Raw F × Readings F)
  lines [] = []
  lines ((text, t) ∷ rest) = (line text, t) ∷ lines rest

  -- The events are what the parser makes of the raw inputs, one for each.
  unfoldable pub AreParsed : ParserSpec → List (Raw F × Readings F) → List (Event F) → Type 0
  AreParsed spec [] [] = Unit
  AreParsed spec ((raw, t) ∷ raws) (ev ∷ evs) =
      (parse fl parse_record raw spec ≡ ok ev) × AreParsed spec raws evs
  AreParsed spec [] (ev ∷ evs) = ⊥
  AreParsed spec (x ∷ raws) [] = ⊥

  -- The profiler raises the exception on one of the texts.
  unfoldable pub RaisedOn : List (String × Readings F) → ProfilerError → Type 0
  RaisedOn [] e = ⊥
  RaisedOn ((text, t) ∷ texts) e =
      ((hint : Option LogFormat) × (parse_record text hint ≡ err e)) ⊎ RaisedOn texts e

  pub publish-some :
      (publishing : Bool) (ev : Event F) (bus : List (Event F))
      → publish fl parse_record publishing ev (some bus)
        ≡ some (bus ++ published publishing (ev ∷ []))
  publish-some true ev bus = refl
  publish-some false ev bus = rw append-nil refl

  -- The active parser's outputs in the order of the raw events, up to the first on which it raises.
  unfoldable pub active_events : ParserSpec → List (Raw F × Readings F) → List (Event F)
  active_events active [] = []
  active_events active ((raw, t) ∷ raws) =
      until_raised (parse fl parse_record raw active) (active_events active raws)

  -- The number of raw events up to the first on which the candidate raises, that one included.
  unfoldable pub reach : ParserSpec → List (Raw F × Readings F) → ℕ
  reach candidate [] = 0
  reach candidate ((raw, t) ∷ raws) =
      suc (if_parsed (parse fl parse_record raw candidate) (reach candidate raws))

  abbrev pub bus_of :
      Result (RunnerError × Run fl parse_record) (Run fl parse_record) → Option (List (Event F))
  bus_of (ok r) = r.downstream_bus
  bus_of (err (e, r)) = r.downstream_bus

  pub run_all-bus :
      (active candidate : ParserSpec) (id version : String) (publishing : Bool)
      (raws : List (Raw F × Readings F)) (r : Run fl parse_record) (bus : List (Event F))
      → r.downstream_bus ≡ some bus
      → bus_of (run_all fl parse_record active candidate id version publishing raws r)
        ≡ some
            (bus ++ published publishing (active_events active (take (reach candidate raws) raws)))
  unfolding run_all active_events reach
  run_all-bus active candidate id version publishing [] r bus h =
      rw (append-published_nil bus publishing) h
  run_all-bus active candidate id version publishing ((raw, t) ∷ raws) r bus h =
      elim (Result-cases (parse fl parse_record raw active)) [
        | inr (e, x) ↦ rw (x, append-published_nil) h
        | inl (a, x) ↦ elim (Result-cases (parse fl parse_record raw candidate)) [
          | inr (e, y) ↦ rw (x, y, h) (publish-some publishing a bus)
          | inl (c, y) ↦
              rw (x, y)
                (run_all-bus active candidate id version publishing raws
                    (add_candidate fl parse_record (tagged fl parse_record id version c) t
                      (add_active fl parse_record publishing a t r))
                    (bus ++ published publishing (a ∷ [])) (rw h (publish-some publishing a bus))
                  ∙ ap some (append-published_cons bus publishing a _))
        ]
      ]
