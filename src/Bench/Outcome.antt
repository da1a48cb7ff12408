-- ===== src/Bench/Outcome.antt =====
-- What the benchmark reports.

use Prim.Native.String.append
use ulpx.Base.{
  ℕ, zero, suc, ◌+◌, ◌*◌, ◌<◌, String, ◌≡◌, refl, sym, ap, ap₂, ◌∙◌, Bool, true, false, ◌||◌,
  Option, List, [], ◌∷◌, ◌==◌, all, All, length, map, arith, ok, Bool-cases, inl, inr,
  if◌then◌else◌, eq_iff,
}
use ulpx.Base.Text.{join, strip, strip_left, strip_right, ◌<>◌}
use ulpx.Base.Dict.{Dict}
use ulpx.Base.Floats.{Floats, IsLawful, one_float}
use ulpx.Base.Value.{Value}
use ulpx.Compiler.{FieldMapping, CompiledParserSpec, vector_remap}
use ulpx.Compiler.Merge.{CandidatePackage, merge_overrides}
use ulpx.Compiler.Compile.{compile_spec, generate_compiled_code, vrl_line}
use ulpx.Compiler.Generate.{UlpfSpec}
use ulpx.Bench.{
  Draw, BenchResult, verification_failed, benchmarked, parse_fn, run_event, run_events, is_vrl_line,
  is_verified, bench_report, run_benchmark,
}
use ulpx.Bench.Lines.{splitlines-join, opens_dot, is_line, append-IsLine, IsLine, IsFull}

module _ {F : Type 0} where
  -- Whatever the mappings and the draw, a run counts as a success.
  run_event_all :
      (ms : List FieldMapping) (ev : Dict (Value F)) (n : ℕ) (draws : ℕ → Draw) (t s : ℕ)
      → run_event ms ev n draws (t, s) ≡ (t + n, s + n)
  unfolding run_event parse_fn
  run_event_all ms ev zero draws t s = ap₂ (λ a b. (a, b)) (omega arith) (omega arith)
  run_event_all ms ev (suc n) draws t s =
      run_event_all ms ev n draws (t + 1) (s + 1) ∙ ap₂ (λ a b. (a, b)) (omega arith) (omega arith)

  run_events_all :
      (ms : List FieldMapping) (evs : List (Dict (Value F) × (ℕ → Draw))) (n t s : ℕ)
      → run_events ms evs n (t, s) ≡ (t + length evs * n, s + length evs * n)
  unfolding run_events
  run_events_all ms [] n t s = ap₂ (λ a b. (a, b)) (omega arith) (omega arith)
  run_events_all ms ((ev, draws) ∷ evs) n t s =
      ap (run_events ms evs n) (run_event_all ms ev n draws t s)
      ∙ run_events_all ms evs n (t + n) (s + n)
      ∙ ap₂ (λ a b. (a, b)) (omega arith) (omega arith)

module _ (fl : Floats) (laws : IsLawful fl) (ast_parse json_loads : String → Bool) where
  open fl use {F, ratio}

  -- The report of a benchmark in which every run succeeds.
  abbrev pub full_success : String → ℕ → BenchResult F
  full_success spec_hash runs = benchmarked (record {
    passed = true;
    success_rate = one_float fl;
    total_runs = runs;
    successful_runs = runs;
    spec_hash = spec_hash;
  })

  all_succeed :
      (h : String) (n : ℕ)
      → bench_report fl ast_parse json_loads h (suc n, suc n) ≡ full_success h (suc n)
  all_succeed h n = ground (
    arith,
    laws.ratio_one (suc n) (omega arith),
    laws.ratio_le 95 100 1 1 (omega arith) (omega arith) (omega arith),
  )

  -- With a sample event and an iteration, a benchmark whose code passes the static check reports that
  -- every run succeeded, whatever the mappings and the draws; otherwise it reports the failed check.
  pub run_benchmark_outcome :
      (spec : CompiledParserSpec) (event : Dict (Value F) × (ℕ → Draw))
      (events : List (Dict (Value F) × (ℕ → Draw))) (iterations : ℕ)
      → run_benchmark fl ast_parse json_loads spec (event ∷ events) (suc iterations)
        ≡ ok (
            if is_verified fl ast_parse json_loads spec.target_runtime spec.compiled_code
            then full_success spec.spec_hash (length (event ∷ events) * suc iterations)
            else verification_failed)
  unfolding run_benchmark
  run_benchmark_outcome spec event events n =
      ap
        (λ r. ok (
          if is_verified fl ast_parse json_loads spec.target_runtime spec.compiled_code
          then r
          else verification_failed))
        (ap (bench_report fl ast_parse json_loads spec.spec_hash)
            (run_events_all spec.mappings (event ∷ events) (suc n) 0 0)
          ∙ positive (0 + length (event ∷ events) * suc n) (omega arith)
          ∙ ap (full_success spec.spec_hash) (omega arith))
    where
      positive :
          (k : ℕ)
          → 0 < k
          → bench_report fl ast_parse json_loads spec.spec_hash (k, k)
            ≡ full_success spec.spec_hash k
      positive zero h = absurd (omega arith)
      positive (suc k) h = all_succeed spec.spec_hash k

  -- A mapping whose names break no line.
  abbrev pub IsUnbroken : FieldMapping → Type 0
  IsUnbroken m = IsLine m.canonical_field × IsLine m.raw_field

  dotted : (s : String) → (strip ("." <> s) == "" || opens_dot (strip ("." <> s))) ≡ true
  unfolding strip strip_left strip_right opens_dot
  dotted s = rw (append.cons "." "" s, append.nil s) (or_true _)
    where
      or_true : (b : Bool) → (b || true) ≡ true
      or_true b = ground arith

  not_empty : (s : String) → (("." <> s) == "") ≡ false
  unfolding opens_dot
  not_empty s = elim (Bool-cases (("." <> s) == "")) [
    | inl empty ↦ absurd (
        clash
          (sym (rw (append.cons "." "" s) refl) ∙ ap opens_dot ((eq_iff ("." <> s) "").0 empty)))
    | inr other ↦ other
  ]
    where
      clash : true ≡ opens_dot "" → ⊥
      clash e = cc

  vrl_line-IsFull : (m : FieldMapping) → IsUnbroken m → IsFull (vrl_line m)
  unfolding is_line
  vrl_line-IsFull m (canon, raw) = (
    append-IsLine "." (m.canonical_field <> " = delete(." <> m.raw_field <> ")") refl (
        append-IsLine m.canonical_field (" = delete(." <> m.raw_field <> ")") canon (
          append-IsLine " = delete(." (m.raw_field <> ")") refl
            (append-IsLine m.raw_field ")" raw refl))),
    not_empty (m.canonical_field <> " = delete(." <> m.raw_field <> ")"),
  )

  lines-IsFull : (ms : List FieldMapping) → All IsUnbroken ms → All IsFull (map vrl_line ms)
  lines-IsFull [] h = tt
  lines-IsFull (m ∷ ms) (u, h) = (vrl_line-IsFull m u, lines-IsFull ms h)

  all_dotted :
      (ms : List FieldMapping) → all (is_vrl_line fl ast_parse json_loads) (map vrl_line ms) ≡ true
  all_dotted [] = refl
  all_dotted (m ∷ ms) =
      rw (dotted (m.canonical_field <> " = delete(." <> m.raw_field <> ")")) (all_dotted ms)

  vrl_verified :
      (ms : List FieldMapping)
      → All IsUnbroken ms
      → is_verified fl ast_parse json_loads vector_remap (join "\n" (map vrl_line ms)) ≡ true
  unfolding is_verified
  vrl_verified ms h =
      rw (splitlines-join (map vrl_line ms) (lines-IsFull ms h), all_dotted ms) (or_true _)
    where
      or_true : (b : Bool) → (b || true) ≡ true
      or_true b = ground arith

  -- A package that is compiled for Vector passes the benchmark with the full success rate, if there
  -- is a sample event and an iteration, and no resolved name breaks a line.
  pub compiled_benchmark :
      (dumps_spec : UlpfSpec → String) (dumps_table : Dict String → String)
      (sha256_hex : String → String) (candidate : CandidatePackage)
      (overrides : Option (Dict String)) (event : Dict (Value F) × (ℕ → Draw))
      (events : List (Dict (Value F) × (ℕ → Draw))) (iterations : ℕ)
      → let spec =
          compile_spec dumps_spec dumps_table sha256_hex candidate overrides vector_remap in
        All IsUnbroken (merge_overrides candidate overrides)
        → run_benchmark fl ast_parse json_loads spec (event ∷ events) (suc iterations)
          ≡ ok (full_success spec.spec_hash (length (event ∷ events) * suc iterations))
  unfolding compile_spec generate_compiled_code
  compiled_benchmark dumps_spec dumps_table sha256_hex candidate overrides event events n unbroken =
      let spec = compile_spec dumps_spec dumps_table sha256_hex candidate overrides vector_remap in
      run_benchmark_outcome spec event events n
      ∙ ap
          (λ b. ok (
            if b
            then full_success spec.spec_hash (length (event ∷ events) * suc n)
            else verification_failed))
          (vrl_verified (merge_overrides candidate overrides) unbroken)
