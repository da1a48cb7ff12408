-- ===== src/Bench.antt =====
-- ml/test_bench/sandbox.py: the benchmark of a compiled spec. `ast.parse` and `json.loads` are
-- arguments that say whether they accept the text; the random draws are an argument too.
pub mod Lines
pub mod Outcome
use ulpx.Base.{
  ℕ, zero, suc, ◌+◌, ◌*◌, String, Bool, true, false, not, ◌||◌, ◌&&◌, Option, none, some, List, [],
  ◌∷◌, ◌==◌, all, length, map, ltb, Result, ok, err, is_empty, if◌then◌else◌,
}
use ulpx.Base.Text.{strip}
use ulpx.Base.Dict.{Dict, lookup, insert, contains, keys}
use ulpx.Base.Floats.{Floats, ge, zero_float}
use ulpx.Base.Value.{Value, null, str, dict, is_dict, is_null, get, entries, from_dict}
use ulpx.Compiler.{
  TargetRuntime, ulpf_parser_spec, vector_remap, logstash, python_native, FieldMapping,
  CompiledParserSpec,
}
use Lines.{splitlines, opens_dot}

pub data BenchError : Type 0 where
  -- ValueError: no sample events.
  no_samples : BenchError

pub data Mutation : Type 0 where
  drop_key inject_null add_noise noop : Mutation

-- What `random.choice` picks: a mutation, and the place of a key.
pub record Draw : Type 0 where
  pub mutation : Mutation
  pub place : ℕ

pub record Benchmark (F : Type 0) : Type 0 where
  pub passed : Bool
  pub success_rate : F
  pub total_runs : ℕ
  pub successful_runs : ℕ
  pub spec_hash : String

-- The code was refused before any run, or it was run.
pub data BenchResult (F : Type 0) : Type 0 where
  verification_failed : BenchResult F
  benchmarked : Benchmark F → BenchResult F

module _ {F : Type 0} where
  unfoldable pub remove : String → Dict (Value F) → Dict (Value F)
  remove k [] = []
  remove k ((j, v) ∷ d) = let rest = remove k d in if j == k then rest else (j, v) ∷ rest

  unfoldable pub key_at : ℕ → Dict (Value F) → Option String
  key_at n [] = none
  key_at zero ((k, v) ∷ d) = some k
  key_at (suc n) (e ∷ d) = key_at n d

  abbrev drop_at : Option String → Dict (Value F) → Dict (Value F)
  drop_at none d = d
  drop_at (some k) d = remove k d

  abbrev null_at : Option String → Dict (Value F) → Dict (Value F)
  null_at none d = d
  null_at (some k) d = insert k null d

  -- An empty log has no key to drop or to null.
  abbrev mutate : Mutation → ℕ → Dict (Value F) → Dict (Value F)
  mutate drop_key place d = drop_at (key_at place d) d
  mutate inject_null place d = null_at (key_at place d) d
  mutate add_noise place d = insert "_unexpected_fuzz_header" (str "fuzz_payload_0x99") d
  mutate noop place d = d

  unfoldable pub generate_fuzzed_sample : Draw → Dict (Value F) → Dict (Value F)
  unfolding remove key_at insert
  generate_fuzzed_sample draw base_log = mutate draw.mutation draw.place base_log

  -- `m.raw_field in event_dict and event_dict[m.raw_field] is not None`
  abbrev parse_one : Option (Value F) → String → Dict (Value F) → Dict (Value F)
  parse_one none canonical parsed = parsed
  parse_one (some v) canonical parsed = if is_null v then parsed else insert canonical v parsed

  unfoldable pub parse_mappings :
      List FieldMapping → Dict (Value F) → Dict (Value F) → Dict (Value F)
  unfolding lookup insert
  parse_mappings [] event parsed = parsed
  parse_mappings (m ∷ ms) event parsed =
      parse_mappings ms event (parse_one (lookup m.raw_field event) m.canonical_field parsed)

  -- What is no dict parses to the empty dict.
  unfoldable pub parse_fn : List FieldMapping → Value F → Value F
  unfolding parse_mappings
  parse_fn mappings (dict es) = dict (from_dict (parse_mappings mappings (entries es) []))
  parse_fn mappings v = dict (from_dict [])

  -- One run on a fuzzed copy of the event: the total and the successful runs.
  abbrev pub run_once : List FieldMapping → Dict (Value F) → Draw → ℕ × ℕ → ℕ × ℕ
  run_once mappings event draw (total, successful) = (
    total + 1,
    if is_dict (parse_fn mappings (dict (from_dict (generate_fuzzed_sample draw event))))
        then successful + 1
        else successful,
  )

  unfoldable pub run_event : List FieldMapping → Dict (Value F) → ℕ → (ℕ → Draw) → ℕ × ℕ → ℕ × ℕ
  unfolding generate_fuzzed_sample parse_fn
  run_event mappings event zero draws runs = runs
  run_event mappings event (suc n) draws runs =
      run_event mappings event n draws (run_once mappings event (draws n) runs)

  -- Each event with the draws of its iterations.
  unfoldable pub run_events :
      List FieldMapping → List (Dict (Value F) × (ℕ → Draw)) → ℕ → ℕ × ℕ → ℕ × ℕ
  unfolding run_event
  run_events mappings [] iterations runs = runs
  run_events mappings ((event, draws) ∷ events) iterations runs =
      run_events mappings events iterations (run_event mappings event iterations draws runs)

module _ (fl : Floats) (ast_parse json_loads : String → Bool) where
  open fl use {F, ratio}

  abbrev is_vrl_line : String → Bool
  is_vrl_line line = strip line == "" || opens_dot (strip line)

  -- The static check of the code; empty code is not checked.
  unfoldable pub is_verified : TargetRuntime → String → Bool
  unfolding splitlines opens_dot strip
  is_verified python_native code = code == "" || ast_parse code
  is_verified vector_remap code = code == "" || all is_vrl_line (splitlines code)
  is_verified ulpf_parser_spec code = code == "" || json_loads code
  is_verified logstash code = code == "" || json_loads code

  abbrev pub bench_report : String → ℕ × ℕ → BenchResult F
  bench_report spec_hash (total, successful) =
      let rate = if ltb 0 total then ratio successful total else zero_float fl in
      benchmarked (record {
        passed = ge fl rate (ratio 95 100);
        success_rate = rate;
        total_runs = total;
        successful_runs = successful;
        spec_hash = spec_hash;
      })

  unfoldable pub run_benchmark :
      CompiledParserSpec
      → List (Dict (Value F) × (ℕ → Draw))
      → ℕ
      → Result BenchError (BenchResult F)
  unfolding is_verified run_events
  run_benchmark spec [] iterations = err no_samples
  run_benchmark spec (event ∷ events) iterations = ok (
      if is_verified spec.target_runtime spec.compiled_code
      then bench_report spec.spec_hash (run_events spec.mappings (event ∷ events) iterations (0, 0))
      else verification_failed)
