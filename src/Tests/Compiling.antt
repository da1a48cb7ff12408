-- ===== src/Tests/Compiling.antt =====
-- A reviewer's override over the mapper's and the assistant's mapping of one field, compiled and
-- benchmarked.
use ulpx.Base.{
  ℕ, String, ◌≡◌, ◌≢◌, refl, Bool, true, some, [], ◌∷◌, or_else, arith, ok, All, if◌then◌else◌,
}
use ulpx.Base.Int.{ℤ}
use ulpx.Base.Text.{lower}
use ulpx.Base.Floats.Fixed.{fixed, fixed-IsLawful}
use ulpx.Base.Value.{Value, str}
use ulpx.Spec.{fields_of}
use ulpx.Compiler.{CompiledParserSpec, vector_remap}
use ulpx.Compiler.Generate.{
  UlpfSpec, generate_ulpf_parser_spec, clean_id, clean, strip_left_under, strip_right_under,
  opens_alnum,
}
use ulpx.Compiler.Generate.Fields.{expected, generated_fields}
use ulpx.Compiler.Compile.{compile_spec}
use ulpx.Bench.{Draw, drop_key, run_benchmark, is_verified, verification_failed}
use ulpx.Bench.Lines.{is_line}
use ulpx.Bench.Outcome.{IsUnbroken, full_success, run_benchmark_outcome, compiled_benchmark}
use ulpx.Base.Dict.{Dict, NodupKeys, lookup, insert, contains}
use ulpx.Compiler.Merge.{
  MappingItem, CandidatePackage, add_deterministic, add_specs, add_candidates, apply_overrides,
  resolved_mappings, merge_overrides,
}
use ulpx.Compiler.Merge.Priority.{overriding, merge_priority}

abbrev item : String → String → MappingItem
item raw canonical = record { raw_field = some raw; canonical_field = some canonical }

abbrev mapped : CandidatePackage
mapped = record {
  source_id = some "fw";
  detected_format = some "CEF";
  deterministic_mappings = item "act" "event.action" ∷ [];
  ai_candidate_specs = (item "act" "event.outcome" ∷ item "src" "src.ip" ∷ []) ∷ [];
}

abbrev reviewed : Dict String
reviewed = ("src", "source.address") ∷ []

reviewed-NodupKeys : NodupKeys reviewed
unfolding lookup
reviewed-NodupKeys = (refl, tt)

merge_priority_example :
    lookup "src" (resolved_mappings mapped (some reviewed))
    ≡ or_else (overriding "src" (lookup "src" reviewed)) (
        or_else
          (lookup "src" (add_deterministic mapped.deterministic_mappings []))
          (lookup "src" (add_specs mapped.ai_candidate_specs [])))
merge_priority_example = merge_priority mapped reviewed "src" reviewed-NodupKeys

has_mappings : resolved_mappings mapped (some reviewed) ≢ []
unfolding resolved_mappings add_deterministic add_specs add_candidates apply_overrides insert
    contains lookup
has_mappings = λ e. ground arith

generated_fields_example :
    lookup "src" (
      fields_of
        (generate_ulpf_parser_spec "FW 1" "CEF" (merge_overrides mapped (some reviewed))).spec)
    ≡ expected (lookup "src" (resolved_mappings mapped (some reviewed)))
generated_fields_example = generated_fields mapped (some reviewed) "FW 1" "CEF" "src" has_mappings

clean_id_run : clean_id "_FW 1_" ≡ "fw_1"
unfolding clean_id lower clean strip_left_under strip_right_under opens_alnum
clean_id_run = refl

abbrev any_json : String → Bool
any_json s = true

abbrev constant_spec : UlpfSpec → String
constant_spec s = "{}"

abbrev constant_table : Dict String → String
constant_table d = "{}"

abbrev digest : String → String
digest s = "0123456789abcdef0123456789abcdef"

abbrev sample : Dict (Value ℤ) × (ℕ → Draw)
sample = (("act", str "deny") ∷ [], λ n. record { mutation = drop_key; place = 0 })

unbroken :
    All (IsUnbroken fixed fixed-IsLawful any_json any_json) (merge_overrides mapped (some reviewed))
unfolding merge_overrides resolved_mappings add_deterministic add_specs add_candidates
    apply_overrides insert contains lookup is_line
unbroken = ((refl, refl), ((refl, refl), tt))

abbrev vector_spec : CompiledParserSpec
vector_spec = compile_spec constant_spec constant_table digest mapped (some reviewed) vector_remap

run_benchmark_outcome_example :
    run_benchmark fixed any_json any_json vector_spec (sample ∷ []) 10
    ≡ ok (
        if is_verified fixed any_json any_json vector_spec.target_runtime vector_spec.compiled_code
        then full_success fixed fixed-IsLawful any_json any_json vector_spec.spec_hash 10
        else verification_failed)
run_benchmark_outcome_example =
    run_benchmark_outcome fixed fixed-IsLawful any_json any_json vector_spec sample [] 9

compiled_benchmark_example :
    run_benchmark fixed any_json any_json vector_spec (sample ∷ []) 10
    ≡ ok (full_success fixed fixed-IsLawful any_json any_json vector_spec.spec_hash 10)
compiled_benchmark_example =
    compiled_benchmark fixed fixed-IsLawful any_json any_json constant_spec constant_table digest
      mapped (some reviewed) sample [] 9 unbroken
