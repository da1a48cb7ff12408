-- ===== src/Compiler/Compile.antt =====
-- ml/spec_compiler/compiler.py: `generate_compiled_code` and `compile_spec`. `json.dumps` of a spec and
-- of a table of texts, and SHA-256's hexadecimal text, are arguments.
use ulpx.Base.{String, Option, List, [], ◌∷◌, ◌++◌, map, or_default}
use ulpx.Base.Text.{join, take_text, ◌<>◌}
use ulpx.Base.Dict.{Dict, insert}
use ulpx.Compiler.{
  TargetRuntime, ulpf_parser_spec, vector_remap, logstash, python_native, FieldMapping,
  CompiledParserSpec,
}
use ulpx.Compiler.Merge.{CandidatePackage, merge_overrides}
use ulpx.Compiler.Generate.{UlpfSpec, generate_ulpf_parser_spec}

-- The two lines of a mapping in the generated Python.
unfoldable pub python_lines : List FieldMapping → List String
python_lines [] = []
python_lines (m ∷ ms) =
    ("    if \"" <> m.raw_field <> "\" in event:")
    ∷ ("        parsed[\"" <> m.canonical_field <> "\"] = event[\"" <> m.raw_field <> "\"]")
    ∷ python_lines ms

abbrev pub vrl_line : FieldMapping → String
vrl_line m = "." <> m.canonical_field <> " = delete(." <> m.raw_field <> ")"

-- `{m.raw_field: m.canonical_field for m in mappings}`
unfoldable pub field_table : List FieldMapping → Dict String → Dict String
unfolding insert
field_table [] table = table
field_table (m ∷ ms) table = field_table ms (insert m.raw_field m.canonical_field table)

module _ (dumps_spec : UlpfSpec → String) (dumps_table : Dict String → String) where
  unfoldable pub generate_compiled_code :
      List FieldMapping → TargetRuntime → String → String → String
  unfolding generate_ulpf_parser_spec python_lines field_table join
  generate_compiled_code mappings ulpf_parser_spec source_id detected_format =
      dumps_spec (generate_ulpf_parser_spec source_id detected_format mappings)
  generate_compiled_code mappings python_native source_id detected_format = join "\n" (
      ("def parse_log(event: dict) -> dict:" ∷ "    parsed = {}" ∷ [])
      ++ (python_lines mappings ++ "    return parsed" ∷ []))
  generate_compiled_code mappings vector_remap source_id detected_format =
      join "\n" (map vrl_line mappings)
  generate_compiled_code mappings logstash source_id detected_format =
      dumps_table (field_table mappings [])

  unfoldable pub compile_spec :
      (String → String)
      → CandidatePackage
      → Option (Dict String)
      → TargetRuntime
      → CompiledParserSpec
  unfolding merge_overrides generate_compiled_code take_text
  compile_spec sha256_hex candidate overrides runtime =
      let source_id = or_default candidate.source_id "unknown_source" in
      let detected_format = or_default candidate.detected_format "key_value" in
      let mappings = merge_overrides candidate overrides in
      let code = generate_compiled_code mappings runtime source_id detected_format in
      let spec_hash = take_text 16 (sha256_hex (source_id <> ":" <> code)) in
      record {
        spec_id = "spec_" <> source_id <> "_" <> spec_hash;
        source_id = source_id;
        version = 1;
        target_runtime = runtime;
        mappings = mappings;
        compiled_code = code;
        spec_hash = spec_hash;
      }
