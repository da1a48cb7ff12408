-- ===== src/Compiler.antt =====
-- ml/spec_compiler: the records of schemas.py. The operations are in the modules below.
pub mod Merge
pub mod Generate
pub mod Compile
use ulpx.Base.{ℕ, Bool, String, Option, List}

pub data TargetRuntime : Type 0 where
  ulpf_parser_spec vector_remap logstash python_native : TargetRuntime

pub record FieldMapping : Type 0 where
  pub raw_field : String
  pub canonical_field : String
  pub transformer : Option String
  pub override_applied : Bool

pub record CompiledParserSpec : Type 0 where
  pub spec_id : String
  pub source_id : String
  pub version : ℕ
  pub target_runtime : TargetRuntime
  pub mappings : List FieldMapping
  pub compiled_code : String
  pub spec_hash : String
