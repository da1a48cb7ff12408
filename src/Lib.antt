-- ===== src/Lib.antt =====
-- ULPF-X: parsing, shadow comparison, promotion and repair of log parsers.
--
-- A source's logs are read by a parser spec. When the source drifts, a candidate spec is compared
-- with the active one in shadow, a policy decides over the gates' results, and a promoted candidate
-- is deployed to the registry, which keeps the revisions for a rollback.
--
-- Files and the code they are about:
--   Base            shared names: Python's dicts, texts, sorting and values, results, and floats
--   Spec            the parts of a parser spec that ml/shadow and ml/self_healing read
--   Profiler        ml/source_profiler/profiler.py: the JSON, key-value and delimited parsers, Headers
--                   for CEF, Leef for LEEF, Syslog for the two syslog formats, in Records
--                   `detect_format` and `parse_record`, in Batch `detect_batch_format`
--   Compiler        ml/spec_compiler/schemas.py; Compiler/Merge has `merge_overrides` of
--                   ml/spec_compiler/compiler.py
--   Deploy          ml/deployment/deployer.py: SpecDeploymentEngine; Deploy/Chain has the abstract
--                   view, each source's chain of revisions, Deploy/Rollback and Deploy/Invariant
--                   the theorems on rollbacks and on sequences of calls
--   Shadow          ml/shadow/comparator.py, a module per `_evaluate_...` method (Congruence,
--                   Critical, Unknown, Dps, Latency), Flatten for `_flatten_event`, Compare for
--                   `compare`; Shadow/Parsing and Shadow/Runner have ml/shadow/runner.py: `_parse`
--                   and `execute_dual`, with Outcomes and Lines for how the loop ends and, in
--                   Streams, `execute_parsed_streams`
--   Promotion       ml/self_healing/policy.py: PromotionPolicy.evaluate
--   Healing         ml/self_healing/workflow.py: SelfHealingWorkflow.handle_repair, which calls the
--                   shadow runner, the policy and the deployer
--   Mapper          ml/semantic_mapper/mapper.py: Catalog for the canonical fields, Index for
--                   CanonicalKnowledgeBase, Names for names and their likeness, Types for
--                   `evaluate_type_compatibility`, Score for `score_candidate`, Choice for
--                   `map_field`, `map_source` and `map_fields`
--   Drift           ml/drift/structural.py: StructuralDriftDetector.compare_profiles, with
--                   Divergence for `_calculate_distribution_divergence`; Drift/Semantic has
--                   ml/drift/semantic.py, a module per `_check_...` method (Mappings, Enums,
--                   Families, Blocks) and Detect for `detect_semantic_drift`
--   Passport        ml/passport/passport.py: TelemetryPassportBuilder.build
--   Validation      ml/validation/validator.py: Extract, Transform and Measure for the parts of
--                   `validate_event`, Engine for the whole; Engine/Certify goes on to the passport
--   Compiler        also Generate for `generate_ulpf_parser_spec` and Compile for the rest of
--                   SpecCompilerEngine
--   Bench           ml/test_bench/sandbox.py: SpecTestBench.run_benchmark, with Lines for
--                   `splitlines`
--   Assist          ml/ai_assist: LocalAIAssistant, and in Mock the MockLLMProvider
--   Orchestrator    ml/orchestrator/orchestrator.py: OnboardingOrchestrator.run_pipeline
--   Ingest          scripts/cli.py: EventRingBuffer, and in Ulid `generate_contract_ulid`
--   Tests           the witnesses, over concrete specs and events
--
-- Floats are the record Base.Floats, operations with the documented laws that the proofs use (an
-- order, monotone rounding that keeps 0 and 1, ratios in order, 0 as a unit); Base/Floats/Fixed
-- meets them with fixed-point numbers. `repr`, difflib's ratio, `json.dumps`,
-- SHA-256 and the clock's readings are arguments. The runner, the repair and the validation take the
-- profiler's parsers as an interface whose members may raise; `extract` of Profiler/Records fills it. Exceptions are constructors of a
-- result type. Messages are constructors that carry the values they show. Texts are ASCII where
-- `lower` and `strip` act. All loops are recursion on lists, so no fuel is needed.
--
-- Not modelled: time stamps and incident ids of the reports, log output, the JSON views
-- (`to_dict`), the source profiler's regular expressions,
-- type inference, template miner and aggregation, the
-- reading of golden files, the benchmarks, the scripts under scripts/, and the Go services.
pub mod Base
pub mod Spec
pub mod Profiler
pub mod Compiler
pub mod Deploy
pub mod Shadow
pub mod Promotion
pub mod Healing
pub mod Drift
pub mod Passport
pub mod Validation
pub mod Bench
pub mod Assist
pub mod Ingest
pub mod Orchestrator
pub mod Mapper
mod Tests
