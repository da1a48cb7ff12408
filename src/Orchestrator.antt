-- ===== src/Orchestrator.antt =====
-- ml/orchestrator/orchestrator.py: OnboardingOrchestrator.run_pipeline, which chains the profiler (an
-- argument, which may raise), the mapper and the assistant.
pub mod Approved
use ulpx.Base.{
  ℕ, String, Bool, true, false, Option, none, some, List, [], ◌∷◌, ◌++◌, ◌==◌, is_empty, length,
  take, map, Result, ok, err, ◌>>=◌, if◌then◌else◌,
}
use ulpx.Base.Text.{◌<>◌, join}
use ulpx.Base.Dict.{Dict, lookup}
use ulpx.Base.Floats.{Floats}
use ulpx.Base.Value.{Value, null, bool, int, float, str, arr, dict, entries, get}
use ulpx.Assist.{AssistError, Proposal, raw_of_entry, canonical_of_entry}
use ulpx.Mapper.{FieldProfile, FieldMappingResult, Summary, SourceMappingReport}
use ulpx.Mapper.Index.{CanonicalKnowledgeBase}
use ulpx.Mapper.Choice.{map_fields}
use ulpx.Compiler.Merge.{MappingItem, CandidatePackage}

pub data PipelineError : Type 0 where
  -- ValueError: no log lines.
  no_lines : PipelineError
  -- TypeError: an attribute that is no list.
  no_list : PipelineError
  -- What the profiler raises, by name.
  profile_error : String → PipelineError
  from_assistant : AssistError → PipelineError

pub data PipelineStatus : Type 0 where
  ready_for_review auto_approved : PipelineStatus

abbrev lift_assist {ℓ} : {A : Type ℓ} → Result AssistError A → Result PipelineError A
lift_assist (ok a) = ok a
lift_assist (err e) = err (from_assistant e)

module _ (fl : Floats) where
  open fl use {F}

  -- What the pipeline reads of a source profile: the fields, and `str(profile.format)`.
  pub record OnboardingProfile : Type 0 where
    pub fields : Dict (FieldProfile F)
    pub format_text : String

  -- An attribute of a mapping report.
  pub data Attribute : Type 0 where
    text_attribute : Option String → Attribute
    results : Dict (FieldMappingResult F) → Attribute
    counts : Summary → Attribute

  -- `getattr(report, name)`; the names of methods are not asked for.
  unfoldable pub attribute : SourceMappingReport F → String → Option Attribute
  attribute r name =
      if name == "source_id"
      then some (text_attribute r.source_id)
      else if name == "event_family"
      then some (text_attribute r.event_family)
      else if name == "mappings"
      then some (results r.mappings)
      else if name == "summary"
      then some (counts r.summary)
      else none

  -- `getattr(report, name, [])`, used as a list; the report is no dict.
  unfoldable pub listed : SourceMappingReport F → String → Result PipelineError (List (Value F))
  unfolding attribute
  listed r name = elim (attribute r name) [ none ↦ ok [] | some _ ↦ err no_list ]

  pub record SpecPackage : Type 0 where
    pub source_id : String
    pub status : PipelineStatus
    pub detected_format : String
    pub deterministic_mappings : List (Value F)
    pub escalated_fields : List (Value F)
    pub ai_candidate_specs : List (Proposal fl)
    pub total_fields : ℕ
    pub auto_accepted_count : ℕ
    pub escalated_count : ℕ

  abbrev package_of :
      String
      → OnboardingProfile
      → List (Value F)
      → List (Value F)
      → List (Proposal fl)
      → SpecPackage
  package_of source_id profile accepted escalated specs = record {
    source_id = source_id;
    status = if is_empty escalated then auto_approved else ready_for_review;
    detected_format = profile.format_text;
    deterministic_mappings = accepted;
    escalated_fields = escalated;
    ai_candidate_specs = specs;
    total_fields = length profile.fields;
    auto_accepted_count = length accepted;
    escalated_count = length escalated;
  }

  module _ (sequence_ratio : String → String → F) (kb : CanonicalKnowledgeBase)
      (profile : List String → Result String OnboardingProfile)
      (propose : String → String → List (Value F) → String → Result AssistError (Proposal fl)) where
    -- The assistant is asked if some field is escalated.
    abbrev escalate :
        String → String → List String → List (Value F) → Result PipelineError (List (Proposal fl))
    escalate source_id format lines [] = ok []
    escalate source_id format lines (f ∷ fs) =
        lift_assist (propose ("cand_" <> source_id) format (f ∷ fs) (join "\n" (take 5 lines)))
        >>= λ spec. ok (spec ∷ [])

    abbrev lift_profile : Result String OnboardingProfile → Result PipelineError OnboardingProfile
    lift_profile (ok p) = ok p
    lift_profile (err e) = err (profile_error e)

    abbrev onboard : String → List String → OnboardingProfile → Result PipelineError SpecPackage
    onboard source_id lines p =
        let report = map_fields fl sequence_ratio kb p.fields none none 3 in
        listed report "auto_accept" >>= λ accepted. listed report "human_review" >>= λ review.
        listed report "abstained" >>= λ abstained'.
        escalate source_id p.format_text lines (review ++ abstained') >>= λ specs.
        ok (package_of source_id p accepted (review ++ abstained') specs)

    unfoldable pub run_pipeline : String → List String → Result PipelineError SpecPackage
    unfolding listed map_fields join
    run_pipeline source_id [] = err no_lines
    run_pipeline source_id (l ∷ lines) =
        lift_profile (profile (l ∷ lines)) >>= λ p. onboard source_id (l ∷ lines) p

  abbrev text_or_none : Value F → Option String
  text_or_none (str s) = some s
  text_or_none _ = none

  abbrev item_of : Value F → MappingItem
  item_of entry = record {
    raw_field = text_or_none (raw_of_entry entry);
    canonical_field = text_or_none (canonical_of_entry entry);
  }

  -- The same dict as the compiler reads it.
  abbrev pub as_candidate : SpecPackage → CandidatePackage
  as_candidate p = record {
    source_id = some p.source_id;
    detected_format = some p.detected_format;
    deterministic_mappings = map item_of p.deterministic_mappings;
    ai_candidate_specs = map (λ s. map item_of s.mapped_fields) p.ai_candidate_specs;
  }
