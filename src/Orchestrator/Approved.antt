-- ===== src/Orchestrator/Approved.antt =====
-- The pipeline reads lists of the mapping report that the report does not have.
use ulpx.Base.{
  String, ◌≡◌, refl, none, List, [], ◌∷◌, length, Result, ok, err, ◌⊎◌, inl, inr, Result-cases,
}
use ulpx.Base.Floats.{Floats}
use ulpx.Base.Value.{Value}
use ulpx.Spec.{fields_of}
use ulpx.Assist.{AssistError, Proposal}
use ulpx.Mapper.{SourceMappingReport}
use ulpx.Mapper.Index.{CanonicalKnowledgeBase}
use ulpx.Compiler.Merge.{
  merge_overrides, resolved_mappings, add_deterministic, add_specs, apply_overrides,
}
use ulpx.Compiler.Generate.{generate_ulpf_parser_spec, fields_dict, or_message}
use ulpx.Orchestrator.{
  profile_error, auto_approved, OnboardingProfile, attribute, listed, SpecPackage, run_pipeline,
  as_candidate,
}

module _ (fl : Floats) where
  open fl use {F}

  -- The report has no such list.
  unlisted :
      (r : SourceMappingReport F)
      → (listed fl r "auto_accept" ≡ ok [])
        × (listed fl r "human_review" ≡ ok [])
        × (listed fl r "abstained" ≡ ok [])
  unfolding listed attribute
  unlisted r = (refl, refl, refl)

  module _ (sequence_ratio : String → String → F) (kb : CanonicalKnowledgeBase)
      (profile : List String → Result String (OnboardingProfile fl))
      (propose : String → String → List (Value F) → String → Result AssistError (Proposal fl)) where
    -- The package of any profile: approved without review, and empty.
    abbrev pub empty_package : String → OnboardingProfile fl → SpecPackage fl
    empty_package source_id p = record {
      source_id = source_id;
      status = auto_approved;
      detected_format = p.format_text;
      deterministic_mappings = [];
      escalated_fields = [];
      ai_candidate_specs = [];
      total_fields = length p.fields;
      auto_accepted_count = 0;
      escalated_count = 0;
    }

    -- The package is empty, and the spec compiled from it has no field but the fallback.
    abbrev pub IsEmptyRun : String → List String → OnboardingProfile fl → Type 0
    IsEmptyRun source_id lines p =
        (run_pipeline fl sequence_ratio kb profile propose source_id lines
          ≡ ok (empty_package source_id p))
        × (fields_of
              (generate_ulpf_parser_spec source_id p.format_text
                (merge_overrides (as_candidate fl (empty_package source_id p)) none)).spec
            ≡ or_message [])

    -- For any log lines but none, whatever the profiler finds, the mapper decides and the assistant
    -- would propose, the pipeline either raises what the profiler raises on the lines, or returns an
    -- approved package without a mapping, and the spec that is compiled from that without overrides
    -- has the fallback field `raw_message` alone.
    pub run_pipeline_empty :
        (source_id l : String) (lines : List String)
        → ((p : OnboardingProfile fl) × (profile (l ∷ lines) ≡ ok p)
            × IsEmptyRun source_id (l ∷ lines) p)
          ⊎ ((e : String) × (profile (l ∷ lines) ≡ err e)
              × (run_pipeline fl sequence_ratio kb profile propose source_id (l ∷ lines)
                  ≡ err (profile_error e)))
    unfolding run_pipeline listed attribute generate_ulpf_parser_spec merge_overrides
        resolved_mappings add_deterministic add_specs apply_overrides fields_dict
    run_pipeline_empty source_id l lines = elim (Result-cases (profile (l ∷ lines))) [
      | inl (p, h) ↦ inl (p, h, (rw h refl, refl))
      | inr (e, h) ↦ inr (e, h, rw h refl)
    ]
