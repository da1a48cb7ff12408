-- ===== src/Mapper/Choice.antt =====
-- ml/semantic_mapper/mapper.py: the best canonical field of a raw field, and a whole source.
pub mod Best
pub mod Counts
use ulpx.Base.{
  ℕ, ◌+◌, String, Bool, true, false, ◌&&◌, not, Option, none, some, List, [], ◌∷◌, ◌++◌, map, any,
  length, take, one_if, if◌then◌else◌,
}
use ulpx.Base.Dict.{Dict, insert}
use ulpx.Base.Sort.{sorted}
use ulpx.Base.Floats.{Floats, zero_float}
use ulpx.Mapper.{
  ReviewStatus, auto_accepted, human_review, abstain, CanonicalFieldDefinition, FieldProfile,
  Evidence, no_match_found, abstain_preserve_extension, MappingCandidate, FieldMappingResult,
  Summary, SourceMappingReport,
}
use ulpx.Mapper.Index.{CanonicalKnowledgeBase, get_all_fields}
use ulpx.Mapper.Score.{score_candidate, extension_path, human_review_threshold, is_abstain}

abbrev pub is_accepted : ReviewStatus → Bool
is_accepted auto_accepted = true
is_accepted human_review = false
is_accepted abstain = false

abbrev pub is_review : ReviewStatus → Bool
is_review auto_accepted = false
is_review human_review = true
is_review abstain = false

-- The counters of the loop over a source's fields, and the results so far.
pub record Progress (F : Type 0) : Type 0 where
  pub results : Dict (FieldMappingResult F)
  pub auto_accepted : ℕ
  pub human_review : ℕ
  pub abstained : ℕ
  pub critical_mapped : ℕ

module _ {F : Type 0} where
  abbrev is_abstention : Evidence F → Bool
  is_abstention abstain_preserve_extension = true
  is_abstention _ = false

  -- `if ... not in evidence: evidence.append(...)`
  abbrev note_abstention : List (Evidence F) → List (Evidence F)
  note_abstention evidence =
      if any is_abstention evidence then evidence else evidence ++ abstain_preserve_extension ∷ []

  abbrev pub abstained : String → MappingCandidate F → MappingCandidate F
  abstained raw_field c = record {
    raw_field = c.raw_field;
    canonical_path = c.canonical_path;
    mapping_score = c.mapping_score;
    evidence = note_abstention c.evidence;
    review_status = abstain;
    is_critical = c.is_critical;
    hard_type_conflict = c.hard_type_conflict;
    suggested_transformation = c.suggested_transformation;
    preserve_in_extensions = true;
    destination_path = extension_path raw_field;
  }

  abbrev pub no_progress : Progress F
  no_progress = record {
    results = [];
    auto_accepted = 0;
    human_review = 0;
    abstained = 0;
    critical_mapped = 0;
  }

  abbrev pub count : String → FieldMappingResult F → Progress F → Progress F
  count name res t =
      let status = res.chosen_mapping.review_status in
      record {
        results = insert name res t.results;
        auto_accepted = t.auto_accepted + one_if (is_accepted status);
        human_review = t.human_review + one_if (is_review status);
        abstained = t.abstained + one_if (is_abstain status);
        critical_mapped =
            t.critical_mapped + one_if (res.chosen_mapping.is_critical && not (is_abstain status));
      }

  abbrev pub summary_of : Progress F → Summary
  summary_of t = record {
    total_fields = length t.results;
    auto_accepted_count = t.auto_accepted;
    human_review_count = t.human_review;
    abstained_count = t.abstained;
    critical_fields_mapped = t.critical_mapped;
  }

module _ (fl : Floats) where
  open fl use {F, lt}

  abbrev pub fallback : String → MappingCandidate F
  fallback raw_field = record {
    raw_field = raw_field;
    canonical_path = extension_path raw_field;
    mapping_score = zero_float fl;
    evidence = no_match_found ∷ abstain_preserve_extension ∷ [];
    review_status = abstain;
    is_critical = false;
    hard_type_conflict = false;
    suggested_transformation = none;
    preserve_in_extensions = true;
    destination_path = extension_path raw_field;
  }

  -- The best candidate is the first of the top ones, and abstaining changes it there too.
  unfoldable pub choose : String → List (MappingCandidate F) → FieldMappingResult F
  choose raw_field [] = record {
    raw_field = raw_field;
    chosen_mapping = fallback raw_field;
    top_candidates = [];
  }
  choose raw_field (best ∷ rest) =
      let c =
        if lt best.mapping_score (human_review_threshold fl)
        then abstained raw_field best
        else best in
      record { raw_field = raw_field; chosen_mapping = c; top_candidates = c ∷ rest }

  -- The test of the sort by descending score.
  abbrev pub better : MappingCandidate F → MappingCandidate F → Bool
  better a b = lt b.mapping_score a.mapping_score

  module _ (sequence_ratio : String → String → F) (kb : CanonicalKnowledgeBase) where
    abbrev pub candidates : FieldProfile F → Option String → List (MappingCandidate F)
    candidates p family =
        map (λ d. score_candidate fl sequence_ratio p.name p d family) (get_all_fields kb)

    unfoldable pub map_field : FieldProfile F → Option String → ℕ → FieldMappingResult F
    unfolding choose sorted
    map_field p family top_n = choose p.name (take top_n (sorted better (candidates p family)))

    unfoldable pub visit_fields :
        Dict (FieldProfile F) → Option String → ℕ → Progress F → Progress F
    unfolding map_field insert
    visit_fields [] family top_n t = t
    visit_fields ((name, p) ∷ fields) family top_n t =
        visit_fields fields family top_n (count name (map_field p family top_n) t)

    unfoldable pub map_source :
        Dict (FieldProfile F) → Option String → Option String → ℕ → SourceMappingReport F
    unfolding visit_fields
    map_source fields source_id family top_n =
        let t = visit_fields fields family top_n no_progress in
        record {
          source_id = source_id;
          event_family = family;
          mappings = t.results;
          summary = summary_of t;
        }

    -- `map_fields` wraps the profiles in a source profile of which `map_source` reads the fields.
    unfoldable pub map_fields :
        Dict (FieldProfile F) → Option String → Option String → ℕ → SourceMappingReport F
    unfolding map_source
    map_fields = map_source
