-- ===== src/Mapper.antt =====
-- ml/semantic_mapper/mapper.py: the data of the semantic mapper, and the profile of a field that
-- ml/source_profiler/profiler.py hands to it.
pub mod Catalog
pub mod Names
pub mod Types
pub mod Score
pub mod Index
pub mod Choice
use ulpx.Base.{String, Bool, ℕ, Option, List, [], ◌∷◌}
use ulpx.Base.Dict.{Dict}
use ulpx.Base.Value.{Value}

pub data ReviewStatus : Type 0 where
  auto_accepted human_review abstain : ReviewStatus

pub data EventFamily : Type 0 where
  network_connection firewall_policy authentication dns_activity web_session security_alert
        generic_network_event :
      EventFamily

abbrev pub all_families : List EventFamily
all_families =
    network_connection ∷ firewall_policy ∷ authentication ∷ dns_activity ∷ web_session
    ∷ security_alert ∷ generic_network_event ∷ []

-- `f.value`
abbrev pub family_value : EventFamily → String
family_value network_connection = "NETWORK_CONNECTION"
family_value firewall_policy = "FIREWALL_POLICY"
family_value authentication = "AUTHENTICATION"
family_value dns_activity = "DNS_ACTIVITY"
family_value web_session = "WEB_SESSION"
family_value security_alert = "SECURITY_ALERT"
family_value generic_network_event = "GENERIC_NETWORK_EVENT"

-- Sets are lists here: the program only tests membership and iterates.
pub record CanonicalFieldDefinition : Type 0 where
  pub path : String
  pub expected_types : List String
  pub description : String
  pub is_critical : Bool
  pub event_families : List EventFamily
  pub aliases : List String
  pub suggested_transform : Option String

-- What the mapper reads of a profile.
pub record FieldProfile (F : Type 0) : Type 0 where
  pub name : String
  pub inferred_type : String
  pub sample_values : List (Value F)
  pub is_ip_candidate : Bool
  pub is_timestamp_candidate : Bool
  pub is_enum_candidate : Bool

-- The texts of the evidence, with what they show.
pub data Evidence (F : Type 0) : Type 0 where
  exact_canonical_path_match exact_alias_match : Evidence F
  lexical_similarity : F → Evidence F
  hard_type_conflict datatype_mismatch : List String → String → Evidence F
  datatype_compatible : String → Evidence F
  is_ip_candidate_bonus is_timestamp_candidate_bonus is_enum_candidate_bonus : Evidence F
  event_family_context : String → Evidence F
  no_match_found abstain_preserve_extension : Evidence F

pub record MappingCandidate (F : Type 0) : Type 0 where
  pub raw_field : String
  pub canonical_path : String
  pub mapping_score : F
  pub evidence : List (Evidence F)
  pub review_status : ReviewStatus
  pub is_critical : Bool
  pub hard_type_conflict : Bool
  pub suggested_transformation : Option String
  pub preserve_in_extensions : Bool
  pub destination_path : String

pub record FieldMappingResult (F : Type 0) : Type 0 where
  pub raw_field : String
  pub chosen_mapping : MappingCandidate F
  pub top_candidates : List (MappingCandidate F)

pub record Summary : Type 0 where
  pub total_fields : ℕ
  pub auto_accepted_count : ℕ
  pub human_review_count : ℕ
  pub abstained_count : ℕ
  pub critical_fields_mapped : ℕ

pub record SourceMappingReport (F : Type 0) : Type 0 where
  pub source_id : Option String
  pub event_family : Option String
  pub mappings : Dict (FieldMappingResult F)
  pub summary : Summary
