-- ===== src/Tests/Mapping.antt =====
-- The mapper on a source's address and port, over fixed-point floats and the catalog of the source.
use ulpx.Base.{String, ◌≡◌, ◌≢◌, ◌+◌, refl, true, false, none, some, [], ◌∷◌, All, length}
use ulpx.Base.Dict.{Dict, NodupKeys, lookup}
use ulpx.Base.Floats.{one_float}
use ulpx.Base.Floats.Fixed.{fixed, fixed-IsLawful}
use ulpx.Base.Value.{str}
use ulpx.Mapper.{FieldProfile, CanonicalFieldDefinition}
use ulpx.Mapper.Catalog.{definitions}
use ulpx.Mapper.Names.{normalize_name}
use ulpx.Mapper.Types.{types-zero_sample, int_magnitude, evaluate_type_compatibility}
use ulpx.Mapper.Index.{
  CanonicalKnowledgeBase, get_all_fields, load_canonical_definitions, lookup_alias,
  lookup_alias-load, field_at, last_owner,
}
use ulpx.Mapper.Score.{score_candidate}
use ulpx.Mapper.Score.Bands.{IsBanded, score_candidate-IsBanded}
use ulpx.Mapper.Choice.{map_field, map_source, candidates}
use ulpx.Mapper.Choice.Best.{map_field-best, map_field-IsBanded, Beats}
use ulpx.Mapper.Choice.Counts.{map_source-counts}
open fixed use {F}

-- Alike in all or nothing.
abbrev sequence_ratio : String → String → F
sequence_ratio a b = one_float fixed

abbrev port_definition : CanonicalFieldDefinition
port_definition = record {
  path = "src.port";
  expected_types = "integer" ∷ [];
  description = "Source port number";
  is_critical = true;
  event_families = [];
  aliases = "sport" ∷ [];
  suggested_transform = some "to_integer";
}

abbrev port_profile : FieldProfile F
port_profile = record {
  name = "sport";
  inferred_type = "string";
  sample_values = str "7" ∷ str "0" ∷ str "high" ∷ [];
  is_ip_candidate = false;
  is_timestamp_candidate = false;
  is_enum_candidate = false;
}

abbrev address_profile : FieldProfile F
address_profile = record {
  name = "srcip";
  inferred_type = "string";
  sample_values = str "gateway" ∷ [];
  is_ip_candidate = false;
  is_timestamp_candidate = false;
  is_enum_candidate = false;
}

abbrev small_base : CanonicalKnowledgeBase
small_base = record {
  fields = ("src.port", port_definition) ∷ [];
  alias_index = ("sport", "src.port") ∷ [];
}

abbrev source_fields : Dict (FieldProfile F)
source_fields = ("sport", port_profile) ∷ ("srcip", address_profile) ∷ []

types-zero_sample_example :
    evaluate_type_compatibility "string" ("timestamp" ∷ "integer" ∷ []) (some port_profile)
    ≡ (true, false)
unfolding int_magnitude
types-zero_sample_example =
    types-zero_sample "string" ("timestamp" ∷ "integer" ∷ []) port_profile (str "7" ∷ [])
      (str "high" ∷ []) (str "0") refl refl refl ((7, refl), tt) refl

lookup_alias-load_example :
    lookup_alias (load_canonical_definitions definitions) "Response-Code"
    ≡ field_at
        (load_canonical_definitions definitions)
        (last_owner (normalize_name "Response-Code") definitions none)
lookup_alias-load_example = lookup_alias-load definitions "Response-Code"

-- The alias of http.status_code belongs to the later dns.response_code.
response_code_owner : last_owner "responsecode" definitions none ≡ some "dns.response_code"
unfolding last_owner normalize_name
response_code_owner = refl

score_candidate-IsBanded_example :
    IsBanded fixed (score_candidate fixed sequence_ratio "sport" port_profile port_definition none)
score_candidate-IsBanded_example =
    score_candidate-IsBanded fixed fixed-IsLawful sequence_ratio "sport" port_profile
      port_definition none

map_field-best_example :
    All
      (Beats fixed fixed-IsLawful (map_field fixed sequence_ratio small_base port_profile none 3))
      (candidates fixed sequence_ratio small_base port_profile none)
map_field-best_example =
    map_field-best fixed fixed-IsLawful sequence_ratio small_base port_profile none 2

small_base-filled : get_all_fields small_base ≢ []
small_base-filled = λ e. cc

map_field-IsBanded_example :
    IsBanded fixed (map_field fixed sequence_ratio small_base port_profile none 3).chosen_mapping
map_field-IsBanded_example =
    map_field-IsBanded fixed fixed-IsLawful sequence_ratio small_base port_profile none 2
      small_base-filled

source_fields-NodupKeys : NodupKeys source_fields
unfolding lookup
source_fields-NodupKeys = (refl, (refl, tt))

map_source-counts_example :
    let s = (map_source fixed sequence_ratio small_base source_fields (some "fw") none 3).summary in
    (s.total_fields ≡ length source_fields)
    × (s.auto_accepted_count + s.human_review_count + s.abstained_count ≡ s.total_fields)
map_source-counts_example =
    map_source-counts fixed sequence_ratio small_base source_fields (some "fw") none 3
      source_fields-NodupKeys
