-- ===== src/Compiler/Merge.antt =====
-- ml/spec_compiler/compiler.py: `merge_overrides`, which combines the mapper's, the assistant's and
-- the reviewer's mappings.
use ulpx.Base.{
  String, ◌≡◌, refl, ◌∙◌, ap, Bool, true, false, ◌||◌, Option, none, some, List, [], ◌∷◌, ◌==◌, map,
  or_else, or_default, if◌then◌else◌, arith, eq_iff, Bool-cases,
}
use ulpx.Base.Dict.{
  Dict, lookup, insert, contains, lookup-insert, lookup-cons, lookup-nil, NodupKeys,
}
pub mod Priority
use ulpx.Compiler.{FieldMapping}

-- What `.get` gives of an item of the package.
pub record MappingItem : Type 0 where
  pub raw_field : Option String
  pub canonical_field : Option String

pub record CandidatePackage : Type 0 where
  pub source_id : Option String
  pub detected_format : Option String
  pub deterministic_mappings : List MappingItem
  -- The `mapped_fields` of each candidate spec.
  pub ai_candidate_specs : List (List MappingItem)

abbrev pub mapping : String → String → Bool → FieldMapping
mapping raw canonical applied = record {
  raw_field = raw;
  canonical_field = canonical;
  transformer = none;
  override_applied = applied;
}

-- `if raw and canonical`
abbrev usable : Option String → Option String → Option (String × String)
usable (some raw) (some canonical) =
    if raw == "" || canonical == "" then none else some (raw, canonical)
usable _ none = none
usable none (some _) = none

abbrev pub pair_of : MappingItem → Option (String × String)
pair_of item = usable item.raw_field item.canonical_field

abbrev pub put : Option (String × String) → Dict FieldMapping → Dict FieldMapping
put none resolved = resolved
put (some (raw, canonical)) resolved = insert raw (mapping raw canonical false) resolved

abbrev pub put_new : Option (String × String) → Dict FieldMapping → Dict FieldMapping
put_new none resolved = resolved
put_new (some (raw, canonical)) resolved =
    if contains raw resolved then resolved else insert raw (mapping raw canonical false) resolved

unfoldable pub add_deterministic : List MappingItem → Dict FieldMapping → Dict FieldMapping
unfolding insert
add_deterministic [] resolved = resolved
add_deterministic (item ∷ items) resolved = add_deterministic items (put (pair_of item) resolved)

unfoldable pub add_candidates : List MappingItem → Dict FieldMapping → Dict FieldMapping
unfolding insert contains
add_candidates [] resolved = resolved
add_candidates (item ∷ items) resolved = add_candidates items (put_new (pair_of item) resolved)

unfoldable pub add_specs : List (List MappingItem) → Dict FieldMapping → Dict FieldMapping
unfolding add_candidates
add_specs [] resolved = resolved
add_specs (items ∷ specs) resolved = add_specs specs (add_candidates items resolved)

unfoldable pub apply_overrides : Dict String → Dict FieldMapping → Dict FieldMapping
unfolding insert
apply_overrides [] resolved = resolved
apply_overrides ((raw, canonical) ∷ overrides) resolved =
    apply_overrides overrides (insert raw (mapping raw canonical true) resolved)

unfoldable pub resolved_mappings : CandidatePackage → Option (Dict String) → Dict FieldMapping
unfolding add_deterministic add_specs apply_overrides
resolved_mappings candidate overrides =
    apply_overrides (or_default overrides []) (
      add_specs candidate.ai_candidate_specs
        (add_deterministic candidate.deterministic_mappings []))

unfoldable pub merge_overrides : CandidatePackage → Option (Dict String) → List FieldMapping
unfolding resolved_mappings
merge_overrides candidate overrides = map (λ (_, m). m) (resolved_mappings candidate overrides)
