-- ===== src/Mapper/Index.antt =====
-- ml/semantic_mapper/mapper.py: CanonicalKnowledgeBase, the fields by path and the alias index.
use ulpx.Base.{
  String, ◌≡◌, refl, ap, ◌∙◌, Bool, ◌||◌, Option, none, some, List, [], ◌∷◌, ◌==◌, any, arith, map,
  if◌then◌else◌,
}
use ulpx.Base.Dict.{Dict, lookup, insert, lookup-insert, lookup-nil}
use ulpx.Mapper.{CanonicalFieldDefinition}
use ulpx.Mapper.Names.{normalize_name}

pub record CanonicalKnowledgeBase : Type 0 where
  pub fields : Dict CanonicalFieldDefinition
  pub alias_index : Dict String

unfoldable register_aliases : List String → String → Dict String → Dict String
unfolding insert normalize_name
register_aliases [] path index = index
register_aliases (a ∷ aliases) path index =
    register_aliases aliases path (insert (normalize_name a) path index)

-- One turn of the loading loop: the aliases, then the path itself.
abbrev register : CanonicalFieldDefinition → CanonicalKnowledgeBase → CanonicalKnowledgeBase
register d kb = record {
  fields = insert d.path d kb.fields;
  alias_index =
      insert (normalize_name d.path) d.path (register_aliases d.aliases d.path kb.alias_index);
}

unfoldable register_all :
    List CanonicalFieldDefinition → CanonicalKnowledgeBase → CanonicalKnowledgeBase
unfolding register_aliases insert normalize_name
register_all [] kb = kb
register_all (d ∷ ds) kb = register_all ds (register d kb)

abbrev pub empty : CanonicalKnowledgeBase
empty = record { fields = []; alias_index = [] }

unfoldable pub load_canonical_definitions : List CanonicalFieldDefinition → CanonicalKnowledgeBase
unfolding register_all
load_canonical_definitions ds = register_all ds empty

unfoldable pub get_field : CanonicalKnowledgeBase → String → Option CanonicalFieldDefinition
unfolding lookup
get_field kb path = lookup path kb.fields

abbrev pub get_all_fields : CanonicalKnowledgeBase → List CanonicalFieldDefinition
get_all_fields kb = map (λ (_, d). d) kb.fields

abbrev pub field_at : CanonicalKnowledgeBase → Option String → Option CanonicalFieldDefinition
field_at kb none = none
field_at kb (some path) = if path == "" then none else get_field kb path

unfoldable pub lookup_alias : CanonicalKnowledgeBase → String → Option CanonicalFieldDefinition
unfolding get_field lookup normalize_name
lookup_alias kb name = field_at kb (lookup (normalize_name name) kb.alias_index)

-- Whether a normalised name is the path of a field or one of its aliases.
abbrev pub owns : String → CanonicalFieldDefinition → Bool
owns n d = normalize_name d.path == n || any (λ a. normalize_name a == n) d.aliases

-- The path of the last of the fields that owns the name, else what was found before.
unfoldable pub last_owner : String → List CanonicalFieldDefinition → Option String → Option String
last_owner n [] found = found
last_owner n (d ∷ ds) found = last_owner n ds (if owns n d then some d.path else found)

lookup-register_aliases :
    (n : String) (aliases : List String) (path : String) (index : Dict String)
    → lookup n (register_aliases aliases path index)
      ≡ (if any (λ a. normalize_name a == n) aliases then some path else lookup n index)
unfolding register_aliases
lookup-register_aliases n [] path index = refl
lookup-register_aliases n (a ∷ aliases) path index = ground (
  arith,
  lookup-register_aliases n aliases path (insert (normalize_name a) path index),
  lookup-insert (normalize_name a) n path index,
)

lookup-register :
    (n : String) (d : CanonicalFieldDefinition) (kb : CanonicalKnowledgeBase)
    → lookup n (register d kb).alias_index
      ≡ (if owns n d then some d.path else lookup n kb.alias_index)
lookup-register n d kb = ground (
  arith,
  lookup-insert (normalize_name d.path) n d.path (register_aliases d.aliases d.path kb.alias_index),
  lookup-register_aliases n d.aliases d.path kb.alias_index,
)

lookup-register_all :
    (n : String) (ds : List CanonicalFieldDefinition) (kb : CanonicalKnowledgeBase)
    → lookup n (register_all ds kb).alias_index ≡ last_owner n ds (lookup n kb.alias_index)
unfolding register_all last_owner
lookup-register_all n [] kb = refl
lookup-register_all n (d ∷ ds) kb =
    lookup-register_all n ds (register d kb) ∙ ap (last_owner n ds) (lookup-register n d kb)

-- A name is looked up, in its normalised form, as the field whose path is that of the last
-- definition with that path or alias; a name that no definition owns is not found.
pub lookup_alias-load :
    (ds : List CanonicalFieldDefinition) (name : String)
    → lookup_alias (load_canonical_definitions ds) name
      ≡ field_at (load_canonical_definitions ds) (last_owner (normalize_name name) ds none)
unfolding lookup_alias load_canonical_definitions
lookup_alias-load ds name = ap (field_at (register_all ds empty)) (
    lookup-register_all (normalize_name name) ds empty
    ∙ ap (last_owner (normalize_name name) ds) (lookup-nil (normalize_name name)))
