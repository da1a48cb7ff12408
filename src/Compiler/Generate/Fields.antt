-- ===== src/Compiler/Generate/Fields.antt =====
-- The fields of the generated spec are the resolved mappings.
use ulpx.Base.{
  String, ◌≡◌, ◌≢◌, refl, sym, ap, ◌∙◌, Bool, true, false, Option, none, some, List, [], ◌∷◌, ◌==◌,
  map, or_else, or_default, if_intro, arith, eq_iff, eq_refl, All, ◌||◌, if◌then◌else◌,
}
use ulpx.Base.Text.{lower, is_in}
use ulpx.Base.Dict.{
  Dict, lookup, insert, contains, lookup-insert, lookup-cons, lookup-nil, NodupKeys,
  insert-NodupKeys,
}
use ulpx.Spec.{FieldDef, fields_of}
use ulpx.Compiler.{FieldMapping}
use ulpx.Compiler.Merge.{
  MappingItem, CandidatePackage, mapping, put, put_new, pair_of, add_deterministic, add_candidates,
  add_specs, apply_overrides, resolved_mappings, merge_overrides,
}
use ulpx.Compiler.Generate.{type_of, field_def, fields_dict, or_message, generate_ulpf_parser_spec}

-- Each raw name once, and each mapping under its own raw name.
record IsTable (d : Dict FieldMapping) : Type 0 where
  nodup : NodupKeys d
  aligned : All (λ (k, m). m.raw_field ≡ k) d

insert-aligned :
    (k c : String) (b : Bool) (d : Dict FieldMapping)
    → All (λ (j, m). m.raw_field ≡ j) d
    → All (λ (j, m). m.raw_field ≡ j) (insert k (mapping k c b) d)
unfolding insert
insert-aligned k c b [] h = (refl, tt)
insert-aligned k c b ((j, m) ∷ d) (e, h) =
    if_intro (All (λ (j, m). m.raw_field ≡ j)) (j == k) ((j, mapping k c b) ∷ d)
      ((j, m) ∷ insert k (mapping k c b) d) (λ same. (sym ((eq_iff j k).0 same), h))
      (λ _. (e, insert-aligned k c b d h))

insert-IsTable :
    (k c : String) (b : Bool) (d : Dict FieldMapping)
    → IsTable d
    → IsTable (insert k (mapping k c b) d)
insert-IsTable k c b d t = record {
  nodup = insert-NodupKeys k (mapping k c b) d t.nodup;
  aligned = insert-aligned k c b d t.aligned;
}

put-IsTable : (p : Option (String × String)) (d : Dict FieldMapping) → IsTable d → IsTable (put p d)
put-IsTable none d t = t
put-IsTable (some (raw, canonical)) d t = insert-IsTable raw canonical false d t

put_new-IsTable :
    (p : Option (String × String)) (d : Dict FieldMapping) → IsTable d → IsTable (put_new p d)
put_new-IsTable none d t = t
put_new-IsTable (some (raw, canonical)) d t =
    if_intro IsTable (contains raw d) d (insert raw (mapping raw canonical false) d) (λ _. t)
      (λ _. insert-IsTable raw canonical false d t)

add_deterministic-IsTable :
    (items : List MappingItem) (d : Dict FieldMapping)
    → IsTable d
    → IsTable (add_deterministic items d)
unfolding add_deterministic
add_deterministic-IsTable [] d t = t
add_deterministic-IsTable (i ∷ items) d t =
    add_deterministic-IsTable items (put (pair_of i) d) (put-IsTable (pair_of i) d t)

add_candidates-IsTable :
    (items : List MappingItem) (d : Dict FieldMapping)
    → IsTable d
    → IsTable (add_candidates items d)
unfolding add_candidates
add_candidates-IsTable [] d t = t
add_candidates-IsTable (i ∷ items) d t =
    add_candidates-IsTable items (put_new (pair_of i) d) (put_new-IsTable (pair_of i) d t)

add_specs-IsTable :
    (specs : List (List MappingItem)) (d : Dict FieldMapping)
    → IsTable d
    → IsTable (add_specs specs d)
unfolding add_specs
add_specs-IsTable [] d t = t
add_specs-IsTable (items ∷ specs) d t =
    add_specs-IsTable specs (add_candidates items d) (add_candidates-IsTable items d t)

apply_overrides-IsTable :
    (overrides : Dict String) (d : Dict FieldMapping)
    → IsTable d
    → IsTable (apply_overrides overrides d)
unfolding apply_overrides
apply_overrides-IsTable [] d t = t
apply_overrides-IsTable ((raw, canonical) ∷ overrides) d t =
    apply_overrides-IsTable overrides (insert raw (mapping raw canonical true) d)
      (insert-IsTable raw canonical true d t)

resolved_mappings-IsTable :
    (candidate : CandidatePackage) (overrides : Option (Dict String))
    → IsTable (resolved_mappings candidate overrides)
unfolding resolved_mappings
resolved_mappings-IsTable candidate overrides =
    apply_overrides-IsTable (or_default overrides []) _ (
      add_specs-IsTable candidate.ai_candidate_specs _ (
        add_deterministic-IsTable candidate.deterministic_mappings []
          (record { nodup = tt; aligned = tt })))

-- The types of the fields with their transformations, by what the canonical name has in it.
abbrev rules : List (String × (String × List String))
rules =
    ("ip", ("ip", "trim" ∷ "ip" ∷ []))
    ∷ ("port", ("integer", "integer" ∷ []))
    ∷ ("status_code", ("integer", "integer" ∷ []))
    ∷ ("time", ("timestamp", "timestamp" ∷ []))
    ∷ ("timestamp", ("timestamp", "timestamp" ∷ []))
    ∷ ("is_", ("boolean", "boolean" ∷ []))
    ∷ ("enabled", ("boolean", "boolean" ∷ []))
    ∷ []

-- The first rule that the lower-case name meets; a text without one.
first_rule : List (String × (String × List String)) → String → String × List String
first_rule [] name = ("string", "trim" ∷ [])
first_rule ((part, kind) ∷ rest) name = if is_in part name then kind else first_rule rest name

-- The field that a mapping to the canonical name is to have: its type and its transformations by the
-- first rule, and the canonical name as its target.
pub described : String → FieldDef
described canonical = record {
  type = some (first_rule rules (lower canonical)).0;
  map_to = some canonical;
  enum = [];
  transformations = (first_rule rules (lower canonical)).1;
}

if_or :
    {A : Type 0} (a b : Bool) (v w : A)
    → (if a || b then v else w) ≡ (if a then v else if b then v else w)
if_or true b v w = refl
if_or false b v w = refl

type_of-first_rule : (name : String) → type_of name ≡ first_rule rules name
unfolding type_of first_rule
type_of-first_rule name =
    rw
      (
        if_or (is_in "port" name) (is_in "status_code" name),
        if_or (is_in "time" name) (is_in "timestamp" name),
        if_or (is_in "is_" name) (is_in "enabled" name),
      )
      refl

field_def-described : (m : FieldMapping) → field_def m ≡ described m.canonical_field
unfolding field_def described
field_def-described m = rw type_of-first_rule refl

abbrev defined : Option FieldMapping → Option FieldDef
defined none = none
defined (some m) = some (field_def m)

abbrev pub expected : Option FieldMapping → Option FieldDef
expected none = none
expected (some m) = some (described m.canonical_field)

defined-expected : (o : Option FieldMapping) → defined o ≡ expected o
defined-expected none = refl
defined-expected (some m) = ap some (field_def-described m)

abbrev mappings_of : Dict FieldMapping → List FieldMapping
mappings_of = map (λ (_, m). m)

lookup-fields_dict :
    (k : String) (d : Dict FieldMapping) (fields : Dict FieldDef)
    → NodupKeys d
    → All (λ (j, m). m.raw_field ≡ j) d
    → lookup k (fields_dict (mappings_of d) fields)
      ≡ or_else (defined (lookup k d)) (lookup k fields)
unfolding fields_dict
lookup-fields_dict k [] fields n a = rw (lookup-nil {V = FieldMapping} k)
lookup-fields_dict k ((j, m) ∷ d) fields (absent, n) (e, a) =
    lookup-fields_dict k d (insert m.raw_field (field_def m) fields) n a ∙ front e
  where
    front :
        m.raw_field ≡ j
        → or_else (defined (lookup k d)) (lookup k (insert m.raw_field (field_def m) fields))
          ≡ or_else (defined (lookup k ((j, m) ∷ d))) (lookup k fields)
    front e = ground (
      arith,
      lookup-insert m.raw_field k (field_def m) fields,
      lookup-cons k j m d,
      eq_iff j k,
      eq_iff m.raw_field k,
    )

or_message_same : (f : Dict FieldDef) (k : String) → f ≢ [] → lookup k (or_message f) ≡ lookup k f
or_message_same [] k h = absurd (h refl)
or_message_same (e ∷ f) k h = refl

nonempty :
    (d : Dict FieldMapping) (k : String)
    → d ≢ []
    → NodupKeys d
    → All (λ (j, m). m.raw_field ≡ j) d
    → lookup k (or_message (fields_dict (mappings_of d) []))
      ≡ lookup k (fields_dict (mappings_of d) [])
nonempty [] k some' n a = absurd (some' refl)
nonempty ((j, m) ∷ d) k some' n a =
    or_message_same (fields_dict (mappings_of ((j, m) ∷ d)) []) k (λ empty. clash (
      ap (lookup j) (sym empty)
      ∙ lookup-fields_dict j ((j, m) ∷ d) [] n a
      ∙ rw (lookup-cons j j m d, eq_refl j) refl))
  where
    clash : lookup j [] ≡ some (field_def m) → ⊥
    clash e = ground (arith, lookup-nil {V = FieldDef} j)

-- If some source maps a field, then the generated spec defines a field under each raw name that has a
-- resolved mapping, with the mapping's canonical name as its target, no enum, and the type and the
-- transformations of the first rule that the lower-case canonical name meets, and nothing under other
-- names.
pub generated_fields :
    (candidate : CandidatePackage) (overrides : Option (Dict String))
    (source_id detected_format k : String)
    → resolved_mappings candidate overrides ≢ []
    → lookup k (
        fields_of
          (generate_ulpf_parser_spec source_id detected_format
            (merge_overrides candidate overrides)).spec)
      ≡ expected (lookup k (resolved_mappings candidate overrides))
unfolding generate_ulpf_parser_spec merge_overrides
generated_fields candidate overrides source_id detected_format k some' =
    let d = resolved_mappings candidate overrides in
    let t = resolved_mappings-IsTable candidate overrides in
    nonempty d k some' t.nodup t.aligned
    ∙ lookup-fields_dict k d [] t.nodup t.aligned
    ∙ rw (lookup-nil {V = FieldDef} k) (right (defined (lookup k d)))
    ∙ defined-expected (lookup k d)
  where
    right : {A : Type 0} (o : Option A) → or_else o none ≡ o
    right none = refl
    right (some a) = refl
