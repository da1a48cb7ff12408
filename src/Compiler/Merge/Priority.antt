-- ===== src/Compiler/Merge/Priority.antt =====
-- Which of the three mappings of a raw field wins.
use ulpx.Base.{
  String, ◌≡◌, refl, sym, ◌∙◌, ap, true, false, Option, none, some, List, [], ◌∷◌, or_else, arith,
  eq_iff,
}
use ulpx.Base.Dict.{
  Dict, lookup, insert, contains, lookup-insert, lookup-cons, lookup-nil, NodupKeys,
}
use ulpx.Compiler.{FieldMapping}
use ulpx.Compiler.Merge.{
  MappingItem, CandidatePackage, mapping, put_new, pair_of, add_deterministic, add_candidates,
  add_specs, apply_overrides, resolved_mappings,
}

-- The mapping that an override gives.
abbrev pub overriding : String → Option String → Option FieldMapping
overriding raw none = none
overriding raw (some canonical) = some (mapping raw canonical true)

or_else_assoc {ℓ} :
    {A : Type ℓ} (a b c : Option A) → or_else (or_else a b) c ≡ or_else a (or_else b c)
or_else_assoc none b c = refl
or_else_assoc (some a) b c = refl

or_else-none {ℓ} : {A : Type ℓ} (a : Option A) → or_else a none ≡ a
or_else-none none = refl
or_else-none (some a) = refl

lookup-apply_overrides :
    (k : String) (overrides : Dict String) (d : Dict FieldMapping)
    → NodupKeys overrides
    → lookup k (apply_overrides overrides d)
      ≡ or_else (overriding k (lookup k overrides)) (lookup k d)
unfolding apply_overrides
lookup-apply_overrides k [] d n = rw (lookup-nil {V = String} k)
lookup-apply_overrides k ((raw, canonical) ∷ overrides) d (absent, n) = ground (
  arith,
  lookup-apply_overrides k overrides (insert raw (mapping raw canonical true) d) n,
  lookup-cons k raw canonical overrides,
  lookup-insert raw k (mapping raw canonical true) d,
  eq_iff raw k,
)

lookup-put_new :
    (k : String) (p : Option (String × String)) (d : Dict FieldMapping)
    → lookup k (put_new p d) ≡ or_else (lookup k d) (lookup k (put_new p []))
unfolding contains
lookup-put_new k none d = sym (ap (or_else (lookup k d)) (lookup-nil k) ∙ or_else-none (lookup k d))
lookup-put_new k (some (raw, canonical)) d = ground (
  arith,
  lookup-insert raw k (mapping raw canonical false) d,
  lookup-insert raw k (mapping raw canonical false) [],
  lookup-nil {V = FieldMapping} raw,
  lookup-nil {V = FieldMapping} k,
  eq_iff raw k,
)

lookup-add_candidates :
    (k : String) (items : List MappingItem) (d : Dict FieldMapping)
    → lookup k (add_candidates items d) ≡ or_else (lookup k d) (lookup k (add_candidates items []))
unfolding add_candidates
lookup-add_candidates k [] d =
    sym (ap (or_else (lookup k d)) (lookup-nil k) ∙ or_else-none (lookup k d))
lookup-add_candidates k (item ∷ items) d =
    let p = pair_of item in
    let after = lookup k (add_candidates items []) in
    lookup-add_candidates k items (put_new p d)
    ∙ ap (λ x. or_else x after) (lookup-put_new k p d)
    ∙ or_else_assoc (lookup k d) (lookup k (put_new p [])) after
    ∙ ap (or_else (lookup k d)) (sym (lookup-add_candidates k items (put_new p [])))

lookup-add_specs :
    (k : String) (specs : List (List MappingItem)) (d : Dict FieldMapping)
    → lookup k (add_specs specs d) ≡ or_else (lookup k d) (lookup k (add_specs specs []))
unfolding add_specs
lookup-add_specs k [] d = sym (ap (or_else (lookup k d)) (lookup-nil k) ∙ or_else-none (lookup k d))
lookup-add_specs k (items ∷ specs) d =
    let after = lookup k (add_specs specs []) in
    lookup-add_specs k specs (add_candidates items d)
    ∙ ap (λ x. or_else x after) (lookup-add_candidates k items d)
    ∙ or_else_assoc (lookup k d) (lookup k (add_candidates items [])) after
    ∙ ap (or_else (lookup k d)) (sym (lookup-add_specs k specs (add_candidates items [])))

-- If the reviewer's overrides have distinct keys, a raw field has the override's mapping if there is
-- one, else the one that the deterministic mappings alone give it, else the one that the
-- assistant's specs alone give it, and none if no source maps it.
pub merge_priority :
    (candidate : CandidatePackage) (overrides : Dict String) (k : String)
    → NodupKeys overrides
    → lookup k (resolved_mappings candidate (some overrides))
      ≡ or_else (overriding k (lookup k overrides)) (
          or_else
            (lookup k (add_deterministic candidate.deterministic_mappings []))
            (lookup k (add_specs candidate.ai_candidate_specs [])))
unfolding resolved_mappings
merge_priority candidate overrides k n =
    let first = add_deterministic candidate.deterministic_mappings [] in
    lookup-apply_overrides k overrides (add_specs candidate.ai_candidate_specs first) n
    ∙ ap (or_else (overriding k (lookup k overrides)))
        (lookup-add_specs k candidate.ai_candidate_specs first)
