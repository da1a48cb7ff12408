-- ===== src/Mapper/Choice/Counts.antt =====
-- The counts of a source's mapping report.
use ulpx.Base.{
  ℕ, suc, ◌+◌, String, ◌≡◌, refl, Option, none, [], ◌∷◌, All, one_if, length, arith, eq_iff,
}
use ulpx.Base.Dict.{Dict, lookup, insert, lookup-insert, lookup-cons, lookup-nil, NodupKeys}
use ulpx.Base.Floats.{Floats}
use ulpx.Mapper.{
  ReviewStatus, auto_accepted, human_review, abstain, FieldProfile, FieldMappingResult,
}
use ulpx.Mapper.Index.{CanonicalKnowledgeBase}
use ulpx.Mapper.Score.{is_abstain}
use ulpx.Mapper.Choice.{
  is_accepted, is_review, Progress, no_progress, count, map_field, visit_fields, map_source,
}

length-insert_fresh {ℓ} :
    {V : Type ℓ} (k : String) (v : V) (d : Dict V)
    → lookup k d ≡ none
    → length (insert k v d) ≡ suc (length d)
unfolding insert lookup
length-insert_fresh k v [] h = refl
length-insert_fresh k v ((j, w) ∷ d) h = ground (arith, length-insert_fresh k v d)

-- Each status is counted once.
one_status :
    (s : ReviewStatus) → one_if (is_accepted s) + one_if (is_review s) + one_if (is_abstain s) ≡ 1
one_status auto_accepted = refl
one_status human_review = refl
one_status abstain = refl

-- The keys of `d` are not in `e`.
abbrev Fresh {ℓ κ} : {V : Type ℓ} {W : Type κ} → Dict W → Dict V → Type κ
Fresh e d = All (λ (j, _). lookup j e ≡ none) d

Fresh-insert {ℓ κ} :
    {V : Type ℓ} {W : Type κ} (k : String) (w : W) (e : Dict W) (d : Dict V)
    → lookup k d ≡ none
    → Fresh e d
    → Fresh (insert k w e) d
Fresh-insert k w e [] n h = tt
Fresh-insert k w e ((j, v) ∷ d) n (p, h) = (
  ground (arith, lookup-insert k j w e, lookup-cons k j v d, eq_iff k j, eq_iff j k),
  Fresh-insert k w e d (ground (arith, lookup-cons k j v d)) h,
)

module _ {F : Type 0} where
  abbrev Balanced : Progress F → Type 0
  Balanced t = t.auto_accepted + t.human_review + t.abstained ≡ length t.results

  count-Balanced :
      (name : String) (res : FieldMappingResult F) (t : Progress F)
      → lookup name t.results ≡ none
      → Balanced t
      → Balanced (count name res t)
  count-Balanced name res t fresh h = omega (
    arith,
    h,
    one_status res.chosen_mapping.review_status,
    length-insert_fresh name res t.results fresh,
  )

module _ (fl : Floats) (sequence_ratio : String → String → fl.F) (kb : CanonicalKnowledgeBase) where
  open fl use {F}

  visit_fields-Balanced :
      (fields : Dict (FieldProfile F)) (family : Option String) (top_n : ℕ) (t : Progress F)
      → NodupKeys fields
      → Fresh t.results fields
      → Balanced t
      → Balanced (visit_fields fl sequence_ratio kb fields family top_n t)
        × (length (visit_fields fl sequence_ratio kb fields family top_n t).results
            ≡ length t.results + length fields)
  unfolding visit_fields
  visit_fields-Balanced [] family top_n t n fresh h = (h, omega arith)
  visit_fields-Balanced ((name, p) ∷ fields) family top_n t (absent, n) (new, fresh) h =
      let res = map_field fl sequence_ratio kb p family top_n in
      let (b, l) =
        visit_fields-Balanced fields family top_n (count name res t) n
          (Fresh-insert name res t.results fields absent fresh) (count-Balanced name res t new h) in
      (b, omega (arith, l, length-insert_fresh name res t.results new))

  Fresh-nil : (fields : Dict (FieldProfile F)) → Fresh {W = FieldMappingResult F} [] fields
  Fresh-nil [] = tt
  Fresh-nil (_ ∷ fields) = (lookup-nil _, Fresh-nil fields)

  -- If the fields of a source have distinct names, its report has one mapping for each field, and
  -- the counts of accepted, reviewed and abstained mappings add up to that number.
  pub map_source-counts :
      (fields : Dict (FieldProfile F)) (source_id family : Option String) (top_n : ℕ)
      → NodupKeys fields
      → let s = (map_source fl sequence_ratio kb fields source_id family top_n).summary in
        (s.total_fields ≡ length fields)
        × (s.auto_accepted_count + s.human_review_count + s.abstained_count ≡ s.total_fields)
  unfolding map_source
  map_source-counts fields source_id family top_n n =
      let (b, l) =
        visit_fields-Balanced fields family top_n no_progress n (Fresh-nil fields) refl in
      (omega (arith, l), b)
