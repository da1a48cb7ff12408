-- ===== src/Mapper/Choice/Best.antt =====
-- The chosen mapping of a field is the best candidate.
use ulpx.Base.{
  ℕ, suc, arith, String, sym, ap, ◌∙◌, length, ◌≡◌, refl, Bool, true, Option, List, [], ◌∷◌, map,
  All, All-map, if_intro, take, ◌≢◌,
}
use ulpx.Base.Floats.{Floats, IsLawful, AtMost}
use ulpx.Base.Sort.{sorted, IsSorted, sorted-IsSorted, length-sorted, All-sorted, All-of_sorted}
use ulpx.Mapper.{
  ReviewStatus, abstain, auto_accepted, CanonicalFieldDefinition, FieldProfile, MappingCandidate,
  FieldMappingResult,
}
use ulpx.Mapper.Index.{CanonicalKnowledgeBase, get_all_fields}
use ulpx.Mapper.Score.{score_candidate, human_review_threshold, extension_path}
use ulpx.Mapper.Score.Bands.{IsBanded, score_candidate-IsBanded, score_candidate-named}
use ulpx.Mapper.Choice.{abstained, choose, better, candidates, map_field}

zero-suc : {n : ℕ} → suc n ≡ 0 → ⊥
zero-suc h = omega (arith, h)

abstain-accepted : {s : ReviewStatus} → s ≡ abstain → s ≡ auto_accepted → ⊥
abstain-accepted p q = cc

map-ne {ℓ κ} : {A : Type ℓ} {B : Type κ} (f : A → B) (xs : List A) → xs ≢ [] → map f xs ≢ []
map-ne f [] h = λ _. h refl
map-ne f (x ∷ xs) h = λ e. cc

sorted-ne {ℓ} : {A : Type ℓ} (less : A → A → Bool) (xs : List A) → xs ≢ [] → sorted less xs ≢ []
sorted-ne less [] h = λ _. h refl
sorted-ne less (x ∷ xs) h = λ e. zero-suc (sym (length-sorted less (x ∷ xs)) ∙ ap length e)

module _ (fl : Floats) (laws : IsLawful fl) where
  open fl use {F, lt}

  -- `choose` takes the head of a sorted list, whose score no other item exceeds.
  head-best :
      (raw_field : String) (best : MappingCandidate F) (rest : List (MappingCandidate F))
      → (choose fl raw_field (best ∷ rest)).chosen_mapping.mapping_score ≡ best.mapping_score
  unfolding choose
  head-best raw_field best rest =
      if_intro (λ (c : MappingCandidate F). c.mapping_score ≡ best.mapping_score)
        (lt best.mapping_score (human_review_threshold fl)) (abstained raw_field best) best
        (λ _. refl) (λ _. refl)

  abbrev IsOf : String → MappingCandidate F → Type 0
  IsOf raw_field c = IsBanded fl c × (c.raw_field ≡ raw_field)

  abstained-IsBanded :
      (raw_field : String) (c : MappingCandidate F)
      → lt c.mapping_score (human_review_threshold fl) ≡ true
      → IsBanded fl c
      → c.raw_field ≡ raw_field
      → IsBanded fl (abstained raw_field c)
  abstained-IsBanded raw_field c low b named = record {
    not_negative = b.not_negative;
    at_most_one = b.at_most_one;
    accepted =
        (λ e. absurd (cc), λ h. absurd (abstain-accepted (b.abstained.1 low) (b.accepted.1 h)));
    abstained = (λ _. low, λ _. refl);
    preserved = refl;
    destination = ap extension_path (sym named);
  }

  abbrev pub Beats : FieldMappingResult F → MappingCandidate F → Type 0
  Beats r c = AtMost fl c.mapping_score r.chosen_mapping.mapping_score

  choose-best :
      (raw_field : String) (n : ℕ) (ranked : List (MappingCandidate F))
      → IsSorted (better fl) ranked
      → All (Beats (choose fl raw_field (take (suc n) ranked))) ranked
  choose-best raw_field n [] s = tt
  choose-best raw_field n (best ∷ rest) (first, s) = (
    rw (head-best raw_field best (take n rest)) (laws.lt_irrefl best.mapping_score),
    All-map _ (Beats (choose fl raw_field (best ∷ take n rest)))
        (λ c h. rw (head-best raw_field best (take n rest)) h) rest first,
  )

  -- With at least one candidate asked for, no candidate of the knowledge base scores higher than the
  -- chosen mapping.
  pub map_field-best :
      (sequence_ratio : String → String → F) (kb : CanonicalKnowledgeBase) (p : FieldProfile F)
      (family : Option String) (n : ℕ)
      → All
          (Beats (map_field fl sequence_ratio kb p family (suc n)))
          (candidates fl sequence_ratio kb p family)
  unfolding map_field
  map_field-best sequence_ratio kb p family n =
      let cs = candidates fl sequence_ratio kb p family in
      All-of_sorted (better fl) _ cs (
        choose-best p.name n (sorted (better fl) cs) (
          sorted-IsSorted (better fl) (λ a b h. laws.lt_asymm b.mapping_score a.mapping_score h)
            (λ a b c h k. laws.le_trans c.mapping_score b.mapping_score a.mapping_score k h) cs))

  candidates-IsBanded :
      (sequence_ratio : String → String → F) (p : FieldProfile F) (family : Option String)
      (ds : List CanonicalFieldDefinition)
      → All (IsOf p.name) (map (λ d. score_candidate fl sequence_ratio p.name p d family) ds)
  candidates-IsBanded sequence_ratio p family [] = tt
  candidates-IsBanded sequence_ratio p family (d ∷ ds) = (
    (
      score_candidate-IsBanded fl laws sequence_ratio p.name p d family,
      score_candidate-named fl laws sequence_ratio p.name p d family,
    ),
    candidates-IsBanded sequence_ratio p family ds,
  )

  choose-IsBanded :
      (raw_field : String) (n : ℕ) (ranked : List (MappingCandidate F))
      → All (IsOf raw_field) ranked
      → ranked ≢ []
      → IsBanded fl (choose fl raw_field (take (suc n) ranked)).chosen_mapping
  unfolding choose
  choose-IsBanded raw_field n [] h ne = absurd (ne refl)
  choose-IsBanded raw_field n (best ∷ rest) ((banded, named), h) ne =
      if_intro (IsBanded fl) (lt best.mapping_score (human_review_threshold fl))
        (abstained raw_field best) best (λ low. abstained-IsBanded raw_field best low banded named)
        (λ _. banded)

  -- With at least one candidate asked for and at least one field in the knowledge base, the chosen
  -- mapping is within the bands: its score lies between 0 and 1, it is accepted without review
  -- exactly when it is at least 0.95 and the types do not conflict, it abstains exactly when it is
  -- below 0.80, and it is kept as an extension of the source exactly when it abstains.
  pub map_field-IsBanded :
      (sequence_ratio : String → String → F) (kb : CanonicalKnowledgeBase) (p : FieldProfile F)
      (family : Option String) (n : ℕ)
      → get_all_fields kb ≢ []
      → IsBanded fl (map_field fl sequence_ratio kb p family (suc n)).chosen_mapping
  unfolding map_field
  map_field-IsBanded sequence_ratio kb p family n ne =
      let cs = candidates fl sequence_ratio kb p family in
      choose-IsBanded p.name n (sorted (better fl) cs)
        (All-sorted (better fl) _ cs
          (candidates-IsBanded sequence_ratio p family (get_all_fields kb)))
        (sorted-ne (better fl) cs (map-ne _ (get_all_fields kb) ne))
