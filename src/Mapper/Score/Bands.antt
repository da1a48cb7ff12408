-- ===== src/Mapper/Score/Bands.antt =====
-- The review status of a candidate against its score.
use ulpx.Base.{
  String, ◌≡◌, refl, ◌↔◌, Bool-cases, inl, inr, Bool, true, false, Option, arith, if◌then◌else◌,
}
use ulpx.Base.Floats.{Floats, IsLawful, zero_float, one_float, AtMost, min}
use ulpx.Base.Floats.Laws.{max_left, max_least, min_left}
use ulpx.Mapper.{auto_accepted, abstain, CanonicalFieldDefinition, FieldProfile, MappingCandidate}
use ulpx.Mapper.Score.{Scored, clamp, is_abstain, candidate_of, score_candidate, extension_path}

-- What the score and a conflict say of a candidate.
pub record IsBanded (fl : Floats) (c : MappingCandidate fl.F) : Type 0 where
  pub not_negative : AtMost fl (zero_float fl) c.mapping_score
  pub at_most_one : AtMost fl c.mapping_score (one_float fl)
  -- Acceptance without review needs 0.95 and no conflict of types.
  pub accepted :
      (c.review_status ≡ auto_accepted)
      ↔ ((c.hard_type_conflict ≡ false) × AtMost fl (fl.ratio 95 100) c.mapping_score)
  pub abstained : (c.review_status ≡ abstain) ↔ (fl.lt c.mapping_score (fl.ratio 80 100) ≡ true)
  pub preserved : c.preserve_in_extensions ≡ is_abstain c.review_status
  pub destination :
      c.destination_path
      ≡ (if is_abstain c.review_status then extension_path c.raw_field else c.canonical_path)

module _ (fl : Floats) (laws : IsLawful fl) where
  open fl use {F, ratio, lt}

  below_review : (x : F) → lt x (ratio 80 100) ≡ true → lt x (ratio 95 100) ≡ true
  below_review x h = elim (Bool-cases (lt x (ratio 95 100))) [
    | inl yes' ↦ yes'
    | inr no' ↦ absurd (
        clash
          (laws.le_trans (ratio 80 100) (ratio 95 100) x
            (laws.ratio_le 80 100 95 100 (omega arith) (omega arith) (omega arith)) no')
          h)
  ]
    where
      clash : AtMost fl (ratio 80 100) x → lt x (ratio 80 100) ≡ true → ⊥
      clash p q = cc

  clamp_bounds :
      (x : F) → AtMost fl (zero_float fl) (clamp fl x) × AtMost fl (clamp fl x) (one_float fl)
  clamp_bounds x =
      let low = min fl (one_float fl) (fl.round x 4) in
      (
        max_left fl laws (zero_float fl) low,
        max_least fl laws (zero_float fl) low (one_float fl)
            (laws.ratio_le 0 1 1 1 (omega arith) (omega arith) (omega arith))
            (min_left fl laws (one_float fl) (fl.round x 4)),
      )

  candidate_of-IsBanded :
      (raw_field : String) (d : CanonicalFieldDefinition) (conflict : Bool) (scored : Scored fl)
      → IsBanded fl (candidate_of fl raw_field d conflict scored)
  candidate_of-IsBanded raw_field d true (base, evidence) = record {
    not_negative = (clamp_bounds base).0;
    at_most_one = (clamp_bounds base).1;
    accepted = ground (arith);
    abstained = ground (arith);
    preserved = refl;
    destination = refl;
  }
  candidate_of-IsBanded raw_field d false (base, evidence) = record {
    not_negative = (clamp_bounds base).0;
    at_most_one = (clamp_bounds base).1;
    accepted = ground (arith);
    abstained = ground (arith, below_review (clamp fl base));
    preserved = refl;
    destination = refl;
  }

  -- The score of a candidate lies between 0 and 1; it is accepted without review exactly when it is
  -- at least 0.95 and the types do not conflict, it abstains exactly when it is below 0.80, and it
  -- is kept as an extension of the source, under the raw field's name, exactly when it abstains.
  pub score_candidate-IsBanded :
      (sequence_ratio : String → String → F) (raw_field : String) (p : FieldProfile F)
      (d : CanonicalFieldDefinition) (family : Option String)
      → IsBanded fl (score_candidate fl sequence_ratio raw_field p d family)
  unfolding score_candidate
  score_candidate-IsBanded sequence_ratio raw_field p d family =
      candidate_of-IsBanded raw_field d _ _

  pub score_candidate-named :
      (sequence_ratio : String → String → F) (raw_field : String) (p : FieldProfile F)
      (d : CanonicalFieldDefinition) (family : Option String)
      → (score_candidate fl sequence_ratio raw_field p d family).raw_field ≡ raw_field
  unfolding score_candidate
  score_candidate-named sequence_ratio raw_field p d family = refl
