-- ===== src/Validation/Engine/Gate.antt =====
-- The certification gate against what the event has to preserve.
use ulpx.Base.{
  ◌≤◌, String, ◌≡◌, ◌⊎◌, refl, Bool, true, false, List, [], ◌∷◌, all, All, count_if, length,
  is_empty, arith, if◌then◌else◌,
}
use ulpx.Base.Dict.{Dict}
use ulpx.Base.Floats.{Floats, IsLawful, AtMost, one_float}
use ulpx.Base.Value.{Value}
use ulpx.Validation.{Violation}
use ulpx.Validation.Measure.{
  tally, share_or, is_extracted, is_preserved, is_kept_unknown, is_block_scenario, matched_block,
  measure_extraction, measure_critical, measure_unknown,
}
use ulpx.Validation.Engine.{Golden, Measured, measure}

module _ {ℓ} {A : Type ℓ} {F : Type 0} (hit : A → Bool) (message : A → Violation F) where
  pub tally_count : (xs : List A) → (tally hit message xs).0 ≡ count_if hit xs
  tally_count [] = refl
  tally_count (x ∷ xs) = rw (tally_count xs)

module _ {ℓ} {A : Type ℓ} (hit : A → Bool) where
  pub count_if-le : (xs : List A) → count_if hit xs ≤ length xs
  count_if-le [] = omega arith
  count_if-le (x ∷ xs) = ground (arith, count_if-le xs)

module _ (fl : Floats) (laws : IsLawful fl) (repr : Value fl.F → String) where
  open fl use {F, ratio, lt}

  -- The share of the expected fields that the event has.
  abbrev pub accuracy : Golden F → Dict (Value F) → F
  accuracy g canonical =
      share_or fl repr (one_float fl)
        (count_if (is_extracted fl repr canonical) g.expected_extracted)
        (length g.expected_extracted)

  -- What a passed run shows: enough expected fields, all critical and all unknown fields, and a block
  -- that is still a block. Without critical fields the accuracy has to reach 0.95.
  pub record IsMet (g : Golden F) (canonical unmapped : Dict (Value F)) : Type 0 where
    pub extraction : AtMost fl g.min_accuracy (accuracy g canonical)
    pub semantics :
        AtMost fl
          (ratio 95 100)
          (if is_empty g.critical_fields then accuracy g canonical else one_float fl)
    pub critical :
        All (λ k. is_preserved fl repr canonical g.expected_extracted k ≡ true) g.critical_fields
    pub unknown : All (λ e. is_kept_unknown fl repr unmapped e ≡ true) g.expected_unknown
    pub blocked :
        (is_block_scenario fl repr g.expected_extracted ≡ false)
        ⊎ (matched_block fl repr canonical ≡ true)

  -- The same measures by counts.
  abbrev pub by_counts : Golden F → Dict (Value F) → Dict (Value F) → Measured fl repr
  by_counts g canonical unmapped =
      let m = measure fl repr g canonical unmapped in
      record {
        extraction_acc = accuracy g canonical;
        semantic_acc =
            share_or fl repr (accuracy g canonical)
              (count_if (is_preserved fl repr canonical g.expected_extracted) g.critical_fields)
              (length g.critical_fields);
        raw_retention = one_float fl;
        unknown_retention =
            share_or fl repr (one_float fl)
              (count_if (is_kept_unknown fl repr unmapped) g.expected_unknown)
              (length g.expected_unknown);
        dps_score = m.dps_score;
        critical_passed =
            all (is_preserved fl repr canonical g.expected_extracted) g.critical_fields;
        mandatory_dps_passed = m.mandatory_dps_passed;
        violations = m.violations;
      }

  pub measure-by_counts :
      (g : Golden F) (canonical unmapped : Dict (Value F))
      → measure fl repr g canonical unmapped ≡ by_counts g canonical unmapped
  unfolding measure measure_extraction measure_critical measure_unknown
  measure-by_counts g canonical unmapped = rw (
    tally_count (is_extracted fl repr canonical) _ g.expected_extracted,
    tally_count (is_preserved fl repr canonical g.expected_extracted) _ g.critical_fields,
    tally_count (is_kept_unknown fl repr unmapped) _ g.expected_unknown,
  )
