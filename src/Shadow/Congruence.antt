-- ===== src/Shadow/Congruence.antt =====
-- `_evaluate_field_congruence`: the match rate of the active fields, and a divergence for each
-- field at which the two outputs differ.
pub mod Same
use text.Mathlib.Text.{is_lt}
use Prim.Native.String.{compare}
use ulpx.Base.{
  ℕ, zero, suc, ◌+◌, String, Bool, true, false, Option, none, some, List, [], ◌∷◌, map, ltb,
  is_some, is_empty, or_default, if◌then◌else◌, ◌||◌,
}
use ulpx.Base.Floats.{Floats, one_float}
use ulpx.Base.Dict.{Dict, lookup, insert, contains}
use ulpx.Base.Sort.{sorted}
use ulpx.Base.Value.{Value, null, same_type}
use ulpx.Base.Value.Equality.{same}
use ulpx.Shadow.{
  Event, DivergenceType, value_mismatch, field_missing_in_candidate, new_field_in_candidate,
  type_mismatch, Mismatch, FieldDivergence,
}
use ulpx.Shadow.Flatten.{flatten_event}

-- The loop's variables.
pub record Tally (F : Type 0) : Type 0 where
  pub field_match_counts : Dict ℕ
  pub field_total_counts : Dict ℕ
  pub field_divergence_examples : Dict (Mismatch F)
  pub total_active_comparisons : ℕ
  pub total_active_matches : ℕ

abbrev pub empty_tally : {F : Type 0} → Tally F
empty_tally = record {
  field_match_counts = [];
  field_total_counts = [];
  field_divergence_examples = [];
  total_active_comparisons = 0;
  total_active_matches = 0;
}

-- `counts[k] = counts.get(k, 0) + 1`
abbrev count_up : String → Dict ℕ → Dict ℕ
count_up k counts = insert k (or_default (lookup k counts) 0 + 1) counts

-- `if k not in examples: examples[k] = mismatch`
abbrev add_example {ℓ} : {A : Type ℓ} → String → A → Dict A → Dict A
add_example k m examples = if contains k examples then examples else insert k m examples

module _ (fl : Floats) where
  open fl use {F}

  abbrev pub divergence_of : Value F → Value F → DivergenceType
  divergence_of a c = if same_type a c then value_mismatch else type_mismatch

  -- What the candidate has under an active key.
  abbrev judge : String → Value F → Option (Value F) → Tally F → Tally F
  judge k a none t = record t {
    field_divergence_examples =
        add_example k
          (record { divergence_type = field_missing_in_candidate; active = a; candidate = null })
          t.field_divergence_examples;
  }
  judge k a (some c) t =
      if same fl a c
      then record t {
        field_match_counts = count_up k t.field_match_counts;
        total_active_matches = t.total_active_matches + 1;
      }
      else record t {
        field_divergence_examples =
            add_example k
              (record { divergence_type = divergence_of a c; active = a; candidate = c })
              t.field_divergence_examples;
      }

  abbrev pub visit_active : Dict (Value F) → Tally F → String × Value F → Tally F
  visit_active cand_flat t (k, a) = judge k a (lookup k cand_flat) (record t {
    field_total_counts = count_up k t.field_total_counts;
    total_active_comparisons = t.total_active_comparisons + 1;
  })

  -- A key that only the candidate has counts as one match.
  abbrev add_new : String → Value F → Tally F → Tally F
  add_new k c t =
      if contains k t.field_total_counts
      then record t {
        field_divergence_examples =
            add_example k
              (record { divergence_type = new_field_in_candidate; active = null; candidate = c })
              t.field_divergence_examples;
      }
      else record t {
        field_divergence_examples =
            add_example k
              (record { divergence_type = new_field_in_candidate; active = null; candidate = c })
              t.field_divergence_examples;
        field_total_counts = insert k 1 t.field_total_counts;
        field_match_counts = insert k 1 t.field_match_counts;
      }

  abbrev pub visit_candidate : Dict (Value F) → Tally F → String × Value F → Tally F
  visit_candidate act_flat t (k, c) = if contains k act_flat then t else add_new k c t

  pub visit_all : (Tally F → String × Value F → Tally F) → Tally F → Dict (Value F) → Tally F
  visit_all visit t [] = t
  visit_all visit t (e ∷ d) = visit_all visit (visit t e) d

  unfoldable pub visit_flat : Tally F → Dict (Value F) → Dict (Value F) → Tally F
  unfolding visit_all contains
  visit_flat t act_flat cand_flat =
      visit_all (visit_candidate act_flat) (visit_all (visit_active cand_flat) t act_flat) cand_flat

  -- `for i in range(sample_len)`
  unfoldable pub visit_events : Tally F → List (Event F) → List (Event F) → Tally F
  unfolding visit_flat
  visit_events t (a ∷ active) (c ∷ candidate) =
      visit_events (visit_flat t (flatten_event a) (flatten_event c)) active candidate
  visit_events t [] _ = t
  visit_events t (a ∷ active) [] = t

  unfoldable pub overall_match_rate : Tally F → F
  overall_match_rate t =
      if ltb 0 t.total_active_comparisons
      then fl.ratio t.total_active_matches t.total_active_comparisons
      else one_float fl

  abbrev rate_of : Tally F → String → ℕ → DivergenceType → F
  rate_of t k total new_field_in_candidate = one_float fl
  rate_of t k total _ = fl.ratio (or_default (lookup k t.field_match_counts) 0) total

  abbrev add_divergence :
      Tally F
      → String × ℕ
      → Option (Mismatch F)
      → List (FieldDivergence F)
      → List (FieldDivergence F)
  add_divergence t (k, total) none rest = rest
  add_divergence t (k, total) (some m) rest =
      record {
        field = k;
        match_rate = fl.round (rate_of t k total m.divergence_type) 4;
        mismatch = m;
      }
      ∷ rest

  unfoldable pub divergences_of : Tally F → Dict ℕ → List (FieldDivergence F)
  divergences_of t [] = []
  divergences_of t (e ∷ counts) =
      add_divergence t e (lookup e.0 t.field_divergence_examples) (divergences_of t counts)

  -- `sorted(field_total_counts.items())`; the keys are distinct.
  abbrev pub by_key : String × ℕ → String × ℕ → Bool
  by_key (j, _) (k, _) = is_lt (compare j k)

  unfoldable pub evaluate_field_congruence :
      List (Event F) → List (Event F) → F × List (FieldDivergence F)
  unfolding visit_events overall_match_rate divergences_of sorted
  evaluate_field_congruence active candidate =
      if is_empty active || is_empty candidate
      then (one_float fl, [])
      else let t = visit_events empty_tally active candidate in
        (fl.round (overall_match_rate t) 4, divergences_of t (sorted by_key t.field_total_counts))
