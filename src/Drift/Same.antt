-- ===== src/Drift/Same.antt =====
-- A profile against itself.
use ulpx.Base.{
  ℕ, zero, suc, ◌+◌, String, ◌≡◌, refl, sym, subst, ap, ◌∙◌, Option, none, some, List, [], ◌∷◌,
  arith, length, All, eq_iff, eq_refl, if_intro, eqb, ◌||◌,
}
use ulpx.Base.Dict.{Dict, lookup, lookup-cons, contains, NodupKeys}
use ulpx.Base.Floats.{Floats, IsLawful, zero_float, one_float, min, max}
use ulpx.Drift.{
  stable, DriftThresholds, DriftSignals, at_least_one, Profile, TypeMutation, shared_keys, own_keys,
  type_mutations, mutation_of, share, jaccard_distance, signals_of, compare_profiles,
}
use ulpx.Drift.Divergence.{gap, sum_gaps, total, all_keys, calculate_distribution_divergence}
use ulpx.Drift.States.{IsWithin, stable_iff}

-- Each key of `d` is found in `e` with its value.
abbrev pub Within {ℓ} : {V : Type ℓ} → Dict V → Dict V → Type ℓ
Within d e = All (λ (k, v). lookup k e ≡ some v) d

Within-cons {ℓ} :
    {V : Type ℓ} (k : String) (v : V) (d e : Dict V)
    → lookup k d ≡ none
    → Within d e
    → Within d ((k, v) ∷ e)
Within-cons k v [] e n h = tt
Within-cons k v ((j, w) ∷ d) e n (p, h) = (
  ground (arith, lookup-cons j k v e, lookup-cons k j w d, eq_iff k j, eq_iff j k),
  Within-cons k v d e (ground (arith, lookup-cons k j w d)) h,
)

pub Within-self {ℓ} : {V : Type ℓ} (d : Dict V) → NodupKeys d → Within d d
Within-self [] n = tt
Within-self ((k, v) ∷ d) (absent, n) =
    (lookup-cons k k v d ∙ rw eq_refl, Within-cons k v d d absent (Within-self d n))

own_keys-Within : (d e : Dict String) → Within d e → own_keys d e ≡ []
unfolding own_keys contains
own_keys-Within [] e w = refl
own_keys-Within ((k, v) ∷ d) e (p, w) = rw p (own_keys-Within d e w)

length-shared_keys : (d e : Dict String) → Within d e → length (shared_keys d e) ≡ length d
unfolding shared_keys contains
length-shared_keys [] e w = refl
length-shared_keys ((k, v) ∷ d) e (p, w) = rw (p, length-shared_keys d e w)

unchanged : (k v : String) (ms : List TypeMutation) → mutation_of k v (some v) ms ≡ ms
unchanged k v ms = rw eq_refl

type_mutations-Within : (d e : Dict String) → Within d e → type_mutations d e ≡ []
unfolding type_mutations
type_mutations-Within [] e w = refl
type_mutations-Within ((k, v) ∷ d) e (p, w) =
    rw (p, unchanged k v (type_mutations d e)) (type_mutations-Within d e w)

add_zero : (n : ℕ) → n + 0 ≡ n
add_zero n = omega arith

module _ (fl : Floats) (laws : IsLawful fl) where
  open fl use {F}

  gap_self : (sum : ℕ) (n : Option ℕ) → gap fl sum sum n n ≡ zero_float fl
  gap_self sum none = rw (laws.sub_self (zero_float fl), laws.lt_irrefl (zero_float fl))
  gap_self sum (some n) = rw (laws.sub_self (fl.ratio n sum), laws.lt_irrefl (zero_float fl))

  pub sum_gaps_self :
      (sum : ℕ) (a : Dict ℕ) (ks : List String)
      → sum_gaps fl sum sum a a ks (zero_float fl) ≡ zero_float fl
  unfolding sum_gaps
  sum_gaps_self sum a [] = refl
  sum_gaps_self sum a (k ∷ ks) =
      rw (gap_self sum (lookup k a), laws.add_zero (zero_float fl)) (sum_gaps_self sum a ks)

  abbrev pub clipped : F → F
  clipped x = min fl (one_float fl) (max fl (zero_float fl) x)

  pub clipped_zero : clipped (zero_float fl) ≡ zero_float fl
  clipped_zero =
      rw (laws.lt_irrefl (zero_float fl), laws.ratio_lt_one 0 1 (omega arith) (omega arith))

  divergence_self : (a : Dict ℕ) → calculate_distribution_divergence fl a a ≡ zero_float fl
  unfolding calculate_distribution_divergence
  divergence_self a =
      if_intro (λ (x : F). x ≡ zero_float fl) (eqb (total a) 0 || eqb (total a) 0) (zero_float fl)
        (clipped (
          fl.mul (fl.ratio 1 2)
            (sum_gaps fl (total a) (total a) a a (all_keys a a) (zero_float fl))))
        (λ _. refl)
        (λ _.
          ap clipped (
            ap (fl.mul (fl.ratio 1 2)) (sum_gaps_self (total a) a (all_keys a a))
            ∙ laws.mul_zero (fl.ratio 1 2))
          ∙ clipped_zero)

  share_zero : (n : ℕ) → share fl 0 n (zero_float fl) ≡ zero_float fl
  share_zero zero = refl
  share_zero (suc n) = laws.ratio_zero (suc n) (omega arith)

  jaccard_self : (n : ℕ) → jaccard_distance fl n n ≡ zero_float fl
  jaccard_self zero = refl
  jaccard_self (suc n) =
      ap (fl.sub (one_float fl)) (laws.ratio_one (suc n) (omega arith))
      ∙ laws.sub_self (one_float fl)

  -- The signals of a profile against itself: only records that do not parse count.
  abbrev pub quiet : F → DriftSignals F
  quiet failures = record {
    parse_failure_rate = failures;
    unknown_field_ratio = zero_float fl;
    type_violation_rate = zero_float fl;
    key_set_distance = zero_float fl;
    distribution_divergence = zero_float fl;
    dps_regression = none;
    enum_drift_score = none;
    critical_mapping_drift = none;
    event_family_drift = none;
  }

  abbrev pub failures : Profile → F
  failures p = fl.ratio p.corrupted_records (at_least_one p.total_records)

  signals_of_self : (p : Profile) → NodupKeys p.fields → signals_of fl p p ≡ quiet (failures p)
  unfolding signals_of
  signals_of_self p n =
      let w = Within-self p.fields n in
      rw (
        own_keys-Within p.fields p.fields w,
        length-shared_keys p.fields p.fields w,
        type_mutations-Within p.fields p.fields w,
        divergence_self p.format_distribution,
        share_zero (length p.fields),
        add_zero (length p.fields),
        jaccard_self (length p.fields),
      )

  -- If a profile has its field names once, all thresholds are at least 0 and its share of corrupted
  -- records is at most the threshold, then it is stable against itself.
  pub compare_profiles_self :
      (t : DriftThresholds F) (p : Profile) (source_id parser_id parser_version : String)
      (run_id : Option String)
      → NodupKeys p.fields
      → IsWithin fl t (quiet (failures p))
      → (compare_profiles fl t p p source_id parser_id parser_version run_id).drift_state ≡ stable
  unfolding compare_profiles
  compare_profiles_self t p source_id parser_id parser_version run_id n w =
      (stable_iff fl t (signals_of fl p p)).1 (subst (IsWithin fl t) (sym (signals_of_self p n)) w)
