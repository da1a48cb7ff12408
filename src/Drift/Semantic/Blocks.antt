-- ===== src/Drift/Semantic/Blocks.antt =====
-- ml/drift/semantic.py: `_check_dps_regression`. Its reading of the events that report a block is the
-- one of ml/shadow_engine/comparator.py (Shadow/Dps.antt).
use ulpx.Base.{
  ℕ, zero, suc, ◌≤◌, String, ◌≡◌, ap, ap₂, ◌∙◌, List, [], ◌∷◌, ltb, arith, if◌then◌else◌,
}
use native.Mathlib.Nat.{mul-le-mul_right}
use ulpx.Base.Floats.{Floats, IsLawful, AtMost, zero_float, one_float, max}
use ulpx.Base.Floats.Laws.{max_zero}
use ulpx.Base.Value.{Value}
use ulpx.Shadow.{Event}
use ulpx.Shadow.Dps.{count_blocks}
use ulpx.Drift.{DriftDetail, dps_regressed}

module _ (fl : Floats) (repr : Value fl.F → String) where
  open fl use {F}

  -- The events that report a block, and those of them with an address.
  abbrev pub eval_blocked_preservation : List (Event F) → ℕ × ℕ
  eval_blocked_preservation evs = count_blocks fl repr evs 0 0

  -- The share of the baseline's expected blocks.
  abbrev dps : ℕ → ℕ → F
  dps preserved expected = if ltb 0 expected then fl.ratio preserved expected else one_float fl

  abbrev drop_of : F → F → F × List (DriftDetail F)
  drop_of base cand =
      let drop = fl.round (max fl (zero_float fl) (fl.sub base cand)) 4 in
      (drop, if fl.lt (zero_float fl) drop then dps_regressed drop base cand ∷ [] else [])

  -- The candidate's blocks are measured by the number that the baseline expected.
  abbrev pub regression_of : ℕ × ℕ → ℕ × ℕ → F × List (DriftDetail F)
  regression_of (base_exp, base_pres) (_, cand_pres) =
      drop_of (dps base_pres base_exp) (dps cand_pres base_exp)

  unfoldable pub check_dps_regression : List (Event F) → List (Event F) → F × List (DriftDetail F)
  unfolding count_blocks
  check_dps_regression baseline candidate =
      regression_of (eval_blocked_preservation baseline) (eval_blocked_preservation candidate)

  -- The number of preserved blocks.
  abbrev pub preserved_blocks : List (Event F) → ℕ
  preserved_blocks evs = (eval_blocked_preservation evs).1

module _ (fl : Floats) (laws : IsLawful fl) (repr : Value fl.F → String) where
  open fl use {F}

  dps_le : (m n expected : ℕ) → m ≤ n → AtMost fl (dps fl repr m expected) (dps fl repr n expected)
  dps_le m n zero h = laws.lt_irrefl (one_float fl)
  dps_le m n (suc e) h = ground (
    arith,
    laws.ratio_le m (suc e) n (suc e) (omega arith) (omega arith) (mul-le-mul_right (suc e) h),
  )

  no_drop : (base cand : F) → AtMost fl base cand → (drop_of fl repr base cand).0 ≡ zero_float fl
  no_drop base cand h =
      ap (λ x. fl.round x 4) (max_zero fl laws (fl.sub base cand) (laws.sub_nonpos base cand h))
      ∙ laws.round_zero 4

  -- A candidate that preserves as many blocks as the baseline shows no regression, whichever events
  -- they are.
  pub check_dps_regression_none :
      (baseline candidate : List (Event F))
      → preserved_blocks fl repr baseline ≤ preserved_blocks fl repr candidate
      → (check_dps_regression fl repr baseline candidate).0 ≡ zero_float fl
  unfolding check_dps_regression
  check_dps_regression_none baseline candidate h =
      no_drop _ _ (dps_le _ _ (eval_blocked_preservation fl repr baseline).0 h)

  full : (n : ℕ) → dps fl repr (suc n) (suc n) ≡ one_float fl
  full n = ground (arith, laws.ratio_one (suc n) (omega arith))

  none_left : (n : ℕ) → dps fl repr 0 (suc n) ≡ zero_float fl
  none_left n = ground (arith, laws.ratio_zero (suc n) (omega arith))

  full_drop : (drop_of fl repr (one_float fl) (zero_float fl)).0 ≡ one_float fl
  full_drop = rw (
    laws.sub_zero (one_float fl),
    laws.ratio_lt_one 0 1 (omega arith) (omega arith),
    laws.round_one 4,
  )

  -- If the baseline keeps all its blocks, of which there is one, and the candidate keeps none, the
  -- regression is complete.
  pub check_dps_regression_full :
      (baseline candidate : List (Event F)) (n : ℕ)
      → eval_blocked_preservation fl repr baseline ≡ (suc n, suc n)
      → preserved_blocks fl repr candidate ≡ 0
      → (check_dps_regression fl repr baseline candidate).0 ≡ one_float fl
  unfolding check_dps_regression
  check_dps_regression_full baseline candidate n kept lost =
      ap (λ (b, c). (regression_of fl repr b (0, c)).0) (ap₂ (λ b c. (b, c)) kept lost)
      ∙ ap₂ (λ a b. (drop_of fl repr a b).0) (full n) (none_left n)
      ∙ full_drop
