-- ===== src/Shadow/Dps/Bounds.antt =====
-- The detection preservation score lies between 0 and 1, and a stream that reports no block has the
-- full score.
use ulpx.Base.{ℕ, zero, suc, ◌≤◌, String, ◌≡◌, refl, sym, subst, false, List, [], ◌∷◌, arith, All}
use ulpx.Base.Floats.{Floats, IsLawful, zero_float, one_float, AtMost}
use ulpx.Base.Value.{Value}
use ulpx.Shadow.{Event}
use ulpx.Shadow.Dps.{is_security_event, count_blocks, score, calc_dps, evaluate_dps_comparison}

module _ (fl : Floats) (repr : Value fl.F → String) where
  open fl use {F}

  -- Of the blocking events at most all are preserved.
  count_blocks-le :
      (evs : List (Event F)) (expected preserved : ℕ)
      → preserved ≤ expected
      → (count_blocks fl repr evs expected preserved).1
        ≤ (count_blocks fl repr evs expected preserved).0
  unfolding count_blocks
  count_blocks-le [] e p h = h
  count_blocks-le (ev ∷ evs) e p h = count_blocks-le evs _ _ (ground arith)

  count_blocks_none :
      (evs : List (Event F))
      → All (λ ev. is_security_event fl repr ev ≡ false) evs
      → count_blocks fl repr evs 0 0 ≡ (0, 0)
  unfolding count_blocks
  count_blocks_none [] h = refl
  count_blocks_none (ev ∷ evs) (quiet, h) = rw quiet (count_blocks_none evs h)

  -- A stream in which no event reports a block has the full score.
  pub calc_dps_quiet :
      (evs : List (Event F))
      → All (λ ev. is_security_event fl repr ev ≡ false) evs
      → calc_dps fl repr evs ≡ one_float fl
  unfolding calc_dps
  calc_dps_quiet evs h = rw (count_blocks_none evs h)

module _ (fl : Floats) (laws : IsLawful fl) (repr : Value fl.F → String) where
  open fl use {F}

  score_bounds :
      (expected preserved : ℕ)
      → preserved ≤ expected
      → AtMost fl (zero_float fl) (score fl repr (expected, preserved))
        × AtMost fl (score fl repr (expected, preserved)) (one_float fl)
  score_bounds zero preserved h = (
    laws.ratio_le 0 1 1 1 (omega arith) (omega arith) (omega arith),
    laws.lt_irrefl (one_float fl),
  )
  score_bounds (suc n) preserved h = ground (
    arith,
    laws.ratio_le 0 1 preserved (suc n) (omega arith) (omega arith) (omega arith),
    laws.ratio_le preserved (suc n) 1 1 (omega arith) (omega arith) (omega arith),
  )

  calc_dps_bounds :
      (evs : List (Event F))
      → AtMost fl (zero_float fl) (calc_dps fl repr evs)
        × AtMost fl (calc_dps fl repr evs) (one_float fl)
  unfolding calc_dps
  calc_dps_bounds evs = score_bounds _ _ (count_blocks-le fl repr evs 0 0 (omega arith))

  abbrev InUnit : F → Type 0
  InUnit x = AtMost fl (zero_float fl) x × AtMost fl x (one_float fl)

  rounded : (x : F) → InUnit x → InUnit (fl.round x 4)
  rounded x (low, high) = (
    rw (← laws.round_zero 4) (laws.round_le (zero_float fl) x 4 low),
    rw (← laws.round_one 4) (laws.round_le x (one_float fl) 4 high),
  )

  -- Both scores that a comparison reports lie between 0 and 1.
  pub dps_bounds :
      (active candidate : List (Event F))
      → InUnit (evaluate_dps_comparison fl repr active candidate).active_dps
        × InUnit (evaluate_dps_comparison fl repr active candidate).candidate_dps
  unfolding evaluate_dps_comparison
  dps_bounds active candidate =
      (rounded _ (calc_dps_bounds active), rounded _ (calc_dps_bounds candidate))

  -- If no event of the candidate reports a block, whatever the active parser reports, the candidate
  -- has the full score, its difference from the active score is not negative, and no regression is
  -- reported: a candidate that turns each block into a permission passes this test.
  pub dps_blind :
      (active candidate : List (Event F))
      → All (λ ev. is_security_event fl repr ev ≡ false) candidate
      → ((evaluate_dps_comparison fl repr active candidate).candidate_dps ≡ one_float fl)
        × AtMost fl (zero_float fl) (evaluate_dps_comparison fl repr active candidate).dps_delta
        × ((evaluate_dps_comparison fl repr active candidate).regressed ≡ false)
  unfolding evaluate_dps_comparison
  dps_blind active candidate quiet = (full, not_negative, not_negative)
    where
      full : fl.round (calc_dps fl repr candidate) 4 ≡ one_float fl
      full = rw (calc_dps_quiet fl repr candidate quiet) (laws.round_one 4)

      gap : F
      gap = fl.sub (fl.round (calc_dps fl repr candidate) 4) (fl.round (calc_dps fl repr active) 4)

      gap_nonneg : AtMost fl (zero_float fl) gap
      gap_nonneg = laws.sub_nonneg _ _ (
          subst (λ x. AtMost fl (fl.round (calc_dps fl repr active) 4) x) (sym full)
            (rounded (calc_dps fl repr active) (calc_dps_bounds active)).1)

      not_negative : AtMost fl (zero_float fl) (fl.round gap 4)
      not_negative = rw (← laws.round_zero 4) (laws.round_le (zero_float fl) gap 4 gap_nonneg)
