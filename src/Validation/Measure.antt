-- ===== src/Validation/Measure.antt =====
-- ml/validation/validator.py, `validate_event` and `_evaluate_detection_contracts`: the measures.
-- `repr` is Python's `str` of a value that is no text, boolean or None.
use ulpx.Base.{
  ℕ, ◌+◌, String, Bool, true, false, not, ◌||◌, ◌&&◌, Option, none, some, List, [], ◌∷◌, one_if,
  or_default, ltb, ◌==◌, if◌then◌else◌,
}
use ulpx.Base.Text.{lower, is_in}
use ulpx.Base.Dict.{Dict, lookup}
use ulpx.Base.Floats.{Floats, zero_float, one_float}
use ulpx.Base.Value.{Value, str, get, is_null, truthy, or}
use ulpx.Base.Value.Equality.{same}
use ulpx.Shadow.Dps.{text_of}
use ulpx.Validation.{
  Violation, extraction_mismatch, critical_failed, unknown_not_retained, blocked_connection_failed,
}

-- A loop that counts the items that pass, and gives a message for each that does not.
module _ {ℓ} {A : Type ℓ} {F : Type 0} (hit : A → Bool) (message : A → Violation F) where
  abbrev pub tally : List A → ℕ × List (Violation F)
  tally [] = (0, [])
  tally (x ∷ xs) =
      let rest = tally xs in (one_if (hit x) + rest.0, if hit x then rest.1 else message x ∷ rest.1)

module _ (fl : Floats) (repr : Value fl.F → String) where
  open fl use {F}

  -- `m / n`, and another value if there is nothing to measure.
  abbrev pub share_or : F → ℕ → ℕ → F
  share_or otherwise m n = if ltb 0 n then fl.ratio m n else otherwise

  abbrev equals : Option (Value F) → Value F → Bool
  equals none expected = false
  equals (some v) expected = same fl v expected

  unfoldable pub is_extracted : Dict (Value F) → String × Value F → Bool
  unfolding lookup
  is_extracted canonical (k, expected) = equals (lookup k canonical) expected

  abbrev mismatch : Dict (Value F) → String × Value F → Violation F
  mismatch canonical (k, expected) = extraction_mismatch k expected (get canonical k)

  unfoldable pub measure_extraction : Dict (Value F) → Dict (Value F) → ℕ × List (Violation F)
  unfolding is_extracted get
  measure_extraction canonical expected =
      tally (is_extracted canonical) (mismatch canonical) expected

  unfoldable pub is_preserved : Dict (Value F) → Dict (Value F) → String → Bool
  unfolding get
  is_preserved canonical expected k =
      not (is_null (get expected k)) && same fl (get canonical k) (get expected k)

  abbrev lost : Dict (Value F) → Dict (Value F) → String → Violation F
  lost canonical expected k = critical_failed k (get expected k) (get canonical k)

  unfoldable pub measure_critical :
      Dict (Value F) → Dict (Value F) → List String → ℕ × List (Violation F)
  unfolding is_preserved get
  measure_critical canonical expected critical =
      tally (is_preserved canonical expected) (lost canonical expected) critical

  abbrev reads_as : Option (Value F) → Value F → Bool
  reads_as none expected = false
  reads_as (some v) expected = text_of fl repr v == text_of fl repr expected

  unfoldable pub is_kept_unknown : Dict (Value F) → String × Value F → Bool
  unfolding lookup
  is_kept_unknown unmapped (k, expected) = reads_as (lookup k unmapped) expected

  unfoldable pub measure_unknown : Dict (Value F) → Dict (Value F) → ℕ × List (Violation F)
  unfolding is_kept_unknown
  measure_unknown unmapped expected =
      tally (is_kept_unknown unmapped) (λ (k, _). unknown_not_retained k) expected

  -- `str(fields.get("event.action", "")).lower()`
  abbrev action_text : Dict (Value F) → String
  action_text fields = lower (text_of fl repr (or_default (lookup "event.action" fields) (str "")))

  abbrev says_blocked : String → Bool
  says_blocked action = is_in "block" action || is_in "deny" action || is_in "drop" action

  -- The expected event reports a block.
  unfoldable pub is_block_scenario : Dict (Value F) → Bool
  unfolding lower is_in lookup
  is_block_scenario expected = says_blocked (action_text expected)

  -- The canonical event reports a block, with an address.
  unfoldable pub matched_block : Dict (Value F) → Bool
  unfolding lower is_in lookup get
  matched_block canonical =
      says_blocked (action_text canonical)
      && truthy fl (or fl (get canonical "src.ip") (get canonical "dst.ip"))

  unfoldable pub evaluate_detection_contracts :
      Dict (Value F) → Dict (Value F) → F × Bool × List (Violation F)
  unfolding is_block_scenario matched_block
  evaluate_detection_contracts canonical expected =
      if is_block_scenario expected
      then (if matched_block canonical
          then (one_float fl, true, [])
          else (zero_float fl, false, blocked_connection_failed ∷ []))
      else (one_float fl, true, [])
