-- ===== src/Promotion.antt =====
-- ml/self_healing/policy.py: the gates' results and the promotion decision.
pub mod Refusals
use ulpx.Base.{
  String, Bool, true, false, not, ◌&&◌, ◌||◌, Option, none, some, List, [], ◌∷◌, ◌++◌, or_default,
  if◌then◌else◌, ◌==◌,
}
use ulpx.Base.Floats.{Floats, zero_float, one_float}

pub data PromotionMode : Type 0 where
  manual_approval automatic_conditional : PromotionMode

pub data PromotionDecision : Type 0 where
  promoted rejected escalated_for_approval : PromotionDecision

pub record GateResults (F : Type 0) : Type 0 where
  pub schema_passed : Bool
  pub schema_details : String
  pub validation_passed : Bool
  pub extraction_accuracy : F
  pub semantic_accuracy : F
  pub dps : F
  pub raw_retention : F
  pub unknown_retention : F
  pub shadow_passed : Bool
  pub shadow_state : String
  pub field_match_rate : F
  pub dps_delta : F
  pub downstream_isolation_verified : Bool

-- The text of a reason names the gate's values; the reason here names the refusal condition.
pub data Refusal : Type 0 where
  schema_invalid validation_incomplete detection_tests_failed retention_below_100
        shadow_unpassed_or_leaked :
      Refusal

abbrev pub mandatory_refusal_checks : List Refusal
mandatory_refusal_checks =
    schema_invalid ∷ validation_incomplete ∷ detection_tests_failed ∷ retention_below_100
    ∷ shadow_unpassed_or_leaked ∷ []

abbrev pub decision_of : List Refusal → PromotionMode → PromotionDecision
decision_of (r ∷ reasons) mode = rejected
decision_of [] automatic_conditional = promoted
decision_of [] manual_approval = escalated_for_approval

module _ (fl : Floats) where
  open fl use {F, lt, ratio}

  -- The condition of each refusal.
  unfoldable pub refuses : GateResults F → Refusal → Bool
  refuses g schema_invalid = not g.schema_passed
  refuses g validation_incomplete =
      not g.validation_passed
      || lt g.extraction_accuracy (ratio 90 100)
      || lt g.semantic_accuracy (ratio 90 100)
  refuses g detection_tests_failed = lt g.dps (one_float fl) || lt g.dps_delta (zero_float fl)
  refuses g retention_below_100 =
      lt g.raw_retention (one_float fl) || lt g.unknown_retention (one_float fl)
  refuses g shadow_unpassed_or_leaked =
      not g.shadow_passed || not (g.shadow_state == "PASSED") || not g.downstream_isolation_verified

  -- `if condition: reasons.append(...)`
  abbrev append_if : GateResults F → Refusal → List Refusal → List Refusal
  append_if g r reasons = if refuses g r then reasons ++ r ∷ [] else reasons

  unfoldable pub refusal_reasons : GateResults F → List Refusal
  refusal_reasons g = append_if g shadow_unpassed_or_leaked (
      append_if g retention_below_100 (
        append_if g detection_tests_failed
          (append_if g validation_incomplete (append_if g schema_invalid []))))

  unfoldable pub evaluate :
      PromotionMode
      → GateResults F
      → Option PromotionMode
      → PromotionDecision × List Refusal × List Refusal
  evaluate default_mode g mode = (
    decision_of (refusal_reasons g) (or_default mode default_mode),
    refusal_reasons g,
    mandatory_refusal_checks,
  )
