-- ===== src/Promotion/Refusals.antt =====
-- A promotion needs every gate and the automatic mode, and a refusal names each condition that holds.
use ulpx.Base.{◌≡◌, refl, ◌↔◌, true, Option, List, [], ◌∷◌, arith, eq_iff, or_default}
use ulpx.Base.Floats.{Floats, zero_float, one_float, AtMost}
use ulpx.Promotion.{
  PromotionMode, manual_approval, automatic_conditional, promoted, rejected, escalated_for_approval,
  GateResults, Refusal, refuses, refusal_reasons, decision_of, evaluate,
}

promoted_of :
    (rs : List Refusal) (m : PromotionMode)
    → decision_of rs m ≡ promoted
    → (rs ≡ []) × (m ≡ automatic_conditional)
promoted_of [] automatic_conditional h = (refl, refl)
promoted_of _ _ h = absurd (cc)

escalated_of :
    (rs : List Refusal) (m : PromotionMode)
    → decision_of rs m ≡ escalated_for_approval
    → (rs ≡ []) × (m ≡ manual_approval)
escalated_of [] manual_approval h = (refl, refl)
escalated_of _ _ h = absurd (cc)

rejected_of : (rs : List Refusal) (m : PromotionMode) → decision_of rs m ≡ rejected → ¬ (rs ≡ [])
rejected_of [] automatic_conditional h = λ _. cc
rejected_of [] manual_approval h = λ _. cc
rejected_of (r ∷ rs) _ h = λ e. cc

of_rejected : (rs : List Refusal) (m : PromotionMode) → ¬ (rs ≡ []) → decision_of rs m ≡ rejected
of_rejected [] m n = absurd (n refl)
of_rejected (r ∷ rs) m n = refl

module _ (fl : Floats) where
  open fl use {F, lt, ratio}

  -- What the five gates ask of a candidate, with no mention of the refusals.
  pub record PassesGates (g : GateResults F) : Type 0 where
    pub schema : g.schema_passed ≡ true
    pub validation : g.validation_passed ≡ true
    pub extraction : AtMost fl (ratio 90 100) g.extraction_accuracy
    pub semantics : AtMost fl (ratio 90 100) g.semantic_accuracy
    pub detections : AtMost fl (one_float fl) g.dps
    pub no_regression : AtMost fl (zero_float fl) g.dps_delta
    pub raw : AtMost fl (one_float fl) g.raw_retention
    pub unknown : AtMost fl (one_float fl) g.unknown_retention
    pub shadow : g.shadow_passed ≡ true
    pub state : g.shadow_state ≡ "PASSED"
    pub isolation : g.downstream_isolation_verified ≡ true

  no_reason→PassesGates : (g : GateResults F) → refusal_reasons fl g ≡ [] → PassesGates g
  unfolding refusal_reasons refuses
  no_reason→PassesGates g h = ground (arith, eq_iff g.shadow_state "PASSED")

  PassesGates→no_reason : (g : GateResults F) → PassesGates g → refusal_reasons fl g ≡ []
  unfolding refusal_reasons refuses
  PassesGates→no_reason g p = ground (arith, eq_iff g.shadow_state "PASSED")

  -- A candidate is promoted exactly when it passes the five gates and the mode in force is the
  -- automatic one, it is escalated exactly when it passes them and the mode in force is the manual
  -- one, and it is rejected exactly when it does not pass them.
  pub evaluate_iff :
      (default_mode : PromotionMode) (g : GateResults F) (mode : Option PromotionMode)
      → (((evaluate fl default_mode g mode).0 ≡ promoted)
          ↔ (PassesGates g × (or_default mode default_mode ≡ automatic_conditional)))
        × (((evaluate fl default_mode g mode).0 ≡ escalated_for_approval)
            ↔ (PassesGates g × (or_default mode default_mode ≡ manual_approval)))
        × (((evaluate fl default_mode g mode).0 ≡ rejected) ↔ (¬ PassesGates g))
  unfolding evaluate
  evaluate_iff default_mode g mode =
      let m = or_default mode default_mode in
      let rs = refusal_reasons fl g in
      (
        (
          λ h. let (e, q) = promoted_of rs m h in (no_reason→PassesGates g e, q),
          λ (p, q). rw (PassesGates→no_reason g p, q),
        ),
        (
          λ h. let (e, q) = escalated_of rs m h in (no_reason→PassesGates g e, q),
          λ (p, q). rw (PassesGates→no_reason g p, q),
        ),
        (
          λ h p. rejected_of rs m h (PassesGates→no_reason g p),
          λ n. of_rejected rs m (λ e. n (no_reason→PassesGates g e)),
        ),
      )
