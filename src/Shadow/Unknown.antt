-- ===== src/Shadow/Unknown.antt =====
-- `_evaluate_unknown_retention`: the share of the active parser's unknown fields that the candidate
-- keeps, as unknown fields or as mapped values.
pub mod Same
use ulpx.Base.{
  ℕ, suc, ◌+◌, String, Bool, true, false, ◌||◌, List, [], ◌∷◌, eqb, any, is_empty, if◌then◌else◌,
}
use ulpx.Base.Floats.{Floats, one_float}
use ulpx.Base.Dict.{Dict, contains}
use ulpx.Base.Value.{Value, get, dict_or_empty}
use ulpx.Base.Value.Equality.{same}
use ulpx.Shadow.{Event}
use ulpx.Shadow.Flatten.{flatten_event}
use ulpx.Shadow.Critical.{add_detail}

-- Event number and field of a field that was dropped.
abbrev pub UnknownDetail : Type 0
UnknownDetail = ℕ × String

pub record Retention : Type 0 where
  pub active_unknown_count : ℕ
  pub candidate_unknown_retained : ℕ
  pub details : List UnknownDetail

abbrev pub no_retention : Retention
no_retention = record { active_unknown_count = 0; candidate_unknown_retained = 0; details = [] }

module _ (fl : Floats) where
  open fl use {F}

  abbrev pub unknown_fields : Event F → Dict (Value F)
  unknown_fields ev = dict_or_empty (get ev "unknown_fields")

  -- `any(val == v for val in flat.values())`
  abbrev has_value : Value F → Dict (Value F) → Bool
  has_value v flat = any (λ e. same fl e.1 v) flat

  abbrev pub is_retained : Event F → String → Value F → Bool
  is_retained cand k v = contains k (unknown_fields cand) || has_value v (flatten_event cand)

  pub check_unknown : ℕ → Event F → Dict (Value F) → Retention → Retention
  unfolding contains get
  check_unknown i cand [] r = r
  check_unknown i cand ((k, v) ∷ d) r = check_unknown i cand d (
      if is_retained cand k v
      then record r {
        active_unknown_count = r.active_unknown_count + 1;
        candidate_unknown_retained = r.candidate_unknown_retained + 1;
      }
      else record r {
        active_unknown_count = r.active_unknown_count + 1;
        details = add_detail (i, k) r.details;
      })

  pub check_unknowns : ℕ → List (Event F) → List (Event F) → Retention → Retention
  unfolding check_unknown
  check_unknowns i (a ∷ active) (c ∷ candidate) r =
      check_unknowns (i + 1) active candidate (check_unknown i c (unknown_fields a) r)
  check_unknowns i [] _ r = r
  check_unknowns i (a ∷ active) [] r = r

  abbrev pub retention_of : Retention → F × List UnknownDetail
  retention_of r =
      if eqb r.active_unknown_count 0
      then (one_float fl, [])
      else (fl.round (fl.ratio r.candidate_unknown_retained r.active_unknown_count) 4, r.details)

  unfoldable pub evaluate_unknown_retention :
      List (Event F) → List (Event F) → F × List UnknownDetail
  unfolding check_unknowns flatten_event
  evaluate_unknown_retention active candidate =
      if is_empty active || is_empty candidate
      then (one_float fl, [])
      else retention_of (check_unknowns 0 active candidate no_retention)
