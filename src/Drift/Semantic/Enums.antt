-- ===== src/Drift/Semantic/Enums.antt =====
-- ml/drift/semantic.py: `_check_enum_behavior_drift`.
use ulpx.Base.{
  ℕ, ◌+◌, String, ◌≡◌, refl, Bool, false, not, ◌||◌, Option, none, some, List, [], ◌∷◌, ◌++◌, ◌==◌,
  any, is_empty, length, map, Result, ok, err, ◌>>=◌, one_if, arith, eq_refl, if◌then◌else◌,
}
use ulpx.Base.Dict.{Dict, lookup, NodupKeys}
use ulpx.Base.Floats.{Floats, zero_float, one_float}
use ulpx.Base.Value.{Value, null, str, arr, dict, get, entries, truthy}
use ulpx.Spec.{FieldDef, ParserSpec, fields_of}
use ulpx.Shadow.{Event}
use ulpx.Drift.{DriftDetail, enum_inverted, enum_unmapped}
use ulpx.Drift.Same.{Within, Within-self}
use ulpx.Drift.Semantic.{SemanticError, no_attribute, unhashable}

abbrev is_action : Option String → Bool
is_action none = false
is_action (some path) = path == "event.action"

-- The enum of the first field that maps to the action.
unfoldable pub action_enum : Dict FieldDef → Dict String
action_enum [] = []
action_enum ((_, f) ∷ fields) =
    let rest = action_enum fields in if is_action f.map_to then f.enum else rest

module _ {F : Type 0} where
  -- `if cand_norm and cand_norm != base_norm`
  abbrev inversion_of : String → String → Option String → List (DriftDetail F)
  inversion_of raw base none = []
  inversion_of raw base (some cand) =
      if cand == "" || cand == base then [] else enum_inverted raw cand base ∷ []

  unfoldable pub inversions : Dict String → Dict String → List (DriftDetail F)
  unfolding lookup
  inversions [] cand = []
  inversions ((raw, norm) ∷ base) cand =
      inversion_of raw norm (lookup raw cand) ++ inversions base cand

  -- `value in known`
  abbrev pub is_known : List String → Value F → Result SemanticError Bool
  is_known known (str s) = ok (any (λ k. k == s) known)
  is_known known (arr _) = err unhashable
  is_known known (dict _) = err unhashable
  is_known known _ = ok false

module _ (fl : Floats) where
  open fl use {F}

  -- `(event or {}).get("action")`
  abbrev pub inner_action : Value F → Result SemanticError (Value F)
  inner_action (dict es) = ok (get (entries es) "action")
  inner_action v = if truthy fl v then err no_attribute else ok null

  unfoldable pub action_value : Event F → Result SemanticError (Value F)
  unfolding get
  action_value ev =
      let dotted = get ev "event.action" in
      if truthy fl dotted then ok dotted else inner_action (get ev "event")

  -- 1 for an action that is no known value.
  abbrev pub unmapped_one : List String → Value F → Result SemanticError ℕ
  unmapped_one known act =
      if truthy fl act then (is_known known act >>= λ seen. ok (one_if (not seen))) else ok 0

  unfoldable pub count_unmapped : List String → List (Event F) → ℕ → Result SemanticError ℕ
  unfolding action_value
  count_unmapped known [] n = ok n
  count_unmapped known (ev ∷ evs) n = action_value ev >>= λ act.
      unmapped_one known act >>= λ more. count_unmapped known evs (n + more)

  abbrev pub values : Dict String → List String
  values = map (λ (_, v). v)

  abbrev unmapped_score : ℕ → ℕ → F × List (DriftDetail F)
  unmapped_score n total =
      let share = fl.ratio n total in
      (fl.round share 4, if fl.lt (zero_float fl) share then enum_unmapped share ∷ [] else [])

  abbrev pub unseen :
      Dict String → Dict String → List (Event F) → Result SemanticError (F × List (DriftDetail F))
  unseen base cand evs =
      if is_empty evs || is_empty base
      then ok (zero_float fl, [])
      else (count_unmapped (values base ++ values cand) evs 0 >>= λ n.
          ok (unmapped_score n (length evs)))

  -- Inversions come first, and end the check with the full score.
  abbrev pub enum_drift :
      List (DriftDetail F)
      → Result SemanticError (F × List (DriftDetail F))
      → Result SemanticError (F × List (DriftDetail F))
  enum_drift [] rest = rest
  enum_drift (d ∷ details) rest = ok (one_float fl, d ∷ details)

  unfoldable pub check_enum_behavior_drift :
      ParserSpec → ParserSpec → List (Event F) → Result SemanticError (F × List (DriftDetail F))
  unfolding action_enum inversions count_unmapped
  check_enum_behavior_drift baseline candidate evs =
      let base = action_enum (fields_of baseline) in
      let cand = action_enum (fields_of candidate) in
      enum_drift (inversions base cand) (unseen base cand evs)

pub inversions-Within : {F : Type 0} (d e : Dict String) → Within d e → inversions {F = F} d e ≡ []
unfolding inversions
inversions-Within {F} [] e w = refl
inversions-Within {F} ((k, v) ∷ d) e (p, w) =
    rw p (ground (arith, eq_refl v, inversions-Within {F = F} d e w))

-- A spec against itself has no inversion: what is left is the share of unknown actions.
pub check_enum_behavior_self :
    (fl : Floats) (spec : ParserSpec) (evs : List (Event fl.F))
    → NodupKeys (action_enum (fields_of spec))
    → check_enum_behavior_drift fl spec spec evs
      ≡ unseen fl (action_enum (fields_of spec)) (action_enum (fields_of spec)) evs
unfolding check_enum_behavior_drift
check_enum_behavior_self fl spec evs n =
    let base = action_enum (fields_of spec) in
    rw (inversions-Within {F = fl.F} base base (Within-self base n)) refl
