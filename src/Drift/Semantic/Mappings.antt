-- ===== src/Drift/Semantic/Mappings.antt =====
-- ml/drift/semantic.py: `_check_critical_mapping_drift`.
use ulpx.Base.{
  suc, String, ◌≡◌, refl, Bool, Option, none, some, List, [], ◌∷◌, ◌++◌, ◌==◌, any, length, arith,
  eq_refl, if_intro, if◌then◌else◌,
}
use ulpx.Base.Dict.{Dict, lookup, insert, NodupKeys, insert-NodupKeys}
use ulpx.Base.Floats.{Floats, IsLawful, zero_float}
use ulpx.Spec.{FieldDef, ParserSpec, fields_of}
use ulpx.Drift.{DriftDetail, mapping_dropped, mapping_moved}
use ulpx.Drift.Same.{Within, Within-self}

abbrev pub critical_canonical_fields : List String
critical_canonical_fields =
    "src.ip" ∷ "dst.ip" ∷ "src.port" ∷ "dst.port" ∷ "event.action" ∷ "event.outcome" ∷ "user.name"
    ∷ []

abbrev is_critical : String → Bool
is_critical path = any (λ c. c == path) critical_canonical_fields

-- One field: its target, if that is critical, maps back to the raw name.
abbrev add_target : Option String → String → Dict String → Dict String
add_target none raw targets = targets
add_target (some path) raw targets = if is_critical path then insert path raw targets else targets

unfoldable pub critical_map : Dict FieldDef → Dict String → Dict String
unfolding insert
critical_map [] targets = targets
critical_map ((raw, f) ∷ fields) targets = critical_map fields (add_target f.map_to raw targets)

module _ {F : Type 0} where
  -- The message of one critical target, if it moved or went.
  abbrev change_of : String → String → Option String → List (DriftDetail F)
  change_of path base none = mapping_dropped path base ∷ []
  change_of path base (some cand) = if cand == base then [] else mapping_moved path base cand ∷ []

  unfoldable pub changes : Dict String → Dict String → List (DriftDetail F)
  unfolding lookup
  changes [] cand = []
  changes ((path, raw) ∷ base) cand = change_of path raw (lookup path cand) ++ changes base cand

module _ (fl : Floats) where
  open fl use {F}

  -- Each mismatch has one message, so they are counted by the messages.
  abbrev mapping_result : Dict String → List (DriftDetail F) → F × List (DriftDetail F)
  mapping_result [] details = (zero_float fl, [])
  mapping_result (e ∷ base) details =
      (fl.round (fl.ratio (length details) (suc (length base))) 4, details)

  unfoldable pub check_critical_mapping_drift : ParserSpec → ParserSpec → F × List (DriftDetail F)
  unfolding critical_map changes
  check_critical_mapping_drift baseline candidate =
      let base = critical_map (fields_of baseline) [] in
      mapping_result base (changes base (critical_map (fields_of candidate) []))

changes-Within : {F : Type 0} (d e : Dict String) → Within d e → changes {F = F} d e ≡ []
unfolding changes
changes-Within [] e w = refl
changes-Within ((k, v) ∷ d) e (p, w) = rw (p, eq_refl) (changes-Within d e w)

critical_map-NodupKeys :
    (fields : Dict FieldDef) (d : Dict String) → NodupKeys d → NodupKeys (critical_map fields d)
unfolding critical_map
critical_map-NodupKeys [] d n = n
critical_map-NodupKeys ((raw, f) ∷ fields) d n =
    critical_map-NodupKeys fields (add_target f.map_to raw d) (added f.map_to)
  where
    added : (t : Option String) → NodupKeys (add_target t raw d)
    added none = n
    added (some path) =
        if_intro NodupKeys (is_critical path) (insert path raw d) d
          (λ _. insert-NodupKeys path raw d n) (λ _. n)

module _ (fl : Floats) (laws : IsLawful fl) where
  open fl use {F}

  -- A spec moves no critical mapping against itself.
  pub check_critical_mapping_self :
      (spec : ParserSpec) → check_critical_mapping_drift fl spec spec ≡ (zero_float fl, [])
  unfolding check_critical_mapping_drift
  check_critical_mapping_self spec =
      let base = critical_map (fields_of spec) [] in
      rw
        (changes-Within base base
          (Within-self base (critical_map-NodupKeys (fields_of spec) [] tt)))
        (scored base)
    where
      scored : (base : Dict String) → mapping_result fl base [] ≡ (zero_float fl, [])
      scored [] = refl
      scored (e ∷ base) = rw (laws.ratio_zero (suc (length base)) (omega arith), laws.round_zero 4)
