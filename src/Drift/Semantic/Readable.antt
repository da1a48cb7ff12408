-- ===== src/Drift/Semantic/Readable.antt =====
-- Events of the usual shape, on which the semantic checks do not raise.
use ulpx.Base.{
  ℕ, ◌+◌, String, ◌≡◌, refl, true, not, ◌||◌, List, [], ◌∷◌, ◌++◌, All, is_empty, if_intro, Result,
  ok, ◌>>=◌, Returns, bind-Returns, one_if, or_default, ◌==◌, Option, if◌then◌else◌,
}
use ulpx.Base.Text.{lower, is_in}
use ulpx.Base.Dict.{Dict, lookup, insert}
use ulpx.Base.Floats.{Floats, zero_float}
use ulpx.Base.Value.{Value, Entries, null, str, dict, get, entries, truthy, or, dict_or_empty}
use ulpx.Spec.{ParserSpec, fields_of}
use ulpx.Shadow.{Event}
use ulpx.Shadow.Dps.{text_of}
use ulpx.Drift.{DriftThresholds, DriftDetail}
use ulpx.Drift.Semantic.{SemanticError, SemanticDriftThresholds}
use ulpx.Drift.Semantic.Enums.{
  action_value, inner_action, is_known, unmapped_one, count_unmapped, check_enum_behavior_drift,
  inversions, action_enum, values, unseen, enum_drift,
}
use ulpx.Drift.Semantic.Families.{
  holds, get_family, family_by_action, count_families, check_event_family_drift,
}
use ulpx.Drift.Semantic.Detect.{semantic_findings, detect_semantic_drift}

-- A text, or None.
pub data IsPlain {F : Type 0} : Value F → Type 0 where
  missing : IsPlain null
  text : (s : String) → IsPlain (str s)

-- None, or a dict with a plain action.
pub data IsPlainObject {F : Type 0} : Value F → Type 0 where
  absent : IsPlainObject null
  object : (es : Entries F) → IsPlain (get (entries es) "action") → IsPlainObject (dict es)

module _ {F : Type 0} where
  -- The action is a text wherever the event gives one.
  abbrev pub IsReadable : Event F → Type 0
  IsReadable ev = IsPlain (get ev "event.action") × IsPlainObject (get ev "event")

  abbrev IsStr : Value F → Type 0
  IsStr v = (s : String) × (v ≡ str s)

module _ (fl : Floats) where
  open fl use {F}

  or-IsStr : (a b : Value F) → IsPlain a → IsStr b → IsStr (or fl a b)
  or-IsStr _ b missing k = k
  or-IsStr _ b (text s) k = if_intro IsStr (not (s == "")) (str s) b (λ _. (s, refl)) (λ _. k)

  object_action : (v : Value F) → IsPlainObject v → IsPlain (get (dict_or_empty v) "action")
  unfolding get lookup
  object_action _ absent = missing
  object_action _ (object es h) = h

  inner_action-Returns :
      (v : Value F) → IsPlainObject v → (a : Value F) × IsPlain a × (inner_action fl v ≡ ok a)
  inner_action-Returns _ absent = (null, missing, refl)
  inner_action-Returns _ (object es h) = (get (entries es) "action", h, refl)

  unmapped_one-Returns :
      (known : List String) (a : Value F) → IsPlain a → Returns (unmapped_one fl known a)
  unmapped_one-Returns known _ missing = (0, refl)
  unmapped_one-Returns known _ (text s) =
      if_intro Returns (not (s == ""))
        (is_known {F = F} known (str s) >>= λ seen. ok (one_if (not seen))) (ok 0) (λ _. (_, refl))
        (λ _. (_, refl))

  action_value-Returns :
      (ev : Event F) → IsReadable ev → (a : Value F) × IsPlain a × (action_value fl ev ≡ ok a)
  unfolding action_value
  action_value-Returns ev (dotted, obj) =
      if_intro (λ (r : Result SemanticError (Value F)). (a : Value F) × IsPlain a × (r ≡ ok a))
        (truthy fl (get ev "event.action")) (ok (get ev "event.action"))
        (inner_action fl (get ev "event")) (λ _. (get ev "event.action", dotted, refl))
        (λ _. inner_action-Returns (get ev "event") obj)

  count_unmapped-Returns :
      (known : List String) (evs : List (Event F)) (n : ℕ)
      → All IsReadable evs
      → Returns (count_unmapped fl known evs n)
  unfolding count_unmapped
  count_unmapped-Returns known [] n h = (n, refl)
  count_unmapped-Returns known (ev ∷ evs) n (r, h) =
      let (a, plain, e) = action_value-Returns ev r in
      rw e (
        bind-Returns (unmapped_one fl known a) _ (unmapped_one-Returns known a plain)
          (λ more. count_unmapped-Returns known evs (n + more) h))

  enum_drift-Returns :
      (details : List (DriftDetail F)) (rest : Result SemanticError (F × List (DriftDetail F)))
      → Returns rest
      → Returns (enum_drift fl details rest)
  enum_drift-Returns [] rest h = h
  enum_drift-Returns (d ∷ details) rest h = (_, refl)

  unseen-Returns :
      (base cand : Dict String) (evs : List (Event F))
      → All IsReadable evs
      → Returns (unseen fl base cand evs)
  unseen-Returns base cand evs h =
      if_intro Returns (is_empty evs || is_empty base) (ok (zero_float fl, [])) _ (λ _. (_, refl))
        (λ _.
          bind-Returns (count_unmapped fl (values fl base ++ values fl cand) evs 0) _
            (count_unmapped-Returns (values fl base ++ values fl cand) evs 0 h) (λ n. (_, refl)))

  check_enum-Returns :
      (b c : ParserSpec) (evs : List (Event F))
      → All IsReadable evs
      → Returns (check_enum_behavior_drift fl b c evs)
  unfolding check_enum_behavior_drift
  check_enum-Returns b c evs h =
      let base = action_enum (fields_of b) in
      let cand = action_enum (fields_of c) in
      enum_drift-Returns (inversions base cand) (unseen fl base cand evs)
        (unseen-Returns base cand evs h)

module _ (fl : Floats) (repr : Value fl.F → String) where
  open fl use {F}

  family_by_action-Returns :
      (ev : Event F) (a : Value F) → IsStr a → Returns (family_by_action fl repr ev a)
  family_by_action-Returns ev a (s, e) = rw e (
      bind-Returns (if is_in "auth" s then ok true else holds {F = F} "login" (str s)) _
        (if_intro Returns (is_in "auth" s) (ok true) (holds {F = F} "login" (str s))
          (λ _. (_, refl)) (λ _. (_, refl)))
        (λ login. (_, refl)))

  get_family-Returns : (ev : Event F) → IsReadable ev → Returns (get_family fl repr ev)
  unfolding get_family
  get_family-Returns ev (dotted, obj) =
      let object = dict_or_empty (get ev "event") in
      let cls = or fl (get object "class") (or fl (get ev "event.class") (str "")) in
      let act = or fl (get object "action") (or fl (get ev "event.action") (str "")) in
      if_intro Returns (truthy fl cls) (ok (lower (text_of fl repr cls)))
        (family_by_action fl repr ev act) (λ _. (_, refl))
        (λ _. family_by_action-Returns ev act (
          or-IsStr fl (get object "action") _ (object_action fl (get ev "event") obj)
            (or-IsStr fl (get ev "event.action") (str "") dotted ("", refl))))

  count_families-Returns :
      (evs : List (Event F)) (counts : Dict ℕ)
      → All IsReadable evs
      → Returns (count_families fl repr evs counts)
  unfolding count_families
  count_families-Returns [] counts h = (counts, refl)
  count_families-Returns (ev ∷ evs) counts (r, h) =
      bind-Returns (get_family fl repr ev) _ (get_family-Returns ev r) (λ fam.
        count_families-Returns evs (insert fam (or_default (lookup fam counts) 0 + 1) counts) h)

  check_event_family-Returns :
      (threshold : F) (bs cs : List (Event F))
      → All IsReadable bs
      → All IsReadable cs
      → Returns (check_event_family_drift fl repr threshold bs cs)
  unfolding check_event_family_drift
  check_event_family-Returns threshold bs cs hb hc =
      if_intro Returns (is_empty bs || is_empty cs) (ok (zero_float fl, [])) _ (λ _. (_, refl))
        (λ _.
          bind-Returns (count_families fl repr bs []) _ (count_families-Returns bs [] hb) (λ base.
            bind-Returns (count_families fl repr cs []) _ (count_families-Returns cs [] hc)
              (λ cand. (_, refl))))

  -- For events whose action, where they give one, is a text, and whose `event` is an object or
  -- absent, the detector returns a report.
  pub detect_semantic_drift-Returns :
      (t : SemanticDriftThresholds F) (structural : DriftThresholds F)
      (baseline candidate : ParserSpec) (baseline_events candidate_events : List (Event F))
      (source_id parser_id parser_version : String) (run_id : Option String)
      → All IsReadable baseline_events
      → All IsReadable candidate_events
      → Returns (
          detect_semantic_drift fl repr t structural baseline candidate baseline_events
            candidate_events source_id parser_id parser_version run_id)
  unfolding detect_semantic_drift semantic_findings
  detect_semantic_drift-Returns t structural b c bs cs source_id parser_id parser_version run_id hb
        hc =
      bind-Returns (semantic_findings fl repr t b c bs cs) _
        (bind-Returns (check_enum_behavior_drift fl b c cs) _ (check_enum-Returns fl b c cs hc)
          (λ enum.
            bind-Returns (check_event_family_drift fl repr t.event_family_drift bs cs) _
              (check_event_family-Returns t.event_family_drift bs cs hb hc) (λ fam. (_, refl))))
        (λ s. (_, refl))
