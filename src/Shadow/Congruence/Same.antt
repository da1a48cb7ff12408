-- ===== src/Shadow/Congruence/Same.antt =====
-- A candidate that gives the active parser's events matches on every field.
use ulpx.Base.{
  ℕ, String, ◌≡◌, refl, ◌∙◌, ap, ap₂, none, some, List, [], ◌∷◌, arith, All, eq_iff, eq_refl,
}
use ulpx.Base.Floats.{Floats, IsLawful, one_float}
use ulpx.Base.Dict.{Dict, lookup, contains, NodupKeys, lookup-cons}
use ulpx.Base.Sort.{sorted}
use ulpx.Base.Value.{Value}
use ulpx.Base.Value.Equality.{WellFormed}
use ulpx.Base.Value.Reflexive.{same_self}
use ulpx.Shadow.{Event, FieldDivergence}
use ulpx.Shadow.Flatten.{flatten_event}
use ulpx.Shadow.Flatten.Distinct.{
  flatten_event-NodupKeys, flatten_event-wf, AllWellFormed, WellFormedEvent,
}
use ulpx.Shadow.Congruence.{
  Tally, empty_tally, visit_active, visit_candidate, visit_all, visit_flat, visit_events,
  overall_match_rate, divergences_of, evaluate_field_congruence, by_key,
}

-- Each entry of the first dict is what the second has under its key.
abbrev pub Within {ℓ} : {V : Type ℓ} → Dict V → Dict V → Type ℓ
Within [] e = Unit
Within ((k, v) ∷ d) e = (lookup k e ≡ some v) × Within d e

module _ {ℓ} {V : Type ℓ} where
  Within-cons :
      (k : String) (v : V) (d e : Dict V) → lookup k d ≡ none → Within d e → Within d ((k, v) ∷ e)
  Within-cons k v [] e h w = tt
  Within-cons k v ((j, u) ∷ d) e h (p, w) = (
    ground (arith, lookup-cons j k v e, lookup-cons k j u d, eq_iff k j, eq_iff j k),
    Within-cons k v d e (ground (arith, lookup-cons k j u d)) w,
  )

  pub Within-self : (d : Dict V) → NodupKeys d → Within d d
  Within-self [] u = tt
  Within-self ((k, v) ∷ d) (fresh, u) =
      (lookup-cons k k v d ∙ rw eq_refl, Within-cons k v d d fresh (Within-self d u))

module _ (fl : Floats) (laws : IsLawful fl) where
  open fl use {F}

  -- Every comparison so far was a match, and no divergence was seen.
  record IsClean (t : Tally F) : Type 0 where
    matched : t.total_active_matches ≡ t.total_active_comparisons
    no_example : t.field_divergence_examples ≡ []

  visit_active-IsClean :
      (cand : Dict (Value F)) (t : Tally F) (k : String) (a : Value F)
      → lookup k cand ≡ some a
      → WellFormed fl a
      → IsClean t
      → IsClean (visit_active fl cand t (k, a))
  visit_active-IsClean cand t k a found w c = ground (arith, same_self fl laws a w)

  visit_all_active :
      (cand d : Dict (Value F)) (t : Tally F)
      → Within d cand
      → AllWellFormed fl d
      → IsClean t
      → IsClean (visit_all fl (visit_active fl cand) t d)
  unfolding visit_all
  visit_all_active cand [] t w a c = c
  visit_all_active cand ((k, v) ∷ d) t (found, w) (p, a) c =
      visit_all_active cand d (visit_active fl cand t (k, v)) w a
        (visit_active-IsClean cand t k v found p c)

  -- A candidate key that the active event has changes nothing.
  visit_all_candidate :
      (act d : Dict (Value F)) (t : Tally F)
      → Within d act
      → visit_all fl (visit_candidate fl act) t d ≡ t
  unfolding visit_all contains
  visit_all_candidate act [] t w = refl
  visit_all_candidate act ((k, v) ∷ d) t (found, w) =
      rw (found, contains) (visit_all_candidate act d t w)

  visit_flat-IsClean :
      (t : Tally F) (d : Dict (Value F))
      → NodupKeys d
      → AllWellFormed fl d
      → IsClean t
      → IsClean (visit_flat fl t d d)
  unfolding visit_flat
  visit_flat-IsClean t d u a c =
      rw (visit_all_candidate d d _ (Within-self d u))
        (visit_all_active d d t (Within-self d u) a c)

  abbrev pub AllEvents : List (Event F) → Type 0
  AllEvents = All (WellFormedEvent fl)

  visit_events-IsClean :
      (t : Tally F) (evs : List (Event F))
      → AllEvents evs
      → IsClean t
      → IsClean (visit_events fl t evs evs)
  unfolding visit_events
  visit_events-IsClean t [] a c = c
  visit_events-IsClean t (ev ∷ evs) (p, a) c =
      visit_events-IsClean (visit_flat fl t (flatten_event ev) (flatten_event ev)) evs a (
        visit_flat-IsClean t (flatten_event ev) (flatten_event-NodupKeys ev)
          (flatten_event-wf fl ev p) c)

  overall_of_IsClean : (t : Tally F) → IsClean t → overall_match_rate fl t ≡ one_float fl
  unfolding overall_match_rate
  overall_of_IsClean t c = ground (arith, laws.ratio_one t.total_active_comparisons)

  divergences_of-IsClean :
      (t : Tally F) (counts : Dict ℕ) → IsClean t → divergences_of fl t counts ≡ []
  unfolding divergences_of lookup
  divergences_of-IsClean t [] c = refl
  divergences_of-IsClean t (e ∷ counts) c = ground (arith, divergences_of-IsClean t counts c)

  pub congruence_self :
      (evs : List (Event F))
      → AllEvents evs
      → evaluate_field_congruence fl evs evs ≡ (one_float fl, [])
  unfolding evaluate_field_congruence
  congruence_self [] a = refl
  congruence_self (ev ∷ evs) a =
      let t = visit_events fl empty_tally (ev ∷ evs) (ev ∷ evs) in
      let c : IsClean t =
        visit_events-IsClean empty_tally (ev ∷ evs) a
          (record { matched = refl; no_example = refl }) in
      ap₂ (λ (x : F) (y : List (FieldDivergence F)). (x, y))
        (ap (λ x. fl.round x 4) (overall_of_IsClean t c) ∙ laws.round_one 4)
        (divergences_of-IsClean t (sorted (by_key fl) t.field_total_counts) c)
