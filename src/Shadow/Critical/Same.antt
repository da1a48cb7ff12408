-- ===== src/Shadow/Critical/Same.antt =====
-- An event diverges from itself on no critical field.
use ulpx.Base.{
  ℕ, ◌+◌, String, ◌≡◌, refl, ◌∙◌, ap, false, List, [], ◌∷◌, arith, All, eq_refl, Bool-cases, inl,
  inr,
}
use ulpx.Base.Text.{lower, strip}
use ulpx.Base.Floats.{Floats, IsLawful, zero_float}
use ulpx.Base.Dict.{Dict, lookup}
use ulpx.Base.Value.{Value, null, str, get, is_null}
use ulpx.Base.Value.Equality.{WellFormed}
use ulpx.Base.Value.Reflexive.{same_self}
use ulpx.Shadow.{Event}
use ulpx.Shadow.Flatten.{flatten_event}
use ulpx.Shadow.Flatten.Distinct.{flatten_event-wf, AllWellFormed, WellFormedEvent}
use ulpx.Shadow.Critical.{
  CriticalDetail, Progress, critical_security_fields, differ, check_fields, check_events,
  sample_len, evaluate_critical_semantics,
}

module _ (fl : Floats) (laws : IsLawful fl) where
  open fl use {F}

  differ_self : (k : String) (v : Value F) → WellFormed fl v → differ fl k v v ≡ false
  differ_self k (str s) w = ground (arith, eq_refl s, eq_refl (lower (strip s)))
  differ_self k null w = ground (arith, same_self fl laws null w)
  differ_self k v w = ground (arith, same_self fl laws v w)

  get-WellFormed : (d : Dict (Value F)) (k : String) → AllWellFormed fl d → WellFormed fl (get d k)
  unfolding get lookup WellFormed
  get-WellFormed [] k h = tt
  get-WellFormed ((j, v) ∷ d) k (p, h) = ground (arith, get-WellFormed d k h)

  check_fields_self :
      (i : ℕ) (d : Dict (Value F)) (ks : List String) (p : Progress F)
      → AllWellFormed fl d
      → check_fields fl i d d ks p ≡ p
  unfolding check_fields
  check_fields_self i d [] p h = refl
  check_fields_self i d (k ∷ ks) p h = elim (Bool-cases (is_null (get d k))) [
    | inl missing ↦ rw missing (check_fields_self i d ks p h)
    | inr there ↦
        rw (there, differ_self k (get d k) (get-WellFormed d k h)) (check_fields_self i d ks p h)
  ]

  check_events_self :
      (i : ℕ) (evs : List (Event F)) (n : ℕ) (details : List (CriticalDetail F))
      → All (WellFormedEvent fl) evs
      → check_events fl i evs evs n details ≡ (n, details)
  unfolding check_events
  check_events_self i [] n details h = refl
  check_events_self i (ev ∷ evs) n details (w, h) =
      rw
        (check_fields_self i (flatten_event ev) critical_security_fields _
          (flatten_event-wf fl ev w))
        (check_events_self (i + 1) evs n details h)

  pub critical_self :
      (evs : List (Event F))
      → All (WellFormedEvent fl) evs
      → evaluate_critical_semantics fl evs evs ≡ (zero_float fl, [])
  unfolding evaluate_critical_semantics
  critical_self [] h = refl
  critical_self (ev ∷ evs) h = rw (check_events_self 0 (ev ∷ evs) 0 [] h) (
      ap (λ (x : F). (x, []))
        (ap (λ x. fl.round x 4)
            (laws.ratio_zero (sample_len fl (ev ∷ evs) (ev ∷ evs)) (omega arith))
          ∙ laws.round_zero 4))
