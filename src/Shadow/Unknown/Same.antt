-- ===== src/Shadow/Unknown/Same.antt =====
-- An event keeps all of its own unknown fields.
use ulpx.Base.{ℕ, ◌+◌, String, ◌≡◌, refl, true, List, [], ◌∷◌, arith, eq_refl}
use ulpx.Base.Floats.{Floats, IsLawful, one_float}
use ulpx.Base.Dict.{Dict, contains, lookup-cons}
use ulpx.Base.Value.{Value}
use ulpx.Shadow.{Event}
use ulpx.Shadow.Unknown.{
  Retention, unknown_fields, check_unknown, check_unknowns, no_retention, retention_of,
  evaluate_unknown_retention,
}

-- Every key of the first dict is a key of the second.
abbrev KeysWithin {ℓ} : {V : Type ℓ} → Dict V → Dict V → Type 0
KeysWithin [] e = Unit
KeysWithin ((k, v) ∷ d) e = (contains k e ≡ true) × KeysWithin d e

module _ {ℓ} {V : Type ℓ} where
  KeysWithin-cons : (k : String) (v : V) (d e : Dict V) → KeysWithin d e → KeysWithin d ((k, v) ∷ e)
  unfolding contains
  KeysWithin-cons k v [] e w = tt
  KeysWithin-cons k v ((j, u) ∷ d) e (p, w) =
      (ground (arith, lookup-cons j k v e), KeysWithin-cons k v d e w)

  KeysWithin-self : (d : Dict V) → KeysWithin d d
  unfolding contains
  KeysWithin-self [] = tt
  KeysWithin-self ((k, v) ∷ d) =
      (ground (arith, lookup-cons k k v d, eq_refl k), KeysWithin-cons k v d d (KeysWithin-self d))

module _ (fl : Floats) where
  open fl use {F}

  record IsFull (r : Retention) : Type 0 where
    kept : r.candidate_unknown_retained ≡ r.active_unknown_count
    no_details : r.details ≡ []

  check_unknown-IsFull :
      (i : ℕ) (cand : Event F) (d : Dict (Value F)) (r : Retention)
      → KeysWithin d (unknown_fields fl cand)
      → IsFull r
      → IsFull (check_unknown fl i cand d r)
  unfolding check_unknown
  check_unknown-IsFull i cand [] r w h = h
  check_unknown-IsFull i cand ((k, v) ∷ d) r (p, w) h = rw p (
      check_unknown-IsFull i cand d
        (record r {
          active_unknown_count = r.active_unknown_count + 1;
          candidate_unknown_retained = r.candidate_unknown_retained + 1;
        })
        w (record { kept = omega arith; no_details = h.no_details }))

  check_unknowns-IsFull :
      (i : ℕ) (evs : List (Event F)) (r : Retention)
      → IsFull r
      → IsFull (check_unknowns fl i evs evs r)
  unfolding check_unknowns
  check_unknowns-IsFull i [] r h = h
  check_unknowns-IsFull i (ev ∷ evs) r h =
      check_unknowns-IsFull (i + 1) evs (check_unknown fl i ev (unknown_fields fl ev) r) (
        check_unknown-IsFull i ev (unknown_fields fl ev) r (KeysWithin-self (unknown_fields fl ev))
          h)

module _ (fl : Floats) (laws : IsLawful fl) where
  open fl use {F}

  retention_of_full : (r : Retention) → IsFull fl r → retention_of fl r ≡ (one_float fl, [])
  retention_of_full r h = ground (arith, laws.ratio_one r.active_unknown_count, laws.round_one 4)

  pub unknown_self :
      (evs : List (Event F)) → evaluate_unknown_retention fl evs evs ≡ (one_float fl, [])
  unfolding evaluate_unknown_retention
  unknown_self [] = refl
  unknown_self (ev ∷ evs) = retention_of_full _ (
      check_unknowns-IsFull fl 0 (ev ∷ evs) no_retention
        (record { kept = refl; no_details = refl }))
