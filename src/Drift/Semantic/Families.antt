-- ===== src/Drift/Semantic/Families.antt =====
-- ml/drift/semantic.py: `_check_event_family_drift`. `repr` is Python's `str` of a value that is no
-- text, boolean or None.
use ulpx.Base.{
  ℕ, ◌+◌, String, ◌≡◌, Bool, true, false, ◌||◌, List, [], ◌∷◌, ◌==◌, any, is_empty, length, Result,
  ok, err, ◌>>=◌, or_default, arith, if◌then◌else◌, inl, inr, ap, sym, ◌∙◌, Bool-cases,
  Result-cases, ok-injective, err-ok,
}
use ulpx.Base.Text.{lower, is_in}
use ulpx.Base.Dict.{Dict, lookup, insert}
use ulpx.Base.Floats.{Floats, IsLawful, zero_float, one_float, min, max}
use ulpx.Base.Value.{Value, str, arr, dict, items, entries, get, dict_or_empty, truthy, or}
use ulpx.Shadow.{Event}
use ulpx.Shadow.Dps.{text_of}
use ulpx.Drift.{DriftDetail, families_diverged}
use ulpx.Drift.Divergence.{all_keys, sum_gaps}
use ulpx.Drift.Same.{sum_gaps_self, clipped_zero}
use ulpx.Drift.Semantic.{SemanticError, not_iterable}

module _ {F : Type 0} where
  abbrev is_text : String → Value F → Bool
  is_text needle (str s) = s == needle
  is_text needle _ = false

  -- `needle in value`
  abbrev pub holds : String → Value F → Result SemanticError Bool
  holds needle (str s) = ok (is_in needle s)
  holds needle (arr vs) = ok (any (is_text needle) (items vs))
  holds needle (dict es) = ok (any (λ (k, _). k == needle) (entries es))
  holds needle _ = err not_iterable

module _ (fl : Floats) (repr : Value fl.F → String) where
  open fl use {F}

  abbrev has : Event F → String → Bool
  has ev k = truthy fl (get ev k)

  -- The family of an event that does not read as an authentication.
  abbrev other_family : Event F → String
  other_family ev =
      if has ev "http" || has ev "http.response.status_code"
      then "http"
      else if has ev "dns" || has ev "dns.query_name"
      then "dns"
      else if has ev "src.ip" || (has ev "dst.ip" || has ev "src")
      then "network"
      else "general"

  abbrev pub family_by_action : Event F → Value F → Result SemanticError String
  family_by_action ev act = holds "auth" act >>= λ auth.
      (if auth then ok true else holds "login" act) >>= λ login.
      ok (if login || (has ev "user.name" || has ev "user") then "auth" else other_family ev)

  unfoldable pub get_family : Event F → Result SemanticError String
  unfolding get lower is_in
  get_family ev =
      let obj = dict_or_empty (get ev "event") in
      let cls = or fl (get obj "class") (or fl (get ev "event.class") (str "")) in
      let act = or fl (get obj "action") (or fl (get ev "event.action") (str "")) in
      if truthy fl cls then ok (lower (text_of fl repr cls)) else family_by_action ev act

  unfoldable pub count_families : List (Event F) → Dict ℕ → Result SemanticError (Dict ℕ)
  unfolding get_family insert lookup
  count_families [] counts = ok counts
  count_families (ev ∷ evs) counts = get_family ev >>= λ fam.
      count_families evs (insert fam (or_default (lookup fam counts) 0 + 1) counts)

  -- `max(p.items(), key=...)[0]` keeps the first of the greatest shares.
  abbrev greater : ℕ → String × ℕ → String × ℕ → String × ℕ
  greater total (best, m) (k, n) =
      if fl.lt (fl.ratio m total) (fl.ratio n total) then (k, n) else (best, m)

  unfoldable pub primary : ℕ → String × ℕ → Dict ℕ → String
  primary total best [] = best.0
  primary total best (e ∷ counts) = primary total (greater total best e) counts

  -- The counts of some events are not empty.
  abbrev primary_of : ℕ → Dict ℕ → String
  primary_of total [] = ""
  primary_of total (e ∷ counts) = primary total e counts

  abbrev clip : F → F
  clip x = fl.round (min fl (one_float fl) (max fl (zero_float fl) x)) 4

  -- `sum_base` and `sum_cand` are the numbers of events.
  abbrev family_score : F → ℕ → ℕ → Dict ℕ → Dict ℕ → F × List (DriftDetail F)
  family_score threshold sum_base sum_cand base cand =
      let tvd = clip (
        fl.mul (fl.ratio 1 2)
          (sum_gaps fl sum_base sum_cand base cand (all_keys base cand) (zero_float fl))) in
      (
        tvd,
        if fl.lt threshold tvd
            then families_diverged tvd (primary_of sum_base base) (primary_of sum_cand cand) ∷ []
            else [],
      )

  unfoldable pub check_event_family_drift :
      F → List (Event F) → List (Event F) → Result SemanticError (F × List (DriftDetail F))
  unfolding count_families primary sum_gaps all_keys
  check_event_family_drift threshold baseline candidate =
      if is_empty baseline || is_empty candidate
      then ok (zero_float fl, [])
      else (count_families baseline [] >>= λ base. count_families candidate [] >>= λ cand.
          ok (family_score threshold (length baseline) (length candidate) base cand))

  module _ (laws : IsLawful fl) where
    clip_gaps_self :
        (n : ℕ) (d : Dict ℕ)
        → clip (fl.mul (fl.ratio 1 2) (sum_gaps fl n n d d (all_keys d d) (zero_float fl)))
          ≡ zero_float fl
    clip_gaps_self n d =
        ap (λ x. clip (fl.mul (fl.ratio 1 2) x)) (sum_gaps_self fl laws n d (all_keys d d))
        ∙ ap clip (laws.mul_zero (fl.ratio 1 2))
        ∙ ap (λ x. fl.round x 4) (clipped_zero fl laws)
        ∙ laws.round_zero 4

    -- If the families of the events can be read, they do not diverge from themselves.
    pub check_event_family_self :
        (threshold : F) (evs : List (Event F)) {r : F × List (DriftDetail F)}
        → check_event_family_drift threshold evs evs ≡ ok r
        → r.0 ≡ zero_float fl
    unfolding check_event_family_drift
    check_event_family_self threshold evs h = elim (Bool-cases (is_empty evs || is_empty evs)) [
      | inl empty ↦ ground (arith, empty)
      | inr some' ↦ elim (Result-cases (count_families evs [])) [
        | inl (counts, e) ↦
            let q = ok-injective (rw (some', e) at h) in
            ap (λ (x : F × List (DriftDetail F)). x.0) (sym q) ∙ clip_gaps_self (length evs) counts
        | inr (x, e) ↦ absurd (err-ok (rw (some', e) at h))
      ]
    ]
