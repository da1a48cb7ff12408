-- ===== src/Shadow/Critical.antt =====
-- `_evaluate_critical_semantics`: the rate of events that diverge on a critical security field.
-- The source iterates over a set of the seven fields; here they stand in the order of its text.
pub mod Same
use ulpx.Base.{
  ℕ, suc, ◌+◌, String, Bool, true, false, not, ◌&&◌, ◌||◌, List, [], ◌∷◌, ◌++◌, ltb, ◌==◌, is_empty,
  length, if◌then◌else◌,
}
use ulpx.Base.Text.{lower, strip}
use ulpx.Base.Floats.{Floats, zero_float}
use ulpx.Base.Dict.{Dict, lookup}
use ulpx.Base.Value.{Value, null, bool, int, float, str, arr, dict, get, is_null}
use ulpx.Base.Value.Equality.{same}
use ulpx.Shadow.{Event}
use ulpx.Shadow.Flatten.{flatten_event}

abbrev pub critical_security_fields : List String
critical_security_fields =
    "src.ip" ∷ "dst.ip" ∷ "src.port" ∷ "dst.port" ∷ "event.action" ∷ "event.outcome" ∷ "user.name"
    ∷ []

pub data CriticalDetail (F : Type 0) : Type 0 where
  diverged : ℕ → String → Value F → Value F → CriticalDetail F
  dropped : ℕ → String → CriticalDetail F

-- The flag and the messages of the loop over the fields.
pub record Progress (F : Type 0) : Type 0 where
  pub event_diverged : Bool
  pub details : List (CriticalDetail F)

-- At most five messages are kept.
abbrev pub add_detail {ℓ} : {A : Type ℓ} → A → List A → List A
add_detail d details = if ltb (length details) 5 then details ++ d ∷ [] else details

abbrev is_text_field : String → Bool
is_text_field k = k == "event.action" || k == "event.outcome"

module _ (fl : Floats) where
  open fl use {F}

  -- Texts of an action or an outcome are compared without case and surrounding space.
  abbrev pub differ : String → Value F → Value F → Bool
  differ k (str a) (str c) =
      if is_text_field k then not (lower (strip a) == lower (strip c)) else not (a == c)
  differ k a c = not (same fl a c)

  abbrev check_values : ℕ → String → Value F → Value F → Progress F → Progress F
  check_values i k a c p =
      if is_null a
      then p
      else if is_null c
      then record { event_diverged = true; details = add_detail (dropped i k) p.details }
      else if differ k a c
      then record { event_diverged = true; details = add_detail (diverged i k a c) p.details }
      else p

  pub check_fields : ℕ → Dict (Value F) → Dict (Value F) → List String → Progress F → Progress F
  unfolding get
  check_fields i act cand [] p = p
  check_fields i act cand (k ∷ ks) p =
      check_fields i act cand ks (check_values i k (get act k) (get cand k) p)

  -- The events from number `i` on: how many diverged, and the messages.
  pub check_events :
      ℕ
      → List (Event F)
      → List (Event F)
      → ℕ
      → List (CriticalDetail F)
      → ℕ × List (CriticalDetail F)
  unfolding check_fields
  check_events i (a ∷ active) (c ∷ candidate) n details =
      let p =
        check_fields i (flatten_event a) (flatten_event c) critical_security_fields
          (record { event_diverged = false; details = details }) in
      check_events (i + 1) active candidate (if p.event_diverged then n + 1 else n) p.details
  check_events i [] _ n details = (n, details)
  check_events i (a ∷ active) [] n details = (n, details)

  abbrev pub sample_len : List (Event F) → List (Event F) → ℕ
  sample_len (a ∷ active) (c ∷ candidate) = suc (sample_len active candidate)
  sample_len [] _ = 0
  sample_len (a ∷ active) [] = 0

  unfoldable pub evaluate_critical_semantics :
      List (Event F) → List (Event F) → F × List (CriticalDetail F)
  unfolding check_events flatten_event
  evaluate_critical_semantics active candidate =
      if is_empty active || is_empty candidate
      then (zero_float fl, [])
      else let (n, details) = check_events 0 active candidate 0 [] in
        (fl.round (fl.ratio n (sample_len active candidate)) 4, details)
