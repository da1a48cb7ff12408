-- ===== src/Shadow/Dps.antt =====
-- `_evaluate_dps_comparison`: the detection preservation score of each stream. `repr` is Python's
-- `str` of a value that is no text, boolean or None.
pub mod Bounds
use ulpx.Base.{
  ℕ, suc, ◌+◌, String, Bool, true, false, ◌&&◌, ◌||◌, List, [], ◌∷◌, ltb, if◌then◌else◌,
}
use ulpx.Base.Text.{lower, is_in}
use ulpx.Base.Floats.{Floats, zero_float, one_float}
use ulpx.Base.Dict.{Dict}
use ulpx.Base.Value.{Value, null, bool, int, float, str, arr, dict, get, dict_or_empty, truthy, or}
use ulpx.Shadow.{Event}

module _ (fl : Floats) (repr : Value fl.F → String) where
  open fl use {F}

  -- `str(v)`
  abbrev pub text_of : Value F → String
  text_of null = "None"
  text_of (bool true) = "True"
  text_of (bool false) = "False"
  text_of (str s) = s
  text_of v = repr v

  -- A field of the event: in its `event` object, or under its dotted key.
  abbrev event_field : Event F → String → String → Value F
  event_field ev name dotted =
      or fl (get (dict_or_empty (get ev "event")) name) (or fl (get ev dotted) (str ""))

  abbrev pub action_of : Event F → String
  action_of ev = lower (text_of (event_field ev "action" "event.action"))

  abbrev pub outcome_of : Event F → String
  outcome_of ev = lower (text_of (event_field ev "outcome" "event.outcome"))

  abbrev address_of : Event F → String → String → Value F
  address_of ev dotted side = or fl (get ev dotted) (get (dict_or_empty (get ev side)) "ip")

  -- The event reports that something was blocked.
  unfoldable pub is_security_event : Event F → Bool
  unfolding lower is_in get
  is_security_event ev =
      is_in "deny" (action_of ev)
      || is_in "block" (action_of ev)
      || is_in "drop" (action_of ev)
      || is_in "denied" (outcome_of ev)

  unfoldable pub has_address : Event F → Bool
  unfolding get
  has_address ev = truthy fl (or fl (address_of ev "src.ip" "src") (address_of ev "dst.ip" "dst"))

  -- The numbers of blocking events, and of those with an address.
  unfoldable pub count_blocks : List (Event F) → ℕ → ℕ → ℕ × ℕ
  count_blocks [] expected preserved = (expected, preserved)
  count_blocks (ev ∷ evs) expected preserved =
      count_blocks evs (if is_security_event ev then expected + 1 else expected) (
        if is_security_event ev && (is_security_event ev && has_address ev)
        then preserved + 1
        else preserved)

  abbrev pub score : ℕ × ℕ → F
  score (expected, preserved) = if ltb 0 expected then fl.ratio preserved expected else one_float fl

  unfoldable pub calc_dps : List (Event F) → F
  unfolding count_blocks
  calc_dps evs = score (count_blocks evs 0 0)

  pub record DpsComparison : Type 0 where
    pub active_dps : F
    pub candidate_dps : F
    pub dps_delta : F
    -- Whether the regression message is given.
    pub regressed : Bool

  unfoldable pub evaluate_dps_comparison : List (Event F) → List (Event F) → DpsComparison
  unfolding calc_dps
  evaluate_dps_comparison active candidate =
      let a = fl.round (calc_dps active) 4 in
      let c = fl.round (calc_dps candidate) 4 in
      let delta = fl.round (fl.sub c a) 4 in
      record {
        active_dps = a;
        candidate_dps = c;
        dps_delta = delta;
        regressed = fl.lt delta (zero_float fl);
      }
