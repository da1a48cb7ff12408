-- ===== src/Assist/Mock.antt =====
-- ml/ai_assist/assistant.py: MockLLMProvider. `dumps` is `json.dumps` of the response; `repr` is
-- Python's `str` of a value that is no text, boolean or None.
use ulpx.Base.{
  String, ◌||◌, ◌&&◌, Option, none, some, List, [], ◌∷◌, ◌++◌, or_default, Result, ok, err, ◌>>=◌,
  if◌then◌else◌,
}
use ulpx.Base.Text.{lower, is_in}
use ulpx.Base.Dict.{Dict, lookup}
use ulpx.Base.Floats.{Floats}
use ulpx.Base.Value.{Value, str, dict, entries, get}
use ulpx.Shadow.Dps.{text_of}
use ulpx.Assist.{AssistError, not_json, no_attribute, list_of}

-- The three guesses, each with its reasoning.
pub data Guess : Type 0 where
  source_ip destination_keyword action_indicator : Guess

pub record MappedField (F : Type 0) : Type 0 where
  pub raw_field : String
  pub canonical_field : String
  pub confidence : F
  pub reasoning : Guess

pub record MockResponse (F : Type 0) : Type 0 where
  pub candidate_id : Value F
  pub source_format : Value F
  pub mapped_fields : List (MappedField F)
  pub unmapped_fields : List String

module _ (fl : Floats) (repr : Value fl.F → String) where
  open fl use {F, ratio}

  abbrev text_field : Option (Value F) → Result AssistError String
  text_field none = ok ""
  text_field (some (str s)) = ok s
  text_field (some _) = err no_attribute

  -- The raw field of an item: a dict's `raw_field`, or the text of any other value.
  unfoldable pub raw_field_of : Value F → Result AssistError String
  unfolding lookup
  raw_field_of (dict es) = text_field (lookup "raw_field" (entries es))
  raw_field_of v = ok (text_of fl repr v)

  abbrev field : String → String → F → Guess → MappedField F
  field raw canonical confidence guess = record {
    raw_field = raw;
    canonical_field = canonical;
    confidence = confidence;
    reasoning = guess;
  }

  unfoldable pub guess : String → Option (MappedField F)
  unfolding lower is_in
  guess raw =
      let name = lower raw in
      if is_in "src" name && is_in "ip" name
      then some (field raw "src.ip" (ratio 88 100) source_ip)
      else if is_in "dst" name || is_in "dest" name
      then some (field raw "dest.ip" (ratio 85 100) destination_keyword)
      else if is_in "act" name || is_in "action" name
      then some (field raw "event.action" (ratio 90 100) action_indicator)
      else none

  abbrev add_guess :
      Option (MappedField F)
      → String
      → List (MappedField F) × List String
      → List (MappedField F) × List String
  add_guess none raw (mapped, unmapped) = (mapped, unmapped ++ raw ∷ [])
  add_guess (some m) raw (mapped, unmapped) = (mapped ++ m ∷ [], unmapped)

  unfoldable pub guess_all :
      List (Value F)
      → List (MappedField F) × List String
      → Result AssistError (List (MappedField F) × List String)
  unfolding raw_field_of guess
  guess_all [] r = ok r
  guess_all (item ∷ rest) r =
      raw_field_of item >>= λ raw. guess_all rest (add_guess (guess raw) raw r)

  module _ (loads : String → Option (Value F)) (dumps : MockResponse F → String) where
    abbrev respond : Dict (Value F) → Result AssistError String
    respond d = guess_all (list_of (get d "unmapped_fields")) ([], []) >>= λ (mapped, unmapped).
        ok (
          dumps (record {
            candidate_id = or_default (lookup "candidate_id" d) (str "cand_generated");
            source_format = or_default (lookup "source_format" d) (str "unknown");
            mapped_fields = mapped;
            unmapped_fields = unmapped;
          }))

    -- The prompt is a dict whose `unmapped_fields` are a list.
    abbrev answer : Option (Value F) → Result AssistError String
    answer none = err not_json
    answer (some (dict es)) = respond (entries es)
    answer (some _) = err no_attribute

    unfoldable pub generate : String → Result AssistError String
    unfolding guess_all lookup get
    generate prompt = answer (loads prompt)
