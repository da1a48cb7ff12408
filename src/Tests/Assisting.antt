-- ===== src/Tests/Assisting.antt =====
-- A response with one target of the registry and one that is made up.
use ulpx.Base.{String, ◌≡◌, refl, Option, some, [], ◌∷◌, Result, ok}
use ulpx.Base.Dict.{lookup, contains}
use ulpx.Base.Int.{ℤ}
use ulpx.Base.Floats.Fixed.{fixed}
use ulpx.Base.Value.{Value, Entries, entry, end, nil, cons, str, float, arr, dict, get, entries}
use ulpx.Base.Value.Equality.{same}
use ulpx.Assist.{
  AssistError, PromptPayload, Proposal, filter_entries, filter_hallucinated_fields,
  validate_candidate_structure, propose_mappings, sanitize_untrusted_input,
}
use ulpx.Assist.Filter.{Outcome, propose_mappings_outcome}

abbrev field : String → String → Value ℤ
field raw canonical = dict (
    entry "raw_field" (str raw) (
      entry "canonical_field" (str canonical)
        (entry "confidence" (float (fixed.ratio 9 10)) (entry "reasoning" (str "") end))))

abbrev candidate : Entries ℤ
candidate = entry "candidate_id" (str "cand_fw") (
    entry "source_format" (str "kv") (
      entry "mapped_fields"
        (arr (cons (field "act" "event.action") (cons (field "x" "made.up") nil)))
        (entry "unmapped_fields" (arr nil) end)))

abbrev dumps : PromptPayload fixed → String
dumps p = "{}"

abbrev loads : String → Option (Value ℤ)
loads s = some (dict candidate)

abbrev fixed_answer : String → Result AssistError String
fixed_answer prompt = ok "{}"

abbrev proposal : Proposal fixed
proposal = record {
  mapped_fields = field "act" "event.action" ∷ [];
  unmapped_fields = str "x" ∷ [];
  rest = entries candidate;
}

proposed :
    propose_mappings fixed dumps loads fixed_answer "cand_fw" "kv" [] "act=deny" ≡ ok proposal
unfolding propose_mappings validate_candidate_structure filter_hallucinated_fields filter_entries
    contains lookup get same
proposed = refl

propose_mappings_outcome_example :
    Outcome fixed dumps loads fixed_answer "cand_fw" "kv" [] "act=deny" proposal
propose_mappings_outcome_example =
    propose_mappings_outcome fixed dumps loads fixed_answer "cand_fw" "kv" [] "act=deny" proposal
      proposed

sanitized : sanitize_untrusted_input "a\"b" ≡ "a\\\"b"
unfolding sanitize_untrusted_input
sanitized = refl
