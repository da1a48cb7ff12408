-- ===== src/Assist.antt =====
-- ml/ai_assist: the assistant's proposals for fields that the mapper does not decide. `json.loads`,
-- `json.dumps` and the model behind the provider are arguments.
pub mod Mock
pub mod Filter
use Prim.Native.Char.{Char, code}
use ulpx.Base.{
  String, Bool, true, false, not, ◌||◌, ◌&&◌, Option, none, some, List, [], ◌∷◌, ◌++◌, ◌==◌, any,
  all, eqb, or_default, Result, ok, err, ◌>>=◌, if◌then◌else◌,
}
use ulpx.Base.Text.{◌<>◌}
use ulpx.Base.Dict.{Dict, lookup, insert, contains}
use ulpx.Base.Floats.{Floats}
use ulpx.Base.Sort.{sorted}
use ulpx.Base.Value.{Value, null, bool, int, float, str, arr, dict, items, entries, get, truthy}
use ulpx.Base.Value.Equality.{same}
use text.Mathlib.Text.{is_lt}
use Prim.Native.String.{compare}
use Prim.Native.String

pub data AssistError : Type 0 where
  -- The two ValueErrors of `propose_mappings`.
  not_json : AssistError
  wrong_structure : AssistError
  -- TypeError: a list or a dict where a set is asked for it.
  unhashable : AssistError
  -- AttributeError: `.lower()` of a value that is no text.
  no_attribute : AssistError

-- ml/ai_assist/schemas.py
abbrev pub canonical_schema_registry : List String
canonical_schema_registry =
    "src.ip" ∷ "src.port" ∷ "src.mac" ∷ "src.host" ∷ "dst.ip" ∷ "dst.port" ∷ "dst.mac" ∷ "dst.host"
    ∷ "dest.ip" ∷ "dest.port" ∷ "dest.mac" ∷ "dest.host" ∷ "event.action" ∷ "event.category"
    ∷ "event.outcome" ∷ "event.type" ∷ "user.name" ∷ "user.id" ∷ "user.domain" ∷ "user.email"
    ∷ "user.role" ∷ "http.request.method" ∷ "http.request.url" ∷ "http.response.status_code"
    ∷ "process.name" ∷ "process.pid" ∷ "process.parent.pid" ∷ "process.command_line"
    ∷ "network.protocol" ∷ "network.bytes_in" ∷ "network.bytes_out" ∷ "network.packets"
    ∷ "file.path" ∷ "file.name" ∷ "file.size" ∷ "file.hash.sha256" ∷ []

-- Backslashes and quotes are escaped, NUL characters go.
abbrev escape_char : Char → String → String
escape_char c rest =
    if eqb (code c) 92
    then "\\\\" <> rest
    else if eqb (code c) 34
    then "\\\"" <> rest
    else if eqb (code c) 0
    then rest
    else String.◌∷◌ c rest

unfoldable pub sanitize_untrusted_input : String → String
sanitize_untrusted_input String.[] = String.[]
sanitize_untrusted_input (String.◌∷◌ c s) = escape_char c (sanitize_untrusted_input s)

module _ {F : Type 0} where
  abbrev pub is_str : Value F → Bool
  is_str (str s) = true
  is_str _ = false

  abbrev pub is_list : Value F → Bool
  is_list (arr vs) = true
  is_list _ = false

  -- `isinstance(v, (int, float))`, which a boolean is too.
  abbrev is_number : Value F → Bool
  is_number (bool b) = true
  is_number (int n) = true
  is_number (float x) = true
  is_number _ = false

  -- The content of a list; the structure check leaves no other value.
  abbrev pub list_of : Value F → List (Value F)
  list_of (arr vs) = items vs
  list_of _ = []

  abbrev has_keys : List String → Dict (Value F) → Bool
  has_keys ks d = all (λ k. contains k d) ks

  abbrev is_field : Value F → Bool
  is_field (dict es) =
      has_keys ("raw_field" ∷ "canonical_field" ∷ "confidence" ∷ "reasoning" ∷ []) (entries es)
      && is_number (get (entries es) "confidence")
  is_field _ = false

  unfoldable pub validate_candidate_structure : Value F → Bool
  unfolding contains get
  validate_candidate_structure (dict es) =
      has_keys ("candidate_id" ∷ "source_format" ∷ "mapped_fields" ∷ "unmapped_fields" ∷ [])
        (entries es)
      && (is_str (get (entries es) "candidate_id")
          && (is_str (get (entries es) "source_format")
              && (is_list (get (entries es) "mapped_fields")
                  && (is_list (get (entries es) "unmapped_fields")
                      && all is_field (list_of (get (entries es) "mapped_fields"))))))
  validate_candidate_structure _ = false

  -- `canonical in self.canonical_registry`
  abbrev pub in_registry : Value F → Result AssistError Bool
  in_registry (str s) = ok (any (λ c. c == s) canonical_schema_registry)
  in_registry (arr _) = err unhashable
  in_registry (dict _) = err unhashable
  in_registry _ = ok false

  abbrev fields_of_entry : Value F → Dict (Value F)
  fields_of_entry (dict es) = entries es
  fields_of_entry _ = []

  abbrev pub canonical_of_entry : Value F → Value F
  canonical_of_entry entry = or_default (lookup "canonical_field" (fields_of_entry entry)) (str "")

  abbrev pub raw_of_entry : Value F → Value F
  raw_of_entry entry = get (fields_of_entry entry) "raw_field"

module _ (fl : Floats) where
  open fl use {F}

  -- `raw_field and raw_field not in unmapped_list`
  abbrev pub add_unmapped : Value F → List (Value F) → List (Value F)
  add_unmapped raw unmapped =
      if truthy fl raw && not (any (λ u. same fl u raw) unmapped)
      then unmapped ++ raw ∷ []
      else unmapped

  abbrev pub sort_entry :
      Bool → Value F → List (Value F) × List (Value F) → List (Value F) × List (Value F)
  sort_entry true entry (valid, unmapped) = (valid ++ entry ∷ [], unmapped)
  sort_entry false entry (valid, unmapped) = (valid, add_unmapped (raw_of_entry entry) unmapped)

  unfoldable pub filter_entries :
      List (Value F)
      → List (Value F) × List (Value F)
      → Result AssistError (List (Value F) × List (Value F))
  unfolding lookup get same
  filter_entries [] sorted' = ok sorted'
  filter_entries (entry ∷ es) sorted' = in_registry (canonical_of_entry entry) >>= λ known.
      filter_entries es (sort_entry known entry sorted')

  -- The candidate with the entries that are left, and the fields that are not mapped.
  pub record Proposal : Type 0 where
    pub mapped_fields : List (Value F)
    pub unmapped_fields : List (Value F)
    -- The other entries of the candidate.
    pub rest : Dict (Value F)

  unfoldable pub filter_hallucinated_fields : Dict (Value F) → Result AssistError Proposal
  unfolding filter_entries
  filter_hallucinated_fields d =
      filter_entries (list_of (get d "mapped_fields")) ([], list_of (get d "unmapped_fields"))
      >>= λ r. ok (record { mapped_fields = r.0; unmapped_fields = r.1; rest = d })

  -- What the prompt says; its fixed texts are left to `json.dumps`.
  pub record PromptPayload : Type 0 where
    pub candidate_id : String
    pub source_format : String
    pub unmapped_fields : List (Value F)
    pub raw_log_sample : String
    pub allowed_canonical_targets : List String

  module _ (dumps : PromptPayload → String) (loads : String → Option (Value F))
      (generate : String → Result AssistError String) where
    unfoldable pub build_structured_prompt : String → String → List (Value F) → String → String
    unfolding sanitize_untrusted_input sorted
    build_structured_prompt candidate_id source_format unmapped_fields log_sample = dumps (record {
      candidate_id = candidate_id;
      source_format = source_format;
      unmapped_fields = unmapped_fields;
      raw_log_sample = sanitize_untrusted_input log_sample;
      allowed_canonical_targets = sorted (λ a b. is_lt (compare a b)) canonical_schema_registry;
    })

    abbrev checked : Value F → Result AssistError Proposal
    checked (dict es) =
        if validate_candidate_structure (dict es)
        then filter_hallucinated_fields (entries es)
        else err wrong_structure
    checked _ = err wrong_structure

    abbrev read : Option (Value F) → Result AssistError Proposal
    read none = err not_json
    read (some v) = checked v

    unfoldable pub propose_mappings :
        String → String → List (Value F) → String → Result AssistError Proposal
    unfolding build_structured_prompt validate_candidate_structure filter_hallucinated_fields
    propose_mappings candidate_id source_format unmapped_fields log_sample =
        generate (build_structured_prompt candidate_id source_format unmapped_fields log_sample)
        >>= λ response. read (loads response)
