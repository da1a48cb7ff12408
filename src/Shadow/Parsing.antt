-- ===== src/Shadow/Parsing.antt =====
-- ml/shadow/runner.py: `_parse`, on a structured event or a line of text. The source profiler's
-- `parse_record`, which may raise, is an interface that Profiler/Records.antt's `extract` fills.
-- Events have text keys.
use ulpx.Base.{
  String, ◌||◌, Option, none, some, [], ◌∷◌, ◌==◌, is_empty, Result, ok, err, ◌>>=◌, or_default,
  if◌then◌else◌,
}
use ulpx.Base.Text.{lower, is_in}
use ulpx.Base.Floats.{Floats}
use ulpx.Base.Dict.{Dict, lookup, insert}
use ulpx.Base.Value.{Value, str, dict, end, from_dict}
use ulpx.Base.Value.Mapping.{dict_of}
use ulpx.Spec.{FieldDef, ParserSpec, fields_of}
use ulpx.Profiler.{ProfilerError, LogFormat, cef, leef, syslog_rfc5424, json, csv, key_value}
use ulpx.Shadow.{Event}

-- A raw input: a structured event, or a line of text.
pub data Raw (F : Type 0) : Type 0 where
  structured : Event F → Raw F
  line : String → Raw F

pub data RunnerError : Type 0 where
  -- AttributeError: `.get` of an `_shadow` value that is no dict.
  no_attribute : RunnerError
  -- TypeError or ValueError: `dict` of an `unknown_fields` value that is no mapping.
  no_mapping : RunnerError
  -- What the source profiler raises on a line.
  record_error : ProfilerError → RunnerError

-- The format that the text of `match.format` hints at.
unfoldable pub hint_of : String → Option LogFormat
unfolding is_in
hint_of fmt =
    if is_in "cef" fmt
    then some cef
    else if is_in "leef" fmt
    then some leef
    else if is_in "syslog" fmt
    then some syslog_rfc5424
    else if is_in "json" fmt
    then some json
    else if is_in "csv" fmt
    then some csv
    else if is_in "kv" fmt || is_in "key_value" fmt
    then some key_value
    else none

-- `f_def.get("map_to", k)`
abbrev pub canonical_of : String → FieldDef → String
canonical_of k f = or_default f.map_to k

module _ {F : Type 0} where
  -- A text that the enum lists becomes what it maps to.
  abbrev pub apply_enum : Dict String → Value F → Value F
  apply_enum enum (str s) = str (or_default (lookup s enum) s)
  apply_enum enum v = v

  -- One entry of a structured event.
  abbrev pub map_entry : Option FieldDef → String → Value F → Dict (Value F) → Dict (Value F)
  map_entry none k v mapped = insert k v mapped
  map_entry (some f) k v mapped = insert (canonical_of k f) (apply_enum f.enum v) mapped

  unfoldable pub map_structured : Dict FieldDef → Dict (Value F) → Dict (Value F) → Dict (Value F)
  map_structured fields [] mapped = mapped
  map_structured fields ((k, v) ∷ raw) mapped =
      map_structured fields raw
        (if k == "unknown_fields" then mapped else map_entry (lookup k fields) k v mapped)

  abbrev as_mapping : Option (Dict (Value F)) → Result RunnerError (Dict (Value F))
  as_mapping none = err no_mapping
  as_mapping (some d) = ok d

  -- `dict(raw_input.get("unknown_fields", {}))`
  abbrev pub unknowns_of : Event F → Result RunnerError (Dict (Value F))
  unknowns_of raw = as_mapping (dict_of (or_default (lookup "unknown_fields" raw) (dict end)))

  -- What the profiler gives, as the runner sees it.
  abbrev pub as_extracted :
      Result ProfilerError (Option (Dict (Value F))) → Result RunnerError (Dict (Value F))
  as_extracted (ok fields) = ok (or_default fields [])
  as_extracted (err e) = err (record_error e)

  abbrev pub add_unknowns : Dict (Value F) → Dict (Value F) → Dict (Value F)
  add_unknowns unknowns result =
      if is_empty unknowns
      then result
      else insert "unknown_fields" (dict (from_dict unknowns)) result

  -- One field of an extracted record: mapped, or kept as unknown.
  abbrev pub map_extracted :
      Option FieldDef
      → String
      → Value F
      → Dict (Value F) × Dict (Value F)
      → Dict (Value F) × Dict (Value F)
  map_extracted none k v (result, unknowns) = (result, insert k v unknowns)
  map_extracted (some f) k v (result, unknowns) =
      (insert (canonical_of k f) (apply_enum f.enum v) result, unknowns)

  unfoldable pub map_record :
      Dict FieldDef
      → Dict (Value F)
      → Dict (Value F) × Dict (Value F)
      → Dict (Value F) × Dict (Value F)
  map_record fields [] r = r
  map_record fields ((k, v) ∷ extracted) r =
      map_record fields extracted (map_extracted (lookup k fields) k v r)

  abbrev pub from_record : Dict (Value F) × Dict (Value F) → Event F
  from_record (result, unknowns) = add_unknowns unknowns result

module _ (fl : Floats)
    (parse_record : String
      → Option LogFormat
      → Result ProfilerError (Option (Dict (Value fl.F)))) where
  open fl use {F}

  -- The format hint of a spec.
  abbrev pub spec_hint : ParserSpec → Option LogFormat
  spec_hint spec = hint_of (lower (or_default spec.match_format ""))

  -- `_parse`
  unfoldable pub parse : Raw F → ParserSpec → Result RunnerError (Event F)
  unfolding map_structured map_record hint_of lower dict_of lookup
  parse (structured raw) spec = unknowns_of raw >>= λ unknowns.
      ok (add_unknowns unknowns (map_structured (fields_of spec) raw []))
  parse (line text) spec = as_extracted (parse_record text (spec_hint spec)) >>= λ extracted.
      ok (from_record (map_record (fields_of spec) extracted ([], [])))
