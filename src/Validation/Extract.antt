-- ===== src/Validation/Extract.antt =====
-- ml/validation/validator.py, `validate_event`: the fields of the raw event, by the body parser that
-- the spec names.
use Prim.Native.Char.{code}
use ulpx.Base.{
  String, Bool, false, ◌&&◌, Option, none, List, [], ◌==◌, is_empty, eqb, or_default, Result, ok,
  err, ◌>>=◌, if◌then◌else◌,
}
use ulpx.Base.Text.{lower, strip, is_in}
use ulpx.Base.Dict.{Dict, update}
use ulpx.Base.Value.{Value, str, get, dict_or_empty}
use ulpx.Spec.{ParserSpec, BodyParser}
use ulpx.Shadow.Runner.{LogFormat, ProfilerError, hint_of}

-- The parsers of ml/source_profiler/profiler.py, each with what it gives for a text it does not read;
-- three of them may raise.
pub record RecordParsers (F : Type 0) : Type 0 where
  pub syslog_5424 : String → Result ProfilerError (Option (Dict (Value F)))
  pub syslog_3164 : String → Option (Dict (Value F))
  pub key_value : String → Option (Dict (Value F))
  pub csv_line : String → String → Option (List String) → Option (Dict (Value F))
  pub json : String → Value F
  pub cef : String → Option (Dict (Value F))
  pub leef : String → Result ProfilerError (Option (Dict (Value F)))
  pub parse_record : String → Option LogFormat → Result ProfilerError (Option (Dict (Value F)))

-- `s.startswith("<")`
unfoldable pub opens_priority : String → Bool
opens_priority String.[] = false
opens_priority (String.◌∷◌ c s) = eqb (code c) b'<'

abbrev no_body : BodyParser
no_body = record { type = none; delimiter = none; headers = none }

abbrev format_text : ParserSpec → String
format_text spec = lower (or_default spec.match_format "unknown")

abbrev body_type : ParserSpec → String
body_type spec = lower (or_default (or_default spec.body_parser no_body).type "")

module _ {F : Type 0} (parsers : RecordParsers F) where
  -- `if data: extracted.update(data)`: an empty dict adds nothing.
  abbrev found : Option (Dict (Value F)) → Dict (Value F)
  found fields = or_default fields []

  abbrev first_of : Dict (Value F) → Dict (Value F) → Dict (Value F)
  first_of a b = if is_empty a then b else a

  -- The fields of the message, a text, over those of the header.
  abbrev with_message : Value F → Dict (Value F) → Dict (Value F)
  with_message (str body) header =
      if body == "" then header else update header (found (parsers.key_value body))
  with_message v header = header

  abbrev syslog_fields : Dict (Value F) → Dict (Value F)
  syslog_fields header = with_message (get header "message") header

  abbrev read_found :
      Result ProfilerError (Option (Dict (Value F))) → Result ProfilerError (Dict (Value F))
  read_found (ok fields) = ok (found fields)
  read_found (err e) = err e

  unfoldable pub extract_key_value : String → String → Result ProfilerError (Dict (Value F))
  unfolding opens_priority strip is_in update get
  extract_key_value format raw =
      if is_in "syslog" format && opens_priority (strip raw)
      then (read_found (parsers.syslog_5424 raw) >>= λ header.
          ok (syslog_fields (first_of header (found (parsers.syslog_3164 raw)))))
      else ok (found (parsers.key_value raw))

  unfoldable pub extract_raw : ParserSpec → String → Result ProfilerError (Dict (Value F))
  unfolding extract_key_value hint_of lower
  extract_raw spec raw =
      let format = format_text spec in
      let type = body_type spec in
      let body = or_default spec.body_parser no_body in
      if type == "key_value"
      then extract_key_value format raw
      else if type == "csv"
      then ok (found (parsers.csv_line raw (or_default body.delimiter ",") body.headers))
      else if type == "json"
      then ok (dict_or_empty (parsers.json raw))
      else if type == "cef"
      then ok (found (parsers.cef raw))
      else if type == "leef"
      then read_found (parsers.leef raw)
      else read_found (parsers.parse_record raw (hint_of format))
