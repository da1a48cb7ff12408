-- ===== src/Compiler/Generate.antt =====
-- ml/spec_compiler/compiler.py: `generate_ulpf_parser_spec`.
pub mod Fields
use Prim.Native.Char.{Char, code}
use Prim.Native.String
use ulpx.Base.{
  String, Bool, true, false, not, ◌||◌, Option, none, some, List, [], ◌∷◌, ◌==◌, is_empty, eqb,
  if◌then◌else◌,
}
use ulpx.Base.Text.{lower, is_in, is_lower, is_digit, ◌<>◌}
use ulpx.Base.Dict.{Dict, insert}
use ulpx.Spec.{FieldDef, ParserInfo, BodyParser, ParserSpec}
use ulpx.Compiler.{FieldMapping}

-- The generated spec: the part that parsers read, and its constant settings.
pub record UlpfSpec : Type 0 where
  pub dsl_version : String
  pub spec : ParserSpec
  pub unknown_policy : String
  pub preserve_raw : Bool

-- The format and the body type, which differ in no case.
unfoldable pub format_of : String → String
unfolding is_in
format_of fmt =
    if is_in "json" fmt
    then "json"
    else if is_in "syslog" fmt
    then "syslog"
    else if is_in "cef" fmt
    then "cef"
    else if is_in "leef" fmt
    then "leef"
    else if is_in "csv" fmt || is_in "tsv" fmt
    then "csv"
    else "key_value"

-- `[a-z0-9._-]`
abbrev is_id_char : Char → Bool
is_id_char c =
    is_lower c || is_digit c || eqb (code c) b'.' || eqb (code c) b'_' || eqb (code c) b'-'

-- `re.sub(r"[^a-z0-9._-]", "_", s)`
unfoldable pub clean : String → String
clean String.[] = String.[]
clean (String.◌∷◌ c s) = if is_id_char c then String.◌∷◌ c (clean s) else "_" <> clean s

unfoldable pub strip_left_under : String → String
strip_left_under String.[] = String.[]
strip_left_under (String.◌∷◌ c s) =
    let rest = strip_left_under s in if eqb (code c) b'_' then rest else String.◌∷◌ c s

unfoldable pub strip_right_under : String → String
strip_right_under String.[] = String.[]
strip_right_under (String.◌∷◌ c s) =
    let rest = strip_right_under s in
    if rest == "" then (if eqb (code c) b'_' then "" else String.◌∷◌ c "") else String.◌∷◌ c rest

-- The text has a first character, and that is a letter or a digit.
unfoldable pub opens_alnum : String → Bool
opens_alnum String.[] = false
opens_alnum (String.◌∷◌ c s) = is_lower c || is_digit c

unfoldable pub clean_id : String → String
unfolding lower clean strip_left_under strip_right_under opens_alnum
clean_id source_id =
    let id = strip_right_under (strip_left_under (clean (lower source_id))) in
    if id == "" then "source_parser" else if opens_alnum id then id else "source_" <> id

-- The type and the transformations by the canonical name.
unfoldable pub type_of : String → String × List String
unfolding is_in
type_of canon =
    if is_in "ip" canon
    then ("ip", "trim" ∷ "ip" ∷ [])
    else if is_in "port" canon || is_in "status_code" canon
    then ("integer", "integer" ∷ [])
    else if is_in "time" canon || is_in "timestamp" canon
    then ("timestamp", "timestamp" ∷ [])
    else if is_in "is_" canon || is_in "enabled" canon
    then ("boolean", "boolean" ∷ [])
    else ("string", "trim" ∷ [])

unfoldable pub field_def : FieldMapping → FieldDef
unfolding type_of lower
field_def m =
    let (field_type, transforms) = type_of (lower m.canonical_field) in
    record {
      type = some field_type;
      map_to = some m.canonical_field;
      enum = [];
      transformations = transforms;
    }

unfoldable pub fields_dict : List FieldMapping → Dict FieldDef → Dict FieldDef
unfolding field_def insert
fields_dict [] fields = fields
fields_dict (m ∷ ms) fields = fields_dict ms (insert m.raw_field (field_def m) fields)

abbrev raw_message : FieldDef
raw_message = record {
  type = some "string";
  map_to = some "event.action";
  enum = [];
  transformations = "trim" ∷ [];
}

-- A spec without mappings keeps the message.
abbrev pub or_message : Dict FieldDef → Dict FieldDef
or_message [] = ("raw_message", raw_message) ∷ []
or_message (e ∷ fields) = e ∷ fields

unfoldable pub generate_ulpf_parser_spec : String → String → List FieldMapping → UlpfSpec
unfolding format_of clean_id fields_dict lower
generate_ulpf_parser_spec source_id detected_format mappings =
    let format = format_of (lower detected_format) in
    record {
      dsl_version = "1.0";
      spec = record {
        parser = some (record { id = some (clean_id source_id); version = some "1.0.0" });
        match_format = some format;
        body_parser = some (record { type = some format; delimiter = none; headers = none });
        fields = some (or_message (fields_dict mappings []));
      };
      unknown_policy = "preserve";
      preserve_raw = true;
    }
