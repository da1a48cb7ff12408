-- ===== src/Spec.antt =====
-- A parser spec as packages/contracts/parser_spec.schema.json types it. Any part may be missing, as
-- the code that reads it expects.
use ulpx.Base.{String, Option, none, List, [], or_default}
use ulpx.Base.Dict.{Dict}

pub record FieldDef : Type 0 where
  pub type : Option String
  pub map_to : Option String
  pub enum : Dict String
  pub transformations : List String

pub record ParserInfo : Type 0 where
  pub id : Option String
  pub version : Option String

pub record BodyParser : Type 0 where
  pub type : Option String
  pub delimiter : Option String
  pub headers : Option (List String)

pub record ParserSpec : Type 0 where
  pub parser : Option ParserInfo
  pub match_format : Option String
  pub body_parser : Option BodyParser
  pub fields : Option (Dict FieldDef)

-- `spec.get("fields", {})`
abbrev pub fields_of : ParserSpec → Dict FieldDef
fields_of spec = or_default spec.fields []

abbrev pub no_info : ParserInfo
no_info = record { id = none; version = none }

-- `spec.get("parser", {}).get("id", default)`, and the version likewise.
abbrev pub id_or : String → ParserSpec → String
id_or default spec = or_default (or_default spec.parser no_info).id default

abbrev pub version_or : String → ParserSpec → String
version_or default spec = or_default (or_default spec.parser no_info).version default
