-- ===== src/Validation/Transform.antt =====
-- ml/validation/validator.py, `validate_event`: the fields under their canonical names, through enum,
-- transformations and cast, and those that no field definition names.
use ulpx.Base.{
  String, Bool, false, ◌||◌, Option, none, some, List, [], ◌∷◌, ◌==◌, any, if◌then◌else◌,
}
use ulpx.Base.Text.{lower, upper, strip}
use ulpx.Base.Int.{ℤ}
use ulpx.Base.Dict.{Dict, lookup, insert, contains}
use ulpx.Base.Floats.{Floats}
use ulpx.Base.Value.{Value, bool, int, float, str, int_of}
use ulpx.Spec.{FieldDef}
use ulpx.Shadow.Runner.{canonical_of, apply_enum}
use ulpx.Shadow.Dps.{text_of}

-- Python's conversions: `int` and `float` of a text that is no number give none, and so does
-- `strptime` of a text that does not fit the format.
pub record Casts (F : Type 0) : Type 1 where
  pub int_of_text : String → Option ℤ
  pub int_of_float : F → ℤ
  pub float_of_text : String → Option F
  pub float_of_int : ℤ → F
  pub Moment : Type 0
  pub strptime : String → String → Option Moment
  pub has_zone : Moment → Bool
  -- The same clock reading in UTC.
  pub in_utc : Moment → Moment
  -- `astimezone(timezone.utc).strftime("%Y-%m-%dT%H:%M:%SZ")`
  pub utc_text : Moment → String

abbrev pub timestamp_formats : List String
timestamp_formats =
    "%Y-%m-%dT%H:%M:%SZ" ∷ "%Y-%m-%dT%H:%M:%S" ∷ "%Y-%m-%d %H:%M:%S" ∷ "%d/%b/%Y:%H:%M:%S %z"
    ∷ "%b %d %H:%M:%S" ∷ []

unfoldable pub transform_text : List String → String → String
unfolding strip lower upper
transform_text [] s = s
transform_text (t ∷ ts) s = transform_text ts (
    if t == "trim"
    then strip s
    else if t == "lowercase"
    then lower s
    else if t == "uppercase"
    then upper s
    else s)

abbrev is_typed : Option String → String → Bool
is_typed none name = false
is_typed (some t) name = t == name

module _ (fl : Floats) (repr : Value fl.F → String) (casts : Casts fl.F) where
  open fl use {F}
  open casts use {
    int_of_text, int_of_float, float_of_text, float_of_int, Moment, strptime, has_zone, in_utc,
    utc_text,
  }

  -- A text goes through the transformations in their order.
  abbrev transformed : List String → Value F → Value F
  transformed ts (str s) = str (transform_text ts s)
  transformed ts v = v

  abbrev int_or : Option ℤ → Value F → Value F
  int_or none v = v
  int_or (some n) v = int n

  abbrev float_or : Option F → Value F → Value F
  float_or none v = v
  float_or (some x) v = float x

  -- `int(val)`, or `val` if that raises.
  abbrev to_integer : Value F → Value F
  to_integer (bool b) = int (int_of b)
  to_integer (int n) = int n
  to_integer (float x) = int (int_of_float x)
  to_integer (str s) = int_or (int_of_text s) (str s)
  to_integer v = v

  -- `float(val)`, or `val` if that raises.
  abbrev to_float : Value F → Value F
  to_float (bool b) = float (float_of_int (int_of b))
  to_float (int n) = float (float_of_int n)
  to_float (float x) = float x
  to_float (str s) = float_or (float_of_text s) (str s)
  to_float v = v

  abbrev zoned : Moment → Moment
  zoned at = if has_zone at then at else in_utc at

  -- The first format that the text fits ends the loop.
  abbrev read_or : Option Moment → Value F → Value F
  read_or none rest = rest
  read_or (some at) rest = str (utc_text (zoned at))

  unfoldable pub to_timestamp : List String → String → Value F → Value F
  to_timestamp [] s v = v
  to_timestamp (fmt ∷ fmts) s v = read_or (strptime s fmt) (to_timestamp fmts s v)

  abbrev cast : FieldDef → Value F → Value F
  cast f v =
      if is_typed f.type "integer"
      then to_integer v
      else if is_typed f.type "float"
      then to_float v
      else if is_typed f.type "timestamp" || any (λ t. t == "timestamp") f.transformations
      then to_timestamp timestamp_formats (strip (text_of fl repr v)) v
      else v

  unfoldable pub transform : FieldDef → Value F → Value F
  unfolding transform_text to_timestamp strip lookup
  transform f v = cast f (transformed f.transformations (apply_enum f.enum v))

  -- A configured field, if the event has it.
  abbrev pub map_one : Option (Value F) → String → FieldDef → Dict (Value F) → Dict (Value F)
  map_one none k f mapped = mapped
  map_one (some v) k f mapped = insert (canonical_of k f) (transform f v) mapped

  unfoldable pub map_configured : Dict FieldDef → Dict (Value F) → Dict (Value F) → Dict (Value F)
  unfolding transform lookup insert
  map_configured [] extracted mapped = mapped
  map_configured ((k, f) ∷ fields) extracted mapped =
      map_configured fields extracted (map_one (lookup k extracted) k f mapped)

module _ {F : Type 0} where
  unfoldable pub mapped_raw_keys : Dict FieldDef → Dict (Value F) → List String
  unfolding contains
  mapped_raw_keys [] extracted = []
  mapped_raw_keys ((k, f) ∷ fields) extracted =
      let rest = mapped_raw_keys fields extracted in if contains k extracted then k ∷ rest else rest

  -- The extracted fields whose names are not among the mapped ones.
  unfoldable pub retain_unmapped : List String → Dict (Value F) → Dict (Value F)
  retain_unmapped mapped [] = []
  retain_unmapped mapped ((k, v) ∷ extracted) =
      let rest = retain_unmapped mapped extracted in
      if any (λ m. m == k) mapped then rest else (k, v) ∷ rest
