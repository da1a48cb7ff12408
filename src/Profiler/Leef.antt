-- ===== src/Profiler/Leef.antt =====
-- ml/source_profiler/profiler.py: LEEFParser.
use Prim.Native.Char.{code}
use Prim.Native.String.{count}
use text.Mathlib.Text.{starts_with}
use ulpx.Base.{
  ℕ, zero, suc, ◌-◌, String, Bool, true, false, ◌||◌, Option, none, some, List, [], ◌∷◌, ◌==◌, eqb,
  ltb, Result, ok, err, ◌>>=◌, if◌then◌else◌,
}
use ulpx.Base.Text.{strip}
use ulpx.Base.Int.{ℤ}
use ulpx.Base.Dict.{Dict, insert, update}
use ulpx.Base.Value.{Value, str}
use ulpx.Profiler.{
  LineReaders, LeefHeader, ProfilerError, code_overflow, unescape, is_wrapped, first_is, last_is,
  inner, without_last,
}
use ulpx.Profiler.Headers.{unbarred}

-- `s.replace("0x", "")`; the flag says that a zero waits.
unfoldable pub without_0x : Bool → String → String
without_0x false String.[] = String.[]
without_0x true String.[] = "0"
without_0x false (String.◌∷◌ c s) =
    let rest = without_0x (eqb (code c) 48) s in if eqb (code c) 48 then rest else String.◌∷◌ c rest
without_0x true (String.◌∷◌ c s) =
    let rest = without_0x (eqb (code c) 48) s in
    if eqb (code c) 120
    then rest
    else String.◌∷◌ "0" (if eqb (code c) 48 then rest else String.◌∷◌ c rest)

-- `s.replace("x", "")`
unfoldable pub without_x : String → String
without_x String.[] = String.[]
without_x (String.◌∷◌ c s) =
    let rest = without_x s in if eqb (code c) 120 then rest else String.◌∷◌ c rest

abbrev hex_digits : String → String
hex_digits raw = without_x (without_0x false raw)

abbrev with_head : (String → String) → Option (String × String) → Option (String × String)
with_head add none = none
with_head add (some (before, after)) = some (add before, after)

-- The text before the first character of the code, and the text after it; none without one.
unfoldable pub split_once : ℕ → String → Option (String × String)
split_once x String.[] = none
split_once x (String.◌∷◌ c s) =
    let rest = split_once x s in
    if eqb (code c) x then some ("", s) else with_head (String.◌∷◌ c) rest

-- `s.split(delimiter)` for a delimiter that is not empty: the first token and the others, after as
-- many characters as still belong to a delimiter.
unfoldable pub split_tokens : String → ℕ → String → String × List String
split_tokens delimiter n String.[] = ("", [])
split_tokens delimiter (suc n) (String.◌∷◌ c s) = split_tokens delimiter n s
split_tokens delimiter zero (String.◌∷◌ c s) =
    let ends = starts_with (String.◌∷◌ c s) delimiter in
    let (token, tokens) = split_tokens delimiter (if ends then count delimiter - 1 else 0) s in
    if ends then ("", token ∷ tokens) else (String.◌∷◌ c token, tokens)

-- A value without its escapes and then without its quotes.
abbrev leef_value : String → String
leef_value v =
    let plain = unescape "\\" "\\" false (unescape "=" "=" false (strip v)) in
    if is_wrapped 34 34 plain || is_wrapped 39 39 plain then inner plain else plain

module _ {F : Type 0} where
  abbrev add_attribute : Option (String × String) → Dict (Value F) → Dict (Value F)
  add_attribute none d = d
  add_attribute (some (k, v)) d = insert (strip k) (str (leef_value v)) d

  unfoldable pub add_attributes : List String → Dict (Value F) → Dict (Value F)
  unfolding split_once strip unescape first_is last_is without_last insert
  add_attributes [] d = d
  add_attributes (token ∷ tokens) d =
      add_attributes tokens (add_attribute (split_once 61 (strip token)) d)

  -- `_parse_leef_attributes`
  unfoldable pub parse_leef_attributes : String → String → Dict (Value F)
  unfolding split_tokens add_attributes
  parse_leef_attributes ext delimiter =
      let (token, tokens) = split_tokens delimiter 0 ext in add_attributes (token ∷ tokens) []

module _ {F : Type 0} (readers : LineReaders F) where
  -- The last two tests, after a code that is none.
  abbrev literal_delimiter : String → String
  literal_delimiter raw = if raw == "\\t" || (raw == "\t" || raw == "") then "\t" else raw

  -- `chr(code)`: ValueError outside of the code points, OverflowError outside of a C int.
  abbrev from_code : String → Option ℤ → Result ProfilerError String
  from_code raw none = ok (literal_delimiter raw)
  from_code raw (some (ℤ.pos n)) =
      if ltb n 1114112
      then ok (readers.chr n)
      else if ltb n 2147483648
      then ok (literal_delimiter raw)
      else err code_overflow
  from_code raw (some (ℤ.negsuc n)) =
      if ltb n 2147483648 then ok (literal_delimiter raw) else err code_overflow

  -- `_resolve_leef_delimiter`
  unfoldable pub resolve_leef_delimiter : String → Result ProfilerError String
  unfolding without_0x without_x
  resolve_leef_delimiter raw =
      if starts_with raw "x" || starts_with raw "0x"
      then from_code raw (readers.hex_value (hex_digits raw))
      else ok (literal_delimiter raw)

  abbrev leef_fields : LeefHeader → Dict (Value F)
  leef_fields h =
      ("leef_version", str h.version)
      ∷ ("vendor", str (unbarred h.vendor))
      ∷ ("product", str (unbarred h.product))
      ∷ ("version", str (unbarred h.device_version))
      ∷ ("event_id", str (unbarred h.event_id))
      ∷ []

  abbrev with_attributes : LeefHeader → String → String → Dict (Value F)
  with_attributes h extension delimiter =
      if extension == ""
      then leef_fields h
      else update (leef_fields h) (parse_leef_attributes extension delimiter)

  -- In LEEF 2 the remainder may start with the delimiter and a bar.
  abbrev read_remainder :
      LeefHeader → String → Option (String × String) → Result ProfilerError (Dict (Value F))
  read_remainder h remainder none = ok (with_attributes h remainder "\t")
  read_remainder h remainder (some (raw, extension)) =
      if starts_with h.version "2"
      then (resolve_leef_delimiter raw >>= λ d. ok (with_attributes h extension d))
      else ok (with_attributes h remainder "\t")

  abbrev read_leef : Option LeefHeader → Result ProfilerError (Option (Dict (Value F)))
  read_leef none = ok none
  read_leef (some h) = elim h.remainder [
    | none ↦ ok (some (leef_fields h))
    | some r ↦ read_remainder h r (split_once 124 r) >>= λ d. ok (some d)
  ]

  -- `LEEFParser.parse`
  unfoldable pub parse_leef : String → Result ProfilerError (Option (Dict (Value F)))
  unfolding strip split_once resolve_leef_delimiter parse_leef_attributes unescape update
  parse_leef line = read_leef (readers.leef_header (strip line))
