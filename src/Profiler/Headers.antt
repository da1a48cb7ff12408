-- ===== src/Profiler/Headers.antt =====
-- ml/source_profiler/profiler.py: CEFParser, and the test for LEEF.
use Prim.Native.Char.{code}
use text.Mathlib.Text.{starts_with}
use ulpx.Base.{
  ℕ, ◌+◌, String, Bool, false, ◌||◌, ◌&&◌, Option, none, some, List, [], ◌∷◌, ◌==◌, eqb, leb,
  one_if, if◌then◌else◌,
}
use ulpx.Base.Text.{strip}
use ulpx.Base.Dict.{Dict, insert, update}
use ulpx.Base.Value.{Value, str}
use ulpx.Profiler.{
  LineReaders, CefHeader, unescape, is_wrapped, first_is, last_is, inner, without_last,
}

-- `s.count("|")`
unfoldable pub count_bars : String → ℕ
count_bars String.[] = 0
count_bars (String.◌∷◌ c s) = one_if (eqb (code c) 124) + count_bars s

unfoldable pub is_cef : String → Bool
unfolding strip count_bars
is_cef line = starts_with (strip line) "CEF:" && leb 7 (count_bars (strip line))

unfoldable pub is_leef : String → Bool
unfolding strip count_bars
is_leef line = starts_with (strip line) "LEEF:" && leb 4 (count_bars (strip line))

abbrev pub unbarred : String → String
unbarred s = unescape "\\" "\\" false (unescape "|" "|" false s)

-- The escapes of a value go first, then its quotes.
unfoldable pub cef_value : String → String
unfolding unescape strip first_is last_is without_last
cef_value v =
    let plain = unescape "r" "\r" false (
      unescape "n" "\n" false
        (unescape "\\" "\\" false (unescape "|" "|" false (unescape "=" "=" false (strip v))))) in
    if is_wrapped 34 34 plain || is_wrapped 39 39 plain then inner plain else plain

module _ {F : Type 0} where
  unfoldable pub parse_cef_extension : List (String × String) → Dict (Value F) → Dict (Value F)
  unfolding cef_value insert strip
  parse_cef_extension [] result = result
  parse_cef_extension ((k, v) ∷ pairs) result =
      parse_cef_extension pairs (insert (strip k) (str (cef_value v)) result)

  abbrev header_fields : CefHeader → Dict (Value F)
  header_fields h =
      ("cef_version", str h.version)
      ∷ ("device_vendor", str (unbarred h.vendor))
      ∷ ("device_product", str (unbarred h.product))
      ∷ ("device_version", str (unbarred h.device_version))
      ∷ ("device_event_class_id", str (unbarred h.class_id))
      ∷ ("name", str (unbarred h.name))
      ∷ ("severity", str (unbarred h.severity))
      ∷ []

  abbrev cef_fields : LineReaders F → Option CefHeader → Option (Dict (Value F))
  cef_fields readers none = none
  cef_fields readers (some h) = some (
      if h.extension == ""
      then header_fields h
      else update (header_fields h) (parse_cef_extension (readers.cef_pairs h.extension) []))

  unfoldable pub parse_cef : LineReaders F → String → Option (Dict (Value F))
  unfolding strip unescape update parse_cef_extension
  parse_cef readers line = cef_fields readers (readers.cef_header (strip line))
