-- ===== src/Profiler/Records.antt =====
-- ml/source_profiler/profiler.py: `detect_format` and `parse_record`.
use ulpx.Base.{Result, ok, err, ◌>>=◌, ◌⊎◌, inl, inr}
use ulpx.Base.{
  ℕ, String, ◌≡◌, refl, Bool, false, Option, none, some, List, [], ◌∷◌, ◌==◌, if◌then◌else◌,
  if_intro,
}
use ulpx.Base.Text.{strip}
use ulpx.Base.Dict.{Dict}
use ulpx.Base.Floats.{Floats, zero_float, one_float}
use ulpx.Base.Value.{Value, str}
use ulpx.Profiler.Headers.{is_cef, is_leef, parse_cef}
use ulpx.Profiler.Leef.{parse_leef}
use ulpx.Profiler.Syslog.{is_syslog_5424, is_syslog_3164, parse_5424, parse_3164}
use ulpx.Profiler.{
  ProfilerError, LogFormat, json, cef, leef, syslog_rfc5424, syslog_rfc3164, key_value, csv,
  plain_text, unknown, LineReaders, is_json, is_kv, parse_json, parse_key_value, parse_line,
}

-- The value of the format's enum member.
abbrev pub value_of : LogFormat → String
value_of json = "JSON"
value_of cef = "CEF"
value_of leef = "LEEF"
value_of syslog_rfc5424 = "SYSLOG_RFC5424"
value_of syslog_rfc3164 = "SYSLOG_RFC3164"
value_of key_value = "KEY_VALUE"
value_of csv = "CSV"
value_of plain_text = "TEXT"
value_of unknown = "UNKNOWN"

abbrev pub same_format : LogFormat → LogFormat → Bool
same_format a b = value_of a == value_of b

module _ (fl : Floats) (readers : LineReaders fl.F) where
  open fl use {F, ratio}

  -- A format with its confidence and its metadata.
  pub record Detected : Type 0 where
    pub format : LogFormat
    pub confidence : F
    pub metadata : Dict String

  abbrev found : LogFormat → F → String → String → Detected
  found format confidence k v = record {
    format = format;
    confidence = confidence;
    metadata = (k, v) ∷ [];
  }

  unfoldable pub detect_format : String → Detected
  unfolding strip is_json is_kv is_cef is_leef is_syslog_5424 is_syslog_3164
  detect_format raw_log =
      let s = strip raw_log in
      if s == ""
      then record { format = unknown; confidence = zero_float fl; metadata = [] }
      else if is_cef s
      then found cef (one_float fl) "header_type" "ArcSight CEF"
      else if is_leef s
      then found leef (one_float fl) "header_type" "IBM QRadar LEEF"
      else if is_syslog_5424 readers s
      then found syslog_rfc5424 (one_float fl) "rfc" "RFC5424"
      else if is_syslog_3164 readers s
      then found syslog_rfc3164 (ratio 95 100) "rfc" "RFC3164"
      else if is_json fl readers s
      then found json (one_float fl) "syntax" "JSON"
      else if is_kv fl readers 2 s
      then found key_value (ratio 90 100) "syntax" "logfmt/key-value"
      else record { format = plain_text; confidence = ratio 1 2; metadata = [] }

  -- The fields of a record, if it was read, and the format.
  abbrev pub Record : Type 0
  Record = Option (Dict (Value F)) × LogFormat

  abbrev is_hint : Option LogFormat → LogFormat → Bool
  is_hint none f = false
  is_hint (some h) f = same_format h f

  -- A parser that fails ends the attempt if its format was the hint, and else leaves plain text.
  abbrev attempt : Option LogFormat → LogFormat → String → Option (Dict (Value F)) → Record
  attempt hint f s (some d) = (some d, f)
  attempt hint f s none =
      if is_hint hint f then (none, f) else (some (("message", str s) ∷ []), plain_text)

  abbrev pub plain : String → Record
  plain s = (some (("message", str s) ∷ []), plain_text)

  -- `if res`
  abbrev non_empty : Dict (Value F) → Option (Dict (Value F))
  non_empty [] = none
  non_empty (e ∷ d) = some (e ∷ d)

  abbrev attempt_csv :
      (ℕ → String) → Option LogFormat → String → Option String → Option (List String) → Record
  attempt_csv show hint s none headers = plain s
  attempt_csv show hint s (some d) headers =
      if d == "" then plain s else attempt hint csv s (parse_line fl readers show s d headers)

  unfoldable pub parse_as :
      (ℕ → String)
      → Option LogFormat
      → LogFormat
      → String
      → Option String
      → Option (List String)
      → Result ProfilerError Record
  unfolding parse_json parse_key_value parse_line parse_cef parse_leef parse_5424 parse_3164
  parse_as show hint json s d hs = ok (attempt hint json s (parse_json fl readers s))
  parse_as show hint cef s d hs = ok (attempt hint cef s (parse_cef readers s))
  parse_as show hint leef s d hs = parse_leef readers s >>= λ res. ok (attempt hint leef s res)
  parse_as show hint syslog_rfc5424 s d hs =
      parse_5424 readers s >>= λ res. ok (attempt hint syslog_rfc5424 s res)
  parse_as show hint syslog_rfc3164 s d hs =
      ok (attempt hint syslog_rfc3164 s (parse_3164 readers s))
  parse_as show hint key_value s d hs =
      ok (attempt hint key_value s (non_empty (parse_key_value fl readers s)))
  parse_as show hint csv s d hs = ok (attempt_csv show hint s d hs)
  parse_as show hint plain_text s d hs = ok (plain s)
  parse_as show hint unknown s d hs = ok (plain s)

  -- A hint is followed unless it is UNKNOWN.
  abbrev target : Option LogFormat → String → LogFormat
  target none s = (detect_format s).format
  target (some h) s = if same_format h unknown then (detect_format s).format else h

  unfoldable pub parse_record :
      (ℕ → String)
      → String
      → Option LogFormat
      → Option String
      → Option (List String)
      → Result ProfilerError Record
  unfolding strip detect_format parse_as
  parse_record show raw_log hint delimiter headers =
      let s = strip raw_log in
      if s == "" then ok (none, unknown) else parse_as show hint (target hint s) s delimiter headers

  -- The record has fields.
  abbrev pub IsRead : Record → Type 0
  IsRead r = (d : Dict (Value F)) × (r.0 ≡ some d)

  attempt-IsRead :
      (f : LogFormat) (s : String) (o : Option (Dict (Value F))) → IsRead (attempt none f s o)
  attempt-IsRead f s none = (_, refl)
  attempt-IsRead f s (some d) = (d, refl)

  attempt_csv-IsRead :
      (show : ℕ → String) (s : String) (d : Option String) (hs : Option (List String))
      → IsRead (attempt_csv show none s d hs)
  attempt_csv-IsRead show s none hs = (_, refl)
  attempt_csv-IsRead show s (some d) hs =
      if_intro IsRead (d == "") (plain s) (attempt none csv s (parse_line fl readers show s d hs))
        (λ _. (_, refl)) (λ _. attempt-IsRead csv s (parse_line fl readers show s d hs))

  -- What the runner and the engine read of a text: its fields, if it has any.
  abbrev pub extract :
      (ℕ → String) → String → Option LogFormat → Result ProfilerError (Option (Dict (Value F)))
  extract show text hint = parse_record show text hint none none >>= λ r. ok r.0

  -- Fields are returned, or the exception that the RFC 5424 or the LEEF parser raises on the text.
  abbrev pub IsReadOk : String → Result ProfilerError Record → Type 0
  IsReadOk s r =
      ((x : Record) × (r ≡ ok x) × IsRead x)
      ⊎ ((e : ProfilerError) × (r ≡ err e)
          × ((parse_5424 readers s ≡ err e) ⊎ (parse_leef readers s ≡ err e)))

  read_ok : (s : String) (x : Record) → IsRead x → IsReadOk s (ok x)
  read_ok s x h = inl (x, refl, h)

  -- A parser that may raise: of the two of them, the one that does.
  read_raising :
      (s : String) (f : LogFormat) (r : Result ProfilerError (Option (Dict (Value F))))
      → ((e : ProfilerError)
          → r ≡ err e
          → (parse_5424 readers s ≡ err e) ⊎ (parse_leef readers s ≡ err e))
      → IsReadOk s (r >>= λ res. ok (attempt none f s res))
  read_raising s f (err e) h = inr (e, refl, h e refl)
  read_raising s f (ok o) h = read_ok s _ (attempt-IsRead f s o)

  parse_as-IsReadOk :
      (show : ℕ → String) (f : LogFormat) (s : String) (d : Option String)
      (hs : Option (List String))
      → IsReadOk s (parse_as show none f s d hs)
  unfolding parse_as
  parse_as-IsReadOk show json s d hs = read_ok s _ (attempt-IsRead json s (parse_json fl readers s))
  parse_as-IsReadOk show cef s d hs = read_ok s _ (attempt-IsRead cef s (parse_cef readers s))
  parse_as-IsReadOk show leef s d hs = read_raising s leef (parse_leef readers s) (λ e h. inr h)
  parse_as-IsReadOk show syslog_rfc5424 s d hs =
      read_raising s syslog_rfc5424 (parse_5424 readers s) (λ e h. inl h)
  parse_as-IsReadOk show syslog_rfc3164 s d hs =
      read_ok s _ (attempt-IsRead syslog_rfc3164 s (parse_3164 readers s))
  parse_as-IsReadOk show key_value s d hs =
      read_ok s _ (attempt-IsRead key_value s (non_empty (parse_key_value fl readers s)))
  parse_as-IsReadOk show csv s d hs = read_ok s _ (attempt_csv-IsRead show s d hs)
  parse_as-IsReadOk show plain_text s d hs = read_ok s _ (_, refl)
  parse_as-IsReadOk show unknown s d hs = read_ok s _ (_, refl)

  -- For a line that is more than white space and no hint, either fields are returned, or an exception
  -- is raised that the RFC 5424 or the LEEF parser raises on the line; with the hint of CSV and no delimiter the line's text alone is
  -- returned, as plain text.
  pub parse_record_total :
      (show : ℕ → String) (raw_log : String) (delimiter : Option String)
      (headers : Option (List String))
      → (strip raw_log == "") ≡ false
      → IsReadOk (strip raw_log) (parse_record show raw_log none delimiter headers)
        × (parse_record show raw_log (some csv) none headers ≡ ok (plain (strip raw_log)))
  unfolding parse_record parse_as
  parse_record_total show raw_log delimiter headers h = (
    rw h (
        parse_as-IsReadOk show (detect_format (strip raw_log)).format (strip raw_log) delimiter
          headers),
    rw h refl,
  )
