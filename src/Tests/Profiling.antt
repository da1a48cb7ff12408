-- ===== src/Tests/Profiling.antt =====
-- A line of key-value pairs, and a batch of delimited lines.
use ulpx.Base.{ok, err, if◌then◌else◌}
use ulpx.Base.{◌==◌, ℕ, String, ◌≡◌, refl, true, false, none, some, [], ◌∷◌}
use ulpx.Base.Int.{ℤ}
use ulpx.Base.Text.{strip, lower, is_in}
use ulpx.Base.Floats.{zero_float}
use ulpx.Spec.{ParserSpec}
use ulpx.Shadow.Runner.{Readings, line, record_error, hint_of, parse, run_all, execute_dual}
use ulpx.Base.Floats.Fixed.{fixed}
use ulpx.Base.Dict.{Dict, insert, lookup}
use ulpx.Base.Value.{Value, str}
use ulpx.Profiler.{
  csv, LineReaders, unquote, first_is, last_is, unescape, without_last, Header5424, LeefHeader,
  no_block_id, code_overflow,
}
use ulpx.Profiler.Syslog.{parse_5424, scan_blocks, add_blocks}
use ulpx.Profiler.Leef.{
  parse_leef, resolve_leef_delimiter, parse_leef_attributes, without_0x, without_x, split_once,
  split_tokens, add_attributes,
}
use ulpx.Profiler.Records.{
  IsReadOk, plain, extract, parse_as, detect_format, parse_record, parse_record_total,
}

abbrev empty_block : Header5424
empty_block = record {
  prival = "13";
  timestamp = "-";
  hostname = "-";
  app_name = "-";
  proc_id = "-";
  msg_id = "-";
  rest = some "[] hi";
}

abbrev leef_line : LeefHeader
leef_line = record {
  version = "2.0";
  vendor = "v";
  product = "p";
  device_version = "1";
  event_id = "e";
  remainder = some "xFFFFFFFFFF|a=b";
}

abbrev readers : LineReaders ℤ
readers = record {
  cef_header = λ s. none;
  cef_pairs = λ s. [];
  leef_header = λ s. if s == "LEEF" then some leef_line else none;
  hex_value = λ s. some (ℤ.pos (if s == "5E" then 94 else 1099511627775));
  chr = λ n. "^";
  header_5424 = λ s. if first_is 60 s then some empty_block else none;
  sd_params = λ s. [];
  header_3164 = λ s. none;
  kv_pairs = λ s. ("act", "deny") ∷ ("src", "10.0.0.1") ∷ [];
  json_loads = λ s. none;
  csv_row = λ d s. none;
}

abbrev show : ℕ → String
show n = "1"

blank : (strip "act=deny src=10.0.0.1" == "") ≡ false
unfolding strip
blank = refl

parse_record_total_example :
    IsReadOk fixed readers
      (strip "act=deny src=10.0.0.1")
      (parse_record fixed readers show "act=deny src=10.0.0.1" none none none)
    × (parse_record fixed readers show "act=deny src=10.0.0.1" (some csv) none none
        ≡ ok (plain fixed readers (strip "act=deny src=10.0.0.1")))
parse_record_total_example =
    parse_record_total fixed readers show "act=deny src=10.0.0.1" none none blank

unquoted : unquote "\"a\\\"b\"" ≡ "a\"b"
unfolding unquote first_is last_is unescape without_last
unquoted = refl

-- A block without an id raises.
empty_block_raises : parse_5424 readers "<13>1 - - - - - [] hi" ≡ err no_block_id
unfolding parse_5424 strip scan_blocks add_blocks first_is
empty_block_raises = refl

blocks_scanned : (scan_blocks "[a k=\"v\"] [b] hi").0 ≡ ("a k=\"v\"" ∷ "b" ∷ [], "hi")
unfolding scan_blocks
blocks_scanned = refl

-- A delimiter whose code no C int holds raises.
big_code_raises : parse_leef readers "LEEF" ≡ err code_overflow
unfolding parse_leef resolve_leef_delimiter split_once without_0x without_x strip
big_code_raises = refl

caret : resolve_leef_delimiter readers "0x5E" ≡ ok "^"
unfolding resolve_leef_delimiter without_0x without_x
caret = refl

attributes :
    ◌≡◌ {A = Dict (Value ℤ)}
      (parse_leef_attributes "a=1^^b= 'x' ^^c" "^^")
      (("a", str "1") ∷ ("b", str "x") ∷ [])
unfolding parse_leef_attributes split_tokens add_attributes split_once strip unescape first_is
    last_is without_last insert
attributes = refl

abbrev still : Readings ℤ
still = record {
  t0 = zero_float fixed;
  t1 = zero_float fixed;
  t2 = zero_float fixed;
  t3 = zero_float fixed;
}

abbrev syslog_spec : ParserSpec
syslog_spec = record {
  parser = none;
  match_format = some "syslog";
  body_parser = none;
  fields = none;
}

-- With the profiler's own parser, such a line stops a dual run.
dual_run_stops :
    (execute_dual fixed
      (extract fixed readers show)
      (λ v. "")
      ((line "<13>1 - - - - - [] hi", still) ∷ [])
      syslog_spec
      syslog_spec
      "fw"
      none
      true).0
    ≡ err (record_error no_block_id)
unfolding execute_dual run_all parse parse_record parse_as detect_format hint_of parse_5424
    scan_blocks add_blocks first_is strip lower is_in lookup
dual_run_stops = refl
