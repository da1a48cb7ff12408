-- ===== src/Profiler/Syslog.antt =====
-- ml/source_profiler/profiler.py: Syslog5424Parser and Syslog3164Parser.
use Prim.Native.Char.{Char, code}
use text.Mathlib.Text.{starts_with}
use ulpx.Base.{
  ℕ, ◌/◌, ◌%◌, String, Bool, false, ◌||◌, Option, none, some, List, [], ◌∷◌, ◌==◌, eqb, is_some,
  or_default, Result, ok, err, ◌>>=◌, if◌then◌else◌,
}
use ulpx.Base.Text.{strip, is_space, digits_from, ◌<>◌}
use ulpx.Base.Int.{ℤ}
use ulpx.Base.Dict.{Dict, insert}
use ulpx.Base.Value.{Value, null, int, str}
use ulpx.Profiler.{LineReaders, Header5424, Header3164, ProfilerError, no_block_id, unescape}

-- The priority is one to three digits.
abbrev number : String → ℕ
number s = or_default (digits_from 0 s) 0

-- What is left between blocks: the blocks to come, and the message.
abbrev Blocks : Type 0
Blocks = List String × String

abbrev with_block : String → Option (String × Blocks) → Blocks
with_block here none = ([], here)
with_block here (some (content, (blocks, msg))) = (content ∷ blocks, msg)

abbrev longer : Char → Option (String × Blocks) → Option (String × Blocks)
longer c none = none
longer c (some (content, rest)) = some (String.◌∷◌ c content, rest)

-- The loop over the blocks, for a text that stands between blocks, and for one inside a block, which
-- ends at the first `]`.
unfoldable pub scan_blocks : String → Blocks × Option (String × Blocks)
scan_blocks String.[] = (([], ""), none)
scan_blocks (String.◌∷◌ c s) =
    let (between, inside) = scan_blocks s in
    (
      if eqb (code c) 32
          then between
          else if eqb (code c) 91
          then with_block (String.◌∷◌ c s) inside
          else ([], String.◌∷◌ c s),
      if eqb (code c) 93 then some ("", between) else longer c inside,
    )

-- `inner.split(None, 1)` of stripped text: the first word, and the stripped rest.
unfoldable pub first_word : String → String × String
first_word String.[] = ("", "")
first_word (String.◌∷◌ c s) =
    let (word, rest) = first_word s in if is_space c then ("", s) else (String.◌∷◌ c word, rest)

module _ {F : Type 0} where
  abbrev dashed : String → Value F
  dashed s = if s == "-" then null else str s

module _ {F : Type 0} (readers : LineReaders F) where
  abbrev sd_value : String → String
  sd_value v = unescape "]" "]" false (unescape "\\" "\\" false (unescape "\"" "\"" false v))

  unfoldable pub add_params : String → List (String × String) → Dict (Value F) → Dict (Value F)
  unfolding insert unescape
  add_params id [] d = d
  add_params id ((k, v) ∷ params) d =
      add_params id params (insert ("sd_" <> id <> "_" <> k) (str (sd_value v)) d)

  abbrev add_block : String × String → Dict (Value F) → Dict (Value F)
  add_block (id, rest) d =
      let named = insert ("sd_" <> id) (str rest) d in
      if rest == "" then named else add_params id (readers.sd_params rest) named

  unfoldable pub add_blocks : List String → Dict (Value F) → Result ProfilerError (Dict (Value F))
  unfolding strip first_word add_params
  add_blocks [] d = ok d
  add_blocks (b ∷ blocks) d =
      let content = strip b in
      let (id, rest) = first_word content in
      let more = add_blocks blocks (add_block (id, strip rest) d) in
      if content == "" then err no_block_id else more

  abbrev header_fields : Header5424 → String → Dict (Value F)
  header_fields h message =
      ("prival", int (ℤ.pos (number h.prival)))
      ∷ ("facility", int (ℤ.pos (number h.prival / 8)))
      ∷ ("severity", int (ℤ.pos (number h.prival % 8)))
      ∷ ("version", int (ℤ.pos 1))
      ∷ ("timestamp", dashed h.timestamp)
      ∷ ("hostname", dashed h.hostname)
      ∷ ("app_name", dashed h.app_name)
      ∷ ("proc_id", dashed h.proc_id)
      ∷ ("msg_id", dashed h.msg_id)
      ∷ ("message", str message)
      ∷ []

  abbrev with_data : Header5424 → Blocks → Result ProfilerError (Dict (Value F))
  with_data h (blocks, msg) = add_blocks blocks (header_fields h (strip msg))

  -- `rest[2:]`
  abbrev after_two : String → String
  after_two (String.◌∷◌ c (String.◌∷◌ d s)) = s
  after_two (String.◌∷◌ c String.[]) = ""
  after_two String.[] = ""

  abbrev read_rest : Header5424 → Option String → Result ProfilerError (Dict (Value F))
  read_rest h none = ok (header_fields h "")
  read_rest h (some r) =
      let rest = strip r in
      if r == "" || rest == "-"
      then ok (header_fields h "")
      else if starts_with rest "- "
      then ok (header_fields h (strip (after_two rest)))
      else with_data h (scan_blocks rest).0

  abbrev read_5424 : Option Header5424 → Result ProfilerError (Option (Dict (Value F)))
  read_5424 none = ok none
  read_5424 (some h) = read_rest h h.rest >>= λ d. ok (some d)

  unfoldable pub parse_5424 : String → Result ProfilerError (Option (Dict (Value F)))
  unfolding strip scan_blocks add_blocks digits_from
  parse_5424 line = read_5424 (readers.header_5424 (strip line))

  unfoldable pub is_syslog_5424 : String → Bool
  unfolding strip
  is_syslog_5424 line = is_some (readers.header_5424 (strip line))

  unfoldable pub is_syslog_3164 : String → Bool
  unfolding strip
  is_syslog_3164 line = is_some (readers.header_3164 (strip line))

  abbrev pid_value : Option String → Value F
  pid_value none = null
  pid_value (some pid) = if pid == "" then null else str pid

  abbrev read_3164 : Option Header3164 → Option (Dict (Value F))
  read_3164 none = none
  read_3164 (some h) = some (
      ("prival", int (ℤ.pos (number h.prival)))
      ∷ ("facility", int (ℤ.pos (number h.prival / 8)))
      ∷ ("severity", int (ℤ.pos (number h.prival % 8)))
      ∷ ("timestamp", str h.timestamp)
      ∷ ("hostname", str h.hostname)
      ∷ ("tag", str h.tag)
      ∷ ("proc_id", pid_value h.proc_id)
      ∷ ("message", str (strip h.message))
      ∷ [])

  unfoldable pub parse_3164 : String → Option (Dict (Value F))
  unfolding strip digits_from
  parse_3164 line = read_3164 (readers.header_3164 (strip line))
