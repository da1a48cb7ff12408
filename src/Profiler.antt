-- ===== src/Profiler.antt =====
-- ml/source_profiler/profiler.py: the formats, and the parsers of JSON, key-value and delimited lines.
-- The groups that the module's regular expressions match are an interface, with `json.loads`,
-- `csv.reader`, `int` and `chr`.
pub mod Headers
pub mod Leef
pub mod Syslog
pub mod Records
pub mod Batch
use Prim.Native.Char.{Char, code}
use Prim.Native.String.{count}
use text.Mathlib.Text.{starts_with}
use ulpx.Base.{
  ℕ, zero, suc, ◌+◌, String, Bool, true, false, not, ◌||◌, ◌&&◌, Option, none, some, List, [], ◌∷◌,
  ◌++◌, ◌==◌, eqb, leb, ltb, is_empty, length, if◌then◌else◌,
}
use ulpx.Base.Text.{strip, ◌<>◌}
use ulpx.Base.Dict.{Dict, insert, update}
use ulpx.Base.Floats.{Floats, ge}
use ulpx.Base.Int.{ℤ}
use ulpx.Base.Value.{Value, null, bool, int, float, str, arr, dict, Entries, end, entry, is_dict}

pub data LogFormat : Type 0 where
  json cef leef syslog_rfc5424 syslog_rfc3164 key_value csv plain_text unknown : LogFormat

-- The groups of CEF_HEADER_REGEX.
pub record CefHeader : Type 0 where
  pub version : String
  pub vendor : String
  pub product : String
  pub device_version : String
  pub class_id : String
  pub name : String
  pub severity : String
  pub extension : String

-- The groups of LEEF_HEADER_REGEX.
pub record LeefHeader : Type 0 where
  pub version : String
  pub vendor : String
  pub product : String
  pub device_version : String
  pub event_id : String
  pub remainder : Option String

-- The groups of SYSLOG_5424_HDR.
pub record Header5424 : Type 0 where
  pub prival : String
  pub timestamp : String
  pub hostname : String
  pub app_name : String
  pub proc_id : String
  pub msg_id : String
  pub rest : Option String

-- The groups of SYSLOG_3164_REGEX.
pub record Header3164 : Type 0 where
  pub prival : String
  pub timestamp : String
  pub hostname : String
  pub tag : String
  pub proc_id : Option String
  pub message : String

-- What the regular expressions, `json.loads`, `csv.reader`, `int` and `chr` give.
pub record LineReaders (F : Type 0) : Type 0 where
  pub cef_header : String → Option CefHeader
  -- The keys and values of a CEF extension.
  pub cef_pairs : String → List (String × String)
  pub leef_header : String → Option LeefHeader
  -- `int(s, 16)`; none where it raises ValueError.
  pub hex_value : String → Option ℤ
  -- `chr(n)` for a code point n.
  pub chr : ℕ → String
  pub header_5424 : String → Option Header5424
  -- The names and values of a structured-data block.
  pub sd_params : String → List (String × String)
  pub header_3164 : String → Option Header3164
  -- The keys and values that KV_PAIR_REGEX finds, in order.
  pub kv_pairs : String → List (String × String)
  pub json_loads : String → Option (Value F)
  -- The first row that `csv.reader` reads with the delimiter.
  pub csv_row : String → String → Option (List String)

pub data ProfilerError : Type 0 where
  -- IndexError: a structured-data block without an id.
  no_block_id : ProfilerError
  -- OverflowError: `chr` of a number that no C int holds.
  code_overflow : ProfilerError

-- The last character, by its code.
unfoldable pub last_is : ℕ → String → Bool
last_is x String.[] = false
last_is x (String.◌∷◌ c String.[]) = eqb (code c) x
last_is x (String.◌∷◌ c (String.◌∷◌ d s)) = last_is x (String.◌∷◌ d s)

unfoldable pub first_is : ℕ → String → Bool
first_is x String.[] = false
first_is x (String.◌∷◌ c s) = eqb (code c) x

abbrev pub is_wrapped : ℕ → ℕ → String → Bool
is_wrapped a b s = first_is a s && last_is b s

-- `s.replace("\\x", "y")` for characters `x` and `y`; the flag says that a backslash waits.
unfoldable pub unescape : Char → Char → Bool → String → String
unescape x y false String.[] = String.[]
unescape x y true String.[] = "\\"
unescape x y false (String.◌∷◌ c s) =
    let rest = unescape x y (eqb (code c) 92) s in
    if eqb (code c) 92 then rest else String.◌∷◌ c rest
unescape x y true (String.◌∷◌ c s) =
    let waits = not (eqb (code c) (code x)) && eqb (code c) 92 in
    let rest = unescape x y waits s in
    if eqb (code c) (code x)
    then String.◌∷◌ y rest
    else "\\" <> (if waits then rest else String.◌∷◌ c rest)

-- All but the last character.
unfoldable pub without_last : String → String
without_last String.[] = String.[]
without_last (String.◌∷◌ c String.[]) = String.[]
without_last (String.◌∷◌ c (String.◌∷◌ d s)) = String.◌∷◌ c (without_last (String.◌∷◌ d s))

-- `v[1:-1]`
abbrev pub inner : String → String
inner String.[] = String.[]
inner (String.◌∷◌ c s) = without_last s

-- The quotes around a value go, then the escapes, one character after another.
unfoldable pub unquote : String → String
unfolding first_is last_is unescape without_last
unquote v =
    let bare = if is_wrapped 34 34 v || is_wrapped 39 39 v then inner v else v in
    unescape "=" "=" false
      (unescape "\\" "\\" false (unescape "'" "'" false (unescape "\"" "\"" false bare)))

abbrev full_key : String → String → String
full_key parent k = if parent == "" then k else parent <> ("." <> k)

module _ {F : Type 0} where
  unfoldable mutual
    -- The pairs of a dict, with those of the dicts in it under dotted keys.
    pub flatten_items : String → Entries F → Dict (Value F)
    flatten_items parent end = []
    flatten_items parent (entry k v es) =
        flatten_node (full_key parent k) v ++ flatten_items parent es

    -- An empty dict stays as it is; another one's pairs are a dict again.
    pub flatten_node : String → Value F → Dict (Value F)
    flatten_node k (dict (entry j v es)) =
        update [] (flatten_node (full_key k j) v ++ flatten_items k es)
    flatten_node k v = (k, v) ∷ []

  unfoldable pub flatten_dict : Entries F → Dict (Value F)
  unfolding flatten_items update insert
  flatten_dict es = update [] (flatten_items "" es)

module _ (fl : Floats) (readers : LineReaders fl.F) where
  open fl use {F, ratio}
  open readers use {kv_pairs, json_loads, csv_row}

  abbrev loads_dict : Option (Value F) → Bool
  loads_dict none = false
  loads_dict (some v) = is_dict v

  unfoldable pub is_json : String → Bool
  unfolding strip first_is last_is
  is_json line = is_wrapped 123 125 (strip line) && loads_dict (json_loads (strip line))

  abbrev flattened : Option (Value F) → Option (Dict (Value F))
  flattened (some (dict es)) = some (flatten_dict es)
  flattened _ = none

  unfoldable pub parse_json : String → Option (Dict (Value F))
  unfolding strip flatten_dict
  parse_json line = flattened (json_loads (strip line))

  abbrev pair_lengths : List (String × String) → ℕ
  pair_lengths [] = 0
  pair_lengths ((k, v) ∷ pairs) = count k + count v + 1 + pair_lengths pairs

  unfoldable pub is_kv : ℕ → String → Bool
  unfolding strip first_is last_is
  is_kv min_pairs line =
      let s = strip line in
      let pairs = kv_pairs s in
      if starts_with s "CEF:" || (starts_with s "LEEF:" || first_is 60 s)
      then false
      else if is_wrapped 123 125 s || ltb (length pairs) min_pairs
      then false
      else ge fl (ratio (pair_lengths pairs) 1) (fl.mul (ratio (count s) 1) (ratio 35 100))
        || leb 3 (length pairs)

  unfoldable pub parse_pairs : List (String × String) → Dict (Value F) → Dict (Value F)
  unfolding unquote insert
  parse_pairs [] result = result
  parse_pairs ((k, v) ∷ pairs) result = parse_pairs pairs (insert k (str (unquote v)) result)

  unfoldable pub parse_key_value : String → Dict (Value F)
  unfolding parse_pairs strip
  parse_key_value line = parse_pairs (kv_pairs (strip line)) []

  -- `column_{i+1}`, for the number's text.
  abbrev column : (ℕ → String) → ℕ → String
  column show n = "column_" <> show n

  unfoldable pub by_headers : List String → List String → Dict (Value F) → Dict (Value F)
  unfolding strip insert
  by_headers (h ∷ hs) (c ∷ cs) d = by_headers hs cs (insert h (str (strip c)) d)
  by_headers [] cs d = d
  by_headers (h ∷ hs) [] d = d

  unfoldable pub by_columns : (ℕ → String) → ℕ → List String → Dict (Value F)
  unfolding strip
  by_columns show n [] = []
  by_columns show n (c ∷ cs) = (column show n, str (strip c)) ∷ by_columns show (suc n) cs

  abbrev row_fields : (ℕ → String) → Option (List String) → List String → Dict (Value F)
  row_fields show none row = by_columns show 1 row
  row_fields show (some hs) row =
      if not (is_empty hs) && eqb (length hs) (length row)
      then by_headers hs row []
      else by_columns show 1 row

  abbrev read_row :
      (ℕ → String) → Option (List String) → Option (List String) → Option (Dict (Value F))
  read_row show headers none = none
  read_row show headers (some []) = none
  read_row show headers (some (c ∷ cs)) = some (row_fields show headers (c ∷ cs))

  unfoldable pub parse_line :
      (ℕ → String) → String → String → Option (List String) → Option (Dict (Value F))
  unfolding by_headers by_columns strip
  parse_line show line delimiter headers = read_row show headers (csv_row delimiter (strip line))
