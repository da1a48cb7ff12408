-- ===== src/Profiler/Batch.antt =====
-- ml/source_profiler/profiler.py: the format of a batch of lines.
use text.Mathlib.Text.{starts_with}
use ulpx.Base.{
  ℕ, ◌+◌, String, Bool, false, ◌||◌, ◌&&◌, Option, none, some, List, [], ◌∷◌, ◌==◌, eqb, leb, ltb,
  length, map, take, all, count_if, if◌then◌else◌,
}
use ulpx.Base.Text.{strip}
use ulpx.Base.Dict.{Dict}
use ulpx.Base.Floats.{Floats, ge, zero_float}
use ulpx.Profiler.{LogFormat, csv, unknown, LineReaders, is_json, first_is}
use ulpx.Profiler.Headers.{is_cef, is_leef}
use ulpx.Profiler.Syslog.{is_syslog_5424}
use ulpx.Profiler.Records.{value_of, same_format, detect_format}

-- A `Counter`: the items in the order in which they came, with their numbers.
module _ {A : Type 0} (same_item : A → A → Bool) where
  unfoldable pub add_vote : A → List (A × ℕ) → List (A × ℕ)
  add_vote a [] = (a, 1) ∷ []
  add_vote a ((b, n) ∷ votes) =
      let rest = add_vote a votes in if same_item b a then (b, n + 1) ∷ votes else (b, n) ∷ rest

  -- `most_common(1)[0]` is the first of the greatest.
  unfoldable pub most_common : A × ℕ → List (A × ℕ) → A × ℕ
  most_common best [] = best
  most_common best (v ∷ votes) = most_common (if ltb best.1 v.1 then v else best) votes

  unfoldable pub votes_of : List A → List (A × ℕ) → List (A × ℕ)
  unfolding add_vote
  votes_of [] votes = votes
  votes_of (a ∷ items) votes = votes_of items (add_vote a votes)

-- `",", "\t", "|", ";"`
abbrev pub delimiters : List String
delimiters = "," ∷ "\t" ∷ "|" ∷ ";" ∷ []

unfoldable pub clean_lines : List String → List String
unfolding strip
clean_lines [] = []
clean_lines (l ∷ ls) = let rest = clean_lines ls in if strip l == "" then rest else strip l ∷ rest

module _ (fl : Floats) (readers : LineReaders fl.F) where
  open fl use {F, ratio, lt}
  open readers use {csv_row}

  -- The number of columns of a line, if it has several.
  abbrev several : Option (List String) → List ℕ → List ℕ
  several none rest = rest
  several (some row) rest = if ltb 1 (length row) then length row ∷ rest else rest

  unfoldable pub column_counts : String → List String → List ℕ
  unfolding strip first_is
  column_counts delim [] = []
  column_counts delim (l ∷ ls) =
      let rest = column_counts delim ls in
      let s = strip l in
      if s == "" || (starts_with s "CEF:" || (starts_with s "LEEF:" || first_is 60 s))
      then rest
      else several (csv_row delim s) rest

  -- Every line, or at least 85 % of them, has the same number of columns.
  abbrev is_regular : List ℕ → Bool
  is_regular [] = false
  is_regular (c ∷ []) = false
  is_regular (c ∷ d ∷ cs) =
      let all_counts = c ∷ d ∷ cs in
      let (n, freq) = most_common eqb (c, 0) (votes_of eqb all_counts []) in
      (all (λ x. eqb x c) all_counts && leb 2 c)
      || (ge fl (ratio freq (length all_counts)) (ratio 85 100) && leb 2 n)

  unfoldable pub first_regular : List String → List String → Option String
  unfolding column_counts most_common votes_of
  first_regular [] lines = none
  first_regular (d ∷ ds) lines =
      let rest = first_regular ds lines in
      if is_regular (column_counts d (take 50 lines)) then some d else rest

  unfoldable pub detect_delimiter : List String → Option String
  unfolding first_regular
  detect_delimiter [] = none
  detect_delimiter (l ∷ lines) = first_regular delimiters (l ∷ lines)

  pub record BatchFormat : Type 0 where
    pub format : LogFormat
    pub confidence : F
    pub delimiter : Option String
    pub format_distribution : Dict ℕ

  abbrev is_structured : String → Bool
  is_structured l = is_cef l || (is_leef l || (is_syslog_5424 readers l || is_json fl readers l))

  -- The dominant format by the votes of the lines.
  abbrev by_votes : ℕ → List (LogFormat × ℕ) → BatchFormat
  by_votes total [] = record {
    format = unknown;
    confidence = zero_float fl;
    delimiter = none;
    format_distribution = [];
  }
  by_votes total (v ∷ votes) =
      let (dominant, n) = most_common same_format v votes in
      record {
        format = dominant;
        confidence = ratio n total;
        delimiter = none;
        format_distribution = map (λ (f, k). (value_of f, k)) (v ∷ votes);
      }

  abbrev csv_batch : String → ℕ → BatchFormat
  csv_batch delim n = record {
    format = csv;
    confidence = ratio 95 100;
    delimiter = some delim;
    format_distribution = ("CSV", n) ∷ [];
  }

  abbrev or_csv : Option String → List String → BatchFormat → BatchFormat
  or_csv none lines rest = rest
  or_csv (some delim) lines rest =
      if lt (ratio (count_if is_structured lines) (length lines)) (ratio 20 100)
      then csv_batch delim (length lines)
      else rest

  unfoldable pub detect_batch_format : List String → BatchFormat
  unfolding clean_lines detect_delimiter detect_format is_json is_cef is_leef is_syslog_5424
      votes_of most_common
  detect_batch_format lines =
      let clean = clean_lines lines in
      or_csv (detect_delimiter clean) clean (
        by_votes (length clean)
          (votes_of same_format (map (λ l. (detect_format fl readers l).format) clean) []))
