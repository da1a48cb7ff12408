-- ===== src/Mapper/Names.antt =====
-- ml/semantic_mapper/mapper.py: names brought to one form, and how alike two of them are. The ratio
-- of difflib's SequenceMatcher is an argument.
use Prim.Native.Char.{Char, code}
use ulpx.Base.{String, Bool, ◌||◌, ◌&&◌, ◌==◌, leb, eqb, if◌then◌else◌}
use ulpx.Base.Text.{lower, strip, is_in}
use ulpx.Base.Floats.{Floats, zero_float, one_float}

-- `[a-z0-9]`
abbrev is_kept : Char → Bool
is_kept c = (leb b'a' (code c) && leb (code c) b'z') || (leb b'0' (code c) && leb (code c) b'9')

-- `re.sub(r"[^a-z0-9]", "", s)`
unfoldable pub keep_alphanumeric : String → String
keep_alphanumeric String.[] = String.[]
keep_alphanumeric (String.◌∷◌ c s) =
    let rest = keep_alphanumeric s in if is_kept c then String.◌∷◌ c rest else rest

-- `_normalize_name`
unfoldable pub normalize_name : String → String
unfolding keep_alphanumeric lower strip
normalize_name name = keep_alphanumeric (lower (strip name))

-- `s.endswith(t)`
unfoldable pub ends_with : String → String → Bool
ends_with String.[] t = t == ""
ends_with (String.◌∷◌ c s) t = (String.◌∷◌ c s == t) || ends_with s t

-- `path.split(".")[-1]`
unfoldable pub leaf : String → String
unfolding is_in
leaf String.[] = String.[]
leaf (String.◌∷◌ c s) =
    let rest = leaf s in
    if is_in "." s then rest else if eqb (code c) b'.' then s else String.◌∷◌ c s

module _ (fl : Floats) (sequence_ratio : String → String → fl.F) where
  open fl use {F, ratio, round}

  abbrev similarity_of : String → String → F
  similarity_of r t =
      if r == "" || t == ""
      then zero_float fl
      else if r == t
      then one_float fl
      else if ends_with r t || ends_with t r
      then ratio 90 100
      else round (sequence_ratio r t) 3

  unfoldable pub compute_lexical_similarity : String → String → F
  unfolding keep_alphanumeric lower ends_with
  compute_lexical_similarity raw target =
      similarity_of (keep_alphanumeric (lower raw)) (keep_alphanumeric (lower target))
