-- ===== src/Mapper/Types.antt =====
-- ml/semantic_mapper/mapper.py: whether an observed type fits a canonical field.
use Prim.Native.Char.{code}
use ulpx.Base.{
  ℕ, zero, suc, String, ◌≡◌, refl, Bool, true, false, not, ◌||◌, ◌&&◌, Option, none, some, List, [],
  ◌∷◌, ◌==◌, any, is_empty, eqb, if◌then◌else◌, ◌++◌, All, Bool-cases, inl, inr,
}
use ulpx.Base.Text.{digits_from, strip}
use ulpx.Base.Value.{Value, str, int}
use ulpx.Base.Int.{ℤ}
use ulpx.Mapper.{FieldProfile}

-- `x in xs`
abbrev pub mem : String → List String → Bool
mem x xs = any (λ y. y == x) xs

-- The magnitude that `int(text)` reads after its sign; digits are ASCII and not grouped.
abbrev unsigned : String → Option ℕ
unsigned s = if s == "" then none else digits_from 0 s

abbrev signed : String → Option ℕ
signed String.[] = none
signed (String.◌∷◌ c s) =
    if eqb (code c) b'-' || eqb (code c) b'+' then unsigned s else unsigned (String.◌∷◌ c s)

abbrev magnitude : ℤ → ℕ
magnitude (ℤ.pos n) = n
magnitude (ℤ.negsuc n) = suc n

-- One turn of the generator: an exception, a 0 that ends it, or the next sample.
abbrev goes_on : Option ℕ → Bool → Bool
goes_on none rest = false
goes_on (some zero) rest = true
goes_on (some (suc n)) rest = rest

abbrev expects_ip : List String → Bool
expects_ip expected = mem "ip" expected || mem "ipv4" expected || mem "ipv6" expected

abbrev pub no_integer_types : List String
no_integer_types =
    "string" ∷ "ipv4" ∷ "ipv6" ∷ "timestamp" ∷ "email" ∷ "url" ∷ "json" ∷ "array" ∷ []

-- The six early returns of (True, False), in the order of the source.
unfoldable is_direct_match : String → List String → Bool
is_direct_match raw_type expected =
    raw_type == "null"
    || (mem "string" expected && raw_type == "string")
    || mem raw_type expected
    || (expects_ip expected && mem raw_type ("ipv4" ∷ "ipv6" ∷ "ip" ∷ []))
    || (mem "integer" expected && raw_type == "integer")
    || (mem "float" expected && mem raw_type ("integer" ∷ "float" ∷ []))

abbrev is_no_ip : String → List String → Bool
is_no_ip raw_type expected =
    expects_ip expected && mem raw_type ("boolean" ∷ "float" ∷ "array" ∷ "json" ∷ [])

abbrev is_no_timestamp : String → List String → Bool
is_no_timestamp raw_type expected =
    mem "timestamp" expected && mem raw_type ("boolean" ∷ "array" ∷ "json" ∷ "ipv4" ∷ "ipv6" ∷ [])

module _ {F : Type 0} where
  -- The magnitude of `int(str(v))`, none where it raises: `str` of any other value is no integer.
  unfoldable pub int_magnitude : Value F → Option ℕ
  unfolding digits_from strip
  int_magnitude (str s) = signed (strip s)
  int_magnitude (int n) = some (magnitude n)
  int_magnitude _ = none

  -- Whether `all(int(str(v)) for v in values)` returns, true or false, without an exception.
  unfoldable pub all_returns : List (Value F) → Bool
  unfolding int_magnitude
  all_returns [] = true
  all_returns (v ∷ vs) = goes_on (int_magnitude v) (all_returns vs)

  -- (is_compatible, is_hard_conflict) of a text that an integer is expected from.
  abbrev samples_verdict : Option (FieldProfile F) → Bool × Bool
  samples_verdict none = (false, true)
  samples_verdict (some p) =
      if is_empty p.sample_values
      then (false, true)
      else if all_returns p.sample_values
      then (true, false)
      else (false, true)

  abbrev not_ip : Option (FieldProfile F) → Bool
  not_ip none = false
  not_ip (some p) = not p.is_ip_candidate

  -- A text that is clearly no address.
  abbrev is_other_text : String → List String → Option (FieldProfile F) → Bool
  is_other_text raw_type expected profile =
      expects_ip expected && (raw_type == "string" && not_ip profile)

  unfoldable pub evaluate_type_compatibility :
      String → List String → Option (FieldProfile F) → Bool × Bool
  unfolding all_returns is_direct_match
  evaluate_type_compatibility raw_type expected profile =
      if is_direct_match raw_type expected
      then (true, false)
      else if mem "integer" expected && mem raw_type no_integer_types
      then samples_verdict profile
      else if is_no_ip raw_type expected
      then (false, true)
      else if is_other_text raw_type expected profile
      then (false, true)
      else if is_no_timestamp raw_type expected
      then (false, true)
      else (false, false)

  -- A sample that `int` reads.
  abbrev pub IsInteger : Value F → Type 0
  IsInteger v = (n : ℕ) × (int_magnitude v ≡ some n)

  all_returns-zero :
      (ns vs : List (Value F)) (v : Value F)
      → All IsInteger ns
      → int_magnitude v ≡ some 0
      → all_returns (ns ++ v ∷ vs) ≡ true
  unfolding all_returns
  all_returns-zero [] vs v h z = rw z refl
  all_returns-zero (x ∷ ns) vs v ((zero, e), h) z = rw e refl
  all_returns-zero (x ∷ ns) vs v ((suc n, e), h) z = rw e (all_returns-zero ns vs v h z)

  -- A field of a type from which no integer comes, of which an integer is expected, beside any other
  -- types, is compatible and in no conflict when its samples read as integers up to one that reads as
  -- 0, whatever the later samples are.
  pub types-zero_sample :
      (raw_type : String) (expected : List String) (p : FieldProfile F) (ns vs : List (Value F))
      (v : Value F)
      → mem raw_type no_integer_types ≡ true
      → mem "integer" expected ≡ true
      → p.sample_values ≡ ns ++ v ∷ vs
      → All IsInteger ns
      → int_magnitude v ≡ some 0
      → evaluate_type_compatibility raw_type expected (some p) ≡ (true, false)
  unfolding evaluate_type_compatibility
  types-zero_sample raw_type expected p ns vs v typed integer e h z =
      elim (Bool-cases (is_direct_match raw_type expected)) [
        | inl direct ↦ rw direct refl
        | inr other ↦ rw (other, integer, typed, e, filled ns, all_returns-zero ns vs v h z) refl
      ]
    where
      filled : (xs : List (Value F)) → is_empty (xs ++ v ∷ vs) ≡ false
      filled [] = refl
      filled (x ∷ xs) = refl
