-- ===== src/Ingest/Ulid.antt =====
-- scripts/cli.py: `generate_contract_ulid`. The time in milliseconds and the random choices, as places
-- in the alphabet, are arguments.
use Prim.Native.Char.{Char, code}
use Prim.Native.String.{String, char_at}
use ulpx.Base.{
  ℕ, zero, suc, ◌+◌, ◌-◌, ◌*◌, ◌/◌, ◌%◌, ◌^◌, ◌<◌, ◌≡◌, refl, ap, ◌∙◌, ◌&&◌, List, [], ◌∷◌, ◌++◌,
  length, map, leb, All, arith, Result, ok, err, ◌>>=◌, if◌then◌else◌,
}

pub data UlidError : Type 0 where
  -- ValueError: `int(c, 32)` of a character that is no digit to the base 32.
  no_digit : UlidError

abbrev pub ulid_encoding : String
ulid_encoding = "0123456789ABCDEFGHJKMNPQRSTVWXYZ"

-- The five bits of the time at place `i`: `(t_ms >> (5 * i)) & 31`.
abbrev pub group : ℕ → ℕ → ℕ
group t i = t / 2 ^ (5 * i) % 32

-- The places in the alphabet of the ten time characters, the highest group first.
abbrev pub time_places : ℕ → List ℕ
time_places t = map (group t) (9 ∷ 8 ∷ 7 ∷ 6 ∷ 5 ∷ 4 ∷ 3 ∷ 2 ∷ 1 ∷ 0 ∷ [])

-- `int(c, 32)` of a character of the alphabet: its letters are digits up to V.
abbrev pub digit_32 : Char → Result UlidError ℕ
digit_32 c =
    if leb b'0' (code c) && leb (code c) b'9'
    then ok (code c - b'0')
    else if leb b'A' (code c) && leb (code c) b'V'
    then ok (code c - b'A' + 10)
    else err no_digit

abbrev pub encode : ℕ → Char
encode n = char_at ulid_encoding n

-- The first character is brought down to a digit below 8.
unfoldable pub generate_contract_ulid : ℕ → List ℕ → Result UlidError (List Char)
generate_contract_ulid t choices = digit_32 (encode (group t 9)) >>= λ first. ok (
    encode (first % 8)
    ∷ (map encode (
          group t 8
          ∷ group t 7
          ∷ group t 6
          ∷ group t 5
          ∷ group t 4
          ∷ group t 3
          ∷ group t 2
          ∷ group t 1
          ∷ group t 0
          ∷ [])
        ++ map encode choices))

-- The number that places of the alphabet write.
abbrev pub read_places : List ℕ → ℕ → ℕ
read_places [] acc = acc
read_places (d ∷ ds) acc = read_places ds (acc * 32 + d)

read_time : (t : ℕ) → t < 2 ^ 50 → read_places (time_places t) 0 ≡ t
read_time t h = omega arith

-- The digits below 8 stand at their own places.
digit_small : (n : ℕ) → n < 8 → digit_32 (encode n) ≡ ok n
digit_small zero h = refl
digit_small (suc zero) h = refl
digit_small (suc (suc zero)) h = refl
digit_small (suc (suc (suc zero))) h = refl
digit_small (suc (suc (suc (suc zero)))) h = refl
digit_small (suc (suc (suc (suc (suc zero))))) h = refl
digit_small (suc (suc (suc (suc (suc (suc zero)))))) h = refl
digit_small (suc (suc (suc (suc (suc (suc (suc zero))))))) h = refl
digit_small (suc (suc (suc (suc (suc (suc (suc (suc n)))))))) h = absurd (omega arith)

length-map {ℓ} : {A B : Type ℓ} (f : A → B) (xs : List A) → length (map f xs) ≡ length xs
length-map f [] = refl
length-map f (x ∷ xs) = ap suc (length-map f xs)

group-below : (t i : ℕ) → group t i < 32
group-below t i = omega arith

-- For a time below 2 ^ 48 and 16 random places, an id is generated: 26 characters of the alphabet, the
-- first of them one of 0 to 7; the places of the first ten write the time to the base 32, and those
-- of the others are the random ones.
pub generate_contract_ulid_outcome :
    (t : ℕ) (choices : List ℕ)
    → t < 2 ^ 48
    → length choices ≡ 16
    → (generate_contract_ulid t choices ≡ ok (map encode (time_places t ++ choices)))
      × (length (map encode (time_places t ++ choices)) ≡ 26)
      × (group t 9 < 8)
      × All (λ n. n < 32) (time_places t)
      × (read_places (time_places t) 0 ≡ t)
unfolding generate_contract_ulid
generate_contract_ulid_outcome t choices h n = (
  rw (digit_small (group t 9) top) (ap (λ m. ok (encode m ∷ others)) (omega (arith, top))),
  length-map encode (time_places t ++ choices) ∙ omega (arith, n),
  top,
  (
    group-below t 9,
    (
      group-below t 8,
      (
        group-below t 7,
        (
          group-below t 6,
          (
            group-below t 5,
            (
              group-below t 4,
              (group-below t 3, (group-below t 2, (group-below t 1, (group-below t 0, tt)))),
            ),
          ),
        ),
      ),
    ),
  ),
  read_time t (omega (arith, h)),
)
  where
    top : group t 9 < 8
    top = omega (arith, h)

    others : List Char
    others = map encode (
        group t 8
        ∷ group t 7
        ∷ group t 6
        ∷ group t 5
        ∷ group t 4
        ∷ group t 3
        ∷ group t 2
        ∷ group t 1
        ∷ group t 0
        ∷ choices)
