-- ===== src/Bench/Lines.antt =====
-- Python's `str.splitlines`, and the lines of joined text.
use Prim.Native.Char.{Char, code}
use Prim.Native.String.append
use ulpx.Base.{
  String, ◌≡◌, refl, ap, ◌∙◌, Bool, true, false, ◌||◌, ◌&&◌, List, [], ◌∷◌, eqb, leb, if◌then◌else◌,
  All, arith, ◌==◌, Bool-cases, inl, inr, eq_refl,
}
use ulpx.Base.Text.{join, ◌<>◌}

-- The characters that end a line.
abbrev is_break : Char → Bool
is_break c =
    (leb 10 (code c) && leb (code c) 13)
    || ((leb 28 (code c) && leb (code c) 30)
        || (eqb (code c) 133 || (eqb (code c) 8232 || eqb (code c) 8233)))

abbrev opens_newline : String → Bool
opens_newline String.[] = false
opens_newline (String.◌∷◌ c s) = eqb (code c) 10

-- `s.startswith(".")`
unfoldable pub opens_dot : String → Bool
opens_dot String.[] = false
opens_dot (String.◌∷◌ c s) = eqb (code c) b'.'

abbrev glue : Char → List String → List String
glue c [] = String.◌∷◌ c "" ∷ []
glue c (l ∷ ls) = String.◌∷◌ c l ∷ ls

-- A carriage return and the newline after it end one line.
unfoldable pub splitlines : String → List String
splitlines String.[] = []
splitlines (String.◌∷◌ c s) =
    let rest = splitlines s in
    if is_break c
    then (if eqb (code c) 13 && opens_newline s then rest else "" ∷ rest)
    else glue c rest

-- No character of the text ends a line.
unfoldable pub is_line : String → Bool
is_line String.[] = true
is_line (String.◌∷◌ c s) = let rest = is_line s in if is_break c then false else rest

abbrev pub IsLine : String → Type 0
IsLine s = is_line s ≡ true

splitlines-line :
    (c : Char) (s : String)
    → IsLine (String.◌∷◌ c s)
    → splitlines (String.◌∷◌ c s) ≡ String.◌∷◌ c s ∷ []
unfolding splitlines is_line
splitlines-line c String.[] h = ground arith
splitlines-line c (String.◌∷◌ d s) h = ground (arith, splitlines-line d s)

splitlines-append : (l t : String) → IsLine l → splitlines (l <> "\n" <> t) ≡ l ∷ splitlines t
unfolding splitlines is_line
splitlines-append String.[] t h = rw (append.nil ("\n" <> t), append.cons "\n" "" t, append.nil t)
splitlines-append (String.◌∷◌ c s) t h = elim (Bool-cases (is_break c)) [
  | inl ends ↦ absurd (ground (arith))
  | inr stays ↦ rw (append.cons c s ("\n" <> t), stays, splitlines-append s t (ground arith))
]

-- Text without a line break and not empty.
abbrev pub IsFull : String → Type 0
IsFull s = IsLine s × ((s == "") ≡ false)

full : (l : String) → IsFull l → splitlines l ≡ l ∷ []
full String.[] (_, h) = absurd (ground (arith, eq_refl ""))
full (String.◌∷◌ c s) (h, _) = splitlines-line c s h

pub splitlines-join : (ls : List String) → All IsFull ls → splitlines (join "\n" ls) ≡ ls
unfolding join splitlines
splitlines-join [] h = refl
splitlines-join (l ∷ []) (h, _) = full l h
splitlines-join (l ∷ m ∷ ls) ((line, _), h) =
    splitlines-append l (join "\n" (m ∷ ls)) line
    ∙ ap (λ rest. l ∷ rest) (splitlines-join (m ∷ ls) h)

pub append-IsLine : (s t : String) → IsLine s → IsLine t → IsLine (s <> t)
unfolding is_line
append-IsLine String.[] t h k = rw (append.nil t) k
append-IsLine (String.◌∷◌ c s) t h k = elim (Bool-cases (is_break c)) [
  | inl ends ↦ absurd (ground (arith))
  | inr stays ↦ rw (append.cons c s t, stays) (append-IsLine s t (ground arith) k)
]
