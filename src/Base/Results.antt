-- ===== src/Base/Results.antt =====
-- The outcome of a Python function that may raise: `err` carries the exception.

use mathlib.Core.Path.{◌≡◌, refl}
use mathlib.Core.Logic.{◌⊎◌, inl, inr}

pub data Result {ℓ κ} (E : Type ℓ) (A : Type κ) : Type (ℓ ⊔ κ) where
  err : E → Result E A
  ok : A → Result E A

-- The rest of a function runs if the call before it did not raise.
infixl 5 ◌>>=◌
abbrev pub ◌>>=◌ {i j k} :
    {Exc : Type i} {X : Type j} {Y : Type k} → Result Exc X → (X → Result Exc Y) → Result Exc Y
err exception >>= _ = err exception
ok x >>= rest = rest x

module _ {i j} {Exc : Type i} {X : Type j} where
  pub err-ok : {e : Exc} {x : X} → ◌≡◌ {A = Result Exc X} (err e) (ok x) → ⊥
  err-ok p = cc

  pub ok-injective : {x y : X} → ◌≡◌ {A = Result Exc X} (ok x) (ok y) → x ≡ y
  ok-injective h = cc

  pub Result-cases : (r : Result Exc X) → ((x : X) × (r ≡ ok x)) ⊎ ((e : Exc) × (r ≡ err e))
  Result-cases (ok x) = inl (x, refl)
  Result-cases (err e) = inr (e, refl)

-- If the whole function returns, its first call does, and the rest returns the same.
pub bind_ok {i j k} :
    {Exc : Type i} {X : Type j} {Y : Type k} (r : Result Exc X) (rest : X → Result Exc Y) {y : Y}
    → r >>= rest ≡ ok y
    → (x : X) × (r ≡ ok x) × (rest x ≡ ok y)
bind_ok (ok x) rest h = (x, refl, h)
bind_ok (err e) rest h = absurd (err-ok h)

-- The function does not raise.
abbrev pub Returns {i j} : {Exc : Type i} {X : Type j} → Result Exc X → Type (i ⊔ j)
Returns {Exc} {X} r = (x : X) × (r ≡ ok x)

pub bind-Returns {i j k} :
    {Exc : Type i} {X : Type j} {Y : Type k} (r : Result Exc X) (rest : X → Result Exc Y)
    → Returns r
    → ((x : X) → Returns (rest x))
    → Returns (r >>= rest)
bind-Returns r rest (x, e) h = rw e (h x)
