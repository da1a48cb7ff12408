-- ===== src/Base/Sort.antt =====
-- Python's `sorted` under a strict order given as a test: a stable insertion sort.
use mathlib.Core.Path.{◌≡◌, refl}
use mathlib.Core.Logic.{inl, inr}
use mathlib.Core.Bool.{Bool, true, false}
use mathlib.Core.List.{List, [], ◌∷◌}
use native.Mathlib.Omega.{arith}
use Prim.Native.Nat.{suc}
use ulpx.Base.Tests.{if◌then◌else◌, if_intro, Bool-cases}
use ulpx.Base.Lists.{length, All, All-map}

module _ {ℓ} {A : Type ℓ} (less : A → A → Bool) where
  -- Before the first item that is greater: equal items keep their order.
  unfoldable pub insert_sorted : A → List A → List A
  insert_sorted x [] = x ∷ []
  insert_sorted x (y ∷ ys) = if less y x then y ∷ insert_sorted x ys else x ∷ y ∷ ys

  unfoldable pub sorted : List A → List A
  unfolding insert_sorted
  sorted [] = []
  sorted (x ∷ xs) = insert_sorted x (sorted xs)

  length-insert_sorted : (x : A) (xs : List A) → length (insert_sorted x xs) ≡ suc (length xs)
  unfolding insert_sorted
  length-insert_sorted x [] = refl
  length-insert_sorted x (y ∷ ys) = ground (arith, length-insert_sorted x ys)

  pub length-sorted : (xs : List A) → length (sorted xs) ≡ length xs
  unfolding sorted
  length-sorted [] = refl
  length-sorted (x ∷ xs) = ground (arith, length-sorted xs, length-insert_sorted x (sorted xs))

  pub All-insert_sorted {κ} :
      (P : A → Type κ) (x : A) (xs : List A) → P x → All P xs → All P (insert_sorted x xs)
  unfolding insert_sorted
  All-insert_sorted P x [] p h = (p, tt)
  All-insert_sorted P x (y ∷ ys) p (q, h) =
      if_intro (All P) (less y x) _ _ (λ _. (q, All-insert_sorted P x ys p h)) (λ _. (p, (q, h)))

  pub All-sorted {κ} : (P : A → Type κ) (xs : List A) → All P xs → All P (sorted xs)
  unfolding sorted
  All-sorted P [] h = tt
  All-sorted P (x ∷ xs) (p, h) = All-insert_sorted P x (sorted xs) p (All-sorted P xs h)

  All-of_insert_sorted {κ} :
      (P : A → Type κ) (x : A) (xs : List A) → All P (insert_sorted x xs) → P x × All P xs
  unfolding insert_sorted
  All-of_insert_sorted P x [] h = h
  All-of_insert_sorted P x (y ∷ ys) h = elim (Bool-cases (less y x)) [
    | inl before ↦
        let (q, rest) = rw before at h in
        let (p, r) = All-of_insert_sorted P x ys rest in (p, (q, r))
    | inr after ↦ let (p, r) = rw after at h in (p, r)
  ]

  -- What holds of every sorted item holds of every item.
  pub All-of_sorted {κ} : (P : A → Type κ) (xs : List A) → All P (sorted xs) → All P xs
  unfolding sorted
  All-of_sorted P [] h = tt
  All-of_sorted P (x ∷ xs) h =
      let (p, r) = All-of_insert_sorted P x (sorted xs) h in (p, All-of_sorted P xs r)

  -- No later item is less than an earlier one.
  abbrev pub IsSorted : List A → Type 0
  IsSorted [] = Unit
  IsSorted (x ∷ xs) = All (λ y. less y x ≡ false) xs × IsSorted xs

  -- The laws of a strict weak order.
  module _ (asymm : (x y : A) → less x y ≡ true → less y x ≡ false)
      (trans : (x y z : A) → less y x ≡ false → less z y ≡ false → less z x ≡ false) where
    insert_sorted-IsSorted : (x : A) (xs : List A) → IsSorted xs → IsSorted (insert_sorted x xs)
    unfolding insert_sorted
    insert_sorted-IsSorted x [] h = (tt, tt)
    insert_sorted-IsSorted x (y ∷ ys) (first, h) =
        if_intro IsSorted (less y x) _ _
          (λ before. (
            All-insert_sorted (λ z. less z y ≡ false) x ys (asymm y x before) first,
            insert_sorted-IsSorted x ys h,
          ))
          (λ after. (
            (
              after,
              All-map (λ z. less z y ≡ false) (λ z. less z x ≡ false) (λ z. trans x y z after) ys
                  first,
            ),
            (first, h),
          ))

    pub sorted-IsSorted : (xs : List A) → IsSorted (sorted xs)
    unfolding sorted
    sorted-IsSorted [] = tt
    sorted-IsSorted (x ∷ xs) = insert_sorted-IsSorted x (sorted xs) (sorted-IsSorted xs)
