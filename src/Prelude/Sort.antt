-- ===== src/Prelude/Sort.antt =====
-- Sorting by a Boolean order, for `ORDER BY`, and the first items of a list, for `LIMIT`.
use Prim.Native.Nat.{ℕ, zero, suc, ◌≤◌}
use mathlib.Core.Path.{◌≡◌, refl, ap}
use mathlib.Core.Logic.{inl, inr}
use mathlib.Core.Bool.{Bool, true, false}
use mathlib.Core.List.{List, [], ◌∷◌}
use native.Mathlib.Omega.{arith}
use tesseract_go_api.Prelude.Tests.{if◌then◌else◌, Bool-cases}
use tesseract_go_api.Prelude.Lists.{length, All, filter, All-filter, All-imp}

module _ {ℓ} {A : Type ℓ} where
  abbrev pub take : ℕ → List A → List A
  take zero rows = []
  take (suc limit) [] = []
  take (suc limit) (row ∷ rows) = row ∷ take limit rows

  abbrev pub drop : ℕ → List A → List A
  drop zero rows = rows
  drop (suc limit) [] = []
  drop (suc limit) (row ∷ rows) = drop limit rows

  -- A limit that no row exceeds.
  pub take_of_few : (rows : List A) (limit : ℕ) → length rows ≤ limit → take limit rows ≡ rows
  take_of_few [] zero few = refl
  take_of_few [] (suc limit) few = refl
  take_of_few (row ∷ rows) zero few = absurd (omega arith)
  take_of_few (row ∷ rows) (suc limit) few = ap (◌∷◌ row) (take_of_few rows limit (omega arith))

module _ {ℓ} {A : Type ℓ} (le : A → A → Bool) where
  unfoldable pub insert_by : A → List A → List A
  insert_by x [] = x ∷ []
  insert_by x (y ∷ ys) = if le x y then x ∷ y ∷ ys else y ∷ insert_by x ys

  unfoldable pub sort_by : List A → List A
  unfolding insert_by
  sort_by [] = []
  sort_by (x ∷ xs) = insert_by x (sort_by xs)

  -- Every item comes before all that follow.
  abbrev pub IsSorted : List A → Type 0
  IsSorted [] = Unit
  IsSorted (x ∷ xs) = All (λ y. le x y ≡ true) xs × IsSorted xs

  insert_by-All : (P : A → Type 0) (x : A) (ys : List A) → P x → All P ys → All P (insert_by x ys)
  unfolding insert_by
  insert_by-All P x [] p h = (p, tt)
  insert_by-All P x (y ∷ ys) p h = elim (Bool-cases (le x y)) [
    | inl t ↦ rw t (p, h)
    | inr t ↦ rw t (h.0, insert_by-All P x ys p h.1)
  ]

  pub sort_by-All : (P : A → Type 0) (xs : List A) → All P xs → All P (sort_by xs)
  unfolding sort_by
  sort_by-All P [] h = tt
  sort_by-All P (x ∷ xs) h = insert_by-All P x (sort_by xs) h.0 (sort_by-All P xs h.1)

  -- What comes before all of a list goes to its front.
  insert_by-front : (x : A) (ys : List A) → All (λ y. le x y ≡ true) ys → insert_by x ys ≡ x ∷ ys
  unfolding insert_by
  insert_by-front x [] h = refl
  insert_by-front x (y ∷ ys) h = rw h.0

  length-insert_by : (x : A) (ys : List A) → length (insert_by x ys) ≡ suc (length ys)
  unfolding insert_by
  length-insert_by x [] = refl
  length-insert_by x (y ∷ ys) = ground (arith, length-insert_by x ys)

  pub length-sort_by : (xs : List A) → length (sort_by xs) ≡ length xs
  unfolding sort_by
  length-sort_by [] = refl
  length-sort_by (x ∷ xs) = omega (arith, length-insert_by x (sort_by xs), length-sort_by xs)

  module _ (total : (x y : A) → le x y ≡ false → le y x ≡ true)
      (trans : (x y z : A) → le x y ≡ true → le y z ≡ true → le x z ≡ true) where
    insert_by-IsSorted : (x : A) (ys : List A) → IsSorted ys → IsSorted (insert_by x ys)
    unfolding insert_by
    insert_by-IsSorted x [] h = (tt, tt)
    insert_by-IsSorted x (y ∷ ys) (h, s) = elim (Bool-cases (le x y)) [
      | inl t ↦ rw t ((t, All-imp _ _ ys (λ z e. trans x y z t e) h), (h, s))
      | inr t ↦
          rw t (insert_by-All (λ z. le y z ≡ true) x ys (total x y t) h, insert_by-IsSorted x ys s)
    ]

    pub sort_by-IsSorted : (xs : List A) → IsSorted (sort_by xs)
    unfolding sort_by
    sort_by-IsSorted [] = tt
    sort_by-IsSorted (x ∷ xs) = insert_by-IsSorted x (sort_by xs) (sort_by-IsSorted xs)

    filter-insert_by :
        (p : A → Bool) (x : A) (ys : List A)
        → IsSorted ys
        → filter p (insert_by x ys) ≡ (if p x then insert_by x (filter p ys) else filter p ys)
    unfolding insert_by
    filter-insert_by p x [] h = ground arith
    filter-insert_by p x (y ∷ ys) (h, s) = elim (Bool-cases (le x y)) [
      | inl t ↦
          let before : All (λ z. le x z ≡ true) (filter p (y ∷ ys)) =
            All-filter _ p (y ∷ ys) (t, All-imp _ _ ys (λ z e. trans x y z t e) h) in
          ground (arith, insert_by-front x (filter p (y ∷ ys)) before)
      | inr t ↦ ground (arith, filter-insert_by p x ys s)
    ]

    -- It is one whether the rows are selected before they are sorted or after.
    pub filter-sort_by :
        (p : A → Bool) (xs : List A) → filter p (sort_by xs) ≡ sort_by (filter p xs)
    unfolding sort_by
    filter-sort_by p [] = refl
    filter-sort_by p (x ∷ xs) =
        ground (arith, filter-insert_by p x (sort_by xs) (sort_by-IsSorted xs), filter-sort_by p xs)
