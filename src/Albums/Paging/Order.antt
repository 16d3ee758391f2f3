-- ===== src/Albums/Paging/Order.antt =====
-- The keyset order: newest first, and the larger id first among equal times.
use mathlib.Core.Path.{subst}
use tesseract_go_api.Prelude.{
  ℕ, zero, suc, ◌≡◌, refl, sym, inl, inr, Bool, true, false, not, List, [], ◌∷◌, some, arith, ◌==◌,
  Bool-cases, All, filter, any, All-filter, IsUnique, take, drop, sort_by, insert_by, IsSorted,
}
use tesseract_go_api.Albums.Queries.{RowKey, is_below}
use tesseract_go_api.Albums.Lists.{last}

pub is_below_irrefl : (a : RowKey) → is_below a a ≡ false
is_below_irrefl (t, i) = ground arith

pub is_below_asym : (a b : RowKey) → is_below a b ≡ true → is_below b a ≡ false
is_below_asym (t, i) (t', i') h = ground arith

pub is_below_trans :
    (a b c : RowKey) → is_below a b ≡ true → is_below b c ≡ true → is_below a c ≡ true
is_below_trans (t, i) (t', i') (t'', i'') h k = ground arith

not_below_trans :
    (a b c : RowKey) → is_below b a ≡ false → is_below c b ≡ false → is_below c a ≡ false
not_below_trans (t, i) (t', i') (t'', i'') h k = ground arith

below_or_same : (a b : RowKey) → is_below b a ≡ false → (a.1 == b.1) ≡ false → is_below a b ≡ true
below_or_same (t, i) (t', i') h k = ground arith

module _ {A : Type 0} (key : A → RowKey) where
  -- `ORDER BY` on the key.
  abbrev pub le : A → A → Bool
  le a b = not (is_below (key b) (key a))

  pub le_total : (x y : A) → le x y ≡ false → le y x ≡ true
  le_total x y h = ground (arith, is_below_asym (key y) (key x))

  pub le_trans : (x y z : A) → le x y ≡ true → le y z ≡ true → le x z ≡ true
  le_trans x y z h k = ground (arith, not_below_trans (key x) (key y) (key z))

  -- Two rows with the same id.
  abbrev pub same_id : A → A → Bool
  same_id x y = (key x).1 == (key y).1

  any-insert_by :
      (p : A → Bool) (x : A) (ys : List A)
      → p x ≡ false
      → any p ys ≡ false
      → any p (insert_by le x ys) ≡ false
  unfolding insert_by
  any-insert_by p x [] h k = ground arith
  any-insert_by p x (y ∷ ys) h k = ground (arith, any-insert_by p x ys)

  any-sort_by : (p : A → Bool) (xs : List A) → any p xs ≡ false → any p (sort_by le xs) ≡ false
  unfolding sort_by
  any-sort_by p [] h = refl
  any-sort_by p (x ∷ xs) h =
      any-insert_by p x (sort_by le xs) (ground arith) (any-sort_by p xs (ground arith))

  IsUnique-insert_by :
      (x : A) (ys : List A)
      → any (same_id x) ys ≡ false
      → IsUnique same_id ys
      → IsUnique same_id (insert_by le x ys)
  unfolding insert_by
  IsUnique-insert_by x [] h u = (refl, tt)
  IsUnique-insert_by x (y ∷ ys) h (k, u) = elim (Bool-cases (le x y)) [
    | inl t ↦ rw t (h, (k, u))
    | inr t ↦
        rw t (
          any-insert_by (same_id y) x ys (ground arith) k,
          IsUnique-insert_by x ys (ground arith) u,
        )
  ]

  pub IsUnique-sort_by : (xs : List A) → IsUnique same_id xs → IsUnique same_id (sort_by le xs)
  unfolding sort_by
  IsUnique-sort_by [] h = tt
  IsUnique-sort_by (x ∷ xs) (h, u) =
      IsUnique-insert_by x (sort_by le xs) (any-sort_by (same_id x) xs h) (IsUnique-sort_by xs u)

  -- Every row is strictly above all that follow.
  abbrev pub IsStrict : List A → Type 0
  IsStrict [] = Unit
  IsStrict (x ∷ xs) = All (λ y. is_below (key x) (key y) ≡ true) xs × IsStrict xs

  strictly_below :
      (x : A) (ys : List A)
      → All (λ y. le x y ≡ true) ys
      → any (same_id x) ys ≡ false
      → All (λ y. is_below (key x) (key y) ≡ true) ys
  strictly_below x [] h k = tt
  strictly_below x (y ∷ ys) (h, hs) k = (
    below_or_same (key x) (key y) (ground arith) (ground arith),
    strictly_below x ys hs (ground arith),
  )

  pub IsStrict-of : (xs : List A) → IsSorted le xs → IsUnique same_id xs → IsStrict xs
  IsStrict-of [] h u = tt
  IsStrict-of (x ∷ xs) (h, hs) (u, us) = (strictly_below x xs h u, IsStrict-of xs hs us)

  pub IsStrict-filter : (p : A → Bool) (xs : List A) → IsStrict xs → IsStrict (filter p xs)
  IsStrict-filter p [] h = tt
  IsStrict-filter p (x ∷ xs) (h, hs) = elim (Bool-cases (p x)) [
    | inl t ↦ rw t (All-filter _ p xs h, IsStrict-filter p xs hs)
    | inr t ↦ rw t (IsStrict-filter p xs hs)
  ]

  filter_everything : (p : A → Bool) (xs : List A) → All (λ x. p x ≡ true) xs → filter p xs ≡ xs
  filter_everything p [] h = refl
  filter_everything p (x ∷ xs) (h, hs) = ground (arith, filter_everything p xs hs)

  only : (y x : A) → some y ≡ some x → x ≡ y
  only y x e = ground arith

  pub All-last :
      (P : A → Type 0) (n : ℕ) (xs : List A) (x : A) → All P xs → last (take n xs) ≡ some x → P x
  All-last P zero xs x h e = absurd (ground arith)
  All-last P (suc n) [] x h e = absurd (ground arith)
  All-last P (suc zero) (y ∷ ys) x (h, hs) e = rw (only y x e) h
  All-last P (suc (suc n)) (y ∷ []) x (h, hs) e = rw (only y x e) h
  All-last P (suc (suc n)) (y ∷ z ∷ zs) x (h, hs) e = All-last P (suc n) (z ∷ zs) x hs e

  after_head :
      (y : A) (ys : List A)
      → All (λ z. is_below (key y) (key z) ≡ true) ys
      → filter (λ z. is_below (key y) (key z)) (y ∷ ys) ≡ ys
  after_head y ys h =
      rw (is_below_irrefl (key y)) (filter_everything (λ z. is_below (key y) (key z)) ys h)

  -- Behind the last row of a page stands what the page left.
  pub filter-after_last :
      (n : ℕ) (xs : List A) (x : A)
      → IsStrict xs
      → last (take n xs) ≡ some x
      → filter (λ y. is_below (key x) (key y)) xs ≡ drop n xs
  filter-after_last zero xs x h e = absurd (ground arith)
  filter-after_last (suc n) [] x h e = absurd (ground arith)
  filter-after_last (suc zero) (y ∷ ys) x (h, hs) e =
      subst (λ z. filter (λ w. is_below (key z) (key w)) (y ∷ ys) ≡ ys) (sym (only y x e))
        (after_head y ys h)
  filter-after_last (suc (suc n)) (y ∷ []) x (h, hs) e = rw (only y x e) (after_head y [] h)
  filter-after_last (suc (suc n)) (y ∷ z ∷ zs) x (h, hs) e =
      let above : is_below (key y) (key x) ≡ true = All-last _ (suc n) (z ∷ zs) x h e in
      ground (arith, is_below_asym (key y) (key x), filter-after_last (suc n) (z ∷ zs) x hs e)
