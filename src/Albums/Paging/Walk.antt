-- ===== src/Albums/Paging/Walk.antt =====
-- A client that follows the cursors of a list of albums.
use tesseract_go_api.Prelude.{
  ℕ, zero, suc, pos, ◌+◌, ◌-◌, ◌*◌, ◌≤◌, ◌<◌, ◌≡◌, refl, sym, ap, ◌∙◌, inl, inr, Bool, true, ◌&&◌,
  ◌⊎◌, List, [], ◌∷◌, ◌++◌, Option, none, some, arith, Bool-cases, All, filter, IsUnique,
  IsUnique-filter, take, drop, sort_by, sort_by-IsSorted, filter-sort_by, length, take_of_few,
  to_int32_lem,
}
use tesseract_go_api.Exec.{ok}
use tesseract_go_api.Store.{Album}
use tesseract_go_api.Albums.Queries.{RowKey, is_below, is_after, is_before_or_at, select_page}
use tesseract_go_api.Albums.Lists.{last, paginate}
use tesseract_go_api.Albums.Paging.{page_from, walk, then_pages}
use tesseract_go_api.Albums.Paging.Order.{
  le_total, le_trans, same_id, IsStrict, IsStrict-of, IsStrict-filter, IsUnique-sort_by,
  filter-after_last, is_below_trans, All-last,
}

module _ {A : Type 0} where
  take-drop : (n : ℕ) (xs : List A) → take n xs ++ drop n xs ≡ xs
  take-drop zero xs = refl
  take-drop (suc n) [] = refl
  take-drop (suc n) (x ∷ xs) = ap (◌∷◌ x) (take-drop n xs)

  take-take : (n : ℕ) (xs : List A) → take n (take (suc n) xs) ≡ take n xs
  take-take zero xs = refl
  take-take (suc n) [] = refl
  take-take (suc n) (x ∷ xs) = ap (◌∷◌ x) (take-take n xs)

  -- Whether one more row is there than the page has.
  length-take-suc : (n : ℕ) (xs : List A) → (length xs ≤ n) ⊎ (length (take (suc n) xs) ≡ suc n)
  length-take-suc n [] = inl (omega arith)
  length-take-suc zero (x ∷ xs) = inr refl
  length-take-suc (suc n) (x ∷ xs) = elim (length-take-suc n xs) [
    | inl h ↦ inl (omega arith)
    | inr h ↦ inr (ap suc h)
  ]

  last-take : (n : ℕ) (xs : List A) → 1 ≤ n → 1 ≤ length xs → (a : A) × (last (take n xs) ≡ some a)
  last-take zero xs h k = absurd (omega arith)
  last-take (suc n) [] h k = absurd (omega arith)
  last-take (suc zero) (x ∷ xs) h k = (x, refl)
  last-take (suc (suc n)) (x ∷ []) h k = (x, refl)
  last-take (suc (suc n)) (x ∷ y ∷ ys) h k = last-take (suc n) (y ∷ ys) (omega arith) (omega arith)

  length-drop : (n : ℕ) (xs : List A) → length (drop n xs) ≡ length xs - n
  length-drop zero xs = omega arith
  length-drop (suc n) [] = omega arith
  length-drop (suc n) (x ∷ xs) = omega (arith, length-drop n xs)

  filter-true : (xs : List A) → filter (λ x. true) xs ≡ xs
  filter-true [] = refl
  filter-true (x ∷ xs) = ap (◌∷◌ x) (filter-true xs)

  All-of_filter : (p : A → Bool) (xs : List A) → All (λ x. p x ≡ true) (filter p xs)
  All-of_filter p [] = tt
  All-of_filter p (x ∷ xs) = elim (Bool-cases (p x)) [
    | inl t ↦ rw t (t, All-of_filter p xs)
    | inr t ↦ rw t (All-of_filter p xs)
  ]

  filter_and : (p q : A → Bool) (xs : List A) → filter (λ x. p x && q x) xs ≡ filter q (filter p xs)
  filter_and p q [] = refl
  filter_and p q (x ∷ xs) = ground (arith, filter_and p q xs)

  filter_narrow :
      (p q : A → Bool) (xs : List A)
      → ((x : A) → p x ≡ true → q x ≡ true)
      → filter p (filter q xs) ≡ filter p xs
  filter_narrow p q [] h = refl
  filter_narrow p q (x ∷ xs) h = ground (arith, h x, filter_narrow p q xs h)

  -- A page of all that is left, and a page with more behind it.
  paginate_last :
      (n : ℕ) (xs : List A)
      → suc n < 2_147_483_648
      → length xs ≤ n
      → paginate (pos n) (take (suc n) xs) ≡ ok (xs, none)
  unfolding paginate
  paginate_last n xs b h =
      rw (take_of_few xs (suc n) (omega arith)) (ground (arith, to_int32_lem (n + 1) (omega arith)))

  paginate_more :
      (n : ℕ) (xs : List A) (a : A)
      → suc n < 2_147_483_648
      → length (take (suc n) xs) ≡ suc n
      → last (take n xs) ≡ some a
      → paginate (pos n) (take (suc n) xs) ≡ ok (take n xs, some a)
  unfolding paginate
  paginate_more n xs a b h e = ground (arith, to_int32_lem (n + 1) (omega arith), take-take n xs)

fewer : (pages n : ℕ) (xs : List Album) → length xs ≤ suc pages * n → length (drop n xs) ≤ pages * n
fewer pages n xs h = omega (arith, length-drop n xs)

one_more :
    (pages n : ℕ) (xs : List Album) → length xs ≤ suc pages * n → suc n ≤ length xs → 1 ≤ pages
one_more zero n xs h k = absurd (omega arith)
one_more (suc pages) n xs h k = omega arith

is_after_trans :
    (c : Option RowKey) (k l : RowKey)
    → is_after c k ≡ true
    → is_below k l ≡ true
    → is_after c l ≡ true
is_after_trans none k l h e = refl
is_after_trans (some c) k l h e = is_below_trans c k l h e

module _ (key : Album → RowKey) (where_ : Album → Bool) (albums : List Album) where
  -- All rows of the list, in order.
  abbrev pub in_key_order : List Album
  in_key_order = sort_by (is_before_or_at key) (filter where_ albums)

  after_cursor :
      (c : Option RowKey) (n : ℕ)
      → select_page key where_ c n albums ≡ take n (filter (λ a. is_after c (key a)) in_key_order)
  unfolding select_page
  after_cursor c n = ap (take n) (
      ap (sort_by (is_before_or_at key)) (filter_and where_ (λ a. is_after c (key a)) albums)
      ∙ sym (
          filter-sort_by (is_before_or_at key) (le_total key) (le_trans key)
            (λ a. is_after c (key a)) (filter where_ albums)))

  module _ (unique : IsUnique (same_id key) albums) (n : ℕ) (positive : 1 ≤ n)
      (small : suc n < 2_147_483_648) where
    order-IsStrict : IsStrict key in_key_order
    order-IsStrict =
        IsStrict-of key in_key_order
          (sort_by-IsSorted (is_before_or_at key) (le_total key) (le_trans key)
            (filter where_ albums))
          (IsUnique-sort_by key (filter where_ albums)
            (IsUnique-filter (same_id key) where_ albums unique))

    -- What is left at a cursor.
    abbrev left_at : Option RowKey → List Album
    left_at c = filter (λ a. is_after c (key a)) in_key_order

    left_at-IsStrict : (c : Option RowKey) → IsStrict key (left_at c)
    left_at-IsStrict c = IsStrict-filter key (λ a. is_after c (key a)) in_key_order order-IsStrict

    -- Behind the last row of a page stands what the page left.
    left_at-next :
        (c : Option RowKey) (a : Album)
        → last (take n (left_at c)) ≡ some a
        → left_at (some (key a)) ≡ drop n (left_at c)
    left_at-next c a e =
        let here : is_after c (key a) ≡ true =
          All-last key (λ x. is_after c (key x) ≡ true) n (left_at c) a
            (All-of_filter (λ x. is_after c (key x)) in_key_order) e in
        sym (
          filter_narrow (λ y. is_below (key a) (key y)) (λ y. is_after c (key y)) in_key_order
            (λ y below. is_after_trans c (key a) (key y) here below))
        ∙ filter-after_last key n (left_at c) a (left_at-IsStrict c) e

    page_last :
        (c : Option RowKey)
        → length (left_at c) ≤ n
        → page_from key where_ albums n c ≡ ok (left_at c, none)
    unfolding page_from
    page_last c h = rw (after_cursor c (suc n)) (paginate_last n (left_at c) small h)

    page_more :
        (c : Option RowKey) (a : Album)
        → length (take (suc n) (left_at c)) ≡ suc n
        → last (take n (left_at c)) ≡ some a
        → page_from key where_ albums n c ≡ ok (take n (left_at c), some a)
    unfolding page_from
    page_more c a h e = rw (after_cursor c (suc n)) (paginate_more n (left_at c) a small h e)

    length-take_le : (m : ℕ) (xs : List Album) → length (take m xs) ≤ length xs
    length-take_le zero xs = omega arith
    length-take_le (suc m) [] = omega arith
    length-take_le (suc m) (x ∷ xs) = omega (arith, length-take_le m xs)

    walk_left :
        (pages : ℕ) (c : Option RowKey)
        → length (left_at c) ≤ pages * n
        → 1 ≤ pages
        → walk key where_ albums n pages c ≡ left_at c
    unfolding walk
    walk_left zero c h k = absurd (omega arith)
    walk_left (suc pages) c h k = elim (length-take-suc n (left_at c)) [
      | inl few ↦ rw (page_last c few) refl
      | inr many ↦
          let more : suc n ≤ length (left_at c) =
            omega (arith, length-take_le (suc n) (left_at c)) in
          let (a, e) = last-take n (left_at c) positive (omega arith) in
          let next = left_at-next c a e in
          let shorter : length (left_at (some (key a))) ≤ pages * n =
            rw next (fewer pages n (left_at c) h) in
          ap (then_pages key (λ c. walk key where_ albums n pages c)) (page_more c a many e)
          ∙ ap (◌++◌ (take n (left_at c)))
              (walk_left pages (some (key a)) shorter (one_more pages n (left_at c) h more) ∙ next)
          ∙ take-drop n (left_at c)
    ]

    -- Where the ids are distinct, the page length is at least one and below 2^31 - 1, and enough
    -- pages are asked for: a client that starts without a cursor and follows the next cursors is
    -- shown all rows that the statement selects, each once, in the order of the key.
    pub walk-in_key_order :
        (pages : ℕ)
        → length in_key_order ≤ pages * n
        → 1 ≤ pages
        → walk key where_ albums n pages none ≡ in_key_order
    walk-in_key_order pages h k =
        let all : left_at none ≡ in_key_order = filter-true in_key_order in
        walk_left pages none (rw all h) k ∙ all
