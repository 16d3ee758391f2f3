-- ===== src/Prelude/Lists.antt =====
-- Lists under Boolean tests and native numbers, under the library's names.
use Prim.Native.Nat.{ℕ, suc, ◌+◌}
use mathlib.Core.Bool.{Bool, true, false, ◌||◌}
use mathlib.Core.Path.{◌≡◌, refl, subst}
use mathlib.Core.Logic.{inl, inr}
use mathlib.Core.Option.{Option, none, some}
use mathlib.Core.List.{List, [], ◌∷◌, ◌++◌}
use native.Mathlib.Omega.{arith}
use tesseract_go_api.Prelude.Tests.{if◌then◌else◌, Bool-cases}

abbrev pub length {ℓ} : {A : Type ℓ} → List A → ℕ
length [] = 0
length (x ∷ xs) = suc (length xs)

-- What holds of every item.
abbrev pub All {ℓ κ} : {A : Type ℓ} → (A → Type κ) → List A → Type κ
All P [] = Unit
All P (x ∷ xs) = P x × All P xs

module _ {ℓ} {A : Type ℓ} where
  abbrev pub filter : (A → Bool) → List A → List A
  filter p [] = []
  filter p (x ∷ xs) = let rest = filter p xs in if p x then x ∷ rest else rest

  abbrev pub any : (A → Bool) → List A → Bool
  any p [] = false
  any p (x ∷ xs) = p x || any p xs

  abbrev pub find? : (A → Bool) → List A → Option A
  find? p [] = none
  find? p (x ∷ xs) = if p x then some x else find? p xs

  abbrev pub count : (A → Bool) → List A → ℕ
  count p [] = 0
  count p (x ∷ xs) = (if p x then 1 else 0) + count p xs

  -- Applies `f` to the items that pass the test.
  abbrev pub update : (A → Bool) → (A → A) → List A → List A
  update p f [] = []
  update p f (x ∷ xs) = (if p x then f x else x) ∷ update p f xs

  pub All-filter {κ} :
      (P : A → Type κ) (p : A → Bool) (xs : List A) → All P xs → All P (filter p xs)
  All-filter P p [] h = tt
  All-filter P p (x ∷ xs) h = ground (arith, All-filter P p xs h.1)

  pub All-update {κ} :
      (P : A → Type κ) (p : A → Bool) (f : A → A) (xs : List A)
      → ((x : A) → p x ≡ true → P x → P (f x))
      → All P xs
      → All P (update p f xs)
  All-update P p f [] k h = tt
  All-update P p f (x ∷ xs) k h = ground (arith, k x, All-update P p f xs k h.1)

  pub All-append_one {κ} :
      (P : A → Type κ) (xs : List A) (y : A) → All P xs → P y → All P (xs ++ y ∷ [])
  All-append_one P [] y h p = (p, tt)
  All-append_one P (x ∷ xs) y h p = (h.0, All-append_one P xs y h.1 p)

  pub All-imp {κ μ} :
      (P : A → Type κ) (Q : A → Type μ) (xs : List A) → ((x : A) → P x → Q x) → All P xs → All Q xs
  All-imp P Q [] k h = tt
  All-imp P Q (x ∷ xs) k h = (k x h.0, All-imp P Q xs k h.1)

  pub any_of_All : (p : A → Bool) (xs : List A) → All (λ x. p x ≡ false) xs → any p xs ≡ false
  any_of_All p [] h = refl
  any_of_All p (x ∷ xs) h = ground (arith, any_of_All p xs h.1)

  pub All-of_any : (p : A → Bool) (xs : List A) → any p xs ≡ false → All (λ x. p x ≡ false) xs
  All-of_any p [] h = tt
  All-of_any p (x ∷ xs) h = (ground arith, All-of_any p xs (ground arith))

  pub any-append_left : (p : A → Bool) (xs ys : List A) → any p xs ≡ true → any p (xs ++ ys) ≡ true
  any-append_left p [] ys h = cc
  any-append_left p (x ∷ xs) ys h = ground (arith, any-append_left p xs ys)

  pub any-filter_keep :
      (p q : A → Bool) (xs : List A)
      → ((x : A) → p x ≡ true → q x ≡ true)
      → any p xs ≡ true
      → any p (filter q xs) ≡ true
  any-filter_keep p q [] k h = h
  any-filter_keep p q (x ∷ xs) k h = ground (arith, k x, any-filter_keep p q xs k)

  -- A search finds an item that passes the test, and finds none only if no item passes.
  pub find?-any : (p : A → Bool) (xs : List A) → find? p xs ≡ none → any p xs ≡ false
  find?-any p [] h = refl
  find?-any p (x ∷ xs) h = ground (arith, find?-any p xs)

  pub find?-test : (p : A → Bool) (xs : List A) (x : A) → find? p xs ≡ some x → p x ≡ true
  find?-test p [] x h = cc
  find?-test p (y ∷ xs) x h = elim (Bool-cases (p y)) [
    | inl e ↦ ground arith
    | inr e ↦ find?-test p xs x (rw e at h)
  ]

  pub All-find? {κ} :
      (P : A → Type κ) (p : A → Bool) (xs : List A) (x : A) → All P xs → find? p xs ≡ some x → P x
  All-find? P p [] x h e = cc
  All-find? P p (y ∷ xs) x h e = elim (Bool-cases (p y)) [
    | inl t ↦ let same : some y ≡ some x = (rw t at e) in subst P (cc) h.0
    | inr t ↦ All-find? P p xs x h.1 (rw t at e)
  ]

  -- What is kept passes the test.
  pub All-filter_with {κ μ} :
      (P : A → Type κ) (Q : A → Type μ) (p : A → Bool) (xs : List A)
      → ((x : A) → p x ≡ true → P x → Q x)
      → All P xs
      → All Q (filter p xs)
  All-filter_with P Q p [] k h = tt
  All-filter_with P Q p (x ∷ xs) k h = elim (Bool-cases (p x)) [
    | inl t ↦ rw t (k x t h.0, All-filter_with P Q p xs k h.1)
    | inr t ↦ rw t (All-filter_with P Q p xs k h.1)
  ]
