-- ===== src/Prelude/Tables.antt =====
-- Unique indexes of a table, as pairwise absence of a clash, and how writes keep them.
use mathlib.Core.Path.{◌≡◌, refl}
use mathlib.Core.Bool.{Bool, true, false, not, ◌&&◌}
use mathlib.Core.Logic.{inl, inr}
use mathlib.Core.List.{List, [], ◌∷◌, ◌++◌}
use native.Mathlib.Omega.{arith}
use tesseract_go_api.Prelude.Tests.{if◌then◌else◌, Bool-cases}
use tesseract_go_api.Prelude.Lists.{filter, any, update}

module _ {ℓ} {A : Type ℓ} where
  pub any-filter : (p q : A → Bool) (xs : List A) → any p xs ≡ false → any p (filter q xs) ≡ false
  any-filter p q [] h = refl
  any-filter p q (x ∷ xs) h = ground (arith, any-filter p q xs)

  pub any-filter_self :
      (p : A → Bool) (q : A → Bool) (xs : List A)
      → ((x : A) → q x ≡ true → p x ≡ false)
      → any p (filter q xs) ≡ false
  any-filter_self p q [] h = refl
  any-filter_self p q (x ∷ xs) h = ground (arith, h x, any-filter_self p q xs h)

  pub any-append_one :
      (p : A → Bool) (xs : List A) (y : A)
      → any p xs ≡ false
      → p y ≡ false
      → any p (xs ++ y ∷ []) ≡ false
  any-append_one p [] y h k = ground arith
  any-append_one p (x ∷ xs) y h k = ground (arith, any-append_one p xs y)

  -- A write that the test does not see.
  pub any-update :
      (p q : A → Bool) (f : A → A) (xs : List A)
      → ((x : A) → p (f x) ≡ p x)
      → any p (update q f xs) ≡ any p xs
  any-update p q f [] h = refl
  any-update p q f (x ∷ xs) h = ground (arith, h x, any-update p q f xs h)

  -- No two rows clash.
  abbrev pub IsUnique : (A → A → Bool) → List A → Type 0
  IsUnique clash [] = Unit
  IsUnique clash (x ∷ xs) = (any (clash x) xs ≡ false) × IsUnique clash xs

  pub IsUnique-filter :
      (clash : A → A → Bool) (q : A → Bool) (xs : List A)
      → IsUnique clash xs
      → IsUnique clash (filter q xs)
  IsUnique-filter clash q [] h = tt
  IsUnique-filter clash q (x ∷ xs) (h, k) =
      ground (arith, any-filter (clash x) q xs h, IsUnique-filter clash q xs k)

  pub IsUnique-append_one :
      (clash : A → A → Bool) (xs : List A) (y : A)
      → ((x : A) → clash x y ≡ clash y x)
      → IsUnique clash xs
      → any (clash y) xs ≡ false
      → IsUnique clash (xs ++ y ∷ [])
  IsUnique-append_one clash [] y sym h k = (refl, tt)
  IsUnique-append_one clash (x ∷ xs) y sym (h, u) k = (
    any-append_one (clash x) xs y h (ground (arith, sym x)),
    IsUnique-append_one clash xs y sym u (ground arith),
  )

  -- A write that leaves the columns of the index alone.
  pub IsUnique-update :
      (clash : A → A → Bool) (q : A → Bool) (f : A → A) (xs : List A)
      → ((x y : A) → clash (f x) y ≡ clash x y)
      → ((x y : A) → clash x (f y) ≡ clash x y)
      → IsUnique clash xs
      → IsUnique clash (update q f xs)
  IsUnique-update clash q f [] l r h = tt
  IsUnique-update clash q f (x ∷ xs) l r (h, u) = (head (q x), IsUnique-update clash q f xs l r u)
    where
      head : (b : Bool) → any (clash (if b then f x else x)) (update q f xs) ≡ false
      head true = ground (arith, any-update (clash (f x)) q f xs (λ y. r (f x) y), any_left xs h)
        where
          any_left : (ys : List A) → any (clash x) ys ≡ false → any (clash (f x)) ys ≡ false
          any_left [] k = refl
          any_left (y ∷ ys) k = ground (arith, l x y, any_left ys)
      head false = ground (arith, any-update (clash x) q f xs (r x))

  pub IsUnique-imp :
      (c d : A → A → Bool) (xs : List A)
      → ((x y : A) → c x y ≡ false → d x y ≡ false)
      → IsUnique c xs
      → IsUnique d xs
  IsUnique-imp c d [] k h = tt
  IsUnique-imp c d (x ∷ xs) k (h, u) = (any_imp xs h, IsUnique-imp c d xs k u)
    where
      any_imp : (ys : List A) → any (c x) ys ≡ false → any (d x) ys ≡ false
      any_imp [] e = refl
      any_imp (y ∷ ys) e = ground (arith, k x y, any_imp ys)

  pub update_none : (q : A → Bool) (f : A → A) (xs : List A) → any q xs ≡ false → update q f xs ≡ xs
  update_none q f [] h = refl
  update_none q f (x ∷ xs) h = ground (arith, update_none q f xs)

-- A write of one row that clashes with none of the others.
module _ {ℓ} {A : Type ℓ} (clash : A → A → Bool) (q bad : A → Bool) (f : A → A)
    (left : (x y : A) → q x ≡ true → bad y ≡ false → clash (f x) y ≡ false)
    (right : (x y : A) → q y ≡ true → bad x ≡ false → clash x (f y) ≡ false) where
  new_head :
      (x : A) (xs : List A)
      → q x ≡ true
      → any q xs ≡ false
      → any (λ y. not (q y) && bad y) xs ≡ false
      → any (clash (f x)) xs ≡ false
  new_head x [] t n h = refl
  new_head x (y ∷ xs) t n h = ground (arith, left x y t, new_head x xs t)

  old_head :
      (x : A) (xs : List A)
      → bad x ≡ false
      → any (clash x) xs ≡ false
      → any (clash x) (update q f xs) ≡ false
  old_head x [] b h = refl
  old_head x (y ∷ xs) b h = ground (arith, right x y, old_head x xs b)

  none_other :
      (x : A) (xs : List A) → q x ≡ true → any (λ y. q x && q y) xs ≡ false → any q xs ≡ false
  none_other x [] t h = refl
  none_other x (y ∷ xs) t h = ground (arith, none_other x xs t)

  pub IsUnique-update_one :
      (xs : List A)
      → any (λ y. not (q y) && bad y) xs ≡ false
      → IsUnique (λ x y. q x && q y) xs
      → IsUnique clash xs
      → IsUnique clash (update q f xs)
  IsUnique-update_one [] h o u = tt
  IsUnique-update_one (x ∷ xs) h (o, os) (u, us) = elim (Bool-cases (q x)) [
    | inl t ↦
        let alone = none_other x xs t o in
        rw (t, update_none q f xs alone) (new_head x xs t alone (ground arith), us)
    | inr t ↦ rw t (old_head x xs (ground arith) u, IsUnique-update_one xs (ground arith) os us)
  ]
