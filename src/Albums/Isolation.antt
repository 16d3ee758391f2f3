-- ===== src/Albums/Isolation.antt =====
-- The writes of a user's albums, and the albums of the other users.
use mathlib.Core.Path.{subst}
use tesseract_go_api.Prelude.{
  String, Bool, true, false, not, List, [], ◌∷◌, ◌++◌, Option, none, some, ◌≡◌, refl, ◌∙◌, inl, inr,
  arith, ◌==◌, ◌<◌, All-find?, All-of_any, All-update, All-filter, IsUnique-filter, IsUnique-update,
  update_none, filter, find?, find?-test, any, update, Bool-cases, IsUnique, All,
}
use tesseract_go_api.Store.{Uuid, Time, Album, Tables}
use tesseract_go_api.Platform.{Platform}
use tesseract_go_api.Albums.Queries.{
  AlbumFields, has_id, has_owner, other_holds_slug, other_holds_token,
}
use tesseract_go_api.Users.Queries.{draw}
use tesseract_go_api.Albums.Writes.{
  write_row, owned_row, update_found, update_token_found, write_found, hard_delete_found,
  restore_found, restored_slug, assign, assign_token, undelete,
}

-- The albums of the others.
abbrev pub others : Uuid → List Album → List Album
others user albums = filter (λ a. not (has_owner user a)) albums

abbrev pub same_id : Album → Album → Bool
same_id a b = a.id == b.id

-- The primary keys are distinct and given out, and the albums of the others are these.
pub record IsApart (user : Uuid) (rest : List Album) (db : Tables) : Type 0 where
  pub ids : IsUnique same_id db.albums
  pub below : All (λ (a : Album). a.id < db.next_id) db.albums
  pub apart : others user db.albums ≡ rest

filter_kept :
    (q : Album → Bool) (xs : List Album) → any q xs ≡ false → filter (λ x. not (q x)) xs ≡ xs
filter_kept q [] h = refl
filter_kept q (x ∷ xs) h = ground (arith, filter_kept q xs)

-- The row that a statement found is not one of another row's id.
found_elsewhere :
    (p : Album → Bool) (x a : Album) (xs : List Album)
    → any (same_id x) xs ≡ false
    → find? p xs ≡ some a
    → has_id a.id x ≡ false
found_elsewhere p x a xs h e =
    All-find? (λ y. same_id x y ≡ false) p xs a (All-of_any (same_id x) xs h) e

none_else :
    (x : Album) (xs : List Album) → any (same_id x) xs ≡ false → any (has_id x.id) xs ≡ false
none_else x [] h = refl
none_else x (y ∷ xs) h = ground (arith, none_else x xs)

-- A write that keeps the owner, of the row that a statement of the user found.
module _ (user : Uuid) (p : Album → Bool) (a : Album) (own : has_owner user a ≡ true) where
  others-found : (x : Album) (xs : List Album) → some x ≡ some a → has_owner user x ≡ true
  others-found x xs e = ground arith

  alone :
      (x : Album) (xs : List Album)
      → some x ≡ some a
      → any (same_id x) xs ≡ false
      → any (has_id a.id) xs ≡ false
  alone x xs e h =
      let same : x ≡ a = cc in
      subst (λ (o : Album). any (has_id o.id) xs ≡ false) same (none_else x xs h)

  others-update :
      (f : Album → Album) (xs : List Album)
      → ((x : Album) → (f x).user_id ≡ x.user_id)
      → IsUnique same_id xs
      → find? p xs ≡ some a
      → others user (update (has_id a.id) f xs) ≡ others user xs
  others-update f [] keep u e = refl
  others-update f (x ∷ xs) keep (h, u) e = elim (Bool-cases (p x)) [
    | inl t ↦
        let same : some x ≡ some a = (rw t at e) in
        ground (
          arith,
          others-found x xs same,
          keep x,
          update_none (has_id a.id) f xs (alone x xs same h),
        )
    | inr t ↦
        let later = (rw t at e) in
        ground (arith, found_elsewhere p x a xs h later, others-update f xs keep u later)
  ]

  others-filter :
      (xs : List Album)
      → IsUnique same_id xs
      → find? p xs ≡ some a
      → others user (filter (λ x. not (has_id a.id x)) xs) ≡ others user xs
  others-filter [] u e = refl
  others-filter (x ∷ xs) (h, u) e = elim (Bool-cases (p x)) [
    | inl t ↦
        let same : some x ≡ some a = (rw t at e) in
        ground (arith, others-found x xs same, filter_kept (has_id a.id) xs (alone x xs same h))
    | inr t ↦
        let later = (rw t at e) in
        ground (arith, found_elsewhere p x a xs h later, others-filter xs u later)
  ]

pub others-append :
    (user : Uuid) (xs : List Album) (a : Album)
    → has_owner user a ≡ true
    → others user (xs ++ a ∷ []) ≡ others user xs
others-append user [] a own = ground arith
others-append user (x ∷ xs) a own = ground (arith, others-append user xs a own)

module _ (user : Uuid) (rest : List Album) where
  -- A write of the row that a statement of the user found.
  write_row-IsApart :
      (p : Album → Bool) (f : Album → Album) (a : Album) (db : Tables)
      → ((x : Album) → (f x).id ≡ x.id)
      → ((x : Album) → (f x).user_id ≡ x.user_id)
      → has_owner user a ≡ true
      → find? p db.albums ≡ some a
      → IsApart user rest db
      → IsApart user rest (write_row a.id f db)
  write_row-IsApart p f a db id owner own e v = record {
    ids = IsUnique-update same_id (has_id a.id) f db.albums (λ x y. rw id) (λ x y. rw id) v.ids;
    below = All-update _ (has_id a.id) f db.albums (λ x _ b. rw id b) v.below;
    apart = others-update user p a own f db.albums owner v.ids e ∙ v.apart;
  }

  -- What a statement of the user finds is the user's.
  owned_row-has_owner :
      (id : Uuid) (state : Album → Bool) (db : Tables) (a : Album)
      → owned_row id user state db ≡ some a
      → has_owner user a ≡ true
  owned_row-has_owner id state db a e = ground (arith, find?-test _ db.albums a e)

  module _ (id : Uuid) (state : Album → Bool) (db : Tables) (v : IsApart user rest db) where
    abbrev Row : Option Album → Type 0
    Row o = owned_row id user state db ≡ o

    pub write_found-IsApart :
        (f : Album → Album) (o : Option Album)
        → ((x : Album) → (f x).id ≡ x.id)
        → ((x : Album) → (f x).user_id ≡ x.user_id)
        → Row o
        → IsApart user rest (write_found f o db).1
    write_found-IsApart f none i o e = v
    write_found-IsApart f (some a) i o e =
        write_row-IsApart _ f a db i o (owned_row-has_owner id state db a e) e v

    pub update_found-IsApart :
        (arg : AlbumFields) (now : Time) (o : Option Album)
        → Row o
        → IsApart user rest (update_found arg now o db).1
    update_found-IsApart arg now none e = v
    update_found-IsApart arg now (some a) e =
        elim (Bool-cases (any (other_holds_slug a.id a.user_id arg.slug) db.albums)) [
          | inl t ↦ rw t v
          | inr t ↦ rw t (write_found-IsApart (assign arg now) (some a) (λ x. refl) (λ x. refl) e)
        ]

    pub update_token_found-IsApart :
        (token : Option Uuid) (now : Time) (o : Option Album)
        → Row o
        → IsApart user rest (update_token_found token now o db).1
    update_token_found-IsApart token now none e = v
    update_token_found-IsApart token now (some a) e =
        elim (Bool-cases (any (other_holds_token a.id token) db.albums)) [
          | inl t ↦ rw t v
          | inr t ↦
              rw t (write_found-IsApart (assign_token token now) (some a) (λ x. refl) (λ x. refl) e)
        ]

    pub hard_delete_found-IsApart :
        (o : Option Album) → Row o → IsApart user rest (hard_delete_found o db).1
    hard_delete_found-IsApart none e = v
    hard_delete_found-IsApart (some a) e = record {
      ids = IsUnique-filter same_id _ db.albums v.ids;
      below = All-filter _ _ db.albums v.below;
      apart =
          others-filter user _ a (owned_row-has_owner id state db a e) db.albums v.ids e ∙ v.apart;
    }

    pub restore_found-IsApart :
        (p : Platform) (now : Time) (o : Option Album)
        → Row o
        → IsApart user rest (restore_found p now o db).1
    restore_found-IsApart p now none e = v
    restore_found-IsApart p now (some a) e =
        elim (Bool-cases (any (other_holds_slug a.id a.user_id (restored_slug p a db)) db.albums)) [
          | inl t ↦ rw t (record { ids = v.ids; below = v.below; apart = v.apart })
          | inr t ↦ rw t (drawn (restored_slug p a db))
        ]
      where
        drawn : (slug : String) → IsApart user rest (write_row a.id (undelete slug now) (draw db))
        drawn slug =
            write_row-IsApart _ (undelete slug now) a (draw db) (λ x. refl) (λ x. refl)
              (owned_row-has_owner id state db a e) e
              (record { ids = v.ids; below = v.below; apart = v.apart })
