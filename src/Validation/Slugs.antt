-- ===== src/Validation/Slugs.antt =====
-- The slugs of users can be part of a route, also after a user is restored under another slug.
use Prim.Native.Char.{Char, code}
use Prim.Native.String as Text
use Prim.Native.String.{◌++◌ as append}
use Prim.Native.String.append.{nil, cons}
use mathlib.Core.Path.{subst}
use tesseract_go_api.Prelude.{
  ℕ, zero, suc, String, Bool, true, Option, none, some, ◌≡◌, ◌≤◌, ◌+◌, ◌&&◌, ◌||◌, leb, refl, inl,
  inr, arith, All, All-update, Bool-cases, List, [], ◌∷◌, is_some, any, find?,
}
use tesseract_go_api.Store.{Uuid, Time, User, Tables, World, query}
use tesseract_go_api.Store.Keeps.{Keeps, Keeps-query, keeps_rules}
use tesseract_go_api.Platform.{Platform}
use tesseract_go_api.Users.Queries.{
  left, renamed, restored_slug, restore_as, restore_found, other_holds_slug, has_id, undelete,
  undelete, draw,
}
use tesseract_go_api.Users.Queries as Queries
use tesseract_go_api.Users.Repository
use tesseract_go_api.Users.Service
use tesseract_go_api.Validation.{all_slug, size, is_routable}

all_slug-append : (s t : String) → all_slug (append s t) ≡ (all_slug s && all_slug t)
all_slug-append Text.[] t = rw (nil t) refl
all_slug-append (Text.◌∷◌ c s) t = rw (cons c s t) (ground (arith, all_slug-append s t))

size-append : (s t : String) → size (append s t) ≡ size s + size t
size-append Text.[] t = rw (nil t) (omega arith)
size-append (Text.◌∷◌ c s) t = rw (cons c s t) (omega (arith, size-append s t))

all_slug-left : (n : ℕ) (s : String) → all_slug s ≡ true → all_slug (left n s) ≡ true
all_slug-left zero s a = refl
all_slug-left (suc n) Text.[] a = refl
all_slug-left (suc n) (Text.◌∷◌ c s) a = ground (arith, all_slug-left n s)

size-left : (n : ℕ) (s : String) → size (left n s) ≤ n
size-left zero s = omega arith
size-left (suc n) Text.[] = omega arith
size-left (suc n) (Text.◌∷◌ c s) = omega (arith, size-left n s)

-- A character that `md5` writes.
abbrev pub is_hex : Char → Bool
is_hex c = leb b'0' (code c) && leb (code c) b'9' || leb b'a' (code c) && leb (code c) b'f'

abbrev pub all_hex : String → Bool
all_hex Text.[] = true
all_hex (Text.◌∷◌ c s) = is_hex c && all_hex s

all_hex-slug : (s : String) → all_hex s ≡ true → all_slug s ≡ true
all_hex-slug Text.[] h = refl
all_hex-slug (Text.◌∷◌ c s) h = ground (arith, all_hex-slug s)

renamed-routable :
    (digest slug : String)
    → all_hex digest ≡ true
    → all_slug slug ≡ true
    → is_routable (renamed (left 8 digest) slug) ≡ true
unfolding is_routable
renamed-routable digest slug hex a = ground (
  arith,
  all_slug-append (left 246 slug) (append "-" (left 8 digest)),
  all_slug-append "-" (left 8 digest),
  all_slug-left 246 slug a,
  size-append (left 246 slug) (append "-" (left 8 digest)),
  size-append "-" (left 8 digest),
  size-left 246 slug,
  all_slug-left 8 digest (all_hex-slug digest hex),
  size-left 8 digest,
)

-- The slug of every user can be part of a route.
pub record SlugsRoutable (db : Tables) : Type 0 where
  pub slugs : All (λ (u : User). is_routable u.slug ≡ true) db.users

find?-All :
    {A : Type 0} (P : A → Type 0) (q : A → Bool) (xs : List A) {x : A}
    → All P xs
    → find? q xs ≡ some x
    → P x
find?-All P q [] h e = ground arith
find?-All P q (y ∷ ys) {x} h e = elim (Bool-cases (q y)) [
  | inl t ↦ subst P (ground arith) h.0
  | inr t ↦ find?-All P q ys h.1 (ground arith)
]

module _ (p : Platform) (digests : (n : ℕ) → all_hex (p.random_md5 n) ≡ true) where
  restored-routable :
      (u : User) (db : Tables)
      → is_routable u.slug ≡ true
      → is_routable (restored_slug p u db) ≡ true
  unfolding is_routable
  restored-routable u db a = elim (Bool-cases (any (other_holds_slug u.id u.slug) db.users)) [
    | inl t ↦ rw t (
        unfold is_routable in
        renamed-routable (p.random_md5 db.draws) u.slug (digests db.draws) (ground arith))
    | inr t ↦ rw t a
  ]

  restore_as-SlugsRoutable :
      (id : Uuid) (slug : String) (now : Time) (db : Tables)
      → is_routable slug ≡ true
      → SlugsRoutable db
      → SlugsRoutable (restore_as id slug now db).1
  restore_as-SlugsRoutable id slug now db a v =
      elim (Bool-cases (any (other_holds_slug id slug) db.users)) [
        | inl t ↦ rw t v
        | inr t ↦
            rw t
              (record { slugs = All-update _ _ (undelete slug now) db.users (λ x e h. a) v.slugs })
      ]

  restore_found-SlugsRoutable :
      (id : Uuid) (now : Time) (db : Tables) (o : Option User)
      → find? (λ u. has_id id u && is_some u.deleted_at) db.users ≡ o
      → SlugsRoutable db
      → SlugsRoutable (restore_found p id now o db).1
  restore_found-SlugsRoutable id now db none found v = v
  restore_found-SlugsRoutable id now db (some u) found v =
      restore_as-SlugsRoutable id (restored_slug p u db) now (draw db)
        (restored-routable u db (find?-All _ _ db.users v.slugs found)) (record { slugs = v.slugs })

  written : (id : Uuid) → Keeps SlugsRoutable (query (Queries.restore_user p id))
  written id =
      Keeps-query _
        λ now db v. unfold Queries.restore_user in restore_found-SlugsRoutable id now db _ refl v

  restored : (id : Uuid) → Keeps SlugsRoutable (Service.restore_user p id)
  unfolding Service.restore_user Repository.restore_user
  restored id = search (keeps_rules, written)

  -- Where the slugs of all users can be part of a route, they can after a user is restored, also
  -- where its slug is taken and another one is made of it, and however the calls end: where
  -- the database's md5 writes hexadecimal digits.
  pub restore_user-SlugsRoutable :
      (id : Uuid) (w : World)
      → SlugsRoutable w.db
      → SlugsRoutable (Service.restore_user p id w).1.db
  restore_user-SlugsRoutable id w v = (restored id).at w v
