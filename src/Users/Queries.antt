-- ===== src/Users/Queries.antt =====
-- internal/platform/database/sqlc/users.sql.go: the statements on `users`, with the constraints of
-- migrations/00001_create_users.sql and the cascades of the other two.
use Prim.Native.String.{◌++◌ as append}
use tesseract_go_api.Prelude.{
  ℕ, zero, suc, String, ◌+◌, [], ◌∷◌, ◌++◌, Bool, not, ◌&&◌, Option, none, some, ◌==◌, str_eq,
  is_none, is_some, if◌then◌else◌, filter, any, find?, update,
}
use tesseract_go_api.Response.{no_rows, pg_error}
use tesseract_go_api.Exec.{Result, ok, err}
use tesseract_go_api.Store.{Uuid, Time, User, RefreshToken, Album, Tables}
use tesseract_go_api.Platform.{Platform}
use tesseract_go_api.Tokens.Queries.{one_row}

abbrev pub is_live : User → Bool
is_live u = is_none u.deleted_at

abbrev pub has_id : Uuid → User → Bool
has_id id u = u.id == id

abbrev pub has_email : String → User → Bool
has_email e u = str_eq u.email e

-- The index `idx_users_slug_active`: an active user with this slug.
abbrev pub holds_slug : String → User → Bool
holds_slug s u = is_live u && str_eq u.slug s

-- An active user other than `id` with this slug.
abbrev pub other_holds_slug : Uuid → String → User → Bool
other_holds_slug id s u = not (has_id id u) && holds_slug s u

-- GetAvailableUser.
unfoldable pub get_available_user : Uuid → Time → Tables → Result User × Tables
get_available_user id now db = (one_row (find? (λ u. has_id id u && is_live u) db.users), db)

-- GetAvailableUserBySlug.
unfoldable pub get_available_user_by_slug : String → Time → Tables → Result User × Tables
get_available_user_by_slug s now db = (one_row (find? (holds_slug s) db.users), db)

-- The row that INSERT writes.
abbrev pub new_user : Uuid → String → String → String → String → String → Time → User
new_user id email username role avatar slug now = record {
  id = id;
  username = username;
  email = email;
  role = role;
  avatar = avatar;
  slug = slug;
  created_at = now;
  updated_at = now;
  deleted_at = none;
}

-- INSERT INTO users, against the index on active slugs.
abbrev pub insert_user : User → Tables → Result User × Tables
insert_user u db =
    if any (holds_slug u.slug) db.users
    then (err (pg_error "23505" "idx_users_slug_active"), db)
    else (ok u, record db { users = db.users ++ u ∷ []; next_id = db.next_id + 1 })

-- CreateUser.
unfoldable pub create_user :
    String → String → String → String → String → Time → Tables → Result User × Tables
create_user email username role avatar slug now db =
    if any (has_email email) db.users
    then (err (pg_error "23505" "users_email_key"), db)
    else insert_user (new_user db.next_id email username role avatar slug now) db

abbrev pub set_avatar : String → User → User
set_avatar avatar u = record u { avatar = avatar }

-- The conflicting row of UpsertUser is written if it is not deleted; else no row is returned.
abbrev pub upsert_found : String → Option User → Tables → Result User × Tables
upsert_found avatar none db = (err no_rows, db)
upsert_found avatar (some u) db =
    if is_live u
    then (
      ok (set_avatar avatar u),
      record db { users = update (has_email u.email) (set_avatar avatar) db.users },
    )
    else (err no_rows, db)

-- `left`, and the slug that the restoring statements write: 246 characters, a dash and a suffix.
abbrev pub left : ℕ → String → String
left zero s = ""
left (suc n) String.[] = String.[]
left (suc n) (String.◌∷◌ c s) = String.◌∷◌ c (left n s)

abbrev pub renamed : String → String → String
renamed suffix slug = append (left 246 slug) (append "-" suffix)

abbrev pub draw : Tables → Tables
draw db = record db { draws = db.draws + 1 }

-- The columns that UpdateUser writes.
abbrev pub rewrite : String → String → String → Time → User → User
rewrite username slug avatar now u = record u {
  username = username;
  slug = slug;
  avatar = avatar;
  updated_at = now;
}

abbrev pub update_found :
    Uuid → String → String → String → Time → Option User → Tables → Result (User × String) × Tables
update_found id username slug avatar now none db = (err no_rows, db)
update_found id username slug avatar now (some u) db =
    if any (other_holds_slug id slug) db.users
    then (err (pg_error "23505" "idx_users_slug_active"), db)
    else (
      ok (rewrite username slug avatar now u, u.slug),
      record db { users = update (has_id id) (rewrite username slug avatar now) db.users },
    )

-- UpdateUser, with the slug before.
unfoldable pub update_user :
    Uuid → String → String → String → Time → Tables → Result (User × String) × Tables
update_user id username slug avatar now db =
    update_found id username slug avatar now (find? (λ u. has_id id u && is_live u) db.users) db

abbrev pub delete : Time → User → User
delete now u = record u { deleted_at = some now; updated_at = now }

abbrev pub soft_delete_found : Uuid → Time → Option User → Tables → Result Uuid × Tables
soft_delete_found id now none db = (err no_rows, db)
soft_delete_found id now (some u) db =
    (ok u.id, record db { users = update (has_id id) (delete now) db.users })

-- SoftDeleteUser.
unfoldable pub soft_delete_user : Uuid → Time → Tables → Result Uuid × Tables
soft_delete_user id now db =
    soft_delete_found id now (find? (λ u. has_id id u && is_live u) db.users) db

abbrev pub undelete : String → Time → User → User
undelete slug now u = record u { deleted_at = none; updated_at = now; slug = slug }

abbrev pub restore_as : Uuid → String → Time → Tables → Result (Uuid × String) × Tables
restore_as id slug now db =
    if any (other_holds_slug id slug) db.users
    then (err (pg_error "23505" "idx_users_slug_active"), db)
    else (ok (id, slug), record db { users = update (has_id id) (undelete slug now) db.users })

abbrev pub hard_delete_found : Uuid → Option User → Tables → Result Uuid × Tables
hard_delete_found id none db = (err no_rows, db)
hard_delete_found id (some u) db = (
  ok u.id,
  record db {
    users = filter (λ u. not (has_id id u)) db.users;
    tokens = filter (λ (t : RefreshToken). not (t.user_id == id)) db.tokens;
    albums = filter (λ (a : Album). not (a.user_id == id)) db.albums;
  },
)

-- HardDeleteUser. The user's albums and tokens go by ON DELETE CASCADE.
unfoldable pub hard_delete_user : Uuid → Time → Tables → Result Uuid × Tables
hard_delete_user id now db = hard_delete_found id (find? (has_id id) db.users) db

module _ (p : Platform) where
  -- UpsertUser: a new user has the role `user` and a random slug.
  unfoldable pub upsert_user : String → String → String → Time → Tables → Result User × Tables
  upsert_user email username avatar now db =
      if any (has_email email) db.users
      then upsert_found avatar (find? (has_email email) db.users) db
      else insert_user
          (new_user db.next_id email username "user" avatar (p.random_slug db.draws) now) (draw db)

  -- The slug of the CASE expression of RestoreUser.
  abbrev pub restored_slug : User → Tables → String
  restored_slug u db =
      if any (other_holds_slug u.id u.slug) db.users
      then renamed (left 8 (p.random_md5 db.draws)) u.slug
      else u.slug

  abbrev pub restore_found : Uuid → Time → Option User → Tables → Result (Uuid × String) × Tables
  restore_found id now none db = (err no_rows, db)
  restore_found id now (some u) db = restore_as id (restored_slug u db) now (draw db)

  -- RestoreUser.
  unfoldable pub restore_user : Uuid → Time → Tables → Result (Uuid × String) × Tables
  restore_user id now db =
      restore_found id now (find? (λ u. has_id id u && is_some u.deleted_at) db.users) db
