-- ===== src/Albums/Writes.antt =====
-- internal/platform/database/sqlc/albums.sql.go: the statements that write `albums`.
use tesseract_go_api.Prelude.{
  String, Bool, not, [], ◌∷◌, ◌++◌, Option, none, some, ◌+◌, ◌&&◌, is_some, if◌then◌else◌, filter,
  any, find?, update,
}
use tesseract_go_api.Response.{no_rows, pg_error}
use tesseract_go_api.Exec.{Result, ok, err}
use tesseract_go_api.Store.{Uuid, Time, Album, Tables}
use tesseract_go_api.Platform.{Platform}
use tesseract_go_api.Users.Queries.{left, renamed, draw}
use tesseract_go_api.Albums.Queries.{
  AlbumFields, is_live, has_id, has_owner, holds_slug, other_holds_slug, other_holds_token,
  is_live_user,
}

-- The row that INSERT writes.
abbrev pub new_album : Uuid → Uuid → AlbumFields → Time → Album
new_album id user_id arg now = record {
  id = id;
  title = arg.title;
  cover = arg.cover;
  date_at = arg.date_at;
  atlas = arg.atlas;
  access = arg.access;
  shared_emails = arg.shared_emails;
  direct_token = none;
  slug = arg.slug;
  is_active = arg.is_active;
  user_id = user_id;
  created_at = now;
  updated_at = now;
  deleted_at = none;
}

-- CreateAlbum.
unfoldable pub create_album : Uuid → AlbumFields → Time → Tables → Result Album × Tables
create_album user_id arg now db =
    if not (is_live_user user_id db.users)
    then (err no_rows, db)
    else if any (holds_slug user_id arg.slug) db.albums
    then (err (pg_error "23505" "idx_albums_user_slug_active"), db)
    else (
      ok (new_album db.next_id user_id arg now),
      record db {
        albums = db.albums ++ new_album db.next_id user_id arg now ∷ [];
        next_id = db.next_id + 1;
      },
    )

-- The album that an UPDATE or DELETE of the owner finds, with the join on its user.
abbrev pub owned_row : Uuid → Uuid → (Album → Bool) → Tables → Option Album
owned_row album_id user_id state db =
    find?
      (λ a. has_id album_id a && has_owner user_id a && state a && is_live_user user_id db.users)
      db.albums

-- Writes the row with this id.
abbrev pub write_row : Uuid → (Album → Album) → Tables → Tables
write_row id f db = record db { albums = update (has_id id) f db.albums }

abbrev pub assign : AlbumFields → Time → Album → Album
assign arg now a = record a {
  title = arg.title;
  slug = arg.slug;
  cover = arg.cover;
  atlas = arg.atlas;
  access = arg.access;
  shared_emails = arg.shared_emails;
  date_at = arg.date_at;
  is_active = arg.is_active;
  updated_at = now;
}

abbrev pub update_found :
    AlbumFields → Time → Option Album → Tables → Result (Album × String) × Tables
update_found arg now none db = (err no_rows, db)
update_found arg now (some a) db =
    if any (other_holds_slug a.id a.user_id arg.slug) db.albums
    then (err (pg_error "23505" "idx_albums_user_slug_active"), db)
    else (ok (assign arg now a, a.slug), write_row a.id (assign arg now) db)

-- UpdateAlbum, with the slug before.
unfoldable pub update_album :
    Uuid → Uuid → AlbumFields → Time → Tables → Result (Album × String) × Tables
update_album album_id user_id arg now db =
    update_found arg now (owned_row album_id user_id is_live db) db

abbrev pub assign_token : Option Uuid → Time → Album → Album
assign_token token now a = record a { direct_token = token; updated_at = now }

abbrev pub update_token_found :
    Option Uuid → Time → Option Album → Tables → Result (Album × Option Uuid) × Tables
update_token_found token now none db = (err no_rows, db)
update_token_found token now (some a) db =
    if any (other_holds_token a.id token) db.albums
    then (err (pg_error "23505" "albums_direct_token_key"), db)
    else (ok (assign_token token now a, a.direct_token), write_row a.id (assign_token token now) db)

-- UpdateAlbumDirectToken, with the token before.
unfoldable pub update_album_direct_token :
    Uuid → Uuid → Option Uuid → Time → Tables → Result (Album × Option Uuid) × Tables
update_album_direct_token album_id user_id token now db =
    update_token_found token now (owned_row album_id user_id is_live db) db

abbrev pub assign_active : Bool → Time → Album → Album
assign_active active now a = record a { is_active = active; updated_at = now }

abbrev pub write_found : (Album → Album) → Option Album → Tables → Result Album × Tables
write_found f none db = (err no_rows, db)
write_found f (some a) db = (ok (f a), write_row a.id f db)

-- ToggleAlbumActive.
unfoldable pub toggle_album_active : Uuid → Uuid → Bool → Time → Tables → Result Album × Tables
toggle_album_active album_id user_id active now db =
    write_found (assign_active active now) (owned_row album_id user_id is_live db) db

abbrev pub delete : Time → Album → Album
delete now a = record a { deleted_at = some now; updated_at = now }

-- SoftDeleteAlbum.
unfoldable pub soft_delete_album : Uuid → Uuid → Time → Tables → Result Album × Tables
soft_delete_album album_id user_id now db =
    write_found (delete now) (owned_row album_id user_id is_live db) db

abbrev pub is_deleted : Album → Bool
is_deleted a = is_some a.deleted_at

abbrev pub hard_delete_found : Option Album → Tables → Result Uuid × Tables
hard_delete_found none db = (err no_rows, db)
hard_delete_found (some a) db =
    (ok a.id, record db { albums = filter (λ x. not (has_id a.id x)) db.albums })

-- HardDeleteAlbum: only from the trash.
unfoldable pub hard_delete_album : Uuid → Uuid → Time → Tables → Result Uuid × Tables
hard_delete_album album_id user_id now db =
    hard_delete_found (owned_row album_id user_id is_deleted db) db

abbrev pub undelete : String → Time → Album → Album
undelete slug now a = record a { deleted_at = none; updated_at = now; slug = slug }

abbrev pub restore_as : Album → String → Time → Tables → Result Uuid × Tables
restore_as a slug now db =
    if any (other_holds_slug a.id a.user_id slug) db.albums
    then (err (pg_error "23505" "idx_albums_user_slug_active"), db)
    else (ok a.id, write_row a.id (undelete slug now) db)

module _ (p : Platform) where
  -- The slug of the CASE expression of RestoreAlbum.
  abbrev pub restored_slug : Album → Tables → String
  restored_slug a db =
      if any (other_holds_slug a.id a.user_id a.slug) db.albums
      then renamed (left 8 (p.random_md5 db.draws)) a.slug
      else a.slug

  abbrev pub restore_found : Time → Option Album → Tables → Result Uuid × Tables
  restore_found now none db = (err no_rows, db)
  restore_found now (some a) db = restore_as a (restored_slug a db) now (draw db)

  -- RestoreAlbum.
  unfoldable pub restore_album : Uuid → Uuid → Time → Tables → Result Uuid × Tables
  restore_album album_id user_id now db =
      restore_found now (owned_row album_id user_id is_deleted db) db
