-- ===== src/Albums/Queries.antt =====
-- internal/platform/database/sqlc/albums.sql.go: the statements on `albums`, with the constraints of
-- migrations/00002_create_albums.sql.
use tesseract_go_api.Prelude.{
  ℕ, ℤ, pos, negsuc, String, Bool, true, false, not, List, [], ◌∷◌, Option, none, some, ◌&&◌, ◌||◌,
  ◌==◌, ltb, str_eq, is_none, is_some, filter, any, find?, take, sort_by,
}
use tesseract_go_api.Response.{pg_error}
use tesseract_go_api.Exec.{Result, ok, err}
use tesseract_go_api.Store.{Uuid, Time, AtlasItem, User, Album, Tables}
use tesseract_go_api.Tokens.Queries.{one_row}
use tesseract_go_api.Users.Queries as Users
use tesseract_go_api.Albums.Access.{contains}

-- The fields that `CreateAlbumParams` and `UpdateAlbumParams` share.
pub record AlbumFields : Type 0 where
  pub title : String
  pub atlas : List AtlasItem
  pub access : String
  pub shared_emails : List String
  pub slug : String
  pub cover : String
  pub date_at : Time
  pub is_active : Bool

abbrev pub is_live : Album → Bool
is_live a = is_none a.deleted_at

abbrev pub has_id : Uuid → Album → Bool
has_id id a = a.id == id

abbrev pub has_owner : Uuid → Album → Bool
has_owner user a = a.user_id == user

-- The index `idx_albums_user_slug_active`: a user's album with this slug that is not deleted.
abbrev pub holds_slug : Uuid → String → Album → Bool
holds_slug user slug a = has_owner user a && str_eq a.slug slug && is_live a

abbrev pub other_holds_slug : Uuid → Uuid → String → Album → Bool
other_holds_slug id user slug a = not (has_id id a) && holds_slug user slug a

abbrev pub has_direct_token : Uuid → Option Uuid → Bool
has_direct_token token none = false
has_direct_token token (some t) = t == token

-- The constraint `albums_direct_token_key`, against the other rows.
abbrev pub other_holds_token : Uuid → Option Uuid → Album → Bool
other_holds_token id none a = false
other_holds_token id (some token) a = not (has_id id a) && has_direct_token token a.direct_token

-- The join with the users that are not deleted.
abbrev pub is_live_user : Uuid → List User → Bool
is_live_user user users = any (λ u. Users.has_id user u && Users.is_live u) users

-- GetAlbum.
unfoldable pub get_album : Uuid → Uuid → Time → Tables → Result Album × Tables
get_album album_id user_id now db =
    (one_row (find? (λ a. has_id album_id a && has_owner user_id a) db.albums), db)

-- GetAlbumByDirectToken.
unfoldable pub get_album_by_direct_token : Uuid → Time → Tables → Result Album × Tables
get_album_by_direct_token token now db = (
  one_row
      (find? (λ a. has_direct_token token a.direct_token && a.is_active && is_live a) db.albums),
  db,
)

-- GetAlbumBySlug.
unfoldable pub get_album_by_slug : Uuid → String → Time → Tables → Result Album × Tables
get_album_by_slug user_id slug now db = (one_row (find? (holds_slug user_id slug) db.albums), db)

-- GetAlbumsByIDs.
unfoldable pub get_albums_by_ids : List Uuid → Time → Tables → Result (List Album) × Tables
get_albums_by_ids ids now db = (ok (filter (λ a. any (λ id. a.id == id) ids) db.albums), db)

-- A sort key: a time and an id.
abbrev pub RowKey : Type 0
RowKey = Time × Uuid

-- The keyset condition: strictly after the cursor, in descending order.
abbrev pub is_below : RowKey → RowKey → Bool
is_below (t, id) (t', id') = ltb t' t || (t' == t && ltb id' id)

abbrev pub is_after : Option RowKey → RowKey → Bool
is_after none k = true
is_after (some c) k = is_below c k

-- ORDER BY … DESC, id DESC.
abbrev pub is_before_or_at : (Album → RowKey) → Album → Album → Bool
is_before_or_at key a b = not (is_below (key b) (key a))

abbrev pub date_key : Album → RowKey
date_key a = (a.date_at, a.id)

abbrev time_or_zero : Option Time → Time
time_or_zero none = 0
time_or_zero (some t) = t

abbrev pub deletion_key : Album → RowKey
deletion_key a = (time_or_zero a.deleted_at, a.id)

-- SELECT … WHERE … ORDER BY … LIMIT.
unfoldable pub select_page :
    (Album → RowKey) → (Album → Bool) → Option RowKey → ℕ → List Album → List Album
select_page key where_ cursor limit albums =
    take limit
      (sort_by (is_before_or_at key) (filter (λ a. where_ a && is_after cursor (key a)) albums))

-- What a visitor finds in a list.
abbrev pub is_listed : Uuid → String → Album → Bool
is_listed user_id viewer_email a =
    has_owner user_id a
    && is_live a
    && (str_eq a.access "public" && a.is_active
        || str_eq a.access "shared" && a.is_active && contains a.shared_emails viewer_email)

abbrev pub is_owned : Uuid → Album → Bool
is_owned user_id a = has_owner user_id a && is_live a

abbrev pub is_trashed : Uuid → Album → Bool
is_trashed user_id a = has_owner user_id a && is_some a.deleted_at

abbrev pub ids_and_dates : List Album → List RowKey
ids_and_dates [] = []
ids_and_dates (a ∷ albums) = date_key a ∷ ids_and_dates albums

-- `LIMIT`, which PostgreSQL refuses where it is negative.
abbrev pub limited : {A : Type 0} → ℤ → (ℕ → A) → Result A
limited (pos n) rows = ok (rows n)
limited (negsuc n) rows = err (pg_error "2201W" "")

-- ListAvailableAlbumIDs.
unfoldable pub list_available_album_ids :
    Uuid → String → Option RowKey → ℤ → Time → Tables → Result (List RowKey) × Tables
unfolding select_page
list_available_album_ids user_id viewer_email cursor limit now db = (
  limited limit
      λ n. ids_and_dates (select_page date_key (is_listed user_id viewer_email) cursor n db.albums),
  db,
)

-- ListOwnedAlbumIDs.
unfoldable pub list_owned_album_ids :
    Uuid → Option RowKey → ℤ → Time → Tables → Result (List RowKey) × Tables
unfolding select_page
list_owned_album_ids user_id cursor limit now db = (
  limited limit λ n. ids_and_dates (select_page date_key (is_owned user_id) cursor n db.albums),
  db,
)

-- ListTrashedAlbums.
unfoldable pub list_trashed_albums :
    Uuid → Option RowKey → ℤ → Time → Tables → Result (List Album) × Tables
unfolding select_page
list_trashed_albums user_id cursor limit now db =
    (limited limit λ n. select_page deletion_key (is_trashed user_id) cursor n db.albums, db)
