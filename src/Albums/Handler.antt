-- ===== src/Albums/Handler.antt =====
-- internal/domain/albums/handler.go.
use tesseract_go_api.Prelude.{
  ℤ, String, Bool, not, List, [], Option, none, some, ◌||◌, ◌==◌, if◌then◌else◌,
}
use tesseract_go_api.Response.{
  sentinel, wrapped, plain, no_claims, bad_uuid, album_not_found, album_created, album_updated,
  direct_token_generated, direct_token_revoked, album_active, album_inactive, album_deleted,
  album_restored, album_purged,
}
use tesseract_go_api.Exec.{Exec, ◌>>=◌, ◌>>◌}
use tesseract_go_api.Store.{Uuid, Time, AtlasItem, Album}
use tesseract_go_api.Platform.{Platform}
use tesseract_go_api.Cursor.{Sealing}
use tesseract_go_api.Tokens.Manager.{UserClaims, zero_claims}
use tesseract_go_api.Http.{
  Request, Exchange, Handler, call, require, write_success, write_success_data, write_data,
  write_page, write_validation_error, decode_body, if_valid, recovered,
}
use tesseract_go_api.Http.Numbers.{atoi}
use tesseract_go_api.Users.Service as Users
use tesseract_go_api.Albums.Queries.{AlbumFields}
use tesseract_go_api.Albums.Model.{
  AlbumResponse, to_my, to_public, to_direct, to_my_album_list, to_public_album_list,
}
use tesseract_go_api.Albums.Service

-- The data of the answers.
pub data AlbumData : Type 0 where
  album_response : AlbumResponse → AlbumData
  album_list : List AlbumResponse → AlbumData
  -- the row as it is, after `Create` and `Update`
  album_row : Album → AlbumData
  album_id : Uuid → AlbumData
  direct_token : String → AlbumData

-- CreateRequest and UpdateRequest have the same fields; the e-mails may be absent.
pub record AlbumRequest : Type 0 where
  pub title : String
  pub atlas : List AtlasItem
  pub access : String
  pub shared_emails : Option (List String)
  pub slug : String
  pub cover : String
  pub date_at : Time
  pub is_active : Bool

abbrev emails_or_none : Option (List String) → List String
emails_or_none none = []
emails_or_none (some emails) = emails

-- "Normalize optional values".
abbrev pub normalized : AlbumRequest → AlbumFields
normalized req = record {
  title = req.title;
  atlas = req.atlas;
  access = req.access;
  shared_emails = emails_or_none req.shared_emails;
  slug = req.slug;
  cover = req.cover;
  date_at = req.date_at;
  is_active = req.is_active;
}

-- albums.Handler: `is_valid` is the validator on the tags of the requests.
pub record Config : Type 0 where
  pub sealing : Sealing
  pub albums_per_page : ℤ
  pub is_valid : AlbumRequest → Bool

abbrev Albums : Type 0
Albums = Handler AlbumData

abbrev pub claims_or_zero : Option UserClaims → UserClaims
claims_or_zero none = zero_claims
claims_or_zero (some c) = c

-- The claims, or the answer that there are none.
abbrev claims_of : {B : Type 0} → Request B → Exec (Exchange AlbumData) UserClaims
claims_of r = require r.claims (sentinel no_claims)

abbrev or_default : ℤ → Option ℤ → ℤ
or_default default none = default
or_default default (some n) = n

module _ (p : Platform) (c : Config) where
  -- The parameter `limit`, where it is a number.
  abbrev limit_of : {B : Type 0} → Request B → ℤ
  limit_of r = or_default c.albums_per_page (atoi (r.url_query "limit"))

  -- `GetAvailable`.
  unfoldable pub get_available : Request Unit → Albums
  unfolding ◌>>=◌ to_my to_public write_data
  get_available r = do
    let claims = claims_or_zero r.claims
    user ← call (Users.get_available_by_slug (r.url_param "user_slug"))
    a ← call (Service.get_available user.id (r.url_param "album_slug") claims.user_id claims.email)
    write_data (album_response (if a.user_id == claims.user_id then to_my a else to_public a))

  -- `GetOwned`.
  unfoldable pub get_owned : Request Unit → Albums
  unfolding ◌>>=◌ to_my write_data
  get_owned r = do
    claims ← claims_of r
    id ← require (p.uuid_parse (r.url_param "uuid")) (sentinel album_not_found)
    a ← call (Service.get_owned claims.user_id id)
    write_data (album_response (to_my a))

  -- `GetByDirectToken`.
  unfoldable pub get_by_direct_token : Request Unit → Albums
  unfolding ◌>>=◌ to_direct write_data
  get_by_direct_token r = do
    token ← require (p.uuid_parse (r.url_param "direct_token")) (sentinel album_not_found)
    a ← call (Service.get_by_direct_token token)
    write_data (album_response (to_direct a))

  -- The pages of `ListAvailable` and `ListOwned`, as the handlers answer them.
  abbrev pub visitor_page : Request Unit → Uuid → String → Albums
  visitor_page r user_id viewer_email = recovered do
    (found, next) ← call (
        Service.list_available c.sealing c.albums_per_page user_id viewer_email
          (r.url_query "cursor") (limit_of r))
    write_page (album_list (to_public_album_list found)) next

  abbrev pub owner_page : Request Unit → Uuid → Albums
  owner_page r user_id = recovered do
    (found, next) ←
        call (
          Service.list_owned c.sealing c.albums_per_page user_id (r.url_query "cursor")
            (limit_of r))
    write_page (album_list (to_my_album_list found)) next

  -- `AvailableList`.
  unfoldable pub available_list : Request Unit → Albums
  unfolding ◌>>=◌ write_page recovered atoi to_public_album_list to_my_album_list
  available_list r = do
    let claims = claims_or_zero r.claims
    user ← call (Users.get_available_by_slug (r.url_param "slug"))
    if claims.user_id == 0 || not (claims.user_id == user.id)
        then visitor_page r user.id claims.email
        else owner_page r claims.user_id

  -- `OwnedList`.
  unfoldable pub owned_list : Request Unit → Albums
  unfolding ◌>>=◌ write_page recovered atoi to_my_album_list
  owned_list r = do claims ← claims_of r; owner_page r claims.user_id

  -- `TrashedList`.
  unfoldable pub trashed_list : Request Unit → Albums
  unfolding ◌>>=◌ write_page recovered atoi to_my_album_list
  trashed_list r = recovered do
    claims ← claims_of r
    (found, next) ← call (
        Service.list_trashed c.sealing c.albums_per_page claims.user_id (r.url_query "cursor")
          (limit_of r))
    write_page (album_list (to_my_album_list found)) next

  -- The id of the album from the URL, or the answer that it is none.
  abbrev id_of : {B : Type 0} → Request B → Exec (Exchange AlbumData) Uuid
  id_of r = require (p.uuid_parse (r.url_param "uuid")) (wrapped bad_uuid (plain "invalid UUID"))

  -- `Create`.
  unfoldable pub create : Request AlbumRequest → Albums
  unfolding ◌>>=◌ write_success_data write_validation_error
  create r = do
    claims ← claims_of r
    req ← decode_body r.body
    if_valid (c.is_valid req) do
      a ← call (Service.create claims.user_id (normalized req))
      write_success_data album_created (album_row a)

  -- `Update`.
  unfoldable pub update : Request AlbumRequest → Albums
  unfolding ◌>>=◌ write_success_data write_validation_error
  update r = do
    claims ← claims_of r
    id ← id_of r
    req ← decode_body r.body
    if_valid (c.is_valid req) do
      a ← call (Service.update claims.user_id id (normalized req))
      write_success_data album_updated (album_row a)

  -- `GenerateDirectToken`.
  unfoldable pub generate_direct_token : Request Unit → Albums
  unfolding ◌>>=◌ write_success_data
  generate_direct_token r = do
    claims ← claims_of r
    id ← id_of r
    token ← call (Service.generate_direct_token p claims.user_id id)
    write_success_data direct_token_generated (direct_token (p.uuid_string token))

  -- `RevokeDirectToken`.
  unfoldable pub revoke_direct_token : Request Unit → Albums
  unfolding ◌>>=◌ write_success
  revoke_direct_token r = do
    claims ← claims_of r
    id ← id_of r
    call (Service.revoke_direct_token claims.user_id id)
    write_success direct_token_revoked

  -- `ToggleActive`, whose request has no rules to validate.
  unfoldable pub toggle_active : Request Bool → Albums
  unfolding ◌>>=◌ write_success_data
  toggle_active r = do
    claims ← claims_of r
    id ← id_of r
    is_active ← decode_body r.body
    album ← call (Service.toggle_active claims.user_id id is_active)
    write_success_data (if is_active then album_active else album_inactive) (album_id album)

  -- `Delete`.
  unfoldable pub delete : Request Unit → Albums
  unfolding ◌>>=◌ write_success
  delete r = do
    id ← id_of r
    claims ← claims_of r
    call (Service.delete claims.user_id id)
    write_success album_deleted

  -- `Restore`.
  unfoldable pub restore : Request Unit → Albums
  unfolding ◌>>=◌ write_success
  restore r = do
    id ← id_of r
    claims ← claims_of r
    call (Service.restore p claims.user_id id)
    write_success album_restored

  -- `Purge`.
  unfoldable pub purge : Request Unit → Albums
  unfolding ◌>>=◌ write_success
  purge r = do
    id ← id_of r
    claims ← claims_of r
    call (Service.purge claims.user_id id)
    write_success album_purged
