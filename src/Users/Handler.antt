-- ===== src/Users/Handler.antt =====
-- internal/domain/users/handler.go and model.go.
use tesseract_go_api.Prelude.{String, Bool, Option, none, some, ◌==◌, str_eq, if◌then◌else◌}
use tesseract_go_api.Response.{
  sentinel, wrapped, plain, no_claims, bad_uuid, no_permission, invalid_image_url, user_updated,
  user_deleted,
}
use tesseract_go_api.Exec.{Result, ok, err, Exec, return, throw, ◌>>=◌, ◌>>◌}
use tesseract_go_api.Store.{Uuid, Time, User}
use tesseract_go_api.Platform.{Platform}
use tesseract_go_api.Tokens.Manager.{UserClaims}
use tesseract_go_api.Http.{
  Request, Exchange, Handler, call, require, set_cookie, write_error, write_success,
  write_success_data, write_data, write_validation_error, decode_body, if_valid,
}
use tesseract_go_api.Http.Cookies.{unset_access, unset_refresh}
use tesseract_go_api.Users.Repository.{UpdateRequest}
use tesseract_go_api.Users.Service

-- What of a user is shown. `none` is a field that the JSON leaves out.
pub record UserResponse : Type 0 where
  pub id : Option Uuid
  pub email : Option String
  pub username : String
  pub avatar : String
  pub slug : String
  pub role : Option String
  pub created_at : Option Time
  pub updated_at : Option Time
  pub deleted_at : Option Time

unfoldable pub to_public : User → UserResponse
to_public u = record {
  id = none;
  email = none;
  username = u.username;
  avatar = u.avatar;
  slug = u.slug;
  role = none;
  created_at = none;
  updated_at = none;
  deleted_at = none;
}

unfoldable pub to_me : User → UserResponse
unfolding to_public
to_me u = record (to_public u) {
  id = some u.id;
  email = some u.email;
  role = some u.role;
  created_at = some u.created_at;
}

-- users.Handler: the validator on the tags of `UpdateRequest`, and `ValidateAndSanitizeURL`.
pub record Config : Type 0 where
  pub is_valid : UpdateRequest → Bool
  pub sanitize_url : String → Result String

abbrev Users : Type 0
Users = Handler UserResponse

abbrev claims_of : {B : Type 0} → Request B → Exec (Exchange UserResponse) UserClaims
claims_of r = require r.claims (sentinel no_claims)

-- `Me`.
unfoldable pub me : Request Unit → Users
unfolding ◌>>=◌ to_me write_data
me r = do
  claims ← claims_of r
  u ← call (Service.get_available claims.user_id)
  write_data (to_me u)

-- `Info`.
unfoldable pub info : Request Unit → Users
unfolding ◌>>=◌ to_public write_data
info r = do u ← call (Service.get_available_by_slug (r.url_param "slug")); write_data (to_public u)

-- The avatar that is stored: a URL that is refused is answered, and the handler goes on with the
-- empty text.
abbrev pub sanitized : Result String → Exec (Exchange UserResponse) String
sanitized (ok url) = return url
sanitized (err e) = do write_error (wrapped invalid_image_url e); return ""

module _ (p : Platform) (c : Config) where
  -- The id from the URL, which has to be the user's own.
  abbrev pub own_id : {B : Type 0} → Request B → Exec (Exchange UserResponse) Uuid
  own_id r = do
    id ← require (p.uuid_parse (r.url_param "uuid")) (wrapped bad_uuid (plain "invalid UUID"))
    claims ← claims_of r
    if claims.user_id == id then return id else throw (sentinel no_permission)

  abbrev pub secured_avatar : String → Exec (Exchange UserResponse) String
  secured_avatar avatar =
      if str_eq avatar "" then return avatar else sanitized (c.sanitize_url avatar)

  -- `Update`.
  unfoldable pub update : Request UpdateRequest → Users
  unfolding ◌>>=◌ write_error write_success_data write_validation_error to_me
  update r = do
    id ← own_id r
    req ← decode_body r.body
    if_valid (c.is_valid req) do
      avatar ← secured_avatar req.avatar
      u ← call (Service.update id (record req { avatar = avatar }))
      write_success_data user_updated (to_me u)

  -- `Delete`.
  unfoldable pub delete : Request Unit → Users
  unfolding ◌>>=◌ write_success set_cookie
  delete r = do
    id ← own_id r
    call (Service.delete id)
    set_cookie unset_access
    set_cookie unset_refresh
    write_success user_deleted
