-- ===== src/Middleware.antt =====
-- cmd/api/middleware.go: the checks that stand before the handlers; Headers, Limit and Recorder have
-- the other middleware. `url.Parse` is an argument: the scheme and the host that it finds.
pub mod Access
pub mod Limit
pub mod Headers
pub mod Recorder
pub mod Revalidation
pub mod Browsing
pub mod Admission
use Prim.Native.Char.{code}
use Prim.Native.String as Text
use Prim.Native.String.{◌++◌ as append}
use tesseract_go_api.Prelude.{
  String, Bool, true, false, List, Option, none, some, ◌&&◌, ◌||◌, ◌==◌, not, str_eq, if◌then◌else◌,
}
use tesseract_go_api.Response.{
  Error, sentinel, wrapped, access_token_expired, no_claims, no_permission, no_security_header,
  invalid_origin,
}
use tesseract_go_api.Exec.{Result, ok, err, gets, lift, return, throw, ◌>>=◌, ◌>>◌}
use tesseract_go_api.Platform.{Platform}
use tesseract_go_api.Tokens.Manager.{UserClaims, parse_access}
use tesseract_go_api.Albums.Access.{contains}
use tesseract_go_api.Http.{Request, Handler, Exchange, set_cookie}
use tesseract_go_api.Http.Cookies.{unset_access}

-- `strings.HasPrefix`, `strings.HasSuffix`.
abbrev has_prefix : String → String → Bool
has_prefix s Text.[] = true
has_prefix Text.[] (Text.◌∷◌ d t) = false
has_prefix (Text.◌∷◌ c s) (Text.◌∷◌ d t) = code c == code d && has_prefix s t

abbrev has_suffix : String → String → Bool
has_suffix Text.[] t = str_eq "" t
has_suffix (Text.◌∷◌ c s) t = str_eq (Text.◌∷◌ c s) t || has_suffix s t

-- The routes that let a dead access token through.
unfoldable pub is_auth_exception : String → Bool
is_auth_exception path =
    str_eq path "/auth/refresh"
    || str_eq path "/auth/logout"
    || has_prefix path "/auth/" && has_suffix path "/provider"
    || has_prefix path "/auth/" && has_suffix path "/callback"

-- A handler on requests.
abbrev pub Endpoint : Type 0 → Type 0 → Type 0
Endpoint B D = Request B → Handler D

abbrev pub is_safe : String → Bool
is_safe method = str_eq method "GET" || str_eq method "HEAD" || str_eq method "OPTIONS"

abbrev pub origin_of : {B : Type 0} → Request B → String
origin_of r = if str_eq (r.header "Origin") "" then r.header "Referer" else r.header "Origin"

module _ {B D : Type 0} where
  abbrev pub dead_token : Endpoint B D → Endpoint B D
  dead_token next r =
      if is_auth_exception r.path
      then next r
      else (set_cookie unset_access >> throw (sentinel access_token_expired))

  abbrev pub with_claims : Endpoint B D → Request B → Result UserClaims → Handler D
  with_claims next r (err e) = dead_token next r
  with_claims next r (ok c) =
      if c.user_id == 0 then dead_token next r else next (record r { claims = some c })

  abbrev pub with_token : Platform → Endpoint B D → Request B → Option String → Handler D
  with_token p next r none = next r
  with_token p next r (some token) =
      if str_eq token ""
      then next r
      else (λ x. with_claims next r (parse_access p x.world.now token) x)

  -- `ParseAccessToken`.
  unfoldable pub parse_access_token : Platform → Endpoint B D → Endpoint B D
  unfolding ◌>>=◌ is_auth_exception
  parse_access_token p next r = with_token p next r (r.cookie "access_token")

  abbrev pub authenticated : Endpoint B D → Request B → Option UserClaims → Handler D
  authenticated next r none = throw (sentinel no_claims)
  authenticated next r (some c) = if c.user_id == 0 then throw (sentinel no_claims) else next r

  -- `RequireAuthentication`.
  unfoldable pub require_authentication : Endpoint B D → Endpoint B D
  unfolding ◌>>=◌
  require_authentication next r = authenticated next r r.claims

  abbrev pub with_role : String → Endpoint B D → Request B → Option UserClaims → Handler D
  with_role role next r none = throw (sentinel no_claims)
  with_role role next r (some c) =
      if str_eq c.role role then next r else throw (sentinel no_permission)

  -- `RequireRole`.
  unfoldable pub require_role : String → Endpoint B D → Endpoint B D
  unfolding ◌>>=◌
  require_role role next r = with_role role next r r.claims

  -- `CheckXHeaders`.
  unfoldable pub check_x_headers : Endpoint B D → Endpoint B D
  unfolding ◌>>=◌
  check_x_headers next r =
      if is_safe r.method || str_eq (r.header "X-Requested-With") "XMLHttpRequest"
      then next r
      else throw (sentinel no_security_header)

  abbrev pub from_allowed :
      List String → Endpoint B D → Request B → Result (String × String) → Handler D
  from_allowed allowed next r (err e) = throw (wrapped invalid_origin e)
  from_allowed allowed next r (ok (scheme, host)) =
      if contains allowed (append scheme (append "://" host))
      then next r
      else throw (sentinel invalid_origin)

  -- `CheckOrigin`.
  unfoldable pub check_origin :
      (String → Result (String × String)) → List String → Endpoint B D → Endpoint B D
  unfolding ◌>>=◌
  check_origin parse_url allowed next r =
      if is_safe r.method
      then next r
      else if str_eq (origin_of r) ""
      then throw (sentinel invalid_origin)
      else from_allowed allowed next r (parse_url (origin_of r))
