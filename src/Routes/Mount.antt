-- ===== src/Routes/Mount.antt =====
-- cmd/api/main.go: what `mount` puts before the routes. The middleware of chi and the CORS handler
-- are third-party code; chi picks the route of a request, and answers where there is none.
use tesseract_go_api.Prelude.{String, Bool, List, [], ◌∷◌, if◌then◌else◌}
use tesseract_go_api.Exec.{Result}
use tesseract_go_api.Platform.{Platform}
use tesseract_go_api.Http.{Body}
use tesseract_go_api.Middleware.{
  Endpoint, check_x_headers, check_origin, parse_access_token, require_authentication, require_role,
}
use tesseract_go_api.Middleware.Headers.{add_security_headers, insert_language}
use tesseract_go_api.Middleware.Limit.{rate_limit}
use tesseract_go_api.Middleware.Recorder.{etag_checker}
use tesseract_go_api.Routes.{Use, limit, authentication, role, HandlerName, Route}

-- The settings that `mount` reads, and what comes from packages outside of the repository: the
-- scheme and the host of an URL, and the hash of what a handler writes.
pub record App (D : Type 0) : Type 0 where
  pub platform : Platform
  pub check_headers : Bool
  pub check_origin : Bool
  pub lang : String
  pub allowed_origins : List String
  pub parse_url : String → Result (String × String)
  pub hash : List (Body D) → String

module _ {B D : Type 0} (app : App D) where
  unfoldable pub apply_use : Use → Endpoint B D → Endpoint B D
  unfolding rate_limit require_authentication require_role
  apply_use (limit rule) next = rate_limit app.platform rule next
  apply_use authentication next = require_authentication next
  apply_use (role name) next = require_role name next

  -- The first one stands outermost.
  unfoldable pub apply_uses : List Use → Endpoint B D → Endpoint B D
  unfolding apply_use
  apply_uses [] next = next
  apply_uses (u ∷ us) next = apply_use u (apply_uses us next)

  abbrev pub if_set : Bool → (Endpoint B D → Endpoint B D) → Endpoint B D → Endpoint B D
  if_set on middleware next = if on then middleware next else next

  abbrev pub identified : Endpoint B D → Endpoint B D
  identified next = parse_access_token app.platform (etag_checker app.hash next)

  abbrev pub worded : Endpoint B D → Endpoint B D
  worded next = insert_language app.lang (identified next)

  abbrev pub placed : Endpoint B D → Endpoint B D
  placed next =
      if_set app.check_origin (check_origin app.parse_url app.allowed_origins) (worded next)

  -- The middleware of `mount`, around the routes.
  unfoldable pub mounted : Endpoint B D → Endpoint B D
  unfolding add_security_headers check_x_headers check_origin insert_language parse_access_token
      etag_checker
  mounted next = add_security_headers (if_set app.check_headers check_x_headers (placed next))

  -- A request on a route: `handlers` gives each handler that a route names.
  unfoldable pub serve : (HandlerName → Endpoint B D) → Route → Endpoint B D
  unfolding mounted apply_uses
  serve handlers route = mounted (apply_uses route.uses (handlers route.handler))
