-- ===== src/Routes.antt =====
-- cmd/api/routes.go: the routes, with the middleware of the groups around each handler.
pub mod Mount
pub mod Agree
pub mod Gate
pub mod Quiet
pub mod Protection
use Prim.Native.String.{◌++◌ as append}
use tesseract_go_api.Prelude.{String, List, [], ◌∷◌, ◌++◌, map}
use tesseract_go_api.RateLimit.Rules.{
  Rule, rule_auth, rule_refresh, rule_get, rule_modify, rule_admin,
}

-- The handlers that routes name.
pub data HandlerName : Type 0 where
  oauth_provider oauth_callback logout revoke_other_sessions get_sessions : HandlerName
  revoke_session refresh_session : HandlerName
  health me owned_list trashed_list get_owned available_list user_info : HandlerName
  get_available get_by_direct_token : HandlerName
  update_user delete_user : HandlerName
  create_album update_album delete_album generate_direct_token : HandlerName
  revoke_direct_token toggle_active restore_album purge_album : HandlerName
  restore_user purge_user : HandlerName

-- What a group applies to its routes by `r.Use`.
pub data Use : Type 0 where
  -- `RateLimit`
  limit : Rule → Use
  -- `RequireAuthentication`
  authentication : Use
  -- `RequireRole`
  role : String → Use

pub record Route : Type 0 where
  pub method : String
  pub pattern : String
  pub uses : List Use
  pub handler : HandlerName

abbrev pub get : String → HandlerName → Route
get pattern handler = record { method = "GET"; pattern = pattern; uses = []; handler = handler }

abbrev pub post : String → HandlerName → Route
post pattern handler = record { method = "POST"; pattern = pattern; uses = []; handler = handler }

abbrev put : String → HandlerName → Route
put pattern handler = record { method = "PUT"; pattern = pattern; uses = []; handler = handler }

abbrev pub delete : String → HandlerName → Route
delete pattern handler = record {
  method = "DELETE";
  pattern = pattern;
  uses = [];
  handler = handler;
}

-- `r.Group`: the middleware of a group stands around that of the groups in it.
abbrev around : List Use → Route → Route
around uses r = record r { uses = uses ++ r.uses }

abbrev group : List Use → List Route → List Route
group uses routes = map (around uses) routes

abbrev provider_regex : String
provider_regex = "[a-zA-Z0-9]{2,20}"

abbrev slug_regex : String
slug_regex = "[a-zA-Z0-9_-]{1,255}"

abbrev uuid_regex : String
uuid_regex = "[0-9a-fA-F]{8}\\-[0-9a-fA-F]{4}\\-[0-9a-fA-F]{4}\\-[0-9a-fA-F]{4}\\-[0-9a-fA-F]{12}"

-- `fmt.Sprintf` of a pattern with one regular expression.
abbrev with_regex : (before regex after : String) → String
with_regex before regex after = append before (append regex after)

abbrev role_admin : String
role_admin = "admin"

abbrev auth_routes : List Route
auth_routes =
    get (with_regex "/auth/{provider:" provider_regex "}/provider") oauth_provider
    ∷ get (with_regex "/auth/{provider:" provider_regex "}/callback") oauth_callback
    ∷ post "/auth/logout" logout
    ∷ group (authentication ∷ []) (
        post "/auth/logout-others" revoke_other_sessions
        ∷ get "/auth/sessions" get_sessions
        ∷ delete (with_regex "/auth/sessions/{uuid:" uuid_regex "}") revoke_session
        ∷ [])

abbrev get_routes : List Route
get_routes =
    get "/health" health
    ∷ get "/me/info" me
    ∷ get "/me/albums/list" owned_list
    ∷ get "/me/albums/trashed" trashed_list
    ∷ get (with_regex "/me/albums/{uuid:" uuid_regex "}") get_owned
    ∷ get (with_regex "/users/{slug:" slug_regex "}/albums") available_list
    ∷ get (with_regex "/users/{slug:" slug_regex "}/info") user_info
    ∷ get (with_regex "/albums/{user_slug:" slug_regex (with_regex "}/{album_slug:" slug_regex "}"))
        get_available
    ∷ get (with_regex "/albums/{direct_token:" uuid_regex "}") get_by_direct_token
    ∷ []

abbrev modify_routes : List Route
modify_routes =
    put (with_regex "/users/{uuid:" uuid_regex "}") update_user
    ∷ delete (with_regex "/users/{uuid:" uuid_regex "}") delete_user
    ∷ post "/albums" create_album
    ∷ put (with_regex "/albums/{uuid:" uuid_regex "}") update_album
    ∷ delete (with_regex "/albums/{uuid:" uuid_regex "}") delete_album
    ∷ post (with_regex "/albums/{uuid:" uuid_regex "}/direct") generate_direct_token
    ∷ delete (with_regex "/albums/{uuid:" uuid_regex "}/direct") revoke_direct_token
    ∷ put (with_regex "/albums/{uuid:" uuid_regex "}/active") toggle_active
    ∷ post (with_regex "/albums/{uuid:" uuid_regex "}/restore") restore_album
    ∷ delete (with_regex "/albums/{uuid:" uuid_regex "}/purge") purge_album
    ∷ []

abbrev admin_routes : List Route
admin_routes =
    post (with_regex "/admin/users/{uuid:" uuid_regex "}/restore") restore_user
    ∷ delete (with_regex "/admin/users/{uuid:" uuid_regex "}") purge_user
    ∷ []

-- `Routes`.
unfoldable pub routes : List Route
routes =
    group (limit rule_auth ∷ []) auth_routes
    ++ group (limit rule_refresh ∷ []) (post "/auth/refresh" refresh_session ∷ [])
    ++ group (limit rule_get ∷ []) get_routes
    ++ group (limit rule_modify ∷ authentication ∷ []) modify_routes
    ++ group (limit rule_admin ∷ role role_admin ∷ []) admin_routes
