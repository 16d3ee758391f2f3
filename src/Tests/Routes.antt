-- ===== src/Tests/Routes.antt =====
-- Requests on the routes of an administrator, through all middleware.
use mathlib.Core.List.{Memᴰ}
use tesseract_go_api.Prelude.{
  String, true, [], ◌∷◌, none, ◌≡◌, ◌⊎◌, ◌↔◌, refl, arith, str_eq, if◌then◌else◌,
}
use tesseract_go_api.Response.{sentinel, no_permission, user_deleted}
use tesseract_go_api.Exec.{ok}
use tesseract_go_api.Tokens.Manager.{parse_access}
use tesseract_go_api.Http.{Request, Exchange, write_success, run, fresh}
use tesseract_go_api.Middleware.{Endpoint}
use tesseract_go_api.Middleware.Recorder.{recorded, etag_checker}
use tesseract_go_api.Middleware.Revalidation.{written, sent, etag_checker-revalidates}
use tesseract_go_api.Middleware.Admission.{IsOver, IsUnder, rate_limit-run}
use tesseract_go_api.RateLimit.Rules.{rule_admin}
use tesseract_go_api.Routes.{
  HandlerName, Route, purge_user, limit, authentication, role, routes, delete,
}
use tesseract_go_api.Routes.Mount.{App, serve}
use tesseract_go_api.Routes.Gate.{cautious, serve-cautious}
use tesseract_go_api.Routes.Quiet.{data_of}
use tesseract_go_api.Routes.Protection.{modifying-refused, admin-refused}
use tesseract_go_api.Tests.Fixtures.{platform, at_time}
use tesseract_go_api.Tests.Middleware.{request}

abbrev app : App Unit
app = record {
  platform = platform;
  check_headers = true;
  check_origin = true;
  lang = "en";
  allowed_origins = "http://localhost" ∷ [];
  parse_url = λ url. ok ("http", "localhost");
  hash = λ bodies. "hash";
}

abbrev purge_route : Route
purge_route =
    record (delete
      "/admin/users/{uuid:[0-9a-fA-F]{8}\\-[0-9a-fA-F]{4}\\-[0-9a-fA-F]{4}\\-[0-9a-fA-F]{4}\\-[0-9a-fA-F]{12}}"
      purge_user) { uses = limit rule_admin ∷ role "admin" ∷ [] }

-- Every handler drops all users.
abbrev handlers : HandlerName → Endpoint Unit Unit
handlers name r x =
    write_success user_deleted
      (record x { world = record x.world { db = record x.world.db { users = [] } } })

-- From the front end, with the token of a user who is not an administrator.
abbrev trusted : Request Unit
trusted = record request {
  header = λ name. if str_eq name "X-Requested-With" then "XMLHttpRequest" else "http://localhost";
}

there : Memᴰ purge_route routes
unfolding routes
there = search (Memᴰ.head, Memᴰ.tail) depth 40

serve-cautious_example :
    run (serve app handlers purge_route trusted) (at_time 100)
    ≡ run
        (serve app
          (λ name. cautious app purge_route.uses (sentinel no_permission) (handlers name))
          purge_route
          trusted)
        (at_time 100)
serve-cautious_example =
    serve-cautious app purge_route handlers (sentinel no_permission) trusted (at_time 100) refl

admin-refused_example :
    data_of (run (serve app handlers purge_route trusted) (at_time 100)).world
    ≡ data_of (at_time 100)
unfolding parse_access
admin-refused_example =
    admin-refused app purge_route handlers trusted (at_time 100) there refl refl refl

modifying-refused_example :
    data_of
      (run
        (serve app handlers purge_route (record trusted { cookie = λ name. none }))
        (at_time 100)).world
    ≡ data_of (at_time 100)
modifying-refused_example =
    modifying-refused app purge_route handlers (record trusted { cookie = λ name. none })
      (at_time 100) there refl refl refl refl

-- A page, asked for with the tag that came with it.
abbrev page : Endpoint Unit Unit
page r = write_success user_deleted

abbrev with_tag : String → Request Unit
with_tag tag = record request {
  method = "GET";
  header = λ name. if str_eq name "If-None-Match" then tag else "";
}

abbrev start : Exchange Unit
start = record { world = at_time 100; response = fresh }

etag_checker-revalidates_example : ((sent app.hash page (with_tag "hash") start).status ≡ 304) ↔ (
    (written app.hash page (with_tag "") start).bodies
    ≡ (written app.hash page (with_tag "hash") start).bodies)
unfolding recorded etag_checker write_success
etag_checker-revalidates_example =
    etag_checker-revalidates app.hash page (with_tag "") (with_tag "hash") start start refl refl
      refl refl refl refl (λ e. refl)

rate_limit-run_example :
    IsOver platform rule_admin page request (at_time 100)
    ⊎ IsUnder platform rule_admin page request (at_time 100)
rate_limit-run_example =
    rate_limit-run platform rule_admin page request (at_time 100) refl (ground arith)

-- On a route that asks for a user only, the same request meets the handler.
purges :
    (run
      (serve app handlers
        (record purge_route { uses = limit rule_admin ∷ authentication ∷ [] })
        trusted)
      (at_time 100)).world.db.users
    ≡ []
unfolding run serve write_success parse_access
purges = refl
