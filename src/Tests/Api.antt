-- ===== src/Tests/Api.antt =====
-- The whole API on the small world.
use tesseract_go_api.Prelude.{
  ◌*◌, true, List, [], ◌∷◌, none, some, ◌≡◌, ◌≤◌, refl, length, pos, str_eq, if◌then◌else◌,
}
use tesseract_go_api.Response.{plain}
use tesseract_go_api.Exec.{ok, err}
use tesseract_go_api.Store.{seconds}
use tesseract_go_api.Store.Valid.{IsValid}
use tesseract_go_api.Http.{Request, decoded, malformed, run}
use tesseract_go_api.History.{background, cleanup, run_task}
use tesseract_go_api.Tokens.Repository.{cleanup as cleanup_tokens}
use tesseract_go_api.Tokens.Manager.{parse_access}
use tesseract_go_api.Auth.Handler as Auth
use tesseract_go_api.Users.Handler as Users
use tesseract_go_api.Users.Service as UsersService
use tesseract_go_api.Routes.{Route, post, delete, logout, delete_user, limit, authentication}
use tesseract_go_api.RateLimit.Rules.{rule_auth, rule_modify}
use tesseract_go_api.Routes.Mount.{App}
use tesseract_go_api.Api.{Api, ApiData, handlers}
use tesseract_go_api.Api.Integrity.{Step, request, besides, take_steps, take_steps-IsValid}
use tesseract_go_api.Api.Answers.{handlers-bodies}
use tesseract_go_api.Tests.Fixtures.{platform, ttl, at_time}
use tesseract_go_api.Tests.Sealing.{sealing}
use tesseract_go_api.Tests.History.{tables-IsValid}

abbrev pub api : Api Unit
api = record {
  platform = platform;
  users = record { is_valid = λ req. true; sanitize_url = λ url. err (plain "Invalid URL format") };
  albums = record { sealing = sealing; albums_per_page = pos 10; is_valid = λ req. true };
  auth = record {
    ttl = ttl;
    cookies = record {
      secure = true;
      same_site = 2;
      access_ttl = 600 * seconds;
      refresh_ttl = 600 * seconds;
    };
    redirect_url = "http://localhost";
    allowed_providers = "google" ∷ [];
  };
  read_update = λ body. malformed;
  read_album = λ body. malformed;
  read_active = λ body. decoded true true;
  provider_url = λ r. "http://provider";
  completed = λ r. ok (record { email = "dan@x"; name = "Dan"; avatar_url = "" });
}

abbrev app : App ApiData
app = record {
  platform = platform;
  check_headers = true;
  check_origin = true;
  lang = "en";
  allowed_origins = "http://localhost" ∷ [];
  parse_url = λ url. ok ("http", "localhost");
  hash = λ bodies. "hash";
}

abbrev pub from_ann : Request Unit
from_ann = record {
  method = "DELETE";
  path = "/users/1";
  header = λ name. if str_eq name "X-Requested-With" then "XMLHttpRequest" else "http://localhost";
  cookie = λ name. some "a1";
  url_param = λ name. "1";
  url_query = λ name. "";
  remote_addr = "ip:1";
  remote_host = some "ip";
  user_agent = "ua";
  claims = none;
  language = none;
  body = decoded tt true;
}

abbrev leave : Route
leave = record (delete "/users/1" delete_user) { uses = limit rule_modify ∷ authentication ∷ [] }

abbrev log_out : Route
log_out = record (post "/auth/logout" logout) { uses = limit rule_auth ∷ [] }

-- Ann ends her session and her account, with the work of a goroutine between.
abbrev steps : List (Step Unit)
steps =
    request log_out (record from_ann { method = "POST"; path = "/auth/logout" })
    ∷ request leave from_ann
    ∷ besides (background 0)
    ∷ besides cleanup
    ∷ []

take_steps-IsValid_example : IsValid (take_steps api app steps (at_time 100)).db
take_steps-IsValid_example = take_steps-IsValid api app steps (at_time 100) tables-IsValid

handlers-bodies_example :
    length (run (handlers api delete_user from_ann) (at_time 100)).response.bodies ≤ 1
handlers-bodies_example = handlers-bodies api delete_user from_ann (at_time 100) (λ e. cc)

-- Her tokens are gone, those of Bob stay.
leaves : length (take_steps api app steps (at_time 100)).db.tokens ≡ 1
unfolding take_steps cleanup_tokens run parse_access Auth.logout Users.delete UsersService.delete
    run_task
leaves = refl
