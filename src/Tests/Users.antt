-- ===== src/Tests/Users.antt =====
-- A profile update of the small world, and an access token.
use tesseract_go_api.Prelude.{true, none, some, ◌≡◌, refl, arith}
use tesseract_go_api.Response.{plain}
use tesseract_go_api.Exec.{ok, err}
use tesseract_go_api.Store.{User, World}
use tesseract_go_api.Tokens.Manager.{UserClaims, create_access, parse_access}
use tesseract_go_api.Tokens.Sessions.{parse_access-create_access}
use tesseract_go_api.Users.Repository.{UpdateRequest}
use tesseract_go_api.Users.Service
use tesseract_go_api.Users.Handler
use tesseract_go_api.Users.Handler.{Config}
use tesseract_go_api.Http.{Request, decoded, fresh}
use tesseract_go_api.Tests.Fixtures.{platform, user_row, at_time}

abbrev ann : UserClaims
ann = record { user_id = 1; email = "ann@x"; role = "user" }

abbrev profile : UpdateRequest
profile = record { username = "Ann"; slug = "ann"; avatar = "javascript:1" }

abbrev pub request : Request UpdateRequest
request = record {
  method = "PUT";
  path = "/users/1";
  header = λ name. "";
  cookie = λ name. none;
  url_param = λ name. "1";
  url_query = λ name. "";
  remote_addr = "ip:1";
  remote_host = some "ip";
  user_agent = "ua";
  claims = some ann;
  language = none;
  body = decoded profile true;
}

abbrev config : Config
config = record { is_valid = λ req. true; sanitize_url = λ url. err (plain "Invalid URL format") }

abbrev new_ann : User
new_ann = record (user_row 1 "ann@x" "ann" none) { username = "Ann"; updated_at = 100 }

abbrev updated : World
unfolding Service.update
updated = (Service.update 1 (record profile { avatar = "" }) (at_time 100)).1

parse_access-create_access_example :
    parse_access platform 100 (create_access platform 1 "user" "ann@x" 900_000_000 0) ≡ ok ann
parse_access-create_access_example =
    parse_access-create_access platform 1 "user" "ann@x" 900_000_000 0 100 (λ fresh. refl) refl
      (λ e. cc) refl (omega arith)
