-- ===== src/Tests/Middleware.antt =====
-- A request of an administrator's route with an access token of a user.
use tesseract_go_api.Prelude.{none, some, ◌⊎◌, refl, true}
use tesseract_go_api.Http.{Request, Handler, decoded, write_success}
use tesseract_go_api.Response.{user_deleted}
use tesseract_go_api.Middleware.Access.{guarded, Granted, Refused, guarded-run}
use tesseract_go_api.Tests.Fixtures.{platform, at_time}

abbrev pub request : Request Unit
request = record {
  method = "DELETE";
  path = "/admin/users/1";
  header = λ name. "";
  cookie = λ name. some "sealed";
  url_param = λ name. "1";
  url_query = λ name. "";
  remote_addr = "ip:1";
  remote_host = some "ip";
  user_agent = "ua";
  claims = none;
  language = none;
  body = decoded tt true;
}

abbrev purged : Request Unit → Handler Unit
purged r = write_success user_deleted

guarded-run_example :
    Granted platform "admin" purged request (guarded platform "admin" purged request) (at_time 100)
    ⊎ Refused platform "admin" purged (guarded platform "admin" purged request) (at_time 100)
guarded-run_example = guarded-run platform "admin" purged request (at_time 100) refl
