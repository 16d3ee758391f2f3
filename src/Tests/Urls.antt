-- ===== src/Tests/Urls.antt =====
-- URLs of a library that knows one host, and slugs of the small world.
use tesseract_go_api.Prelude.{Bool, true, false, ◌≡◌, inl, refl, str_eq, if◌then◌else◌}
use tesseract_go_api.Response.{plain}
use tesseract_go_api.Exec.{ok, err}
use tesseract_go_api.Http.{run}
use tesseract_go_api.Urls.{UrlLibrary, validate_and_sanitize_url}
use tesseract_go_api.Urls.Safety.{IsWeb, validate_and_sanitize_url-IsWeb}
use tesseract_go_api.Users.Handler as Users
use tesseract_go_api.Users.Service
use tesseract_go_api.Users.Avatars.{AvatarsWeb, checked, update-AvatarsWeb}
use tesseract_go_api.Validation.{slug_rule, not_reserved, is_routable}
use tesseract_go_api.Validation.Slugs.{SlugsRoutable, restore_user-SlugsRoutable}
use tesseract_go_api.Tests.Fixtures.{platform, at_time}
use tesseract_go_api.Tests.Users.{request}

abbrev lib : UrlLibrary Bool
lib = record {
  parse_request_uri = λ s.
      if str_eq s "https://a/b"
      then ok true
      else if str_eq s "ftp://a"
      then ok false
      else err (plain "parse");
  scheme = λ u. if u then "HTTPS" else "ftp";
  host = λ u. "a";
  print = λ u. if u then "https://a/b" else "ftp://a";
}

cleans : validate_and_sanitize_url lib "  https://a/b " ≡ ok "https://a/b"
unfolding validate_and_sanitize_url
cleans = refl

refuses :
    validate_and_sanitize_url lib "ftp://a"
    ≡ err (plain "Only http and https protocols are allowed")
unfolding validate_and_sanitize_url
refuses = refl

validate_and_sanitize_url-IsWeb_example : IsWeb lib "https://a/b"
validate_and_sanitize_url-IsWeb_example =
    validate_and_sanitize_url-IsWeb lib "  https://a/b " "https://a/b" cleans

update-AvatarsWeb_example :
    AvatarsWeb lib
      (run (Users.update platform (checked lib (λ req. true)) request) (at_time 100)).world.db
update-AvatarsWeb_example =
    update-AvatarsWeb lib (λ req. true) platform request (at_time 100)
      (record { avatars = (inl refl, (inl refl, (inl refl, tt))) })

rules : (slug_rule "ann-1" ≡ true) × (slug_rule "a b" ≡ false) × (not_reserved "admin" ≡ false)
unfolding slug_rule not_reserved
rules = (refl, refl, refl)

restore_user-SlugsRoutable_example :
    SlugsRoutable
      (Service.restore_user
        (record platform { random_md5 = λ n. "d41d8cd98f00b204e9800998ecf8427e" })
        3
        (at_time 100)).1.db
unfolding is_routable
restore_user-SlugsRoutable_example =
    restore_user-SlugsRoutable
      (record platform { random_md5 = λ n. "d41d8cd98f00b204e9800998ecf8427e" }) (λ n. refl) 3
      (at_time 100) (record { slugs = (refl, (refl, (refl, tt))) })
