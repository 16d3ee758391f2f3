-- ===== src/Urls.antt =====
-- internal/platform/utils/utils.go: the check of an URL. The URL library of Go is an argument.
pub mod Safety
use Prim.Native.Char.{Char, code}
use Prim.Native.String as Text
use tesseract_go_api.Prelude.{
  ℕ, String, Bool, ◌&&◌, ◌||◌, ◌==◌, not, leb, str_eq, to_lower, if◌then◌else◌,
}
use tesseract_go_api.Response.{plain}
use tesseract_go_api.Exec.{Result, ok, err}

-- net/url, on its type of URLs: `ParseRequestURI`, the fields `Scheme` and `Host`, and `String`.
pub record UrlLibrary (Url : Type 0) : Type 0 where
  pub parse_request_uri : String → Result Url
  pub scheme : Url → String
  pub host : Url → String
  pub print : Url → String

-- `unicode.IsSpace`.
abbrev is_space : ℕ → Bool
is_space c =
    leb 9 c && leb c 13
    || c == 32
    || c == 133
    || c == 160
    || c == 5760
    || leb 8192 c && leb c 8202
    || c == 8232
    || c == 8233
    || c == 8239
    || c == 8287
    || c == 12288

abbrev trim_left : String → String
trim_left Text.[] = Text.[]
trim_left (Text.◌∷◌ c s) =
    let rest = trim_left s in if is_space (code c) then rest else Text.◌∷◌ c s

abbrev keep : Char → String → String
keep c rest = if str_eq rest "" && is_space (code c) then "" else Text.◌∷◌ c rest

abbrev trim_right : String → String
trim_right Text.[] = Text.[]
trim_right (Text.◌∷◌ c s) = keep c (trim_right s)

-- `strings.TrimSpace`.
unfoldable pub trim_space : String → String
trim_space s = trim_right (trim_left s)

module _ {Url : Type 0} (lib : UrlLibrary Url) where
  abbrev pub is_web : Url → Bool
  is_web u = str_eq (to_lower (lib.scheme u)) "http" || str_eq (to_lower (lib.scheme u)) "https"

  abbrev pub printed : Result Url → Result String
  printed (err e) = err (plain "Invalid URL format")
  printed (ok u) =
      if not (is_web u)
      then err (plain "Only http and https protocols are allowed")
      else if str_eq (lib.host u) ""
      then err (plain "Host cannot be empty")
      else ok (lib.print u)

  -- `ValidateAndSanitizeURL`.
  unfoldable pub validate_and_sanitize_url : String → Result String
  unfolding trim_space
  validate_and_sanitize_url raw =
      if str_eq (trim_space raw) "" then ok "" else printed (lib.parse_request_uri (trim_space raw))
