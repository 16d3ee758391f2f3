-- ===== src/Middleware/Headers.antt =====
-- cmd/api/middleware.go: AddSecurityHeaders and InsertLanguageToContext, and the language of a
-- context in internal/platform/i18n. The text of a header is ASCII.
use Prim.Native.String as Text
use tesseract_go_api.Prelude.{lower, String, Option, none, some}
use tesseract_go_api.Exec.{◌>>=◌, ◌>>◌}
use tesseract_go_api.Http.{plain_text, set_header}
use tesseract_go_api.Middleware.{Endpoint}

-- The first two characters in lower case, if there are two; else the language of the settings.
unfoldable pub language_of : (default header : String) → String
language_of default (Text.◌∷◌ c (Text.◌∷◌ d rest)) = Text.◌∷◌ (lower c) (Text.◌∷◌ (lower d) Text.[])
language_of default header = default

-- `GetLanguageFromContext`.
abbrev pub context_language : Option String → String
context_language none = "en"
context_language (some lang) = lang

module _ {B D : Type 0} where
  -- `AddSecurityHeaders`.
  unfoldable pub add_security_headers : Endpoint B D → Endpoint B D
  unfolding set_header ◌>>=◌
  add_security_headers next r = do
    set_header "X-Content-Type-Options" (plain_text "nosniff")
    set_header "X-Frame-Options" (plain_text "DENY")
    next r

  -- `InsertLanguageToContext`, with the language of the settings.
  unfoldable pub insert_language : String → Endpoint B D → Endpoint B D
  unfolding language_of ◌>>=◌
  insert_language default next r =
      next (record r { language = some (language_of default (r.header "Accept-Language")) })
