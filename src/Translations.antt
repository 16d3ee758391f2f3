-- ===== src/Translations.antt =====
-- internal/platform/i18n/i18n.go, and the texts that internal/platform/response/response.go takes
-- from it. The map of translations.json is an argument.
pub mod Texts
use Prim.Native.Char.{Char, code}
use Prim.Native.String as Text
use Prim.Native.String.{◌++◌ as append}
use tesseract_go_api.Prelude.{
  ℕ, String, Bool, true, false, List, [], ◌∷◌, Option, none, some, ◌≡◌, ◌≢◌, refl, ◌+◌, ◌&&◌, ◌==◌,
  arith, leb, str_eq, eq_iff, if◌then◌else◌, Bool-cases, inl, inr,
}
use tesseract_go_api.Response.{Error, AppError, AppSuccess, slug, success_slug, answered}

-- A Go map from texts; a missing key has the zero value of its type.
abbrev find_text : String → List (String × String) → String
find_text key [] = ""
find_text key ((k, v) ∷ rest) = if str_eq k key then v else find_text key rest

abbrev Languages : Type 0
Languages = List (String × List (String × String))

pub record Translator : Type 0 where
  pub locales : Languages
  pub fallback_lang : String

-- `getRaw`.
unfoldable pub get_raw : Languages → (lang key : String) → String
get_raw [] lang key = ""
get_raw ((l, texts) ∷ rest) lang key =
    let behind = get_raw rest lang key in if str_eq l lang then find_text key texts else behind

-- A key without the prefix "err_" if more follows.
abbrev pub strip_err : String → String
strip_err (Text.◌∷◌ a (Text.◌∷◌ b (Text.◌∷◌ c (Text.◌∷◌ d (Text.◌∷◌ e rest))))) =
    if code a == b'e' && code b == b'r' && code c == b'r' && code d == b'_'
    then Text.◌∷◌ e rest
    else Text.◌∷◌ a (Text.◌∷◌ b (Text.◌∷◌ c (Text.◌∷◌ d (Text.◌∷◌ e rest))))
strip_err key = key

-- `strings.ReplaceAll(val, "_", " ")`.
abbrev pub spaced : String → String
spaced Text.[] = Text.[]
spaced (Text.◌∷◌ c s) = Text.◌∷◌ (if code c == b'_' then " " else c) (spaced s)

-- The key as a readable text.
unfoldable pub readable : String → String
readable key = spaced (strip_err key)

-- `strings.Replace(val, "{p}", param, 1)`.
abbrev pub replace_param : (val param : String) → String
replace_param val param =
    if leb (Text.find val "{p}") (Text.len val)
    then append (Text.slice val 0 (Text.find val "{p}"))
        (append param (Text.slice val (Text.find val "{p}" + 3) (Text.len val)))
    else val

abbrev pub or_else : String → String → String
or_else first second = if str_eq first "" then second else first

-- `T`.
unfoldable pub translate : Translator → (lang key param : String) → String
unfolding get_raw readable
translate t lang key param =
    let val =
      or_else (get_raw t.locales lang key)
        (or_else (get_raw t.locales t.fallback_lang key) (readable key)) in
    if str_eq param "" then val else replace_param val param

-- `errResponseText` of `Response.Error`.
unfoldable pub error_text : Translator → (lang : String) → Error → String
unfolding translate answered
error_text t lang e = translate t lang (append "err_" (slug (answered e))) ""

-- "message" of `Response.Success` and `SuccessWithData`.
unfoldable pub success_text : Translator → (lang : String) → AppSuccess → String
unfolding translate
success_text t lang m = translate t lang (success_slug m) ""

-- A field that the validator refused: its name, the rule, and the parameter of the rule.
pub record FieldError : Type 0 where
  pub field : String
  pub tag : String
  pub param : String

-- The text of a field in `Response.ValidationError`.
unfoldable pub field_text : Translator → (lang : String) → FieldError → String
unfolding translate
field_text t lang f =
    or_else (translate t lang (append "validation_" f.tag) f.param)
      (translate t lang "validation_invalid" "")

-- `errorsMap`: a later field with the same name takes the place of an earlier one.
unfoldable pub put_text : (field text : String) → List (String × String) → List (String × String)
put_text field text [] = (field, text) ∷ []
put_text field text ((k, v) ∷ rest) =
    let behind = put_text field text rest in
    if str_eq k field then (k, text) ∷ rest else (k, v) ∷ behind

unfoldable pub details :
    Translator → (lang : String) → List FieldError → List (String × String) → List (String × String)
unfolding field_text put_text
details t lang [] texts = texts
details t lang (f ∷ fs) texts = details t lang fs (put_text f.field (field_text t lang f) texts)

-- `ValidationResponse`.
pub record ValidationResponse : Type 0 where
  pub error : String
  pub slug : String
  pub details : List (String × String)

unfoldable pub validation_response :
    Translator → (lang : String) → List FieldError → ValidationResponse
unfolding translate details
validation_response t lang fs = record {
  error = translate t lang "validation_failed" "";
  slug = "validation_failed";
  details = details t lang fs [];
}
