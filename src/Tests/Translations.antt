-- ===== src/Tests/Translations.antt =====
-- Texts in English, with translations for some of the slugs.
use tesseract_go_api.Prelude.{[], ◌∷◌, ◌≡◌, ◌≢◌, refl}
use Prim.Native.String.{◌++◌ as append}
use tesseract_go_api.Response.{sentinel, wrapped, plain, bad_uuid, album_not_found}
use tesseract_go_api.Translations.{Translator, FieldError, translate, error_text, field_text}
use tesseract_go_api.Translations.Texts.{error_text-filled, field_text-own}

abbrev english : Translator
english = record {
  locales =
      (
        "en",
        ("err_album_not_found", "No such album")
            ∷ ("validation_min", "At least {p} characters")
            ∷ [],
      )
      ∷ [];
  fallback_lang = "en";
}

abbrev too_short : FieldError
too_short = record { field = "slug"; tag = "min"; param = "3" }

abbrev reserved : FieldError
reserved = record { field = "slug"; tag = "not_reserved"; param = "" }

falls_back : error_text english "fr" (sentinel album_not_found) ≡ "No such album"
unfolding error_text
falls_back = refl

names_key : error_text english "fr" (wrapped bad_uuid (plain "short")) ≡ "bad uuid"
unfolding error_text
names_key = refl

puts_param : field_text english "en" too_short ≡ "At least 3 characters"
unfolding field_text
puts_param = refl

error_text-filled_example : error_text english "fr" (sentinel bad_uuid) ≢ ""
error_text-filled_example = error_text-filled english "fr" (sentinel bad_uuid)

field_text-own_example :
    field_text english "en" reserved
    ≡ translate english "en" (append "validation_" reserved.tag) reserved.param
field_text-own_example = field_text-own english "en" reserved
