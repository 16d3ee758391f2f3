-- ===== src/Validation.antt =====
-- internal/platform/validator/validator.go: the rules that the program adds to the validator, and
-- the pattern of slugs in cmd/api/routes.go.
pub mod Slugs
use Prim.Native.Char.{Char, code}
use Prim.Native.String as Text
use tesseract_go_api.Prelude.{
  ℕ, zero, suc, String, Bool, true, false, List, [], ◌∷◌, ◌&&◌, ◌||◌, ◌==◌, not, leb, str_eq, any,
  if◌then◌else◌,
}

-- `[a-zA-Z0-9_-]`.
abbrev pub is_slug_char : Char → Bool
is_slug_char c =
    leb b'a' (code c) && leb (code c) b'z'
    || leb b'A' (code c) && leb (code c) b'Z'
    || leb b'0' (code c) && leb (code c) b'9'
    || code c == b'_'
    || code c == b'-'

abbrev pub all_slug : String → Bool
all_slug Text.[] = true
all_slug (Text.◌∷◌ c s) = is_slug_char c && all_slug s

abbrev pub size : String → ℕ
size Text.[] = 0
size (Text.◌∷◌ c s) = suc (size s)

-- The rule "slug": `^[a-zA-Z0-9_-]+$`.
unfoldable pub slug_rule : String → Bool
slug_rule s = leb 1 (size s) && all_slug s

abbrev pub reserved_words : List String
reserved_words =
    "superadmin" ∷ "admin" ∷ "root" ∷ "owner" ∷ "dashboard" ∷ "settings" ∷ "albums" ∷ []

-- The rule "notreserved".
unfoldable pub not_reserved : String → Bool
not_reserved s = not (any (str_eq s) reserved_words)

-- What a route takes as a slug: `[a-zA-Z0-9_-]{1,255}`.
unfoldable pub is_routable : String → Bool
is_routable s = leb 1 (size s) && leb (size s) 255 && all_slug s
