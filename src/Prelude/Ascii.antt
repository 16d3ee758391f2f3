-- ===== src/Prelude/Ascii.antt =====
-- Characters of ASCII, and the lower case of a text that has no others.
use Prim.Native.Char.{Char, code}
use Prim.Native.String as Text
use Prim.Native.String.{String}
use Prim.Native.Nat.{◌-◌}
use mathlib.Core.Bool.{◌&&◌}
use tesseract_go_api.Prelude.Tests.{leb, if◌then◌else◌}

abbrev pub lower : Char → Char
lower c =
    if leb b'A' (code c) && leb (code c) b'Z'
    then Text.char_at "abcdefghijklmnopqrstuvwxyz" (code c - b'A')
    else c

-- `strings.ToLower` on ASCII.
abbrev pub to_lower : String → String
to_lower Text.[] = Text.[]
to_lower (Text.◌∷◌ c s) = Text.◌∷◌ (lower c) (to_lower s)
