-- ===== src/Http/Numbers.antt =====
-- `strconv.Atoi` on a query parameter, and the limit of a page.
use Prim.Native.Char.{Char, code}
use Prim.Native.String as Text
use tesseract_go_api.Prelude.{
  ℕ, ℤ, pos, negsuc, zero, suc, String, Bool, Option, none, some, ◌+◌, ◌-◌, ◌*◌, ◌&&◌, ◌==◌, ltb,
  leb, if◌then◌else◌,
}

abbrev is_digit : Char → Bool
is_digit c = leb 48 (code c) && leb (code c) 57

-- The number that the digits add to what was read.
abbrev digits : ℕ → String → Option ℕ
digits acc Text.[] = some acc
digits acc (Text.◌∷◌ c s) =
    let rest = digits (10 * acc + (code c - 48)) s in if is_digit c then rest else none

abbrev number : String → Option ℕ
number Text.[] = none
number (Text.◌∷◌ c s) = digits 0 (Text.◌∷◌ c s)

-- A 64-bit `int`.
abbrev positive : Option ℕ → Option ℤ
positive none = none
positive (some n) = if ltb n 9_223_372_036_854_775_808 then some (pos n) else none

abbrev minus : ℕ → ℤ
minus zero = pos 0
minus (suc n) = negsuc n

abbrev negative : Option ℕ → Option ℤ
negative none = none
negative (some n) = if leb n 9_223_372_036_854_775_808 then some (minus n) else none

abbrev signed : ℕ → String → Option ℤ → Option ℤ
signed c s unsigned =
    if c == 45 then negative (number s) else if c == 43 then positive (number s) else unsigned

unfoldable pub atoi : String → Option ℤ
atoi Text.[] = none
atoi (Text.◌∷◌ c s) = signed (code c) s (positive (number (Text.◌∷◌ c s)))
