-- ===== src/Tests/Sealing.antt =====
-- A sealing that meets its hypotheses: times and ids in unary, a nonce of one byte.
use Prim.Native.String as Text
use Prim.Native.String.{◌++◌ as append, count}
use Prim.Native.String.compare.{cons-nil}
use text.Mathlib.Text.{is_eq}
use Prim.Native.String.count as Count
use tesseract_go_api.Prelude.{ℕ, zero, suc, String, false, Option, none, some, ◌≡◌, refl, ap, ◌∙◌}
use tesseract_go_api.Cursor.{Sealing}
use tesseract_go_api.Cursor.Laws.{IsSealing, has_bar}

unfoldable pub unary : ℕ → String
unary zero = ""
unary (suc n) = Text.◌∷◌ "1" (unary n)

abbrev pub tail : String → Option String
tail Text.[] = none
tail (Text.◌∷◌ c s) = some s

abbrev pub sealing : Sealing
sealing = record {
  format_time = unary;
  parse_time = λ s. some (count s);
  format_id = unary;
  parse_id = λ s. some (count s);
  nonce = λ n. "n";
  nonce_size = 1;
  seal = λ nonce text. text;
  unseal = λ nonce sealed. some sealed;
  encode64 = λ bytes. Text.◌∷◌ "c" bytes;
  decode64 = tail;
}

count-unary : (n : ℕ) → count (unary n) ≡ n
unfolding unary
count-unary zero = refl
count-unary (suc n) = Count.cons "1" (unary n) ∙ ap suc (count-unary n)

has_bar-unary : (n : ℕ) → has_bar (unary n) ≡ false
unfolding unary
has_bar-unary zero = refl
has_bar-unary (suc n) = has_bar-unary n

pub sealing-IsSealing : IsSealing sealing
sealing-IsSealing = record {
  times = λ t. ap some (count-unary t);
  no_bar = has_bar-unary;
  ids = λ t. ap some (count-unary t);
  nonces = λ n. refl;
  seals = λ nonce text. refl;
  codes = λ bytes. refl;
  filled = λ nonce text. ap is_eq (cons-nil "c" (append nonce text));
}
