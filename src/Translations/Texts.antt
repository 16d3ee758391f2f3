-- ===== src/Translations/Texts.antt =====
-- No answer has an empty text.
use Prim.Native.String as Text
use Prim.Native.String.{◌++◌ as append}
use Prim.Native.String.append.{nil, cons}
use mathlib.Core.Path.{subst}
use tesseract_go_api.Prelude.{
  String, false, List, [], ◌∷◌, ◌≡◌, ◌≢◌, refl, sym, arith, str_eq, eq_iff, Bool-cases, inl, inr,
  All, leb,
}
use tesseract_go_api.Response.{Error, slug, answered}
use tesseract_go_api.Translations.{
  Translator, FieldError, get_raw, strip_err, spaced, readable, replace_param, or_else, translate,
  error_text, field_text,
}

abbrev IsFilled : String → Type 0
IsFilled Text.[] = ⊥
IsFilled (Text.◌∷◌ c s) = Unit

IsFilled-ne : (s : String) → IsFilled s → s ≢ ""
IsFilled-ne s f e = subst IsFilled e f

IsFilled-of_ne : (s : String) → str_eq s "" ≡ false → IsFilled s
IsFilled-of_ne Text.[] n = ground arith
IsFilled-of_ne (Text.◌∷◌ c s) n = tt

spaced-IsFilled : (s : String) → IsFilled s → IsFilled (spaced s)
spaced-IsFilled Text.[] f = f
spaced-IsFilled (Text.◌∷◌ c s) f = tt

strip_err-IsFilled : (s : String) → IsFilled s → IsFilled (strip_err s)
strip_err-IsFilled Text.[] f = f
strip_err-IsFilled (Text.◌∷◌ a Text.[]) f = tt
strip_err-IsFilled (Text.◌∷◌ a (Text.◌∷◌ b Text.[])) f = tt
strip_err-IsFilled (Text.◌∷◌ a (Text.◌∷◌ b (Text.◌∷◌ c Text.[]))) f = tt
strip_err-IsFilled (Text.◌∷◌ a (Text.◌∷◌ b (Text.◌∷◌ c (Text.◌∷◌ d Text.[])))) f = tt
strip_err-IsFilled (Text.◌∷◌ a (Text.◌∷◌ b (Text.◌∷◌ c (Text.◌∷◌ d (Text.◌∷◌ e s))))) f =
    ground arith

append-IsFilled_right : (s t : String) → IsFilled t → IsFilled (append s t)
append-IsFilled_right Text.[] t f = subst IsFilled (sym (nil t)) f
append-IsFilled_right (Text.◌∷◌ c s) t f = rw (cons c s t) tt

append-IsFilled_left : (s t : String) → IsFilled s → IsFilled (append s t)
append-IsFilled_left Text.[] t f = absurd f
append-IsFilled_left (Text.◌∷◌ c s) t f = rw (cons c s t) tt

IsFilled-test : (s : String) → IsFilled s → str_eq s "" ≡ false
IsFilled-test s f = elim (Bool-cases (str_eq s "")) [
  | inl e ↦ absurd (IsFilled-ne s f ((eq_iff s "").0 e))
  | inr e ↦ e
]

or_else-IsFilled : (s t : String) → IsFilled t → IsFilled (or_else s t)
or_else-IsFilled s t f = elim (Bool-cases (str_eq s "")) [
  | inl e ↦ rw e f
  | inr e ↦ rw e (IsFilled-of_ne s e)
]

replace_param-IsFilled :
    (val param : String) → IsFilled val → IsFilled param → IsFilled (replace_param val param)
replace_param-IsFilled val param f g =
    elim (Bool-cases (leb (Text.find val "{p}") (Text.len val))) [
      | inl e ↦ rw e (append-IsFilled_right _ _ (append-IsFilled_left param _ g))
      | inr e ↦ rw e f
    ]

translate-IsFilled :
    (t : Translator) (lang key param : String)
    → IsFilled key
    → IsFilled (translate t lang key param)
unfolding translate readable
translate-IsFilled t lang key param f =
    let val = or_else-IsFilled (get_raw t.locales lang key) _ (
      or_else-IsFilled (get_raw t.locales t.fallback_lang key) (readable key)
        (spaced-IsFilled _ (strip_err-IsFilled key f))) in
    elim (Bool-cases (str_eq param "")) [
      | inl e ↦ rw e val
      | inr e ↦ rw e (replace_param-IsFilled _ param val (IsFilled-of_ne param e))
    ]

-- The text of an error is never empty, in whatever language and with whatever translations.
pub error_text-filled : (t : Translator) (lang : String) (e : Error) → error_text t lang e ≢ ""
unfolding error_text
error_text-filled t lang e =
    IsFilled-ne (error_text t lang e)
      (translate-IsFilled t lang _ "" (append-IsFilled_left "err_" (slug (answered e)) tt))

prefixed : (tag : String) → IsFilled (append "validation_" tag)
prefixed tag = append-IsFilled_left "validation_" tag tt

-- A field that the validator refused is answered with the text of its rule: the general text for
-- invalid fields is never reached.
pub field_text-own :
    (t : Translator) (lang : String) (f : FieldError)
    → field_text t lang f ≡ translate t lang (append "validation_" f.tag) f.param
unfolding field_text
field_text-own t lang f =
    rw
      (IsFilled-test _
        (translate-IsFilled t lang (append "validation_" f.tag) f.param (prefixed f.tag)))
      refl

-- The texts of a map.
abbrev AreFilled : List (String × String) → Type 0
AreFilled texts = All (λ entry. IsFilled entry.1) texts
