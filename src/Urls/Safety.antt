-- ===== src/Urls/Safety.antt =====
-- internal/platform/utils/utils.go: the URLs that the check returns.
use tesseract_go_api.Prelude.{
  String, true, ◌≡◌, ◌≢◌, ◌⊎◌, inl, inr, arith, str_eq, eq_iff, Bool-cases,
}
use tesseract_go_api.Exec.{Result, ok, err}
use tesseract_go_api.Urls.{UrlLibrary, trim_space, is_web, printed, validate_and_sanitize_url}

module _ {Url : Type 0} (lib : UrlLibrary Url) where
  -- Empty, or what the library writes of a web URL with a host.
  abbrev pub IsWeb : String → Type 0
  IsWeb s = (s ≡ "") ⊎ ((u : Url) × (s ≡ lib.print u) × (is_web lib u ≡ true) × (lib.host u ≢ ""))

  printed-IsWeb : (r : Result Url) (s : String) → printed lib r ≡ ok s → IsWeb s
  printed-IsWeb (err e) s p = ground arith
  printed-IsWeb (ok u) s p = elim (Bool-cases (is_web lib u)) [
    | inr t ↦ absurd (ground arith)
    | inl t ↦ elim (Bool-cases (str_eq (lib.host u) "")) [
      | inl h ↦ absurd (ground arith)
      | inr h ↦ inr (u, ground arith, t, λ e. ground (arith, eq_iff (lib.host u) ""))
    ]
  ]

  -- The text that the check returns is empty, or what the library writes of an URL with the scheme
  -- http or https and a host.
  pub validate_and_sanitize_url-IsWeb :
      (raw s : String) → validate_and_sanitize_url lib raw ≡ ok s → IsWeb s
  unfolding validate_and_sanitize_url
  validate_and_sanitize_url-IsWeb raw s p = elim (Bool-cases (str_eq (trim_space raw) "")) [
    | inl t ↦ inl (ground arith)
    | inr t ↦ printed-IsWeb (lib.parse_request_uri (trim_space raw)) s (ground arith)
  ]
