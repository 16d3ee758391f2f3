-- ===== src/Tests/RateLimit.antt =====
-- Three requests against a limit of two.
use tesseract_go_api.Prelude.{[], ◌∷◌, ◌≡◌, refl, arith}
use tesseract_go_api.RateLimit.{current}
use tesseract_go_api.RateLimit.Window.{admissions, min, admissions-min}

admissions-min_example : admissions "rl:1" 2 60 (5 ∷ 10 ∷ 20 ∷ []) [] ≡ min 3 2
unfolding current
admissions-min_example =
    admissions-min "rl:1" 2 60 5 (10 ∷ 20 ∷ []) [] (omega arith) refl (omega arith)
