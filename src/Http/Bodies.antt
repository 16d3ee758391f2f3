-- ===== src/Http/Bodies.antt =====
-- How many bodies a handler writes.
use tesseract_go_api.Prelude.{
  ℕ, String, ◌≡◌, ◌≤◌, Bool, true, false, [], length, refl, arith, if◌then◌else◌,
}
use tesseract_go_api.Response.{Error, AppSuccess, is_panic}
use tesseract_go_api.Exec.{Result, ok, err, Exec, continue, recover, throw, ◌>>=◌}
use tesseract_go_api.Store.{World}
use tesseract_go_api.Http.{
  Exchange, Handler, write_error, write_success, write_success_data, write_data, write_page,
  write_validation_error, write_header, write_redirect, set_cookie, call, run, answer, fresh,
  recovered, or_crash,
}
use tesseract_go_api.Http.Cookies.{Cookie}
use tesseract_go_api.Http.Serves.{Serves, Serves-throw}

-- Nothing is written yet.
pub record IsBlank {D : Type 0} (x : Exchange D) : Type 0 where
  pub blank : x.response.bodies ≡ []

module _ {D : Type 0} where
  pub Blank-call : {A : Type 0} (m : Exec World A) → Serves {D = D} IsBlank (call m)
  Blank-call m = record { at = λ x h. record { blank = h.blank } }

  pub Blank-write_header : (code : ℕ) → Serves {D = D} IsBlank (write_header code)
  unfolding write_header
  Blank-write_header code = record { at = λ x h. record { blank = h.blank } }

  pub Blank-set_cookie : (c : Cookie) → Serves {D = D} IsBlank (set_cookie c)
  unfolding set_cookie
  Blank-set_cookie c = record { at = λ x h. record { blank = h.blank } }

  -- An action that fails has written nothing; one that returns has written one body at most.
  abbrev pub Ends : Result (Unit {0}) × Exchange D → Type 0
  Ends (ok _, x) = length x.response.bodies ≤ 1
  Ends (err e, x) = x.response.bodies ≡ []

  pub record Answers (h : Handler D) : Type 0 where
    pub ends : (x : Exchange D) → x.response.bodies ≡ [] → Ends (h x)

  answer-length :
      (out : Result (Unit {0}) × Exchange D)
      → Ends out
      → length (answer out.0 out.1).1.response.bodies ≤ 1
  unfolding write_error
  answer-length (ok _, x) e = e
  answer-length (err e, x) b = ground arith

  pub run-bodies : (h : Handler D) (w : World) → Answers h → length (run h w).response.bodies ≤ 1
  unfolding run
  run-bodies h w a = answer-length _ (a.ends (record { world = w; response = fresh }) refl)

  after_continue :
      {A : Type 0} (f : A → Handler D)
      → ((a : A) → Answers (f a))
      → (r : Result A) (x : Exchange D) → x.response.bodies ≡ []
      → Ends (continue r f x)
  after_continue f k (ok a) x b = (k a).ends x b
  after_continue f k (err e) x b = b

  pub Answers-bind :
      {A : Type 0} (first : Exec (Exchange D) A) (next : A → Handler D)
      → Serves IsBlank first
      → ((a : A) → Answers (next a))
      → Answers (first >>= next)
  unfolding ◌>>=◌
  Answers-bind first next kept later = record {
    ends = λ x b.
        after_continue next later (first x).0 (first x).1 (kept.at x (record { blank = b })).blank;
  }

  pub Answers-if :
      (b : Bool) (m n : Handler D) → Answers m → Answers n → Answers (if b then m else n)
  Answers-if true m n am an = am
  Answers-if false m n am an = an

  blank-Ends : (out : Result (Unit {0}) × Exchange D) → IsBlank out.1 → Ends out
  blank-Ends (ok _, x) h = rw (h.blank) (omega arith)
  blank-Ends (err e, x) h = h.blank

  pub Answers-blank : (h : Handler D) → Serves IsBlank h → Answers h
  Answers-blank h k = record { ends = λ x b. blank-Ends (h x) (k.at x (record { blank = b })) }

  pub Answers-write_success : (m : AppSuccess) → Answers (write_success m)
  unfolding write_success
  Answers-write_success m = record { ends = λ x b. ground arith }

  pub Answers-write_success_data : (m : AppSuccess) (d : D) → Answers (write_success_data m d)
  unfolding write_success_data
  Answers-write_success_data m d = record { ends = λ x b. ground arith }

  pub Answers-write_data : (d : D) → Answers (write_data d)
  unfolding write_data
  Answers-write_data d = record { ends = λ x b. ground arith }

  pub Answers-write_page : (d : D) (cursor : String) → Answers (write_page d cursor)
  unfolding write_page
  Answers-write_page d cursor = record { ends = λ x b. ground arith }

  pub Answers-write_validation_error : Answers write_validation_error
  unfolding write_validation_error
  Answers-write_validation_error = record { ends = λ x b. ground arith }

  pub Answers-write_redirect : (method url : String) → Answers (write_redirect method url)
  unfolding write_redirect
  Answers-write_redirect method url = record { ends = λ x b. ground arith }

  after_recover :
      (k : Error → Handler D)
      → ((e : Error) → Answers (k e))
      → (r : Result (Unit {0})) (x : Exchange D) → Ends (r, x)
      → Ends (recover r k x)
  after_recover k a (ok _) x e = e
  after_recover k a (err e) x b = (a e).ends x b

  pub Answers-recovered : (h : Handler D) → Answers h → Answers (recovered h)
  unfolding recovered
  Answers-recovered h a = record {
    ends = λ x b.
        after_recover or_crash
          (λ e.
            Answers-if (is_panic e) (write_header 500) (throw e)
              (Answers-blank (write_header 500) (Blank-write_header 500))
              (Answers-blank (throw e) (Serves-throw e)))
          (h x).0 (h x).1 (a.ends x b);
  }

pub ruleset blank_rules = (Blank-call, Blank-write_header, Blank-set_cookie)

pub ruleset answers_rules = (
  Answers-bind, Answers-if, Answers-write_success, Answers-write_success_data, Answers-write_data,
  Answers-write_page, Answers-write_validation_error, Answers-write_redirect, Answers-recovered,
  Answers-blank,
)
