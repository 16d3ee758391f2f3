-- ===== src/Http/Serves.antt =====
-- What handlers keep of the tables: a rule for each way to build a
-- handler.
use mathlib.Core.Path.{subst}
use tesseract_go_api.Prelude.{
  ℕ, String, Bool, true, false, Option, none, some, ◌≡◌, refl, sym, if◌then◌else◌,
}
use tesseract_go_api.Response.{Error, AppSuccess, wrapped, bad_json, is_panic}
use tesseract_go_api.Exec.{
  Result, ok, err, Exec, return, throw, lift, catch, recover, continue, try, when, drop_result,
  ◌>>=◌,
}
use tesseract_go_api.Store.{World, Tables}
use tesseract_go_api.Store.Keeps.{Keeps}
use tesseract_go_api.Http.{
  Exchange, Handler, JsonInput, run, fresh, answer, write_error, write_success, write_success_data,
  write_data, write_page, write_validation_error, write_header, write_redirect, set_cookie, call,
  require, decode_body, decode_json_body, recovered, or_crash,
}
use tesseract_go_api.Http.Cookies.{Cookie}

-- Whatever the request and however it ends.
pub record Serves {D : Type 0} (I : Exchange D → Type 0) {A : Type 0} (m : Exec (Exchange D) A)
    : Type 0 where
  pub at : (x : Exchange D) → I x → I (m x).1

module _ {D : Type 0} {I : Exchange D → Type 0} {A B : Type 0} where
  after_continue :
      (f : A → Exec (Exchange D) B)
      → ((a : A) → Serves I (f a))
      → (r : Result A) (x : Exchange D) → I x
      → I (continue r f x).1
  after_continue f k (ok a) x h = (k a).at x h
  after_continue f k (err e) x h = h

  pub Serves-bind :
      (first : Exec (Exchange D) A) (next : A → Exec (Exchange D) B)
      → Serves I first
      → ((a : A) → Serves I (next a))
      → Serves I (first >>= next)
  unfolding ◌>>=◌
  Serves-bind first next kept later = record {
    at = λ x h. after_continue next later (first x).0 (first x).1 (kept.at x h);
  }

module _ {D : Type 0} {I : Exchange D → Type 0} {A : Type 0} where
  pub Serves-return : (a : A) → Serves I (return a)
  unfolding return
  Serves-return a = record { at = λ x h. h }

  pub Serves-throw : (e : Error) → Serves I (throw {A = A} e)
  unfolding throw
  Serves-throw e = record { at = λ x h. h }

  pub Serves-lift : (r : Result A) → Serves I (lift r)
  unfolding lift
  Serves-lift r = record { at = λ x h. h }

  pub Serves-require : (o : Option A) (e : Error) → Serves I (require o e)
  Serves-require none e = record { at = λ x h. h }
  Serves-require (some a) e = record { at = λ x h. h }

  pub Serves-if :
      (b : Bool) (m n : Exec (Exchange D) A)
      → Serves I m
      → Serves I n
      → Serves I (if b then m else n)
  Serves-if true m n km kn = km
  Serves-if false m n km kn = kn

  after_recover :
      (h : Error → Exec (Exchange D) A)
      → ((e : Error) → Serves I (h e))
      → (r : Result A) (x : Exchange D) → I x
      → I (recover r h x).1
  after_recover h k (ok a) x p = p
  after_recover h k (err e) x p = (k e).at x p

  pub Serves-catch :
      (m : Exec (Exchange D) A) (h : Error → Exec (Exchange D) A)
      → Serves I m
      → ((e : Error) → Serves I (h e))
      → Serves I (catch m h)
  unfolding catch
  Serves-catch m h km kh = record { at = λ x p. after_recover h kh (m x).0 (m x).1 (km.at x p) }

  pub Serves-try : (m : Exec (Exchange D) A) → Serves I m → Serves I (try m)
  unfolding try
  Serves-try m km = record { at = km.at }

  pub Serves-drop_result : (m : Exec (Exchange D) A) → Serves I m → Serves I (drop_result m)
  unfolding drop_result
  Serves-drop_result m km = record { at = km.at }

module _ {D : Type 0} {I : Exchange D → Type 0} where
  pub Serves-when : (b : Bool) (m : Handler D) → Serves I m → Serves I (when b m)
  unfolding when
  Serves-when true m km = record { at = km.at }
  Serves-when false m km = record { at = λ x h. h }

  pub Serves-decode : {B : Type 0} (input : JsonInput B) → Serves I (decode_body input)
  unfolding decode_json_body
  Serves-decode input =
      Serves-catch (lift (decode_json_body input)) (λ e. throw (wrapped bad_json e)) (Serves-lift _)
        λ e. Serves-throw (wrapped bad_json e)

pub ruleset serves_rules = (
  Serves-bind, Serves-return, Serves-throw, Serves-lift, Serves-require, Serves-if, Serves-catch,
  Serves-try, Serves-drop_result, Serves-when, Serves-decode,
)

-- What the response holds does not matter to the tables.
pub record Holds {D : Type 0} (P : Tables → Type 0) (x : Exchange D) : Type 0 where
  pub tables : P x.world.db

module _ {P : Tables → Type 0} {D : Type 0} where
  pub Serves-call : {A : Type 0} (m : Exec World A) → Keeps P m → Serves {D = D} (Holds P) (call m)
  Serves-call m km = record { at = λ x h. record { tables = km.at x.world h.tables } }

  pub Serves-write_error : (e : Error) → Serves {D = D} (Holds P) (write_error e)
  unfolding write_error
  Serves-write_error e = record { at = λ x h. record { tables = h.tables } }

  pub Serves-write_success : (m : AppSuccess) → Serves {D = D} (Holds P) (write_success m)
  unfolding write_success
  Serves-write_success m = record { at = λ x h. record { tables = h.tables } }

  pub Serves-write_success_data :
      (m : AppSuccess) (d : D) → Serves (Holds P) (write_success_data m d)
  unfolding write_success_data
  Serves-write_success_data m d = record { at = λ x h. record { tables = h.tables } }

  pub Serves-write_data : (d : D) → Serves (Holds P) (write_data d)
  unfolding write_data
  Serves-write_data d = record { at = λ x h. record { tables = h.tables } }

  pub Serves-write_page : (d : D) (cursor : String) → Serves (Holds P) (write_page d cursor)
  unfolding write_page
  Serves-write_page d cursor = record { at = λ x h. record { tables = h.tables } }

  pub Serves-write_validation_error : Serves {D = D} (Holds P) write_validation_error
  unfolding write_validation_error
  Serves-write_validation_error = record { at = λ x h. record { tables = h.tables } }

  pub Serves-write_header : (code : ℕ) → Serves {D = D} (Holds P) (write_header code)
  unfolding write_header
  Serves-write_header code = record { at = λ x h. record { tables = h.tables } }

  pub Serves-set_cookie : (c : Cookie) → Serves {D = D} (Holds P) (set_cookie c)
  unfolding set_cookie
  Serves-set_cookie c = record { at = λ x h. record { tables = h.tables } }

  pub Serves-write_redirect :
      (method url : String) → Serves {D = D} (Holds P) (write_redirect method url)
  unfolding write_redirect
  Serves-write_redirect method url = record { at = λ x h. record { tables = h.tables } }

module _ {P : Tables → Type 0} {D : Type 0} where
  pub Serves-recovered : (h : Handler D) → Serves (Holds P) h → Serves (Holds P) (recovered h)
  unfolding recovered
  Serves-recovered h k = Serves-catch h or_crash k λ e.
      Serves-if (is_panic e) (write_header 500) (throw e) (Serves-write_header 500) (Serves-throw e)

pub ruleset table_rules = (
  Serves-call, Serves-write_error, Serves-write_success, Serves-write_success_data,
  Serves-write_data, Serves-write_page, Serves-write_validation_error, Serves-write_header,
  Serves-set_cookie, Serves-write_redirect, Serves-recovered,
)

close-tables :
    {D : Type 0} (out : Result (Unit {0}) × Exchange D) → (answer out.0 out.1).1.world ≡ out.1.world
unfolding write_error
close-tables (ok _, x) = refl
close-tables (err e, x) = refl

pub run-Holds :
    {P : Tables → Type 0} {D : Type 0} (h : Handler D) (w : World)
    → Serves (Holds P) h
    → P w.db
    → P (run h w).world.db
unfolding run
run-Holds {P} h w k v =
    subst (λ x. P x.db) (sym (close-tables (h (record { world = w; response = fresh }))))
      (k.at (record { world = w; response = fresh }) (record { tables = v })).tables
