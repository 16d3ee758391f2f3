-- ===== src/Http.antt =====
-- What a handler reads of a request and writes to the response. The recorder of the ETag middleware
-- (cmd/api/middleware.go) stands under every handler: a status that is written again replaces the
-- one before, and bodies are written one behind the other.
pub mod Cookies
pub mod Numbers
pub mod Serves
pub mod Bodies
use tesseract_go_api.Prelude.{
  ℕ, String, Bool, true, false, List, [], ◌∷◌, ◌++◌, Option, none, some, str_eq, if◌then◌else◌,
}
use tesseract_go_api.Response.{
  AppError, AppSuccess, Error, sentinel, wrapped, bad_json, answered, status, is_panic,
  success_code,
}
use tesseract_go_api.Exec.{Result, ok, err, Exec, return, throw, lift, catch, ◌>>=◌, ◌>>◌}
use tesseract_go_api.Store.{World}
use tesseract_go_api.Tokens.Manager.{UserClaims, Metadata}
use tesseract_go_api.Http.Cookies.{Cookie}

-- The JSON that a handler sends: `D` is the data of the handlers of a package.
pub data Body (D : Type 0) : Type 0 where
  -- `Response.Error`: the slug, and its translation
  error_body : AppError → Body D
  -- `Response.Success`
  success_body : AppSuccess → Body D
  -- `Response.SuccessWithData`
  success_data : AppSuccess → D → Body D
  -- `Response.SuccessDataOnly`
  data_only : D → Body D
  -- `Response.Paginated`, with `next_cursor` if it is not empty
  page : D → String → Body D
  -- `Response.ValidationError`
  validation_failed : Body D
  -- the link that `http.Redirect` writes
  redirect_link : String → Body D

-- The value of a header: a text, or the number that `strconv` writes.
pub data HeaderValue : Type 0 where
  plain_text : String → HeaderValue
  decimal : ℕ → HeaderValue

pub record Response (D : Type 0) : Type 0 where
  pub status : ℕ
  pub bodies : List (Body D)
  -- the headers that the middleware sets
  pub headers : List (String × HeaderValue)
  pub cookies : List Cookie
  pub redirect : Option String

-- The recorder as it is made.
abbrev pub fresh : {D : Type 0} → Response D
fresh = record { status = 200; bodies = []; headers = []; cookies = []; redirect = none }

-- What the JSON decoder makes of the body: an error, or a value with whether the body ends there.
pub data JsonInput (B : Type 0) : Type 0 where
  malformed : JsonInput B
  decoded : B → Bool → JsonInput B

pub record Request (B : Type 0) : Type 0 where
  pub method : String
  pub path : String
  pub header : String → String
  pub cookie : String → Option String
  pub url_param : String → String
  pub url_query : String → String
  pub remote_addr : String
  -- the host that `net.SplitHostPort` finds in `remote_addr`
  pub remote_host : Option String
  pub user_agent : String
  -- the claims that the access token middleware put into the context
  pub claims : Option UserClaims
  -- the language that InsertLanguageToContext put there
  pub language : Option String
  pub body : JsonInput B

-- `GetMetaFromRequest` (request/meta.go).
abbrev host_of : String → Option String → String
host_of addr none = addr
host_of addr (some host) = host

unfoldable pub meta_of : {B : Type 0} → Request B → Metadata
meta_of r = record {
  ip = host_of r.remote_addr r.remote_host;
  user_agent = r.user_agent;
  location = host_of r.remote_addr r.remote_host;
}

-- `DecodeJSONBody` (request/json.go): one value, and nothing behind it.
unfoldable pub decode_json_body : {B : Type 0} → JsonInput B → Result B
decode_json_body malformed = err (sentinel bad_json)
decode_json_body (decoded v at_end) = if at_end then ok v else err (sentinel bad_json)

unfoldable pub put_header :
    String → HeaderValue → List (String × HeaderValue) → List (String × HeaderValue)
put_header name v [] = (name, v) ∷ []
put_header name v ((m, u) ∷ rest) =
    let behind = put_header name v rest in
    if str_eq m name then (name, v) ∷ rest else (m, u) ∷ behind

-- The world and the response that a handler works on.
pub record Exchange (D : Type 0) : Type 0 where
  pub world : World
  pub response : Response D

abbrev pub Handler : Type 0 → Type 0
Handler D = Exec (Exchange D) Unit

module _ {D : Type 0} where
  abbrev write_body : ℕ → Body D → Exchange D → Exchange D
  write_body code body x = record x {
    response = record x.response { status = code; bodies = x.response.bodies ++ body ∷ [] };
  }

  -- `Response.Error`.
  unfoldable pub write_error : Error → Handler D
  unfolding ◌>>=◌
  write_error e x = (ok tt, write_body (status e) (error_body (answered e)) x)

  -- `Response.Success`, `SuccessWithData`, `SuccessDataOnly`, `Paginated`, `ValidationError`.
  unfoldable pub write_success : AppSuccess → Handler D
  unfolding ◌>>=◌
  write_success m x = (ok tt, write_body (success_code m) (success_body m) x)

  unfoldable pub write_success_data : AppSuccess → D → Handler D
  unfolding ◌>>=◌
  write_success_data m d x = (ok tt, write_body (success_code m) (success_data m d) x)

  unfoldable pub write_data : D → Handler D
  unfolding ◌>>=◌
  write_data d x = (ok tt, write_body 200 (data_only d) x)

  unfoldable pub write_page : D → String → Handler D
  unfolding ◌>>=◌
  write_page d cursor x = (ok tt, write_body 200 (page d cursor) x)

  unfoldable pub write_validation_error : Handler D
  unfolding ◌>>=◌
  write_validation_error x = (ok tt, write_body 422 validation_failed x)

  -- `w.WriteHeader`.
  unfoldable pub write_header : ℕ → Handler D
  unfolding ◌>>=◌
  write_header code x = (ok tt, record x { response = record x.response { status = code } })

  -- `w.Header().Set`.
  unfoldable pub set_header : String → HeaderValue → Handler D
  unfolding ◌>>=◌ put_header
  set_header name v x = (
    ok tt,
    record x { response = record x.response { headers = put_header name v x.response.headers } },
  )

  -- `http.SetCookie`.
  unfoldable pub set_cookie : Cookie → Handler D
  unfolding ◌>>=◌
  set_cookie c x =
      (ok tt, record x { response = record x.response { cookies = x.response.cookies ++ c ∷ [] } })

  -- `http.Redirect` with the status 307, to a URL that needs no escapes: a GET gets a link as well.
  unfoldable pub write_redirect : (method url : String) → Handler D
  unfolding ◌>>=◌
  write_redirect method url x = (
    ok tt,
    record x {
      response = record x.response {
        status = 307;
        bodies =
            if str_eq method "GET"
            then x.response.bodies ++ redirect_link url ∷ []
            else x.response.bodies;
        redirect = some url;
      };
    },
  )

  -- A call of a service.
  abbrev pub call : {A : Type 0} → Exec World A → Exec (Exchange D) A
  call m x = let (r, w) = m x.world in (r, record x { world = w })

  -- `if err != nil { h.response.Error(w, r, err); return }`: a handler's early return is a throw,
  -- and this writes its error.
  abbrev pub answer : Result (Unit {0}) → Handler D
  answer (ok _) x = (ok tt, x)
  answer (err e) x = write_error e x

  unfoldable pub run : Handler D → World → Exchange D
  unfolding write_error
  run h w = let (r, x) = h (record { world = w; response = fresh }) in (answer r x).1

  -- A value that must be there.
  abbrev pub require : {A : Type 0} → Option A → Error → Exec (Exchange D) A
  require none e x = (err e, x)
  require (some a) e x = (ok a, x)

-- An error, or the answer of chi's Recoverer to a panic: 500 without a body.
abbrev pub or_crash : {D : Type 0} → Error → Handler D
or_crash e = if is_panic e then write_header 500 else throw e

-- A handler that may panic before it writes, under chi's Recoverer.
unfoldable pub recovered : {D : Type 0} → Handler D → Handler D
unfolding write_header ◌>>=◌
recovered h = catch h or_crash

-- `request.DecodeJSONBody`, with the error that the handlers answer.
abbrev pub decode_body : {D B : Type 0} → JsonInput B → Exec (Exchange D) B
decode_body input = catch (lift (decode_json_body input)) λ e. throw (wrapped bad_json e)

-- `h.validator.Struct`: a handler goes on with what is valid only.
abbrev pub if_valid : {D : Type 0} → Bool → Handler D → Handler D
if_valid valid rest = if valid then rest else write_validation_error
