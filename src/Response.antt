-- ===== src/Response.antt =====
-- internal/platform/response/list.go and response.go: the errors that the API answers with, the
-- chain of causes behind a Go error, and the status and body that an error becomes.
pub mod Statuses
use Prim.Native.String.{◌++◌ as append}
use tesseract_go_api.Prelude.{
  ℕ, String, ◌≡◌, Bool, true, false, Option, none, some, ◌||◌, str_eq, if◌then◌else◌,
}

-- The sentinels `Err…` of list.go.
pub data AppError : Type 0 where
  bad_json invalid_image_url request_too_large bad_uuid bad_provider : AppError
  access_token_expired no_claims no_permission token_consumed token_expired : AppError
  token_grace_period no_refresh_token refresh_session oauth_no_email oauth_no_name : AppError
  album_not_found albums_not_found album_slug_exists user_not_found user_slug_exists : AppError
  too_many_requests no_security_header invalid_origin invalid_cursor unknown : AppError

-- `AppError.Code`.
abbrev pub code : AppError → ℕ
code bad_json = 400
code invalid_image_url = 400
code request_too_large = 413
code bad_uuid = 400
code bad_provider = 400
code access_token_expired = 401
code no_claims = 401
code no_permission = 403
code token_consumed = 401
code token_expired = 401
code token_grace_period = 200
code no_refresh_token = 403
code refresh_session = 403
code oauth_no_email = 400
code oauth_no_name = 400
code album_not_found = 404
code albums_not_found = 404
code album_slug_exists = 409
code user_not_found = 404
code user_slug_exists = 409
code too_many_requests = 429
code no_security_header = 403
code invalid_origin = 403
code invalid_cursor = 400
code unknown = 500

-- `AppError.Slug`.
abbrev pub slug : AppError → String
slug bad_json = "bad_json"
slug invalid_image_url = "invalid_image_url"
slug request_too_large = "request_too_large"
slug bad_uuid = "bad_uuid"
slug bad_provider = "bad_provider"
slug access_token_expired = "access_token_expired"
slug no_claims = "no_claims"
slug no_permission = "no_permission"
slug token_consumed = "token_consumed"
slug token_expired = "token_expired"
slug token_grace_period = "token_grace_period"
slug no_refresh_token = "no_refresh_token"
slug refresh_session = "refresh_session"
slug oauth_no_email = "oauth_no_email"
slug oauth_no_name = "oauth_no_name"
slug album_not_found = "album_not_found"
slug albums_not_found = "albums_not_found"
slug album_slug_exists = "album_slug_exists"
slug user_not_found = "user_not_found"
slug user_slug_exists = "user_slug_exists"
slug too_many_requests = "too_many_requests"
slug no_security_header = "no_security_header"
slug invalid_origin = "invalid_origin"
slug invalid_cursor = "invalid_cursor"
slug unknown = "unknown"

-- A non-nil Go error. A sentinel is one shared pointer; `Wrap` allocates a new `AppError`, so a
-- wrapped copy is not the sentinel, with or without a cause.
pub data Error : Type 0 where
  -- a sentinel of list.go
  sentinel : AppError → Error
  -- `Wrap(nil)`
  copied : AppError → Error
  -- `Wrap(err)`
  wrapped : AppError → Error → Error
  -- pgx.ErrNoRows
  no_rows : Error
  -- a pgconn.PgError: its code and the constraint's name
  pg_error : String → String → Error
  -- any other error, with its text
  plain : String → Error
  -- a panic; it is not an error value, and no handler below tests for it
  panic : Error

-- `(*AppError).Wrap`, for a cause that may be nil.
abbrev pub wrap : AppError → Option Error → Error
wrap e none = copied e
wrap e (some cause) = wrapped e cause

-- `errors.Is(err, pgx.ErrNoRows)`.
abbrev pub is_no_rows : Error → Bool
is_no_rows no_rows = true
is_no_rows (wrapped e cause) = is_no_rows cause
is_no_rows _ = false

-- `errors.As(err, &pgErr)` with the tests on the code and the constraint.
abbrev pub is_pg_error : String → String → Error → Bool
is_pg_error c name (pg_error c' name') = if str_eq c' c then str_eq name' name else false
is_pg_error c name (wrapped e cause) = is_pg_error c name cause
is_pg_error c name _ = false

-- `err == response.ErrTokenConsumed`.
abbrev pub is_token_consumed : Error → Bool
is_token_consumed (sentinel token_consumed) = true
is_token_consumed _ = false

-- `errors.Is(err, response.ErrTokenGracePeriod)`.
abbrev pub is_grace_period : Error → Bool
is_grace_period (sentinel token_grace_period) = true
is_grace_period (wrapped e cause) = is_grace_period cause
is_grace_period _ = false

-- A panic, whatever called it.
abbrev pub is_panic : Error → Bool
is_panic panic = true
is_panic (wrapped e cause) = is_panic cause
is_panic _ = false

-- `err.Error()`.
unfoldable pub text : Error → String
text (sentinel e) = slug e
text (copied e) = slug e
text (wrapped e cause) = append (slug e) (append ": " (text cause))
text no_rows = "no rows in result set"
text (pg_error c name) = append "ERROR: " (append name (append " (SQLSTATE " (append c ")")))
text (plain s) = s
text panic = "panic"

-- `errOriginalText` of `Response.Error`: the text of the cause of the outermost `AppError`.
unfoldable pub original_text : Error → String
unfolding text
original_text (sentinel e) = "none"
original_text (copied e) = "none"
original_text (wrapped e cause) = text cause
original_text e = text e

-- The `AppError` that `errors.As` finds, `ErrUnknown` where there is none.
abbrev pub app_error : Error → AppError
app_error (sentinel e) = e
app_error (copied e) = e
app_error (wrapped e cause) = e
app_error _ = unknown

-- `Response.Error`: the error that is answered, with the adjustment for a body that is too large.
unfoldable pub answered : Error → AppError
unfolding original_text
answered e =
    if str_eq (original_text e) "http: request body too large"
    then request_too_large
    else app_error e

-- The status that `Response.Error` writes.
unfoldable pub status : Error → ℕ
unfolding answered
status e = code (answered e)

-- The messages `Success…` of list.go.
pub data AppSuccess : Type 0 where
  success album_created album_updated album_active album_inactive : AppSuccess
  direct_token_generated direct_token_revoked album_deleted album_restored album_purged : AppSuccess
  logged_out logged_out_others session_revoked user_deleted user_updated user_restored : AppSuccess

-- `AppSuccess.Code`.
abbrev pub success_code : AppSuccess → ℕ
success_code album_created = 201
success_code _ = 200

-- `AppSuccess.Slug`.
abbrev pub success_slug : AppSuccess → String
success_slug success = "success"
success_slug album_created = "album_created"
success_slug album_updated = "album_updated"
success_slug album_active = "album_active"
success_slug album_inactive = "album_inactive"
success_slug direct_token_generated = "direct_token_generated"
success_slug direct_token_revoked = "direct_token_revoked"
success_slug album_deleted = "album_deleted"
success_slug album_restored = "album_restored"
success_slug album_purged = "album_purged"
success_slug logged_out = "logged_out"
success_slug logged_out_others = "logged_out_others"
success_slug session_revoked = "session_revoked"
success_slug user_deleted = "user_deleted"
success_slug user_updated = "user_updated"
success_slug user_restored = "user_restored"
