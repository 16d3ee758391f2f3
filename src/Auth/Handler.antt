-- ===== src/Auth/Handler.antt =====
-- internal/platform/auth/handler.go. The OAuth dance of gothic is an argument: the user that it
-- completes with, or its error.
use tesseract_go_api.Prelude.{
  String, Bool, not, List, Option, none, some, str_eq, any, if◌then◌else◌,
}
use tesseract_go_api.Response.{
  Error, sentinel, wrap, plain, bad_provider, no_claims, bad_uuid, no_refresh_token,
  session_revoked, logged_out, logged_out_others, is_grace_period,
}
use tesseract_go_api.Exec.{
  Result, ok, err, return, throw, lift, try, when, drop_result, ◌>>=◌, ◌>>◌,
}
use tesseract_go_api.Platform.{Platform}
use tesseract_go_api.Tokens.Manager.{UserClaims, Session, zero_claims}
use tesseract_go_api.Http.{
  Request, Handler, meta_of, call, require, write_success, write_success_data, write_data,
  write_header, write_redirect, set_cookie,
}
use tesseract_go_api.Http.Cookies as Cookies
use tesseract_go_api.Auth.Service
use tesseract_go_api.Auth.Service.{Lifetimes, OauthUser}

-- The data of the answers.
pub data AuthData : Type 0 where
  sessions : List Session → AuthData
  is_current : Bool → AuthData

-- auth.Handler and the service behind it.
pub record Config : Type 0 where
  pub ttl : Lifetimes
  pub cookies : Cookies.Manager
  pub redirect_url : String
  pub allowed_providers : List String

abbrev Auth : Type 0
Auth = Handler AuthData

abbrev cookie_value : Option String → String
cookie_value none = ""
cookie_value (some v) = v

-- The claims, or the zero claims where the context has none.
abbrev claims_or_zero : Option UserClaims → UserClaims
claims_or_zero none = zero_claims
claims_or_zero (some c) = c

abbrev pub clear_cookies : Auth
clear_cookies = set_cookie Cookies.unset_access >> set_cookie Cookies.unset_refresh

module _ (p : Platform) (c : Config) (B : Type 0) where
  -- `OAuthProvider`: what gothic writes is its redirect, to a URL that it computes.
  unfoldable pub oauth_provider : String → Request B → Auth
  unfolding write_redirect
  oauth_provider provider_url r =
      if any (str_eq (r.url_param "provider")) c.allowed_providers
      then write_redirect r.method provider_url
      else throw (sentinel bad_provider)

  -- `OAuthCallback`.
  unfoldable pub oauth_callback : Result OauthUser → Request B → Auth
  unfolding Service.upsert_oauth_user Service.issue_session_tokens meta_of set_cookie write_redirect
  oauth_callback completed r = do
    if any (str_eq (r.url_param "provider")) c.allowed_providers
        then return tt
        else throw (sentinel bad_provider)
    goth_user ← lift completed
    user ← call (Service.upsert_oauth_user p c.ttl goth_user)
    (access, refresh) ← call (Service.issue_session_tokens p c.ttl user (meta_of r))
    set_cookie (Cookies.access_cookie c.cookies access)
    set_cookie (Cookies.refresh_cookie c.cookies refresh)
    write_redirect r.method c.redirect_url

  -- `Logout`: an error of the consumption is logged only.
  unfoldable pub logout : Request B → Auth
  unfolding Service.consume_session_token set_cookie write_success
  logout r = do
    let value = cookie_value (r.cookie "refresh_token")
    when (not (str_eq value "")) (drop_result (call (Service.consume_session_token p c.ttl value)))
    clear_cookies
    write_success logged_out

  -- `GetSessions`.
  unfoldable pub get_sessions : Request B → Auth
  unfolding Service.session_list write_data
  get_sessions r = do
    claims ← require r.claims (sentinel no_claims)
    found ←
        call (Service.session_list p c.ttl claims.user_id (cookie_value (r.cookie "refresh_token")))
    write_data (sessions found)

  -- `RevokeSession`.
  unfoldable pub revoke_session : Request B → Auth
  unfolding Service.revoke_session set_cookie write_success_data
  revoke_session r = do
    let claims = claims_or_zero r.claims
    session_id ← require (p.uuid_parse (r.url_param "uuid")) (sentinel bad_uuid)
    deleted_current ← call (
        Service.revoke_session p c.ttl session_id claims.user_id
          (cookie_value (r.cookie "refresh_token")))
    when deleted_current clear_cookies
    write_success_data session_revoked (is_current deleted_current)

  -- `http.ErrNoCookie`, the cause where the cookie is not there.
  abbrev no_cookie : Option String → Option Error
  no_cookie none = some (plain "http: named cookie not present")
  no_cookie (some v) = none

  -- `RevokeOtherSessions`: the result of the deletion is dropped.
  unfoldable pub revoke_other_sessions : Request B → Auth
  unfolding Service.delete_other_sessions write_success
  revoke_other_sessions r = do
    claims ← require r.claims (sentinel no_claims)
    let value = cookie_value (r.cookie "refresh_token")
    if str_eq value ""
        then throw (wrap no_refresh_token (no_cookie (r.cookie "refresh_token")))
        else return tt
    drop_result (call (Service.delete_other_sessions p c.ttl claims.user_id value))
    write_success logged_out_others

  -- `RefreshSession` after the call of the service.
  abbrev pub refreshed : Result (String × String) → Auth
  refreshed (ok (access, refresh)) =
      set_cookie (Cookies.access_cookie c.cookies access)
      >> set_cookie (Cookies.refresh_cookie c.cookies refresh)
      >> write_header 200
  refreshed (err e) = if is_grace_period e then write_header 200 else (clear_cookies >> throw e)

  abbrev pub refresh_with : Request B → Option String → Auth
  refresh_with r none = clear_cookies >> throw (wrap no_refresh_token (no_cookie none))
  refresh_with r (some old) =
      try (call (Service.refresh_session p c.ttl old (meta_of r))) >>= refreshed

  -- `RefreshSession`.
  unfoldable pub refresh_session : Request B → Auth
  unfolding Service.refresh_session meta_of set_cookie write_header
  refresh_session r = refresh_with r (r.cookie "refresh_token")
