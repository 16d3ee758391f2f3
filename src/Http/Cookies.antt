-- ===== src/Http/Cookies.antt =====
-- internal/platform/cookies/cookies.go.
use tesseract_go_api.Prelude.{ℕ, String, Bool, true, false, ◌/◌, ℤ, pos, negsuc}
use tesseract_go_api.Store.{Time, seconds}

pub record Cookie : Type 0 where
  pub name : String
  pub value : String
  pub path : String
  pub http_only : Bool
  pub secure : Bool
  pub same_site : ℕ
  pub max_age : ℤ

-- cookies.Manager
pub record Manager : Type 0 where
  pub secure : Bool
  pub same_site : ℕ
  pub access_ttl : Time
  pub refresh_ttl : Time

abbrev token_cookie : Manager → String → String → Cookie
token_cookie m name value = record {
  name = name;
  value = value;
  path = "/";
  http_only = true;
  secure = m.secure;
  same_site = m.same_site;
  max_age = pos (m.refresh_ttl / seconds);
}

abbrev dead_cookie : String → Cookie
dead_cookie name = record {
  name = name;
  value = "";
  path = "/";
  http_only = true;
  secure = false;
  same_site = 0;
  max_age = negsuc 0;
}

-- The cookies of `SetAccessCookie`, `SetRefreshCookie`, `UnsetAccessCookie` and
-- `UnsetRefreshCookie`. The access cookie lives as long as the refresh cookie.
abbrev pub access_cookie : Manager → String → Cookie
access_cookie m access = token_cookie m "access_token" access

abbrev pub refresh_cookie : Manager → String → Cookie
refresh_cookie m refresh = token_cookie m "refresh_token" refresh

abbrev pub unset_access : Cookie
unset_access = dead_cookie "access_token"

abbrev pub unset_refresh : Cookie
unset_refresh = dead_cookie "refresh_token"
