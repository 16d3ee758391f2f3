-- ===== src/Auth/Service.antt =====
-- internal/platform/auth/service.go.
use tesseract_go_api.Prelude.{
  String, ◌+◌, ◌-◌, ◌*◌, Bool, false, List, Option, none, some, ltb, str_eq, if◌then◌else◌,
}
use tesseract_go_api.Response.{
  sentinel, wrapped, oauth_no_email, oauth_no_name, no_permission, refresh_session as refused,
  token_expired, token_grace_period, token_consumed, is_no_rows, is_token_consumed,
}
use tesseract_go_api.Exec.{Exec, return, throw, gets, catch, when, drop_result, ◌>>=◌, ◌>>◌}
use tesseract_go_api.Store.{Uuid, Time, seconds, User, RefreshToken, World}
use tesseract_go_api.Platform.{Platform}
use tesseract_go_api.Tokens.Manager
use tesseract_go_api.Tokens.Manager.{Metadata, Session}
use tesseract_go_api.Tokens.Repository
use tesseract_go_api.Users.Service as Users

-- auth.Service: the times to live.
pub record Lifetimes : Type 0 where
  pub access_ttl : Time
  pub refresh_ttl : Time

-- The fields of goth.User that are read.
pub record OauthUser : Type 0 where
  pub email : String
  pub name : String
  pub avatar_url : String

abbrev pub grace_period : Time
grace_period = 5 * seconds

-- `time.Since(oldToken.UpdatedAt.Time) < 5*time.Second`; the zero time of a NULL is long ago.
abbrev pub in_grace : Time → Option Time → Bool
in_grace now none = false
in_grace now (some at) = ltb (now - at) grace_period

-- An error of a step of `RefreshSession`, wrapped.
unfoldable pub or_refused : {A : Type 0} → Exec World A → Exec World A
unfolding ◌>>=◌
or_refused m = catch m λ e. throw (wrapped refused e)

-- A consumed token: within the grace period nothing happens; after it all sessions of the user end.
unfoldable pub reuse : RefreshToken → Time → Exec World (String × String)
unfolding Repository.delete_all_refresh_for_user
reuse t now =
    if in_grace now t.updated_at
    then throw (sentinel token_grace_period)
    else (drop_result (Repository.delete_all_refresh_for_user t.user_id)
        >> throw (sentinel token_consumed))

module _ (p : Platform) (ttl : Lifetimes) where
  -- `UpsertOAuthUser`.
  unfoldable pub upsert_oauth_user : OauthUser → Exec World User
  unfolding Users.upsert
  upsert_oauth_user u =
      if str_eq u.email ""
      then throw (sentinel oauth_no_email)
      else if str_eq u.name ""
      then throw (sentinel oauth_no_name)
      else catch (Users.upsert p u.email u.name u.avatar_url)
          λ e. throw (if is_no_rows e then wrapped no_permission e else e)

  -- `IssueSessionTokens`: the access token and the refresh token.
  unfoldable pub issue_session_tokens : User → Metadata → Exec World (String × String)
  unfolding Manager.generate_refresh_string Manager.create_refresh Manager.create_access
  issue_session_tokens user meta = do
    refresh ← Manager.generate_refresh_string p
    now ← gets (λ w. w.now)
    Manager.create_refresh user.id (p.sha256_hex refresh) (now + ttl.refresh_ttl) meta
    return (Manager.create_access p user.id user.role user.email ttl.access_ttl now, refresh)

  -- `ConsumeSessionToken`.
  unfoldable pub consume_session_token : String → Exec World Unit
  unfolding Repository.consume_by_hash
  consume_session_token token = Repository.consume_by_hash (p.sha256_hex token)

  -- `SessionList`.
  unfoldable pub session_list : Uuid → String → Exec World (List Session)
  unfolding Manager.get_active_refreshes
  session_list user_id current = Manager.get_active_refreshes user_id (p.sha256_hex current)

  -- `RevokeSession`: whether the session that ended is the current one.
  unfoldable pub revoke_session : Uuid → Uuid → String → Exec World Bool
  unfolding Repository.delete_by_id_and_user
  revoke_session token_id user_id current = do
    deleted ← Repository.delete_by_id_and_user token_id user_id
    return (str_eq (p.sha256_hex current) deleted)

  -- `DeleteOtherSessions`.
  unfoldable pub delete_other_sessions : Uuid → String → Exec World Unit
  unfolding Repository.delete_other_for_user
  delete_other_sessions user_id refresh =
      Repository.delete_other_for_user user_id (p.sha256_hex refresh)

  -- `ReplaceRefresh` in `RefreshSession`: a token that another request has consumed in between ends
  -- all sessions of the user.
  unfoldable pub replace_or_end : RefreshToken → String → String → Metadata → Exec World Unit
  unfolding Manager.replace_refresh Repository.delete_all_refresh_for_user
  replace_or_end t old_hash new_hash meta = do
    now ← gets (λ w. w.now)
    catch (Manager.replace_refresh t.user_id old_hash new_hash (now + ttl.refresh_ttl) meta) λ e.
        when (is_token_consumed e) (drop_result (Repository.delete_all_refresh_for_user t.user_id))
        >> throw (wrapped refused e)

  -- A valid token: the new refresh token, and the access token of its user.
  unfoldable pub rotate : String → RefreshToken → Metadata → Exec World (String × String)
  rotate old t meta = do
    new ← or_refused (Manager.generate_refresh_string p)
    replace_or_end t (p.sha256_hex old) (p.sha256_hex new) meta
    user ← or_refused (Users.get_available t.user_id)
    now ← gets (λ w. w.now)
    return (Manager.create_access p user.id user.role user.email ttl.access_ttl now, new)

  -- `RefreshSession` from the row that was read.
  unfoldable pub exchange : String → RefreshToken → Metadata → Exec World (String × String)
  exchange old t meta = do
    now ← gets (λ w. w.now)
    if ltb t.expires_at now
        then throw (sentinel token_expired)
        else (if t.is_consumed then reuse t now else rotate old t meta)

  -- `RefreshSession`.
  unfoldable pub refresh_session : String → Metadata → Exec World (String × String)
  refresh_session old meta = do
    t ← or_refused (Repository.get_by_hash (p.sha256_hex old))
    exchange old t meta
