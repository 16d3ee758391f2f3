-- ===== src/Auth/Keeps.antt =====
-- The integrity of the tables under the calls on sessions.
use tesseract_go_api.Prelude.{String, arith}
use tesseract_go_api.Exec.{Exec}
use tesseract_go_api.Store.{Uuid, Time, User, RefreshToken, World}
use tesseract_go_api.Store.Keeps.{Keeps, Keeps_of_same, keeps_rules}
use tesseract_go_api.Store.Valid.{IsValid}
use tesseract_go_api.Platform.{Platform}
use tesseract_go_api.Tokens.Queries.{CreateRefreshTokenParams}
use tesseract_go_api.Tokens.Manager
use tesseract_go_api.Tokens.Manager.{Metadata, generate_refresh_string}
use tesseract_go_api.Tokens.Repository
use tesseract_go_api.Tokens.Valid.{
  Keeps-create, Keeps-consume, Keeps-delete_by_id, Keeps-delete_other, Keeps-delete_all,
  Keeps-cleanup,
}
use tesseract_go_api.Users.Keeps.{Keeps-get_available, Keeps-upsert_user}
use tesseract_go_api.Auth.Service
use tesseract_go_api.Auth.Service.{Lifetimes, OauthUser}

delete_all : (u : Uuid) → Keeps IsValid (Repository.delete_all_refresh_for_user u)
unfolding Repository.delete_all_refresh_for_user
delete_all u = Keeps-delete_all u

pub Keeps-cleanup_tokens : Keeps IsValid Repository.cleanup
unfolding Repository.cleanup
Keeps-cleanup_tokens = Keeps-cleanup

replace_body :
    (old : String) (arg : CreateRefreshTokenParams)
    → Keeps IsValid (Repository.replace_body old arg)
unfolding Repository.replace_body
replace_body old arg = search (keeps_rules, Keeps-consume, Keeps-create)

replace :
    (u : Uuid) (old new : String) (at : Time) (meta : Metadata)
    → Keeps IsValid (Manager.replace_refresh u old new at meta)
unfolding Manager.replace_refresh Repository.replace_in_transaction
replace u old new at meta = search (keeps_rules, replace_body)

create :
    (u : Uuid) (hash : String) (at : Time) (meta : Metadata)
    → Keeps IsValid (Manager.create_refresh u hash at meta)
unfolding Manager.create_refresh Repository.create
create u hash at meta = Keeps-create _

or_refused :
    {A : Type 0} (m : Exec World A) → Keeps IsValid m → Keeps IsValid (Service.or_refused m)
unfolding Service.or_refused
or_refused m km = search keeps_rules

module _ (p : Platform) (ttl : Lifetimes) where
  generate : Keeps IsValid (generate_refresh_string p)
  unfolding generate_refresh_string
  generate = Keeps_of_same _ λ w. ground arith

  reuse : (t : RefreshToken) (now : Time) → Keeps IsValid (Service.reuse t now)
  unfolding Service.reuse
  reuse t now = search (keeps_rules, delete_all)

  replace_or_end :
      (t : RefreshToken) (old new : String) (meta : Metadata)
      → Keeps IsValid (Service.replace_or_end p ttl t old new meta)
  unfolding Service.replace_or_end
  replace_or_end t old new meta = search (keeps_rules, delete_all, replace) depth 8

  rotate :
      (old : String) (t : RefreshToken) (meta : Metadata)
      → Keeps IsValid (Service.rotate p ttl old t meta)
  unfolding Service.rotate
  rotate old t meta =
      search (keeps_rules, or_refused, generate, replace_or_end, Keeps-get_available) depth 8

  exchange :
      (old : String) (t : RefreshToken) (meta : Metadata)
      → Keeps IsValid (Service.exchange p ttl old t meta)
  unfolding Service.exchange
  exchange old t meta = search (keeps_rules, reuse, rotate)

  pub Keeps-refresh_session :
      (old : String) (meta : Metadata) → Keeps IsValid (Service.refresh_session p ttl old meta)
  unfolding Service.refresh_session Repository.get_by_hash
  Keeps-refresh_session old meta = search (keeps_rules, or_refused, exchange)

  pub Keeps-issue_session_tokens :
      (user : User) (meta : Metadata) → Keeps IsValid (Service.issue_session_tokens p ttl user meta)
  unfolding Service.issue_session_tokens
  Keeps-issue_session_tokens user meta = search (keeps_rules, generate, create) depth 8

  pub Keeps-upsert_oauth_user : (u : OauthUser) → Keeps IsValid (Service.upsert_oauth_user p ttl u)
  unfolding Service.upsert_oauth_user
  Keeps-upsert_oauth_user u = search (keeps_rules, Keeps-upsert_user)

  pub Keeps-consume_session_token :
      (token : String) → Keeps IsValid (Service.consume_session_token p ttl token)
  unfolding Service.consume_session_token Repository.consume_by_hash
  Keeps-consume_session_token token = search (keeps_rules, Keeps-consume)

  pub Keeps-session_list :
      (u : Uuid) (current : String) → Keeps IsValid (Service.session_list p ttl u current)
  unfolding Service.session_list Manager.get_active_refreshes Repository.get_active_for_user
  Keeps-session_list u current = search keeps_rules

  pub Keeps-revoke_session :
      (id u : Uuid) (current : String) → Keeps IsValid (Service.revoke_session p ttl id u current)
  unfolding Service.revoke_session Repository.delete_by_id_and_user
  Keeps-revoke_session id u current = search (keeps_rules, Keeps-delete_by_id)

  pub Keeps-delete_other_sessions :
      (u : Uuid) (refresh : String) → Keeps IsValid (Service.delete_other_sessions p ttl u refresh)
  unfolding Service.delete_other_sessions Repository.delete_other_for_user
  Keeps-delete_other_sessions u refresh = Keeps-delete_other u _
