-- ===== src/Api/Tables.antt =====
-- The handlers behind cmd/api/routes.go, and the integrity of the users and the tokens.
use tesseract_go_api.Prelude.{Bool, String, Option, none, some}
use tesseract_go_api.Exec.{Result, ok, err}
use tesseract_go_api.Store.{Uuid}
use tesseract_go_api.Store.Valid.{IsValid}
use tesseract_go_api.Platform.{Platform}
use tesseract_go_api.Http.{Request, Handler}
use tesseract_go_api.Http.Serves.{Serves, Holds, serves_rules, table_rules}
use tesseract_go_api.Users.Keeps.{
  Keeps-get_available, Keeps-get_available_by_slug, Keeps-update_user, Keeps-delete_user,
}
use tesseract_go_api.Users.Repository.{UpdateRequest}
use tesseract_go_api.Users.Handler as Users
use tesseract_go_api.Albums.Reads as Reads
use tesseract_go_api.Albums.Integrity.{
  Keeps-create_album, Keeps-update_album, Keeps-revoke_token, Keeps-generate_token,
  Keeps-toggle_active, Keeps-delete_album, Keeps-purge_album, Keeps-restore_album,
}
use tesseract_go_api.Albums.Handler as Albums
use tesseract_go_api.Auth.Handler as Auth
use tesseract_go_api.Auth.Service.{OauthUser}
use tesseract_go_api.Auth.Keeps.{
  Keeps-refresh_session, Keeps-issue_session_tokens, Keeps-upsert_oauth_user,
  Keeps-consume_session_token, Keeps-session_list, Keeps-revoke_session,
  Keeps-delete_other_sessions,
}
use tesseract_go_api.Admin.Handler as Admin
use tesseract_go_api.Admin.Keeps.{Keeps-purge, Keeps-restore}

-- The handler keeps the integrity of the tables.
abbrev pub IsSafe : {D : Type 0} → Handler D → Type 0
IsSafe h = Serves (Holds IsValid) h

pub me : (r : Request Unit) → IsSafe (Users.me r)
unfolding Users.me
me r = search (serves_rules, table_rules, Keeps-get_available) depth 8

pub info : (r : Request Unit) → IsSafe (Users.info r)
unfolding Users.info
info r = search (serves_rules, table_rules, Keeps-get_available_by_slug) depth 8

avatar : (r : Result String) → Serves (Holds IsValid) (Users.sanitized r)
avatar (ok url) = search serves_rules
avatar (err e) = search (serves_rules, table_rules)

module _ (p : Platform) (c : Users.Config) where
  pub update_user : (r : Request UpdateRequest) → IsSafe (Users.update p c r)
  unfolding Users.update
  update_user r = search (serves_rules, table_rules, Keeps-update_user, avatar) depth 16

  pub delete_user : (r : Request Unit) → IsSafe (Users.delete p c r)
  unfolding Users.delete
  delete_user r = search (serves_rules, table_rules, Keeps-delete_user) depth 12

module _ (p : Platform) (c : Albums.Config) where
  pub get_available : (r : Request Unit) → IsSafe (Albums.get_available p c r)
  unfolding Albums.get_available
  get_available r =
      search (serves_rules, table_rules, Keeps-get_available_by_slug, Reads.Keeps-get_available)
        depth 8

  pub get_owned : (r : Request Unit) → IsSafe (Albums.get_owned p c r)
  unfolding Albums.get_owned
  get_owned r = search (serves_rules, table_rules, Reads.Keeps-get_owned) depth 8

  pub get_by_direct_token : (r : Request Unit) → IsSafe (Albums.get_by_direct_token p c r)
  unfolding Albums.get_by_direct_token
  get_by_direct_token r =
      search (serves_rules, table_rules, Reads.Keeps-get_by_direct_token) depth 8

  visitor_page :
      (r : Request Unit) (user : Uuid) (email : String)
      → IsSafe (Albums.visitor_page p c r user email)
  visitor_page r user email = search (serves_rules, table_rules, Reads.Keeps-list_available) depth 8

  owner_page : (r : Request Unit) (user : Uuid) → IsSafe (Albums.owner_page p c r user)
  owner_page r user = search (serves_rules, table_rules, Reads.Keeps-list_owned) depth 8

  pub available_list : (r : Request Unit) → IsSafe (Albums.available_list p c r)
  unfolding Albums.available_list
  available_list r =
      search (serves_rules, table_rules, Keeps-get_available_by_slug, visitor_page, owner_page)
        depth 8

  pub owned_list : (r : Request Unit) → IsSafe (Albums.owned_list p c r)
  unfolding Albums.owned_list
  owned_list r = search (serves_rules, owner_page) depth 8

  pub trashed_list : (r : Request Unit) → IsSafe (Albums.trashed_list p c r)
  unfolding Albums.trashed_list
  trashed_list r = search (serves_rules, table_rules, Reads.Keeps-list_trashed) depth 8

  pub create_album : (r : Request Albums.AlbumRequest) → IsSafe (Albums.create p c r)
  unfolding Albums.create
  create_album r = search (serves_rules, table_rules, Keeps-create_album) depth 12

  pub update_album : (r : Request Albums.AlbumRequest) → IsSafe (Albums.update p c r)
  unfolding Albums.update
  update_album r = search (serves_rules, table_rules, Keeps-update_album) depth 12

  pub generate_direct_token : (r : Request Unit) → IsSafe (Albums.generate_direct_token p c r)
  unfolding Albums.generate_direct_token
  generate_direct_token r = search (serves_rules, table_rules, Keeps-generate_token) depth 8

  pub revoke_direct_token : (r : Request Unit) → IsSafe (Albums.revoke_direct_token p c r)
  unfolding Albums.revoke_direct_token
  revoke_direct_token r = search (serves_rules, table_rules, Keeps-revoke_token) depth 8

  pub toggle_active : (r : Request Bool) → IsSafe (Albums.toggle_active p c r)
  unfolding Albums.toggle_active
  toggle_active r = search (serves_rules, table_rules, Keeps-toggle_active) depth 12

  pub delete_album : (r : Request Unit) → IsSafe (Albums.delete p c r)
  unfolding Albums.delete
  delete_album r = search (serves_rules, table_rules, Keeps-delete_album) depth 8

  pub restore_album : (r : Request Unit) → IsSafe (Albums.restore p c r)
  unfolding Albums.restore
  restore_album r = search (serves_rules, table_rules, Keeps-restore_album) depth 8

  pub purge_album : (r : Request Unit) → IsSafe (Albums.purge p c r)
  unfolding Albums.purge
  purge_album r = search (serves_rules, table_rules, Keeps-purge_album) depth 8

module _ (p : Platform) (c : Auth.Config) (B : Type 0) where
  clear : IsSafe Auth.clear_cookies
  clear = search (serves_rules, table_rules)

  pub oauth_provider : (url : String) (r : Request B) → IsSafe (Auth.oauth_provider p c B url r)
  unfolding Auth.oauth_provider
  oauth_provider url r = search (serves_rules, table_rules)

  pub oauth_callback :
      (completed : Result OauthUser) (r : Request B)
      → IsSafe (Auth.oauth_callback p c B completed r)
  unfolding Auth.oauth_callback
  oauth_callback completed r =
      search (serves_rules, table_rules, Keeps-upsert_oauth_user, Keeps-issue_session_tokens) depth
        16

  pub logout : (r : Request B) → IsSafe (Auth.logout p c B r)
  unfolding Auth.logout
  logout r = search (serves_rules, table_rules, Keeps-consume_session_token, clear) depth 12

  pub get_sessions : (r : Request B) → IsSafe (Auth.get_sessions p c B r)
  unfolding Auth.get_sessions
  get_sessions r = search (serves_rules, table_rules, Keeps-session_list) depth 8

  pub revoke_session : (r : Request B) → IsSafe (Auth.revoke_session p c B r)
  unfolding Auth.revoke_session
  revoke_session r = search (serves_rules, table_rules, Keeps-revoke_session, clear) depth 12

  pub revoke_other_sessions : (r : Request B) → IsSafe (Auth.revoke_other_sessions p c B r)
  unfolding Auth.revoke_other_sessions
  revoke_other_sessions r = search (serves_rules, table_rules, Keeps-delete_other_sessions) depth 12

  refreshed : (res : Result (String × String)) → IsSafe (Auth.refreshed p c B res)
  refreshed (ok (access, refresh)) = search (serves_rules, table_rules)
  refreshed (err e) = search (serves_rules, table_rules, clear)

  refresh_with : (r : Request B) (o : Option String) → IsSafe (Auth.refresh_with p c B r o)
  refresh_with r none = search (serves_rules, table_rules, clear)
  refresh_with r (some old) = search (serves_rules, table_rules, Keeps-refresh_session, refreshed)

  pub refresh_session : (r : Request B) → IsSafe (Auth.refresh_session p c B r)
  unfolding Auth.refresh_session
  refresh_session r = refresh_with r (r.cookie "refresh_token")

module _ (p : Platform) where
  pub restore_user : (r : Request Unit) → IsSafe (Admin.restore_user p r)
  unfolding Admin.restore_user
  restore_user r = search (serves_rules, table_rules, Keeps-restore) depth 8

  pub purge_user : (r : Request Unit) → IsSafe (Admin.purge_user p r)
  unfolding Admin.purge_user
  purge_user r = search (serves_rules, table_rules, Keeps-purge) depth 8
