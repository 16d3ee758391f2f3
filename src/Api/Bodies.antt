-- ===== src/Api/Bodies.antt =====
-- The bodies that each handler writes, but for the update of a user, which may write two.
use tesseract_go_api.Prelude.{Bool, String, Option, none, some}
use tesseract_go_api.Exec.{Result, ok, err}
use tesseract_go_api.Store.{Uuid}
use tesseract_go_api.Platform.{Platform}
use tesseract_go_api.Http.{Request}
use tesseract_go_api.Http.Serves.{Serves, serves_rules}
use tesseract_go_api.Http.Bodies.{IsBlank, Answers, blank_rules, answers_rules}
use tesseract_go_api.Users.Handler as Users
use tesseract_go_api.Albums.Handler as Albums
use tesseract_go_api.Auth.Handler as Auth
use tesseract_go_api.Auth.Service.{OauthUser}
use tesseract_go_api.Admin.Handler as Admin

pub me_once : (r : Request Unit) → Answers (Users.me r)
unfolding Users.me
me_once r = search (answers_rules, serves_rules, blank_rules) depth 16

pub info_once : (r : Request Unit) → Answers (Users.info r)
unfolding Users.info
info_once r = search (answers_rules, serves_rules, blank_rules) depth 16

module _ (p : Platform) (c : Users.Config) where
  pub delete_user_once : (r : Request Unit) → Answers (Users.delete p c r)
  unfolding Users.delete
  delete_user_once r = search (answers_rules, serves_rules, blank_rules) depth 16

module _ (p : Platform) (c : Albums.Config) where
  pub get_available_once : (r : Request Unit) → Answers (Albums.get_available p c r)
  unfolding Albums.get_available
  get_available_once r = search (answers_rules, serves_rules, blank_rules) depth 16

  pub get_owned_once : (r : Request Unit) → Answers (Albums.get_owned p c r)
  unfolding Albums.get_owned
  get_owned_once r = search (answers_rules, serves_rules, blank_rules) depth 16

  pub get_by_direct_token_once : (r : Request Unit) → Answers (Albums.get_by_direct_token p c r)
  unfolding Albums.get_by_direct_token
  get_by_direct_token_once r = search (answers_rules, serves_rules, blank_rules) depth 16

  pub visitor_page_once :
      (r : Request Unit) (user : Uuid) (email : String)
      → Answers (Albums.visitor_page p c r user email)
  visitor_page_once r user email = search (answers_rules, serves_rules, blank_rules) depth 16

  pub owner_page_once : (r : Request Unit) (user : Uuid) → Answers (Albums.owner_page p c r user)
  owner_page_once r user = search (answers_rules, serves_rules, blank_rules) depth 16

  pub available_list_once : (r : Request Unit) → Answers (Albums.available_list p c r)
  unfolding Albums.available_list
  available_list_once r =
      search (answers_rules, serves_rules, blank_rules, visitor_page_once, owner_page_once) depth 16

  pub owned_list_once : (r : Request Unit) → Answers (Albums.owned_list p c r)
  unfolding Albums.owned_list
  owned_list_once r = search (answers_rules, serves_rules, blank_rules, owner_page_once) depth 16

  pub trashed_list_once : (r : Request Unit) → Answers (Albums.trashed_list p c r)
  unfolding Albums.trashed_list
  trashed_list_once r = search (answers_rules, serves_rules, blank_rules) depth 16

  pub create_album_once : (r : Request Albums.AlbumRequest) → Answers (Albums.create p c r)
  unfolding Albums.create
  create_album_once r = search (answers_rules, serves_rules, blank_rules) depth 16

  pub update_album_once : (r : Request Albums.AlbumRequest) → Answers (Albums.update p c r)
  unfolding Albums.update
  update_album_once r = search (answers_rules, serves_rules, blank_rules) depth 16

  pub generate_direct_token_once : (r : Request Unit) → Answers (Albums.generate_direct_token p c r)
  unfolding Albums.generate_direct_token
  generate_direct_token_once r = search (answers_rules, serves_rules, blank_rules) depth 16

  pub revoke_direct_token_once : (r : Request Unit) → Answers (Albums.revoke_direct_token p c r)
  unfolding Albums.revoke_direct_token
  revoke_direct_token_once r = search (answers_rules, serves_rules, blank_rules) depth 16

  pub toggle_active_once : (r : Request Bool) → Answers (Albums.toggle_active p c r)
  unfolding Albums.toggle_active
  toggle_active_once r = search (answers_rules, serves_rules, blank_rules) depth 16

  pub delete_album_once : (r : Request Unit) → Answers (Albums.delete p c r)
  unfolding Albums.delete
  delete_album_once r = search (answers_rules, serves_rules, blank_rules) depth 16

  pub restore_album_once : (r : Request Unit) → Answers (Albums.restore p c r)
  unfolding Albums.restore
  restore_album_once r = search (answers_rules, serves_rules, blank_rules) depth 16

  pub purge_album_once : (r : Request Unit) → Answers (Albums.purge p c r)
  unfolding Albums.purge
  purge_album_once r = search (answers_rules, serves_rules, blank_rules) depth 16

module _ (p : Platform) (c : Auth.Config) (B : Type 0) where
  clear : Serves IsBlank Auth.clear_cookies
  clear = search (serves_rules, blank_rules)

  pub oauth_provider_once :
      (url : String) (r : Request B) → Answers (Auth.oauth_provider p c B url r)
  unfolding Auth.oauth_provider
  oauth_provider_once url r = search (answers_rules, serves_rules, blank_rules) depth 16

  pub oauth_callback_once :
      (completed : Result OauthUser) (r : Request B)
      → Answers (Auth.oauth_callback p c B completed r)
  unfolding Auth.oauth_callback
  oauth_callback_once completed r = search (answers_rules, serves_rules, blank_rules) depth 16

  pub logout_once : (r : Request B) → Answers (Auth.logout p c B r)
  unfolding Auth.logout
  logout_once r = search (answers_rules, serves_rules, blank_rules, clear) depth 16

  pub get_sessions_once : (r : Request B) → Answers (Auth.get_sessions p c B r)
  unfolding Auth.get_sessions
  get_sessions_once r = search (answers_rules, serves_rules, blank_rules) depth 16

  pub revoke_session_once : (r : Request B) → Answers (Auth.revoke_session p c B r)
  unfolding Auth.revoke_session
  revoke_session_once r = search (answers_rules, serves_rules, blank_rules, clear) depth 16

  pub revoke_other_sessions_once : (r : Request B) → Answers (Auth.revoke_other_sessions p c B r)
  unfolding Auth.revoke_other_sessions
  revoke_other_sessions_once r = search (answers_rules, serves_rules, blank_rules) depth 16

  pub refreshed_once : (res : Result (String × String)) → Answers (Auth.refreshed p c B res)
  refreshed_once (ok (access, refresh)) = search (answers_rules, serves_rules, blank_rules) depth 16
  refreshed_once (err e) = search (answers_rules, serves_rules, blank_rules, clear) depth 16

  pub refresh_with_once :
      (r : Request B) (o : Option String) → Answers (Auth.refresh_with p c B r o)
  refresh_with_once r none = search (answers_rules, serves_rules, blank_rules, clear) depth 16
  refresh_with_once r (some old) =
      search (answers_rules, serves_rules, blank_rules, refreshed_once) depth 16

  pub refresh_session_once : (r : Request B) → Answers (Auth.refresh_session p c B r)
  unfolding Auth.refresh_session
  refresh_session_once r = refresh_with_once r (r.cookie "refresh_token")

module _ (p : Platform) where
  pub restore_user_once : (r : Request Unit) → Answers (Admin.restore_user p r)
  unfolding Admin.restore_user
  restore_user_once r = search (answers_rules, serves_rules, blank_rules) depth 16

  pub purge_user_once : (r : Request Unit) → Answers (Admin.purge_user p r)
  unfolding Admin.purge_user
  purge_user_once r = search (answers_rules, serves_rules, blank_rules) depth 16
