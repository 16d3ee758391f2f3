-- ===== src/Api/Answers.antt =====
-- The handlers behind cmd/api/routes.go: the number of bodies that they write.
use tesseract_go_api.Prelude.{suc, ◌≡◌, ◌≢◌, ◌≤◌, refl, ap, List, [], ◌∷◌, map, length}
use tesseract_go_api.Exec.{Result, ok, err}
use tesseract_go_api.Store.{World}
use tesseract_go_api.Http.{Body, Request, Exchange, Handler, run}
use tesseract_go_api.Http.Bodies.{Ends, Answers, run-bodies, answers_rules}
use tesseract_go_api.Routes.{
  HandlerName, oauth_provider, oauth_callback, logout, revoke_other_sessions, get_sessions,
  revoke_session, refresh_session, health, me, user_info, update_user, delete_user, owned_list,
  trashed_list, get_owned, available_list, get_available, get_by_direct_token, create_album,
  update_album, delete_album, generate_direct_token, revoke_direct_token, toggle_active,
  restore_album, purge_album, restore_user, purge_user,
}
use tesseract_go_api.Api.{
  Api, map_body, inner, outer, embed, handlers, with_body, bodiless, album_request, health_handler,
}
use tesseract_go_api.Api.Bodies

module _ {D E : Type 0} (f : D → E) where
  length-outer :
      (x : Exchange E) (y : Exchange D)
      → x.response.bodies ≡ []
      → length (outer f x y).response.bodies ≡ length y.response.bodies
  length-outer x y blank = rw blank (length-map y.response.bodies)
    where
      length-map : (bodies : List (Body D)) → length (map (map_body f) bodies) ≡ length bodies
      length-map [] = refl
      length-map (b ∷ bs) = ap suc (length-map bs)

  outer-Ends :
      (x : Exchange E) (out : Result (Unit {0}) × Exchange D)
      → x.response.bodies ≡ []
      → Ends out
      → Ends (out.0, outer f x out.1)
  outer-Ends x (ok _, y) blank e = rw (length-outer x y blank) e
  outer-Ends x (err e, y) blank b = rw (blank, b) refl

  embed-Answers : (h : Handler D) → Answers h → Answers (embed f h)
  unfolding embed
  embed-Answers h a = record {
    ends = λ x b. outer-Ends x (h (inner f x)) b (a.ends (inner f x) refl);
  }

module _ {Raw : Type 0} (api : Api Raw) where
  health-Answers : Answers (health_handler api)
  unfolding health_handler
  health-Answers = search answers_rules

  handlers-Answers :
      (name : HandlerName) (r : Request Raw) → name ≢ update_user → Answers (handlers api name r)
  unfolding handlers
  handlers-Answers oauth_provider r other =
      embed-Answers _ _
        (Bodies.oauth_provider_once api.platform api.auth Raw (api.provider_url r) r)
  handlers-Answers oauth_callback r other =
      embed-Answers _ _ (Bodies.oauth_callback_once api.platform api.auth Raw (api.completed r) r)
  handlers-Answers logout r other =
      embed-Answers _ _ (Bodies.logout_once api.platform api.auth Raw r)
  handlers-Answers revoke_other_sessions r other =
      embed-Answers _ _ (Bodies.revoke_other_sessions_once api.platform api.auth Raw r)
  handlers-Answers get_sessions r other =
      embed-Answers _ _ (Bodies.get_sessions_once api.platform api.auth Raw r)
  handlers-Answers revoke_session r other =
      embed-Answers _ _ (Bodies.revoke_session_once api.platform api.auth Raw r)
  handlers-Answers refresh_session r other =
      embed-Answers _ _ (Bodies.refresh_session_once api.platform api.auth Raw r)
  handlers-Answers health r other = health-Answers
  handlers-Answers me r other = embed-Answers _ _ (Bodies.me_once (bodiless r))
  handlers-Answers user_info r other = embed-Answers _ _ (Bodies.info_once (bodiless r))
  handlers-Answers update_user r other = absurd (other refl)
  handlers-Answers delete_user r other =
      embed-Answers _ _ (Bodies.delete_user_once api.platform api.users (bodiless r))
  handlers-Answers owned_list r other =
      embed-Answers _ _ (Bodies.owned_list_once api.platform api.albums (bodiless r))
  handlers-Answers trashed_list r other =
      embed-Answers _ _ (Bodies.trashed_list_once api.platform api.albums (bodiless r))
  handlers-Answers get_owned r other =
      embed-Answers _ _ (Bodies.get_owned_once api.platform api.albums (bodiless r))
  handlers-Answers available_list r other =
      embed-Answers _ _ (Bodies.available_list_once api.platform api.albums (bodiless r))
  handlers-Answers get_available r other =
      embed-Answers _ _ (Bodies.get_available_once api.platform api.albums (bodiless r))
  handlers-Answers get_by_direct_token r other =
      embed-Answers _ _ (Bodies.get_by_direct_token_once api.platform api.albums (bodiless r))
  handlers-Answers create_album r other =
      embed-Answers _ _ (Bodies.create_album_once api.platform api.albums (album_request api r))
  handlers-Answers update_album r other =
      embed-Answers _ _ (Bodies.update_album_once api.platform api.albums (album_request api r))
  handlers-Answers delete_album r other =
      embed-Answers _ _ (Bodies.delete_album_once api.platform api.albums (bodiless r))
  handlers-Answers generate_direct_token r other =
      embed-Answers _ _ (Bodies.generate_direct_token_once api.platform api.albums (bodiless r))
  handlers-Answers revoke_direct_token r other =
      embed-Answers _ _ (Bodies.revoke_direct_token_once api.platform api.albums (bodiless r))
  handlers-Answers toggle_active r other =
      embed-Answers _ _
        (Bodies.toggle_active_once api.platform api.albums (with_body r (api.read_active r.body)))
  handlers-Answers restore_album r other =
      embed-Answers _ _ (Bodies.restore_album_once api.platform api.albums (bodiless r))
  handlers-Answers purge_album r other =
      embed-Answers _ _ (Bodies.purge_album_once api.platform api.albums (bodiless r))
  handlers-Answers restore_user r other =
      embed-Answers _ _ (Bodies.restore_user_once api.platform (bodiless r))
  handlers-Answers purge_user r other =
      embed-Answers _ _ (Bodies.purge_user_once api.platform (bodiless r))

  -- What the handler of a route writes, if it is not the update of a user, is one body at most,
  -- whether it succeeds or fails, and whatever fails on the way.
  pub handlers-bodies :
      (name : HandlerName) (r : Request Raw) (w : World)
      → name ≢ update_user
      → length (run (handlers api name r) w).response.bodies ≤ 1
  handlers-bodies name r w other =
      run-bodies (handlers api name r) w (handlers-Answers name r other)
