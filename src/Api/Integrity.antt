-- ===== src/Api/Integrity.antt =====
-- cmd/api: the integrity of the tables over requests on all routes, and what happens besides.
use tesseract_go_api.Prelude.{List, [], ◌∷◌}
use tesseract_go_api.Store.{World}
use tesseract_go_api.Store.Valid.{IsValid}
use tesseract_go_api.Http.{Request, Handler, run}
use tesseract_go_api.Routes.{
  HandlerName, Route, oauth_provider, oauth_callback, logout, revoke_other_sessions, get_sessions,
  revoke_session, refresh_session, health, me, user_info, update_user, delete_user, owned_list,
  trashed_list, get_owned, available_list, get_available, get_by_direct_token, create_album,
  update_album, delete_album, generate_direct_token, revoke_direct_token, toggle_active,
  restore_album, purge_album, restore_user, purge_user,
}
use tesseract_go_api.Routes.Mount.{App, serve}
use tesseract_go_api.Routes.Quiet.{serve-data}
use tesseract_go_api.History.{Event, perform}
use tesseract_go_api.History.Valid.{perform-IsValid}
use tesseract_go_api.Api.{
  Api, ApiData, inner, embed, handlers, with_body, bodiless, album_request, health_handler,
}
use tesseract_go_api.Api.Tables
use tesseract_go_api.Api.Tables.{IsSafe}

embed-IsSafe : {D E : Type 0} (f : D → E) (h : Handler D) → IsSafe h → IsSafe (embed f h)
unfolding embed
embed-IsSafe f h k = record {
  at = λ x v. record { tables = (k.at (inner f x) (record { tables = v.tables })).tables };
}

module _ {Raw : Type 0} (api : Api Raw) where
  health-IsSafe : IsSafe (health_handler api)
  unfolding health_handler
  health-IsSafe = record { at = λ x v. record { tables = v.tables } }

  handlers-IsSafe : (name : HandlerName) (r : Request Raw) → IsSafe (handlers api name r)
  unfolding handlers
  handlers-IsSafe oauth_provider r =
      embed-IsSafe _ _ (Tables.oauth_provider api.platform api.auth Raw (api.provider_url r) r)
  handlers-IsSafe oauth_callback r =
      embed-IsSafe _ _ (Tables.oauth_callback api.platform api.auth Raw (api.completed r) r)
  handlers-IsSafe logout r = embed-IsSafe _ _ (Tables.logout api.platform api.auth Raw r)
  handlers-IsSafe revoke_other_sessions r =
      embed-IsSafe _ _ (Tables.revoke_other_sessions api.platform api.auth Raw r)
  handlers-IsSafe get_sessions r =
      embed-IsSafe _ _ (Tables.get_sessions api.platform api.auth Raw r)
  handlers-IsSafe revoke_session r =
      embed-IsSafe _ _ (Tables.revoke_session api.platform api.auth Raw r)
  handlers-IsSafe refresh_session r =
      embed-IsSafe _ _ (Tables.refresh_session api.platform api.auth Raw r)
  handlers-IsSafe health r = health-IsSafe
  handlers-IsSafe me r = embed-IsSafe _ _ (Tables.me (bodiless r))
  handlers-IsSafe user_info r = embed-IsSafe _ _ (Tables.info (bodiless r))
  handlers-IsSafe update_user r =
      embed-IsSafe _ _
        (Tables.update_user api.platform api.users (with_body r (api.read_update r.body)))
  handlers-IsSafe delete_user r =
      embed-IsSafe _ _ (Tables.delete_user api.platform api.users (bodiless r))
  handlers-IsSafe owned_list r =
      embed-IsSafe _ _ (Tables.owned_list api.platform api.albums (bodiless r))
  handlers-IsSafe trashed_list r =
      embed-IsSafe _ _ (Tables.trashed_list api.platform api.albums (bodiless r))
  handlers-IsSafe get_owned r =
      embed-IsSafe _ _ (Tables.get_owned api.platform api.albums (bodiless r))
  handlers-IsSafe available_list r =
      embed-IsSafe _ _ (Tables.available_list api.platform api.albums (bodiless r))
  handlers-IsSafe get_available r =
      embed-IsSafe _ _ (Tables.get_available api.platform api.albums (bodiless r))
  handlers-IsSafe get_by_direct_token r =
      embed-IsSafe _ _ (Tables.get_by_direct_token api.platform api.albums (bodiless r))
  handlers-IsSafe create_album r =
      embed-IsSafe _ _ (Tables.create_album api.platform api.albums (album_request api r))
  handlers-IsSafe update_album r =
      embed-IsSafe _ _ (Tables.update_album api.platform api.albums (album_request api r))
  handlers-IsSafe delete_album r =
      embed-IsSafe _ _ (Tables.delete_album api.platform api.albums (bodiless r))
  handlers-IsSafe generate_direct_token r =
      embed-IsSafe _ _ (Tables.generate_direct_token api.platform api.albums (bodiless r))
  handlers-IsSafe revoke_direct_token r =
      embed-IsSafe _ _ (Tables.revoke_direct_token api.platform api.albums (bodiless r))
  handlers-IsSafe toggle_active r =
      embed-IsSafe _ _
        (Tables.toggle_active api.platform api.albums (with_body r (api.read_active r.body)))
  handlers-IsSafe restore_album r =
      embed-IsSafe _ _ (Tables.restore_album api.platform api.albums (bodiless r))
  handlers-IsSafe purge_album r =
      embed-IsSafe _ _ (Tables.purge_album api.platform api.albums (bodiless r))
  handlers-IsSafe restore_user r = embed-IsSafe _ _ (Tables.restore_user api.platform (bodiless r))
  handlers-IsSafe purge_user r = embed-IsSafe _ _ (Tables.purge_user api.platform (bodiless r))

-- A request on a route, or what happens besides: goroutines, the cleanup, evictions, failures.
pub data Step (Raw : Type 0) : Type 0 where
  request : Route → Request Raw → Step Raw
  besides : Event → Step Raw

module _ {Raw : Type 0} (api : Api Raw) (app : App ApiData) where
  unfoldable pub take_step : Step Raw → World → World
  unfolding serve handlers perform
  take_step (request route r) w = (run (serve app (handlers api) route r) w).world
  take_step (besides e) w = perform api.platform api.auth.ttl e w

  unfoldable pub take_steps : List (Step Raw) → World → World
  unfolding take_step
  take_steps [] w = w
  take_steps (s ∷ steps) w = take_steps steps (take_step s w)

  take_step-IsValid : (s : Step Raw) (w : World) → IsValid w.db → IsValid (take_step s w).db
  unfolding take_step
  take_step-IsValid (request route r) w v =
      serve-data (λ d. IsValid d.0) app route (handlers api)
        (λ r. record {
          at = λ x v. ((handlers-IsSafe api route.handler r).at x (record { tables = v })).tables;
        })
        r w v
  take_step-IsValid (besides e) w v = perform-IsValid api.platform api.auth.ttl e w v

  -- From tables that meet the constraints (distinct ids, emails, active slugs and token hashes,
  -- every token owned by a user that exists, every consumed token stamped with a time): whatever
  -- requests come in on whatever routes, with goroutines, cleanups, evictions and failures of the
  -- database and of Redis between them, the tables meet them at the end.
  pub take_steps-IsValid :
      (steps : List (Step Raw)) (w : World) → IsValid w.db → IsValid (take_steps steps w).db
  unfolding take_steps
  take_steps-IsValid [] w v = v
  take_steps-IsValid (s ∷ steps) w v =
      take_steps-IsValid steps (take_step s w) (take_step-IsValid s w v)
