-- ===== src/Api.antt =====
-- The handlers that the routes of cmd/api/routes.go name, with the services behind them, for
-- requests whose body is a text that has not been read yet.
pub mod Tables
pub mod Integrity
pub mod Bodies
pub mod Answers
use tesseract_go_api.Prelude.{String, Bool, List, [], ◌++◌, Option, map}
use tesseract_go_api.Exec.{Result, ok}
use tesseract_go_api.Store.{World}
use tesseract_go_api.Platform.{Platform}
use tesseract_go_api.Http.{
  Body, error_body, success_body, success_data, data_only, page, validation_failed, redirect_link,
  Response, JsonInput, malformed, Request, Exchange, Handler, write_data,
}
use tesseract_go_api.Middleware.{Endpoint}
use tesseract_go_api.Users.Repository.{UpdateRequest}
use tesseract_go_api.Users.Handler as Users
use tesseract_go_api.Albums.Handler as Albums
use tesseract_go_api.Auth.Handler as Auth
use tesseract_go_api.Auth.Service.{OauthUser}
use tesseract_go_api.Admin.Handler as Admin
use tesseract_go_api.Routes.{
  HandlerName, oauth_provider, oauth_callback, logout, revoke_other_sessions, get_sessions,
  revoke_session, refresh_session, health, me, owned_list, trashed_list, get_owned, available_list,
  user_info, get_available, get_by_direct_token, update_user, delete_user, create_album,
  update_album, delete_album, generate_direct_token, revoke_direct_token, toggle_active,
  restore_album, purge_album, restore_user, purge_user,
}

-- The data of all answers.
pub data ApiData : Type 0 where
  user_data : Users.UserResponse → ApiData
  album_data : Albums.AlbumData → ApiData
  auth_data : Auth.AuthData → ApiData
  no_data : Unit {0} → ApiData
  text : String → ApiData

-- The settings of the handlers; what the JSON decoder makes of a body, for each type that a
-- handler reads; and what gothic answers to a request.
pub record Api (Raw : Type 0) : Type 0 where
  pub platform : Platform
  pub users : Users.Config
  pub albums : Albums.Config
  pub auth : Auth.Config
  pub read_update : JsonInput Raw → JsonInput UpdateRequest
  pub read_album : JsonInput Raw → JsonInput Albums.AlbumRequest
  pub read_active : JsonInput Raw → JsonInput Bool
  pub provider_url : Request Raw → String
  pub completed : Request Raw → Result OauthUser

module _ {D E : Type 0} (f : D → E) where
  abbrev pub map_body : Body D → Body E
  map_body (error_body e) = error_body e
  map_body (success_body m) = success_body m
  map_body (success_data m d) = success_data m (f d)
  map_body (data_only d) = data_only (f d)
  map_body (page d cursor) = page (f d) cursor
  map_body validation_failed = validation_failed
  map_body (redirect_link url) = redirect_link url

  abbrev pub inner : Exchange E → Exchange D
  inner x = record {
    world = x.world;
    response = record {
      status = x.response.status;
      bodies = [];
      headers = x.response.headers;
      cookies = x.response.cookies;
      redirect = x.response.redirect;
    };
  }

  abbrev pub outer : Exchange E → Exchange D → Exchange E
  outer x y = record {
    world = y.world;
    response = record {
      status = y.response.status;
      bodies = x.response.bodies ++ map map_body y.response.bodies;
      headers = y.response.headers;
      cookies = y.response.cookies;
      redirect = y.response.redirect;
    };
  }

  -- The same handler, its data among those of all answers.
  unfoldable pub embed : Handler D → Handler E
  embed h x = let (r, y) = h (inner x) in (r, outer x y)

-- The request with another body.
abbrev pub with_body : {A B : Type 0} → Request A → JsonInput B → Request B
with_body r body = record {
  method = r.method;
  path = r.path;
  header = r.header;
  cookie = r.cookie;
  url_param = r.url_param;
  url_query = r.url_query;
  remote_addr = r.remote_addr;
  remote_host = r.remote_host;
  user_agent = r.user_agent;
  claims = r.claims;
  language = r.language;
  body = body;
}

-- The handlers that read no body.
abbrev pub bodiless : {A : Type 0} → Request A → Request Unit
bodiless r = with_body r malformed

module _ {Raw : Type 0} (api : Api Raw) where
  abbrev pub album_request : Request Raw → Request Albums.AlbumRequest
  album_request r = with_body r (api.read_album r.body)

  abbrev user : Handler Users.UserResponse → Handler ApiData
  user h = embed user_data h

  abbrev album : Handler Albums.AlbumData → Handler ApiData
  album h = embed album_data h

  abbrev auth : Handler Auth.AuthData → Handler ApiData
  auth h = embed auth_data h

  abbrev admin : Handler Unit → Handler ApiData
  admin h = embed no_data h

  -- `healthHandler` (cmd/api/health.go).
  unfoldable pub health_handler : Handler ApiData
  unfolding write_data
  health_handler = write_data (text "healthy")

  unfoldable pub handlers : HandlerName → Endpoint Raw ApiData
  unfolding health_handler embed
  handlers oauth_provider r =
      auth (Auth.oauth_provider api.platform api.auth Raw (api.provider_url r) r)
  handlers oauth_callback r =
      auth (Auth.oauth_callback api.platform api.auth Raw (api.completed r) r)
  handlers logout r = auth (Auth.logout api.platform api.auth Raw r)
  handlers revoke_other_sessions r = auth (Auth.revoke_other_sessions api.platform api.auth Raw r)
  handlers get_sessions r = auth (Auth.get_sessions api.platform api.auth Raw r)
  handlers revoke_session r = auth (Auth.revoke_session api.platform api.auth Raw r)
  handlers refresh_session r = auth (Auth.refresh_session api.platform api.auth Raw r)
  handlers health r = health_handler
  handlers me r = user (Users.me (bodiless r))
  handlers user_info r = user (Users.info (bodiless r))
  handlers update_user r =
      user (Users.update api.platform api.users (with_body r (api.read_update r.body)))
  handlers delete_user r = user (Users.delete api.platform api.users (bodiless r))
  handlers owned_list r = album (Albums.owned_list api.platform api.albums (bodiless r))
  handlers trashed_list r = album (Albums.trashed_list api.platform api.albums (bodiless r))
  handlers get_owned r = album (Albums.get_owned api.platform api.albums (bodiless r))
  handlers available_list r = album (Albums.available_list api.platform api.albums (bodiless r))
  handlers get_available r = album (Albums.get_available api.platform api.albums (bodiless r))
  handlers get_by_direct_token r =
      album (Albums.get_by_direct_token api.platform api.albums (bodiless r))
  handlers create_album r = album (Albums.create api.platform api.albums (album_request r))
  handlers update_album r = album (Albums.update api.platform api.albums (album_request r))
  handlers delete_album r = album (Albums.delete api.platform api.albums (bodiless r))
  handlers generate_direct_token r =
      album (Albums.generate_direct_token api.platform api.albums (bodiless r))
  handlers revoke_direct_token r =
      album (Albums.revoke_direct_token api.platform api.albums (bodiless r))
  handlers toggle_active r =
      album (Albums.toggle_active api.platform api.albums (with_body r (api.read_active r.body)))
  handlers restore_album r = album (Albums.restore api.platform api.albums (bodiless r))
  handlers purge_album r = album (Albums.purge api.platform api.albums (bodiless r))
  handlers restore_user r = admin (Admin.restore_user api.platform (bodiless r))
  handlers purge_user r = admin (Admin.purge_user api.platform (bodiless r))
