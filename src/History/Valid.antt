-- ===== src/History/Valid.antt =====
-- The integrity of the tables over every history.
use tesseract_go_api.Prelude.{ℕ, String, Option, none, some}
use tesseract_go_api.Store.{
  Uuid, User, Album, Task, World, set_user, refresh_user, drop_user, set_album, refresh_album,
  drop_album,
}
use tesseract_go_api.Store.Keeps.{Keeps, keeps_rules}
use tesseract_go_api.Store.Valid.{IsValid}
use tesseract_go_api.Platform.{Platform}
use tesseract_go_api.Cache.Keeps.{cache_rules}
use tesseract_go_api.Users.Repository
use tesseract_go_api.Albums.Repository as Albums
use tesseract_go_api.Auth.Service.{Lifetimes}
use tesseract_go_api.Users.Keeps as Users
use tesseract_go_api.Auth.Keeps as Auth
use tesseract_go_api.Admin.Keeps as Admin
use tesseract_go_api.History.{
  Event, sign_in, issue, refresh, log_out, list_sessions, revoke, revoke_others, cleanup, get_user,
  get_user_by_slug, create_user, update_user, delete_user, purge_user, restore_user, background,
  evict, elapse, run_task, run_nth, nth, drop_nth, perform,
}

set : (u : User) → Keeps IsValid (Repository.set_user_to_cache u)
unfolding Repository.set_user_to_cache
set u = search (keeps_rules, cache_rules)

unmap : (slug : String) → Keeps IsValid (Repository.invalidate_user_mapper_cache slug)
unfolding Repository.invalidate_user_mapper_cache
unmap slug = search (keeps_rules, cache_rules)

reset : (u : User) (slug : String) → Keeps IsValid (Repository.refresh_user_cache u slug)
unfolding Repository.refresh_user_cache
reset u slug = search (keeps_rules, set, unmap)

drop : (id : Uuid) → Keeps IsValid (Repository.invalidate_user_cache id)
unfolding Repository.invalidate_user_cache
drop id = search (keeps_rules, cache_rules)

direct : (token : Option Uuid) (id : Uuid) → Keeps IsValid (Albums.set_direct_mapper token id)
direct none id = search keeps_rules
direct (some token) id = search (keeps_rules, cache_rules)

no_direct : (token : Option Uuid) → Keeps IsValid (Albums.unset_direct_mapper token)
no_direct none = search keeps_rules
no_direct (some token) = search (keeps_rules, cache_rules)

set_album_kept : (a : Album) → Keeps IsValid (Albums.set_album_to_cache a)
unfolding Albums.set_album_to_cache
set_album_kept a = search (keeps_rules, cache_rules, direct)

unmap_album :
    (user : Uuid) (slug : String)
    → Keeps IsValid (Albums.invalidate_album_mapper_cache_only user slug)
unfolding Albums.invalidate_album_mapper_cache_only
unmap_album user slug = search (keeps_rules, cache_rules)

reset_album : (a : Album) (slug : String) → Keeps IsValid (Albums.refresh_album_cache a slug)
unfolding Albums.refresh_album_cache
reset_album a slug = search (keeps_rules, set_album_kept, unmap_album)

drop_album_kept : (a : Album) → Keeps IsValid (Albums.invalidate_album_cache a)
unfolding Albums.invalidate_album_cache
drop_album_kept a = search (keeps_rules, cache_rules, no_direct)

run_task-IsValid : (t : Task) (w : World) → IsValid w.db → IsValid (run_task t w).db
unfolding run_task
run_task-IsValid (set_user u) w v = (set u).at w v
run_task-IsValid (refresh_user u slug) w v = (reset u slug).at w v
run_task-IsValid (drop_user id) w v = (drop id).at w v
run_task-IsValid (set_album a) w v = (set_album_kept a).at w v
run_task-IsValid (refresh_album a slug) w v = (reset_album a slug).at w v
run_task-IsValid (drop_album a) w v = (drop_album_kept a).at w v

run_nth-IsValid : (o : Option Task) (n : ℕ) (w : World) → IsValid w.db → IsValid (run_nth o n w).db
run_nth-IsValid none n w v = v
run_nth-IsValid (some t) n w v = run_task-IsValid t (record w { pending = drop_nth n w.pending }) v

module _ (p : Platform) (ttl : Lifetimes) where
  pub perform-IsValid : (e : Event) (w : World) → IsValid w.db → IsValid (perform p ttl e w).db
  unfolding perform
  perform-IsValid (sign_in u) w v = (Auth.Keeps-upsert_oauth_user p ttl u).at w v
  perform-IsValid (issue u meta) w v = (Auth.Keeps-issue_session_tokens p ttl u meta).at w v
  perform-IsValid (refresh old meta) w v = (Auth.Keeps-refresh_session p ttl old meta).at w v
  perform-IsValid (log_out token) w v = (Auth.Keeps-consume_session_token p ttl token).at w v
  perform-IsValid (list_sessions u current) w v = (Auth.Keeps-session_list p ttl u current).at w v
  perform-IsValid (revoke id u current) w v = (Auth.Keeps-revoke_session p ttl id u current).at w v
  perform-IsValid (revoke_others u token) w v =
      (Auth.Keeps-delete_other_sessions p ttl u token).at w v
  perform-IsValid cleanup w v = Auth.Keeps-cleanup_tokens.at w v
  perform-IsValid (get_user id) w v = (Users.Keeps-get_available {P = IsValid} id).at w v
  perform-IsValid (get_user_by_slug slug) w v =
      (Users.Keeps-get_available_by_slug {P = IsValid} slug).at w v
  perform-IsValid (create_user email name slug avatar role) w v =
      (Users.Keeps-create_user email name slug avatar role).at w v
  perform-IsValid (update_user id req) w v = (Users.Keeps-update_user id req).at w v
  perform-IsValid (delete_user id) w v = (Users.Keeps-delete_user id).at w v
  perform-IsValid (purge_user target admin) w v = (Admin.Keeps-purge target admin).at w v
  perform-IsValid (restore_user target admin) w v = (Admin.Keeps-restore p target admin).at w v
  perform-IsValid (background n) w v = run_nth-IsValid (nth n w.pending) n w v
  perform-IsValid (evict k) w v = v
  perform-IsValid (elapse d outcomes) w v = v
