-- ===== src/History.antt =====
-- What can happen besides requests: service calls, background work and moves of the environment.
pub mod Valid
use tesseract_go_api.Prelude.{ℕ, zero, suc, String, ◌+◌, List, [], ◌∷◌, Option, none, some}
use tesseract_go_api.Exec.{Exec, ◌>>=◌}
use tesseract_go_api.Store.{
  Uuid, Time, User, Task, World, Key, set_user, refresh_user, drop_user, set_album, refresh_album,
  drop_album,
}
use tesseract_go_api.Platform.{Platform}
use tesseract_go_api.Cache.Laws.{without}
use tesseract_go_api.Tokens.Manager.{Metadata}
use tesseract_go_api.Tokens.Repository as Tokens
use tesseract_go_api.Albums.Repository as AlbumsRepository
use tesseract_go_api.Users.Repository as UsersRepository
use tesseract_go_api.Users.Repository.{UpdateRequest}
use tesseract_go_api.Users.Service as Users
use tesseract_go_api.Auth.Service as Auth
use tesseract_go_api.Auth.Service.{Lifetimes, OauthUser}
use tesseract_go_api.Admin.Service as Admin

-- What can happen next.
pub data Event : Type 0 where
  -- auth
  sign_in : OauthUser → Event
  issue : User → Metadata → Event
  refresh : String → Metadata → Event
  log_out : String → Event
  list_sessions : Uuid → String → Event
  revoke : Uuid → Uuid → String → Event
  revoke_others : Uuid → String → Event
  -- worker/worker.go
  cleanup : Event
  -- users
  get_user : Uuid → Event
  get_user_by_slug : String → Event
  create_user : String → String → String → String → String → Event
  update_user : Uuid → UpdateRequest → Event
  delete_user : Uuid → Event
  -- admin
  purge_user : Uuid → Uuid → Event
  restore_user : Uuid → Uuid → Event
  -- the n-th goroutine that has not run yet runs
  background : ℕ → Event
  -- Redis drops a key
  evict : Key → Event
  -- the clock moves on, and the outcomes of the coming calls are drawn
  elapse : Time → List (Option String) → Event

-- The world after an action.
abbrev pub after : {A : Type 0} → Exec World A → World → World
after m w = (m w).1

-- The body of a goroutine.
unfoldable pub run_task : Task → World → World
unfolding UsersRepository.set_user_to_cache UsersRepository.refresh_user_cache
    UsersRepository.invalidate_user_cache AlbumsRepository.set_album_to_cache
    AlbumsRepository.refresh_album_cache AlbumsRepository.invalidate_album_cache
run_task (set_user u) = after (UsersRepository.set_user_to_cache u)
run_task (refresh_user u slug) = after (UsersRepository.refresh_user_cache u slug)
run_task (drop_user id) = after (UsersRepository.invalidate_user_cache id)
run_task (set_album a) = after (AlbumsRepository.set_album_to_cache a)
run_task (refresh_album a slug) = after (AlbumsRepository.refresh_album_cache a slug)
run_task (drop_album a) = after (AlbumsRepository.invalidate_album_cache a)

abbrev pub nth : ℕ → List Task → Option Task
nth n [] = none
nth zero (t ∷ ts) = some t
nth (suc n) (t ∷ ts) = nth n ts

abbrev pub drop_nth : ℕ → List Task → List Task
drop_nth n [] = []
drop_nth zero (t ∷ ts) = ts
drop_nth (suc n) (t ∷ ts) = t ∷ drop_nth n ts

abbrev pub run_nth : Option Task → ℕ → World → World
run_nth none n w = w
run_nth (some t) n w = run_task t (record w { pending = drop_nth n w.pending })

module _ (p : Platform) (ttl : Lifetimes) where
  unfoldable pub perform : Event → World → World
  perform (sign_in u) = after (Auth.upsert_oauth_user p ttl u)
  perform (issue u meta) = after (Auth.issue_session_tokens p ttl u meta)
  perform (refresh old meta) = after (Auth.refresh_session p ttl old meta)
  perform (log_out token) = after (Auth.consume_session_token p ttl token)
  perform (list_sessions u current) = after (Auth.session_list p ttl u current)
  perform (revoke id u current) = after (Auth.revoke_session p ttl id u current)
  perform (revoke_others u token) = after (Auth.delete_other_sessions p ttl u token)
  perform cleanup = after Tokens.cleanup
  perform (get_user id) = after (Users.get_available id)
  perform (get_user_by_slug slug) = after (Users.get_available_by_slug slug)
  perform (create_user email name slug avatar role) =
      after (Users.create email name slug avatar role)
  perform (update_user id req) = after (Users.update id req)
  perform (delete_user id) = after (Users.delete id)
  perform (purge_user target admin) = after (Admin.purge_user target admin)
  perform (restore_user target admin) = after (Admin.restore_user p target admin)
  perform (background n) = λ w. run_nth (nth n w.pending) n w
  perform (evict k) = λ w. record w { cache = without k w.cache }
  perform (elapse d outcomes) = λ w. record w { now = w.now + d; outcomes = outcomes }
