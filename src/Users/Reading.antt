-- ===== src/Users/Reading.antt =====
-- internal/domain/users/service.go and repository.go: the read of a user that the tables hold.
use tesseract_go_api.Prelude.{
  ◌≡◌, refl, [], ◌∷◌, ◌++◌, some, true, arith, List, find?, any, ◌==◌, ◌&&◌,
}
use tesseract_go_api.Exec.{Result, ok, err, recover, ◌>>=◌}
use tesseract_go_api.Store.{Uuid, User, World, query, spawn, set_user}
use tesseract_go_api.Users.Queries.{has_id, is_live, get_available_user}
use tesseract_go_api.Users.Repository
use tesseract_go_api.Users.Repository.{and_cache, get_user_from_cache}
use tesseract_go_api.Users.Service

pub live_found :
    (id : Uuid) (us : List User) (user : User)
    → find? (λ u. has_id id u && is_live u) us ≡ some user
    → any (λ u. u.id == id) us ≡ true
live_found id [] user found = ground arith
live_found id (u ∷ us) user found = ground (arith, live_found id us user)

-- The world after a user was read from the tables.
abbrev noted : User → World → World
noted user w = record w { pending = w.pending ++ set_user user ∷ [] }

rows_run :
    (id : Uuid) (w : World) (user : User)
    → w.outcomes ≡ []
    → find? (λ u. has_id id u && is_live u) w.db.users ≡ some user
    → (query (get_available_user id) >>= and_cache) w ≡ (ok user, noted user w)
unfolding query get_available_user spawn
rows_run id w user calm found = ground arith

after_cache :
    (id : Uuid) (w : World) (user : User)
    → w.outcomes ≡ []
    → find? (λ u. has_id id u && is_live u) w.db.users ≡ some user
    → (r : Result User)
    → (read : User) × (v : World) × (recover r (λ _. query (get_available_user id) >>= and_cache) w
        ≡ (ok read, v))
      × (v.db ≡ w.db)
after_cache id w user calm found (ok u) = (u, w, refl, refl)
after_cache id w user calm found (err e) = (user, noted user w, rows_run id w user calm found, refl)

cache_read : (id : Uuid) (w : World) → w.outcomes ≡ [] → (get_user_from_cache id w).1 ≡ w
unfolding get_user_from_cache
cache_read id w calm = ground arith

pub get_available_run :
    (id : Uuid) (w : World) (user : User)
    → w.outcomes ≡ []
    → find? (λ u. has_id id u && is_live u) w.db.users ≡ some user
    → (read : User) × (v : World) × (Service.get_available id w ≡ (ok read, v)) × (v.db ≡ w.db)
unfolding Service.get_available Repository.get_available
get_available_run id w user calm found =
    let (read, v, run, same) = after_cache id w user calm found (get_user_from_cache id w).0 in
    (read, v, ground (arith, cache_read id w calm), same)
