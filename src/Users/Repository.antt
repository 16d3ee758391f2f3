-- ===== src/Users/Repository.antt =====
-- internal/domain/users/repository.go. A cache write that a goroutine makes is left in `pending`;
-- `run_task` is its body. The context's deadline of a goroutine is an outcome of its Redis calls.
use tesseract_go_api.Prelude.{String, not, [], ◌∷◌, ◌==◌, str_eq, if◌then◌else◌}
use tesseract_go_api.Exec.{
  Result, ok, err, Exec, return, lift, catch, try, when, drop_result, ◌>>=◌, ◌>>◌,
}
use tesseract_go_api.Store.{
  Uuid, User, user_entity, user_mapper, user_json, id_text, set_user, refresh_user, drop_user,
  World, query, spawn,
}
use tesseract_go_api.Platform.{Platform}
use tesseract_go_api.Cache.Commands.{
  get, set, unlink, as_user, get_by_mapper, invalidate_user_with_mapper,
}
use tesseract_go_api.Users.Queries
use tesseract_go_api.Users.Queries.{
  get_available_user, get_available_user_by_slug, create_user, upsert_user, update_user,
  soft_delete_user, hard_delete_user,
}

-- users.UpdateRequest
pub record UpdateRequest : Type 0 where
  pub username : String
  pub slug : String
  pub avatar : String

-- `getUserFromCache`.
unfoldable pub get_user_from_cache : Uuid → Exec World User
unfolding get
get_user_from_cache id = do v ← get (user_entity id); lift (as_user v)

-- `getUserBySlugFromCache`.
unfoldable pub get_user_by_slug_from_cache : String → Exec World User
unfolding get_by_mapper
get_user_by_slug_from_cache slug = do
  v ← get_by_mapper "user_not_found" (user_mapper slug) user_entity
  lift (as_user v)

-- `setUserToCache`: the errors of the two writes are dropped.
unfoldable pub set_user_to_cache : User → Exec World Unit
unfolding set
set_user_to_cache u = do
  drop_result (set (user_entity u.id) (user_json u))
  drop_result (set (user_mapper u.slug) (id_text u.id))

-- `invalidateUserCache`.
unfoldable pub invalidate_user_cache : Uuid → Exec World Unit
unfolding invalidate_user_with_mapper
invalidate_user_cache id = drop_result (invalidate_user_with_mapper id)

-- `invalidateUserMapperCache`.
unfoldable pub invalidate_user_mapper_cache : String → Exec World Unit
unfolding unlink
invalidate_user_mapper_cache slug = drop_result (unlink (user_mapper slug ∷ []))

-- The goroutine of `Update`.
unfoldable pub refresh_user_cache : User → String → Exec World Unit
unfolding invalidate_user_mapper_cache set_user_to_cache
refresh_user_cache user old_slug = do
  when (not (str_eq old_slug user.slug)) (invalidate_user_mapper_cache old_slug)
  set_user_to_cache user

abbrev pub and_cache : User → Exec World User
and_cache u = do spawn (set_user u); return u

-- `GetAvailable`.
unfoldable pub get_available : Uuid → Exec World User
unfolding get_user_from_cache query get_available_user spawn
get_available id = catch (get_user_from_cache id) λ _. query (get_available_user id) >>= and_cache

-- The function that `sf.Do` runs in `GetAvailableBySlug`.
unfoldable pub fetch_by_slug : String → Exec World User
unfolding query get_available_user_by_slug spawn
fetch_by_slug slug = query (get_available_user_by_slug slug) >>= and_cache

abbrev pub cached_or : Exec World User → Result User → Exec World User
cached_or fetch (ok u) = if u.id == 0 then fetch else return u
cached_or fetch (err e) = fetch

-- `GetAvailableBySlug`, where no other call is in flight for the slug.
unfoldable pub get_available_by_slug : String → Exec World User
unfolding get_user_by_slug_from_cache fetch_by_slug
get_available_by_slug slug = do
  cached ← try (get_user_by_slug_from_cache slug)
  cached_or (fetch_by_slug slug) cached

-- `Create`.
unfoldable pub create : String → String → String → String → String → Exec World User
unfolding query create_user spawn
create email username slug avatar role =
    query (create_user email username role avatar slug) >>= and_cache

-- `Update`.
unfoldable pub update : Uuid → UpdateRequest → Exec World User
unfolding query update_user spawn
update id req = do
  (user, old_slug) ← query (update_user id req.username req.slug req.avatar)
  spawn (refresh_user user old_slug)
  return user

-- `Delete`.
unfoldable pub delete : Uuid → Exec World Uuid
unfolding query soft_delete_user spawn
delete id = do deleted ← query (soft_delete_user id); spawn (drop_user deleted); return deleted

-- `PurgeUser`.
unfoldable pub purge_user : Uuid → Exec World Uuid
unfolding query hard_delete_user spawn
purge_user id = do deleted ← query (hard_delete_user id); spawn (drop_user deleted); return deleted

module _ (p : Platform) where
  -- `Upsert`.
  unfoldable pub upsert : String → String → String → Exec World User
  unfolding query upsert_user spawn
  upsert email username avatar = query (upsert_user p email username avatar) >>= and_cache

  -- `RestoreUser`.
  unfoldable pub restore_user : Uuid → Exec World (Uuid × String)
  unfolding query Queries.restore_user
  restore_user id = query (Queries.restore_user p id)
