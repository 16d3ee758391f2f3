-- ===== src/Albums/Repository.antt =====
-- internal/domain/albums/repository.go, but for the lists. A cache write that a goroutine makes is
-- left in `pending`; `singleflight` is taken where no other call is in flight for the key.
use tesseract_go_api.Prelude.{
  String, Bool, true, not, [], ◌∷◌, Option, none, some, ◌&&◌, ◌==◌, str_eq, if◌then◌else◌,
}
use tesseract_go_api.Exec.{Result, ok, err, Exec, return, lift, try, when, drop_result, ◌>>=◌, ◌>>◌}
use tesseract_go_api.Store.{
  Uuid, Album, album_entity, album_mapper, direct_mapper, album_json, id_text, set_album,
  refresh_album, drop_album, World, query, spawn,
}
use tesseract_go_api.Platform.{Platform}
use tesseract_go_api.Cache.Commands.{get, set, unlink, as_album, get_by_mapper}
use tesseract_go_api.Albums.Queries.{
  AlbumFields, has_direct_token, is_live, get_album, get_album_by_direct_token, get_album_by_slug,
}
use tesseract_go_api.Albums.Writes.{
  create_album, update_album, update_album_direct_token, toggle_album_active, soft_delete_album,
  hard_delete_album, restore_album,
}

-- `getAlbumFromCacheBySlug`.
unfoldable pub get_album_from_cache_by_slug : Uuid → String → Exec World Album
unfolding get_by_mapper
get_album_from_cache_by_slug user_id slug = do
  v ← get_by_mapper "album_not_found" (album_mapper user_id slug) album_entity
  lift (as_album v)

-- `getAlbumFromCache`.
unfoldable pub get_album_from_cache : Uuid → Exec World Album
unfolding get
get_album_from_cache id = do v ← get (album_entity id); lift (as_album v)

-- `getAlbumFromCacheByDirectToken`.
unfoldable pub get_album_from_cache_by_direct_token : Uuid → Exec World Album
unfolding get_by_mapper
get_album_from_cache_by_direct_token token = do
  v ← get_by_mapper "album_not_found" (direct_mapper token) album_entity
  lift (as_album v)

abbrev pub set_direct_mapper : Option Uuid → Uuid → Exec World Unit
set_direct_mapper none id = return tt
set_direct_mapper (some token) id = drop_result (set (direct_mapper token) (id_text id))

-- `setAlbumToCache`: the errors of the writes are dropped.
unfoldable pub set_album_to_cache : Album → Exec World Unit
unfolding set
set_album_to_cache a = do
  drop_result (set (album_entity a.id) (album_json a))
  drop_result (set (album_mapper a.user_id a.slug) (id_text a.id))
  set_direct_mapper a.direct_token a.id

abbrev pub unset_direct_mapper : Option Uuid → Exec World Unit
unset_direct_mapper none = return tt
unset_direct_mapper (some token) = drop_result (unlink (direct_mapper token ∷ []))

-- `invalidateAlbumCache`.
unfoldable pub invalidate_album_cache : Album → Exec World Unit
unfolding unlink
invalidate_album_cache a = do
  drop_result (unlink (album_entity a.id ∷ album_mapper a.user_id a.slug ∷ []))
  unset_direct_mapper a.direct_token

-- `invalidateAlbumMapperCacheOnly`.
unfoldable pub invalidate_album_mapper_cache_only : Uuid → String → Exec World Unit
unfolding unlink
invalidate_album_mapper_cache_only user_id slug =
    drop_result (unlink (album_mapper user_id slug ∷ []))

-- The goroutine of `Update`.
unfoldable pub refresh_album_cache : Album → String → Exec World Unit
unfolding invalidate_album_mapper_cache_only set_album_to_cache
refresh_album_cache a old_slug = do
  when (not (str_eq old_slug a.slug)) (invalidate_album_mapper_cache_only a.user_id old_slug)
  set_album_to_cache a

abbrev pub and_cache : Album → Exec World Album
and_cache a = do spawn (set_album a); return a

-- A cached album that passes a test, or the database's.
abbrev pub cached_if : (Album → Bool) → Exec World Album → Result Album → Exec World Album
cached_if test fetch (ok a) = if test a then return a else fetch
cached_if test fetch (err e) = fetch

-- The function that `sf.Do` runs in `GetBySlug`.
unfoldable pub fetch_by_slug : Uuid → String → Exec World Album
unfolding query get_album_by_slug spawn
fetch_by_slug user_id slug = query (get_album_by_slug user_id slug) >>= and_cache

-- `GetBySlug`.
unfoldable pub get_by_slug : Uuid → String → Exec World Album
unfolding get_album_from_cache_by_slug fetch_by_slug
get_by_slug user_id slug = do
  cached ← try (get_album_from_cache_by_slug user_id slug)
  cached_if (λ _. true) (fetch_by_slug user_id slug) cached

abbrev pub and_cache_live : Album → Exec World Album
and_cache_live a = do when (is_live a) (spawn (set_album a)); return a

-- The function that `sf.Do` runs in `GetByID`. The query returns no album of another user.
unfoldable pub fetch_by_id : Uuid → Uuid → Exec World Album
unfolding query get_album spawn
fetch_by_id user_id album_id = query (get_album album_id user_id) >>= and_cache_live

-- `GetByID`.
unfoldable pub get_by_id : Uuid → Uuid → Exec World Album
unfolding get_album_from_cache fetch_by_id
get_by_id user_id album_id = do
  cached ← try (get_album_from_cache album_id)
  cached_if (λ a. a.user_id == user_id) (fetch_by_id user_id album_id) cached

-- The function that `sf.Do` runs in `GetByDirectToken`.
unfoldable pub fetch_by_direct_token : Uuid → Exec World Album
unfolding query get_album_by_direct_token spawn
fetch_by_direct_token token = query (get_album_by_direct_token token) >>= and_cache

-- `GetByDirectToken`.
unfoldable pub get_by_direct_token : Uuid → Exec World Album
unfolding get_album_from_cache_by_direct_token fetch_by_direct_token
get_by_direct_token token = do
  cached ← try (get_album_from_cache_by_direct_token token)
  cached_if (λ a. a.is_active && has_direct_token token a.direct_token)
      (fetch_by_direct_token token) cached

-- `Create`.
unfoldable pub create : Uuid → AlbumFields → Exec World Album
unfolding query create_album spawn
create user_id req = query (create_album user_id req) >>= and_cache

-- `Update`.
unfoldable pub update : Uuid → Uuid → AlbumFields → Exec World Album
unfolding query update_album spawn
update user_id album_id req = do
  (album, old_slug) ← query (update_album album_id user_id req)
  spawn (refresh_album album old_slug)
  return album

-- `UpdateDirectToken`: the mapper of the token before goes at once.
unfoldable pub update_direct_token : Uuid → Uuid → Option Uuid → Exec World (Option Uuid)
unfolding query update_album_direct_token spawn unlink
update_direct_token user_id album_id token = do
  (album, old_token) ← query (update_album_direct_token album_id user_id token)
  unset_direct_mapper old_token
  spawn (set_album album)
  return album.direct_token

-- `ToggleActive`.
unfoldable pub toggle_active : Uuid → Uuid → Bool → Exec World Uuid
unfolding query toggle_album_active spawn
toggle_active user_id album_id is_active = do
  album ← query (toggle_album_active album_id user_id is_active)
  spawn (set_album album)
  return album.id

-- `Delete`.
unfoldable pub delete : Uuid → Uuid → Exec World Uuid
unfolding query soft_delete_album spawn
delete user_id album_id = do
  album ← query (soft_delete_album album_id user_id)
  spawn (drop_album album)
  return album.id

-- `Purge`.
unfoldable pub purge : Uuid → Uuid → Exec World Uuid
unfolding query hard_delete_album
purge user_id album_id = query (hard_delete_album album_id user_id)

module _ (p : Platform) where
  -- `Restore`.
  unfoldable pub restore : Uuid → Uuid → Exec World Uuid
  unfolding query restore_album
  restore user_id album_id = query (restore_album p album_id user_id)
