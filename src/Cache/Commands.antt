-- ===== src/Cache/Commands.antt =====
-- The commands of the cache manager, and the two Lua scripts on user keys.
use tesseract_go_api.Prelude.{String, Option, none, some, List, [], ◌∷◌}
use tesseract_go_api.Response.{plain}
use tesseract_go_api.Exec.{Result, ok, err, Exec, ◌>>◌}
use tesseract_go_api.Store.{
  Uuid, User, Album, Key, CacheValue, user_json, album_json, id_text, user_entity, user_mapper,
  World, external, Cache,
}
use tesseract_go_api.Cache.Laws.{lookup, without, store}

-- `client.Get(key).Result()`: a key that is not there is the error `redis.Nil`.
unfoldable pub get : Key → Exec World CacheValue
unfolding external lookup
get k = do
  external
  λ w. elim (lookup k w.cache) [ none ↦ (err (plain "redis: nil"), w) | some v ↦ (ok v, w) ]

-- `json.Unmarshal` into a user.
abbrev pub as_user : CacheValue → Result User
as_user (user_json u) = ok u
as_user _ = err (plain "json: cannot unmarshal")

-- `json.Unmarshal` into an album.
abbrev pub as_album : CacheValue → Result Album
as_album (album_json a) = ok a
as_album _ = err (plain "json: cannot unmarshal")

-- `Manager.Set`, with the manager's time to live.
unfoldable pub set : Key → CacheValue → Exec World Unit
unfolding external store
set k v = do external; λ w. (ok tt, record w { cache = store k v w.cache })

abbrev without_all : List Key → Cache → Cache
without_all [] c = c
without_all (k ∷ ks) c = without_all ks (without k c)

-- `Manager.Unlink`.
unfoldable pub unlink : List Key → Exec World Unit
unfolding external without
unlink ks = do external; λ w. (ok tt, record w { cache = without_all ks w.cache })

-- The entity that a mapper's value leads to.
abbrev pub entity_at : (Uuid → Key) → Option CacheValue → Cache → Option CacheValue
entity_at entity (some (id_text id)) c = lookup (entity id) c
entity_at entity _ c = none

abbrev found_entity : String → (Uuid → Key) → Option CacheValue → Cache → Result CacheValue
found_entity missing entity none c = err (plain missing)
found_entity missing entity (some v) c = elim (entity_at entity (some v) c) [
  | none ↦ err (plain "redis: nil")
  | some json ↦ ok json
]

-- lua/get_user_by_slug.lua and lua/get_album_by_mapper.lua: from a mapper to the entity. A missing
-- mapper is the script's error, a missing entity the error `redis.Nil`.
unfoldable pub get_by_mapper : String → Key → (Uuid → Key) → Exec World CacheValue
unfolding external lookup
get_by_mapper missing mapper entity = do
  external
  λ w. (found_entity missing entity (lookup mapper w.cache) w.cache, w)

abbrev drop_with_mapper : Uuid → Option CacheValue → Cache → Cache
drop_with_mapper id (some (user_json u)) c =
    without (user_mapper u.slug) (without (user_entity id) c)
drop_with_mapper id (some v) c = without (user_entity id) c
drop_with_mapper id none c = c

-- lua/invalidate_user_with_mapper.lua: drops the entity and the mapper of the slug it holds.
unfoldable pub invalidate_user_with_mapper : Uuid → Exec World Unit
unfolding external lookup without
invalidate_user_with_mapper id = do
  external
  λ w. (ok tt, record w { cache = drop_with_mapper id (lookup (user_entity id) w.cache) w.cache })
