-- ===== src/Users/Keeps.antt =====
-- The integrity of the tables under the users service.
use tesseract_go_api.Prelude.{String}
use tesseract_go_api.Exec.{Result, ok, err}
use tesseract_go_api.Store.{Uuid, User, Tables, query}
use tesseract_go_api.Users.Queries.{get_available_user, get_available_user_by_slug}
use tesseract_go_api.Store.Keeps.{Keeps, Keeps-query, keeps_rules}
use tesseract_go_api.Store.Valid.{IsValid}
use tesseract_go_api.Platform.{Platform}
use tesseract_go_api.Cache.Keeps.{cache_rules}
use tesseract_go_api.Tokens.Valid.{Keeps-delete_all}
use tesseract_go_api.Tokens.Repository.{delete_all_refresh_for_user}
use tesseract_go_api.Users.Repository
use tesseract_go_api.Users.Repository.{
  UpdateRequest, get_user_from_cache, fetch_by_slug, get_user_by_slug_from_cache, cached_or,
}
use tesseract_go_api.Users.Service
use tesseract_go_api.Users.Valid.{
  Keeps-create, Keeps-update, Keeps-soft_delete, Keeps-hard_delete, Keeps-restore, Keeps-upsert,
}

-- Reads leave the tables alone, so they keep whatever holds of them.
module _ {P : Tables → Type 0} where
  from_cache : (id : Uuid) → Keeps P (get_user_from_cache id)
  unfolding get_user_from_cache
  from_cache id = search (keeps_rules, cache_rules)

  read_user : (id : Uuid) → Keeps P (query (get_available_user id))
  read_user id = Keeps-query _ λ now db h. unfold get_available_user in h

  pub Keeps-get_available : (id : Uuid) → Keeps P (Service.get_available id)
  unfolding Service.get_available Repository.get_available
  Keeps-get_available id = search (keeps_rules, from_cache, read_user)

  from_cache_by_slug : (slug : String) → Keeps P (get_user_by_slug_from_cache slug)
  unfolding get_user_by_slug_from_cache
  from_cache_by_slug slug = search (keeps_rules, cache_rules)

  read_user_by_slug : (slug : String) → Keeps P (query (get_available_user_by_slug slug))
  read_user_by_slug slug = Keeps-query _ λ now db h. unfold get_available_user_by_slug in h

  from_database : (slug : String) → Keeps P (fetch_by_slug slug)
  unfolding fetch_by_slug
  from_database slug = search (keeps_rules, read_user_by_slug)

  cached_or_database :
      (slug : String) (r : Result User) → Keeps P (cached_or (fetch_by_slug slug) r)
  cached_or_database slug (ok u) = search (keeps_rules, from_database)
  cached_or_database slug (err e) = from_database slug

  pub Keeps-get_available_by_slug : (slug : String) → Keeps P (Service.get_available_by_slug slug)
  unfolding Service.get_available_by_slug Repository.get_available_by_slug
  Keeps-get_available_by_slug slug = search (keeps_rules, from_cache_by_slug, cached_or_database)

pub Keeps-create_user :
    (email username slug avatar role : String)
    → Keeps IsValid (Service.create email username slug avatar role)
unfolding Service.create Repository.create
Keeps-create_user email username slug avatar role = search (keeps_rules, Keeps-create)

pub Keeps-update_user : (id : Uuid) (req : UpdateRequest) → Keeps IsValid (Service.update id req)
unfolding Service.update Repository.update
Keeps-update_user id req = search (keeps_rules, Keeps-update)

delete_all : (u : Uuid) → Keeps IsValid (delete_all_refresh_for_user u)
unfolding delete_all_refresh_for_user
delete_all u = Keeps-delete_all u

pub Keeps-delete_user : (id : Uuid) → Keeps IsValid (Service.delete id)
unfolding Service.delete Repository.delete
Keeps-delete_user id = search (keeps_rules, Keeps-soft_delete, delete_all)

pub Keeps-purge_user : (id : Uuid) → Keeps IsValid (Service.purge_user id)
unfolding Service.purge_user Repository.purge_user
Keeps-purge_user id = search (keeps_rules, Keeps-hard_delete)

module _ (p : Platform) where
  pub Keeps-upsert_user :
      (email username avatar : String) → Keeps IsValid (Service.upsert p email username avatar)
  unfolding Service.upsert Repository.upsert
  Keeps-upsert_user email username avatar = search (keeps_rules, Keeps-upsert p)

  pub Keeps-restore_user : (id : Uuid) → Keeps IsValid (Service.restore_user p id)
  unfolding Service.restore_user Repository.restore_user
  Keeps-restore_user id = Keeps-restore p id
