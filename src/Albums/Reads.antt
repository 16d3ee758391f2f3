-- ===== src/Albums/Reads.antt =====
-- The reads of the albums service leave the tables alone.
use tesseract_go_api.Prelude.{ℤ, String, Bool, List, [], ◌∷◌, Option, none, some, arith}
use tesseract_go_api.Exec.{Result, ok, err, Exec}
use tesseract_go_api.Store.{Uuid, Time, Album, Tables, World, query}
use tesseract_go_api.Store.Keeps.{
  Keeps, Keeps-query, Keeps-if, Keeps-return, Keeps_of_same, keeps_rules,
}
use tesseract_go_api.Cursor.{Sealing, encode}
use tesseract_go_api.Cache.Keeps.{cache_rules}
use tesseract_go_api.Albums.Queries.{
  RowKey, get_album, get_album_by_slug, get_album_by_direct_token, get_albums_by_ids,
  list_available_album_ids, list_owned_album_ids, list_trashed_albums,
}
use tesseract_go_api.Albums.Repository
use tesseract_go_api.Albums.Repository.{cached_if}
use tesseract_go_api.Albums.Lists
use tesseract_go_api.Albums.Lists.{Found}
use tesseract_go_api.Albums.Service

module _ {P : Tables → Type 0} where
  by_id : (id user : Uuid) → Keeps P (query (get_album id user))
  by_id id user = Keeps-query _ λ now db h. unfold get_album in h

  by_slug : (user : Uuid) (slug : String) → Keeps P (query (get_album_by_slug user slug))
  by_slug user slug = Keeps-query _ λ now db h. unfold get_album_by_slug in h

  by_token : (token : Uuid) → Keeps P (query (get_album_by_direct_token token))
  by_token token = Keeps-query _ λ now db h. unfold get_album_by_direct_token in h

  by_ids : (ids : List Uuid) → Keeps P (query (get_albums_by_ids ids))
  by_ids ids = Keeps-query _ λ now db h. unfold get_albums_by_ids in h

  -- A cached album that is good, or the database's.
  cached :
      (test : Album → Bool) (fetch : Exec World Album) (r : Result Album)
      → Keeps P fetch
      → Keeps P (cached_if test fetch r)
  cached test fetch (ok a) k = Keeps-if (test a) _ _ (Keeps-return a) k
  cached test fetch (err e) k = k

  fetch_slug : (user : Uuid) (slug : String) → Keeps P (Repository.fetch_by_slug user slug)
  unfolding Repository.fetch_by_slug
  fetch_slug user slug = search (keeps_rules, by_slug)

  fetch_id : (user id : Uuid) → Keeps P (Repository.fetch_by_id user id)
  unfolding Repository.fetch_by_id
  fetch_id user id = search (keeps_rules, by_id)

  fetch_token : (token : Uuid) → Keeps P (Repository.fetch_by_direct_token token)
  unfolding Repository.fetch_by_direct_token
  fetch_token token = search (keeps_rules, by_token)

  cached_slug :
      (user : Uuid) (slug : String) → Keeps P (Repository.get_album_from_cache_by_slug user slug)
  unfolding Repository.get_album_from_cache_by_slug
  cached_slug user slug = search (keeps_rules, cache_rules)

  cached_id : (id : Uuid) → Keeps P (Repository.get_album_from_cache id)
  unfolding Repository.get_album_from_cache
  cached_id id = search (keeps_rules, cache_rules)

  cached_token : (token : Uuid) → Keeps P (Repository.get_album_from_cache_by_direct_token token)
  unfolding Repository.get_album_from_cache_by_direct_token
  cached_token token = search (keeps_rules, cache_rules)

  pub Keeps-get_available :
      (user : Uuid) (slug : String) (viewer : Uuid) (email : String)
      → Keeps P (Service.get_available user slug viewer email)
  unfolding Service.get_available Repository.get_by_slug
  Keeps-get_available user slug viewer email =
      search (keeps_rules, cached_slug, fetch_slug, cached) depth 8

  pub Keeps-get_owned : (user id : Uuid) → Keeps P (Service.get_owned user id)
  unfolding Service.get_owned Repository.get_by_id
  Keeps-get_owned user id = search (keeps_rules, cached_id, fetch_id, cached) depth 8

  pub Keeps-get_by_direct_token : (token : Uuid) → Keeps P (Service.get_by_direct_token token)
  unfolding Service.get_by_direct_token Repository.get_by_direct_token
  Keeps-get_by_direct_token token = search (keeps_rules, cached_token, fetch_token, cached) depth 8

  mget : (ids : List Uuid) → Keeps P (Lists.mget_albums ids)
  unfolding Lists.mget_albums
  mget ids = search keeps_rules

  add_fetched : (fetched : List Album) (albums : Found) → Keeps P (Lists.add_fetched fetched albums)
  unfolding Lists.add_fetched
  add_fetched [] albums = search keeps_rules
  add_fetched (a ∷ fetched) albums = search (keeps_rules, add_fetched fetched)

  fetch_missing : (ids : List Uuid) (albums : Found) → Keeps P (Lists.fetch_missing ids albums)
  fetch_missing [] albums = search keeps_rules
  fetch_missing (id ∷ ids) albums = search (keeps_rules, by_ids, add_fetched)

  hydrate : (ids : List Uuid) → Keeps P (Lists.hydrate ids)
  unfolding Lists.hydrate
  hydrate ids = search (keeps_rules, mget, fetch_missing) depth 8

  module _ (s : Sealing) where
    encoded : (t : Time) (id : String) → Keeps P (encode s t id)
    unfolding encode
    encoded t id = Keeps_of_same _ λ w. ground arith

    text_of : (r : Result String) → Keeps P (Lists.text_or_empty s r)
    text_of (ok text) = search keeps_rules
    text_of (err e) = search keeps_rules

    next_cursor : (end : Option RowKey) → Keeps P (Lists.next_cursor s end)
    next_cursor none = search keeps_rules
    next_cursor (some (t, id)) = search (keeps_rules, encoded, text_of)

    hydrate_list :
        (rows : List RowKey) (limit : ℤ) → Keeps P (Lists.hydrate_albums_list s rows limit)
    unfolding Lists.hydrate_albums_list
    hydrate_list [] limit = search keeps_rules
    hydrate_list (row ∷ rows) limit = search (keeps_rules, next_cursor, hydrate) depth 8

    available_rows :
        (user : Uuid) (email : String) (at : Option RowKey) (limit : ℤ)
        → Keeps P (query (list_available_album_ids user email at limit))
    available_rows user email at limit =
        Keeps-query _ λ now db h. unfold list_available_album_ids in h

    owned_rows :
        (user : Uuid) (at : Option RowKey) (limit : ℤ)
        → Keeps P (query (list_owned_album_ids user at limit))
    owned_rows user at limit = Keeps-query _ λ now db h. unfold list_owned_album_ids in h

    trashed_rows :
        (user : Uuid) (at : Option RowKey) (limit : ℤ)
        → Keeps P (query (list_trashed_albums user at limit))
    trashed_rows user at limit = Keeps-query _ λ now db h. unfold list_trashed_albums in h

    pub Keeps-list_available :
        (per_page : ℤ) (user : Uuid) (email cursor : String) (limit : ℤ)
        → Keeps P (Service.list_available s per_page user email cursor limit)
    unfolding Service.list_available Lists.list_available
    Keeps-list_available per_page user email cursor limit =
        search (keeps_rules, available_rows, hydrate_list) depth 8

    pub Keeps-list_owned :
        (per_page : ℤ) (user : Uuid) (cursor : String) (limit : ℤ)
        → Keeps P (Service.list_owned s per_page user cursor limit)
    unfolding Service.list_owned Lists.list_owned
    Keeps-list_owned per_page user cursor limit =
        search (keeps_rules, owned_rows, hydrate_list) depth 8

    pub Keeps-list_trashed :
        (per_page : ℤ) (user : Uuid) (cursor : String) (limit : ℤ)
        → Keeps P (Service.list_trashed s per_page user cursor limit)
    unfolding Service.list_trashed Lists.list_trashed
    Keeps-list_trashed per_page user cursor limit =
        search (keeps_rules, trashed_rows, next_cursor) depth 8
