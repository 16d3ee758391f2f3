-- ===== src/Albums/Lists.antt =====
-- internal/domain/albums/repository.go: the pages of albums.
use tesseract_go_api.Prelude.{
  ℤ, pos, negsuc, String, Bool, true, List, [], ◌∷◌, Option, none, some, ◌==◌, int_eq, increment,
  to_int32, length, take, filter, if◌then◌else◌,
}
use tesseract_go_api.Response.{wrapped, panic, invalid_cursor}
use tesseract_go_api.Exec.{
  Result, ok, err, Exec, return, throw, lift, gets, catch, try, ◌>>=◌, ◌>>◌,
}
use tesseract_go_api.Store.{
  Uuid, Album, CacheValue, Cache, album_json, album_entity, set_album, World, external, query,
  spawn,
}
use tesseract_go_api.Cursor.{Sealing, encode, parse}
use tesseract_go_api.Cache.Laws.{lookup}
use tesseract_go_api.Albums.Queries.{
  RowKey, list_available_album_ids, list_owned_album_ids, list_trashed_albums, get_albums_by_ids,
  deletion_key,
}

-- `limit + 1`, in 32 bits.
abbrev pub fetch_limit : ℤ → ℤ
fetch_limit limit = to_int32 (increment limit)

module _ {A : Type 0} where
  abbrev pub last : List A → Option A
  last [] = none
  last (x ∷ []) = some x
  last (x ∷ y ∷ ys) = last (y ∷ ys)

  abbrev with_last : List A → Option A → Result (List A × Option A)
  with_last page none = err panic
  with_last page (some x) = ok (page, some x)

  abbrev cut : ℤ → List A → Result (List A × Option A)
  cut (pos n) rows = with_last (take n rows) (last (take n rows))
  cut (negsuc n) rows = err panic

  -- The rows of the page, and its last one where a next page is there: the statement was asked for
  -- one row more than the page has.
  unfoldable pub paginate : ℤ → List A → Result (List A × Option A)
  unfolding to_int32
  paginate limit rows =
      if int_eq (pos (length rows)) (fetch_limit limit) then cut limit rows else ok (rows, none)

-- The map from ids to albums, newest entry first.
abbrev pub Found : Type 0
Found = List (Uuid × Album)

abbrev pub found : Uuid → Found → Option Album
found id [] = none
found id ((key, a) ∷ rest) = if key == id then some a else found id rest

abbrev add_cached : Uuid → Option CacheValue → Found → Found
add_cached id (some (album_json a)) rest = (id, a) ∷ rest
add_cached id _ rest = rest

-- `MGetItems`: keys without an album are left out.
abbrev pub cached_albums : List Uuid → Cache → Found
cached_albums [] c = []
cached_albums (id ∷ ids) c = add_cached id (lookup (album_entity id) c) (cached_albums ids c)

-- The call of `MGetItems`, whose error is dropped.
unfoldable pub mget_albums : List Uuid → Exec World Found
unfolding external lookup
mget_albums ids = catch (do external; gets λ w. cached_albums ids w.cache) λ _. return []

-- `albumsArray[row.ID].ID == uuid.Nil`: an absent entry reads as the zero album.
abbrev is_nil : Option Album → Bool
is_nil none = true
is_nil (some a) = a.id == 0

abbrev pub missing_ids : List Uuid → Found → List Uuid
missing_ids ids albums = filter (λ id. is_nil (found id albums)) ids

unfoldable pub add_fetched : List Album → Found → Exec World Found
unfolding spawn
add_fetched [] albums = return albums
add_fetched (a ∷ fetched) albums = do spawn (set_album a); add_fetched fetched ((a.id, a) ∷ albums)

abbrev pub fetch_missing : List Uuid → Found → Exec World Found
fetch_missing [] albums = return albums
fetch_missing (id ∷ ids) albums = do
  fetched ← query (get_albums_by_ids (id ∷ ids))
  add_fetched fetched albums

abbrev pub add_found : Option Album → List Album → List Album
add_found none rest = rest
add_found (some a) rest = a ∷ rest

-- The albums in the order of the rows.
abbrev pub in_order : List Uuid → Found → List Album
in_order [] albums = []
in_order (id ∷ ids) albums = add_found (found id albums) (in_order ids albums)

abbrev pub row_ids : List RowKey → List Uuid
row_ids [] = []
row_ids ((t, id) ∷ rows) = id ∷ row_ids rows

-- The albums with these ids, from the cache and else from the database.
unfoldable pub hydrate : List Uuid → Exec World (List Album)
unfolding mget_albums add_fetched query get_albums_by_ids
hydrate ids = do
  cached ← mget_albums ids
  albums ← fetch_missing (missing_ids ids cached) cached
  return (in_order ids albums)

abbrev pub deletion_end : Option Album → Option RowKey
deletion_end none = none
deletion_end (some a) = some (deletion_key a)

module _ (s : Sealing) where
  abbrev pub text_or_empty : Result String → Exec World String
  text_or_empty (ok text) = return text
  text_or_empty (err e) = return ""

  -- The cursor to the row, or none; an error of `Encode` is dropped.
  abbrev pub next_cursor : Option RowKey → Exec World String
  next_cursor none = return ""
  next_cursor (some (t, id)) = try (encode s t (s.format_id id)) >>= text_or_empty

  abbrev hydrate_page : List RowKey × Option RowKey → Exec World (List Album × String)
  hydrate_page (page, end) = do
    cursor ← next_cursor end
    albums ← hydrate (row_ids page)
    return (albums, cursor)

  -- `hydrateAlbumsList`.
  unfoldable pub hydrate_albums_list : List RowKey → ℤ → Exec World (List Album × String)
  unfolding paginate encode hydrate
  hydrate_albums_list [] limit = return ([], "")
  hydrate_albums_list (row ∷ rows) limit = lift (paginate limit (row ∷ rows)) >>= hydrate_page

  abbrev pub parse_cursor : String → Exec World (Option RowKey)
  parse_cursor cursor = catch (lift (parse s cursor)) λ e. throw (wrapped invalid_cursor e)

  -- `ListAvailable`.
  unfoldable pub list_available : Uuid → String → String → ℤ → Exec World (List Album × String)
  list_available user_id viewer_email cursor limit = do
    position ← parse_cursor cursor
    rows ← query (list_available_album_ids user_id viewer_email position (fetch_limit limit))
    hydrate_albums_list rows limit

  -- `ListOwned`.
  unfoldable pub list_owned : Uuid → String → ℤ → Exec World (List Album × String)
  list_owned user_id cursor limit = do
    position ← parse_cursor cursor
    rows ← query (list_owned_album_ids user_id position (fetch_limit limit))
    hydrate_albums_list rows limit

  abbrev pub trashed_page : List Album × Option Album → Exec World (List Album × String)
  trashed_page (page, end) = do cursor ← next_cursor (deletion_end end); return (page, cursor)

  -- `ListTrashed`.
  unfoldable pub list_trashed : Uuid → String → ℤ → Exec World (List Album × String)
  list_trashed user_id cursor limit = do
    position ← parse_cursor cursor
    rows ← query (list_trashed_albums user_id position (fetch_limit limit))
    (lift (paginate limit rows)) >>= trashed_page
