-- ===== src/Albums/Service.antt =====
-- internal/domain/albums/service.go.
use tesseract_go_api.Prelude.{
  ℤ, pos, String, Bool, not, List, none, some, ◌+◌, ◌&&◌, ◌||◌, ◌==◌, int_leb, to_int32, str_eq,
  if◌then◌else◌,
}
use tesseract_go_api.Response.{
  Error, sentinel, wrapped, album_not_found, album_slug_exists, no_permission, is_no_rows,
  is_pg_error, text,
}
use tesseract_go_api.Exec.{ok, Exec, return, throw, catch, ◌>>=◌, ◌>>◌}
use tesseract_go_api.Store.{Uuid, Album, World}
use tesseract_go_api.Platform.{Platform}
use tesseract_go_api.Cursor.{Sealing}
use tesseract_go_api.Albums.Access.{can_access}
use tesseract_go_api.Albums.Queries.{AlbumFields}
use tesseract_go_api.Albums.Repository
use tesseract_go_api.Albums.Lists

abbrev pub not_found_error : Error → Error
not_found_error e = if is_no_rows e then wrapped album_not_found e else e

-- `isOwner`.
abbrev pub is_owner : Uuid → Album → Bool
is_owner viewer_id a = not (viewer_id == 0) && viewer_id == a.user_id

-- Whether `GetAvailable` refuses the album.
abbrev pub is_hidden : Uuid → String → Album → Bool
is_hidden viewer_id viewer_email a =
    not a.is_active && not (is_owner viewer_id a)
    || not (can_access a.access a.shared_emails viewer_email (is_owner viewer_id a))

-- `GetAvailable`.
unfoldable pub get_available : Uuid → String → Uuid → String → Exec World Album
unfolding ◌>>=◌ can_access
get_available user_id album_slug viewer_id viewer_email = do
  a ← catch (Repository.get_by_slug user_id album_slug) λ e. throw (not_found_error e)
  if is_hidden viewer_id viewer_email a then throw (sentinel album_not_found) else return a

-- `GetOwned`.
unfoldable pub get_owned : Uuid → Uuid → Exec World Album
unfolding ◌>>=◌
get_owned user_id album_id = do
  a ← catch (Repository.get_by_id user_id album_id) λ e. throw (not_found_error e)
  if a.user_id == user_id then return a else throw (sentinel album_not_found)

abbrev pub direct_token_error : Error → Error
direct_token_error e =
    if is_no_rows e || str_eq (text e) "album_not_found" then wrapped album_not_found e else e

-- `GetByDirectToken`.
unfoldable pub get_by_direct_token : Uuid → Exec World Album
unfolding ◌>>=◌
get_by_direct_token token = do
  a ← catch (Repository.get_by_direct_token token) λ e. throw (direct_token_error e)
  if a.is_active then return a else throw (sentinel album_not_found)

-- A limit outside of the range becomes the page length.
abbrev pub clamp : ℤ → ℤ → ℤ
clamp albums_per_page limit =
    if int_leb limit (pos 0) || not (int_leb limit albums_per_page) then albums_per_page else limit

-- The errors that `Create` and `Update` translate.
abbrev pub write_error : Error → Error
write_error e =
    if is_no_rows e
    then wrapped no_permission e
    else if is_pg_error "23505" "idx_albums_user_slug_active" e
    then wrapped album_slug_exists e
    else e

abbrev pub permission_error : Error → Error
permission_error e = if is_no_rows e then wrapped no_permission e else e

-- `Create`.
unfoldable pub create : Uuid → AlbumFields → Exec World Album
unfolding ◌>>=◌
create user_id req = catch (Repository.create user_id req) λ e. throw (write_error e)

-- `Update`.
unfoldable pub update : Uuid → Uuid → AlbumFields → Exec World Album
unfolding ◌>>=◌
update user_id album_id req =
    catch (Repository.update user_id album_id req) λ e. throw (write_error e)

-- `RevokeDirectToken`.
unfoldable pub revoke_direct_token : Uuid → Uuid → Exec World Unit
unfolding ◌>>=◌
revoke_direct_token user_id album_id = do
  catch (Repository.update_direct_token user_id album_id none) λ e. throw (permission_error e)
  return tt

-- `ToggleActive`.
unfoldable pub toggle_active : Uuid → Uuid → Bool → Exec World Uuid
unfolding ◌>>=◌
toggle_active user_id album_id is_active =
    catch (Repository.toggle_active user_id album_id is_active) λ e. throw (permission_error e)

-- `Delete`.
unfoldable pub delete : Uuid → Uuid → Exec World Uuid
unfolding ◌>>=◌
delete user_id album_id = catch (Repository.delete user_id album_id) λ e. throw (permission_error e)

-- `Purge`.
unfoldable pub purge : Uuid → Uuid → Exec World Uuid
unfolding ◌>>=◌
purge user_id album_id = catch (Repository.purge user_id album_id) λ e. throw (permission_error e)

-- `uuid.New()`.
unfoldable pub new_uuid : Platform → Exec World Uuid
unfolding ◌>>=◌
new_uuid p = λ w. (ok (p.random_uuid w.drawn), record w { drawn = w.drawn + 1 })

module _ (p : Platform) where
  -- `GenerateDirectToken`.
  unfoldable pub generate_direct_token : Uuid → Uuid → Exec World Uuid
  unfolding ◌>>=◌ new_uuid
  generate_direct_token user_id album_id = do
    token ← new_uuid p
    catch (Repository.update_direct_token user_id album_id (some token))
        λ e. throw (permission_error e)
    return token

  -- `Restore`.
  unfoldable pub restore : Uuid → Uuid → Exec World Uuid
  unfolding ◌>>=◌
  restore user_id album_id =
      catch (Repository.restore p user_id album_id) λ e. throw (permission_error e)

module _ (s : Sealing) (albums_per_page : ℤ) where
  abbrev page_limit : ℤ → ℤ
  page_limit limit = to_int32 (clamp albums_per_page limit)

  -- `ListAvailable`.
  unfoldable pub list_available : Uuid → String → String → ℤ → Exec World (List Album × String)
  unfolding Lists.list_available
  list_available user_id viewer_email cursor limit =
      Lists.list_available s user_id viewer_email cursor (page_limit limit)

  -- `ListOwned`.
  unfoldable pub list_owned : Uuid → String → ℤ → Exec World (List Album × String)
  unfolding Lists.list_owned
  list_owned user_id cursor limit = Lists.list_owned s user_id cursor (page_limit limit)

  -- `ListTrashed`.
  unfoldable pub list_trashed : Uuid → String → ℤ → Exec World (List Album × String)
  unfolding Lists.list_trashed
  list_trashed user_id cursor limit = Lists.list_trashed s user_id cursor (page_limit limit)
