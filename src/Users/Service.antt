-- ===== src/Users/Service.antt =====
-- internal/domain/users/service.go.
use tesseract_go_api.Prelude.{String, if◌then◌else◌}
use tesseract_go_api.Response.{
  Error, wrapped, user_not_found, user_slug_exists, no_permission, is_no_rows, is_pg_error,
}
use tesseract_go_api.Exec.{Exec, return, throw, catch, drop_result, ◌>>=◌, ◌>>◌}
use tesseract_go_api.Store.{Uuid, User, World}
use tesseract_go_api.Platform.{Platform}
use tesseract_go_api.Tokens.Repository.{delete_all_refresh_for_user}
use tesseract_go_api.Users.Repository
use tesseract_go_api.Users.Repository.{UpdateRequest}

-- `GetAvailable`.
unfoldable pub get_available : Uuid → Exec World User
unfolding Repository.get_available
get_available id = catch (Repository.get_available id) λ e. throw (wrapped user_not_found e)

-- `GetAvailableBySlug`.
unfoldable pub get_available_by_slug : String → Exec World User
unfolding Repository.get_available_by_slug
get_available_by_slug slug =
    catch (Repository.get_available_by_slug slug) λ e. throw (wrapped user_not_found e)

-- `Create`.
unfoldable pub create : String → String → String → String → String → Exec World User
unfolding Repository.create
create email username slug avatar role = Repository.create email username slug avatar role

-- The errors that `Update` translates.
abbrev pub update_error : Error → Error
update_error e =
    if is_no_rows e
    then wrapped user_not_found e
    else if is_pg_error "23505" "idx_users_slug_active" e
    then wrapped user_slug_exists e
    else e

-- `Update`.
unfoldable pub update : Uuid → UpdateRequest → Exec World User
unfolding Repository.update
update id req = catch (Repository.update id req) λ e. throw (update_error e)

-- `Delete`: the error of the deletion of the tokens is dropped.
unfoldable pub delete : Uuid → Exec World Uuid
unfolding Repository.delete delete_all_refresh_for_user
delete id = do
  deleted ←
      catch (Repository.delete id) λ e. throw (if is_no_rows e then wrapped no_permission e else e)
  drop_result (delete_all_refresh_for_user deleted)
  return deleted

-- `PurgeUser`.
unfoldable pub purge_user : Uuid → Exec World Uuid
unfolding Repository.purge_user
purge_user id = Repository.purge_user id

module _ (p : Platform) where
  -- `Upsert`.
  unfoldable pub upsert : String → String → String → Exec World User
  unfolding Repository.upsert
  upsert email username avatar = Repository.upsert p email username avatar

  -- `RestoreUser`.
  unfoldable pub restore_user : Uuid → Exec World (Uuid × String)
  unfolding Repository.restore_user
  restore_user id = Repository.restore_user p id
