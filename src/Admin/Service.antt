-- ===== src/Admin/Service.antt =====
-- internal/domain/admin/service.go: an administrator's actions on other users.
use tesseract_go_api.Prelude.{String, ◌==◌, if◌then◌else◌}
use tesseract_go_api.Response.{Error, sentinel, wrapped, no_permission, user_not_found, is_no_rows}
use tesseract_go_api.Exec.{Exec, throw, catch, ◌>>=◌}
use tesseract_go_api.Store.{Uuid, World}
use tesseract_go_api.Platform.{Platform}
use tesseract_go_api.Users.Service as Users

abbrev admin_error : Error → Error
admin_error e = if is_no_rows e then wrapped user_not_found e else e

-- `PurgeUser`.
unfoldable pub purge_user : Uuid → Uuid → Exec World Uuid
unfolding ◌>>=◌ Users.purge_user
purge_user target admin =
    if admin == target
    then throw (sentinel no_permission)
    else catch (Users.purge_user target) λ e. throw (admin_error e)

-- `RestoreUser`.
unfoldable pub restore_user : Platform → Uuid → Uuid → Exec World (Uuid × String)
unfolding ◌>>=◌ Users.restore_user
restore_user p target admin =
    if admin == target
    then throw (sentinel no_permission)
    else catch (Users.restore_user p target) λ e. throw (admin_error e)
