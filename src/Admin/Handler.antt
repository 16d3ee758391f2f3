-- ===== src/Admin/Handler.antt =====
-- internal/domain/admin/handler.go.
use tesseract_go_api.Response.{
  sentinel, wrapped, plain, no_claims, bad_uuid, user_deleted, user_restored,
}
use tesseract_go_api.Exec.{◌>>=◌, ◌>>◌}
use tesseract_go_api.Platform.{Platform}
use tesseract_go_api.Http.{Request, Handler, call, require, write_success}
use tesseract_go_api.Admin.Service

module _ (p : Platform) where
  -- `PurgeUser`.
  unfoldable pub purge_user : Request Unit → Handler Unit
  unfolding ◌>>=◌ write_success
  purge_user r = do
    id ← require (p.uuid_parse (r.url_param "uuid")) (wrapped bad_uuid (plain "invalid UUID"))
    claims ← require r.claims (sentinel no_claims)
    call (Service.purge_user id claims.user_id)
    write_success user_deleted

  -- `RestoreUser`.
  unfoldable pub restore_user : Request Unit → Handler Unit
  unfolding ◌>>=◌ write_success
  restore_user r = do
    id ← require (p.uuid_parse (r.url_param "uuid")) (wrapped bad_uuid (plain "invalid UUID"))
    claims ← require r.claims (sentinel no_claims)
    call (Service.restore_user p id claims.user_id)
    write_success user_restored
