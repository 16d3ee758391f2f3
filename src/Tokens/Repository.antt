-- ===== src/Tokens/Repository.antt =====
-- internal/domain/tokens/repository.go.
use tesseract_go_api.Prelude.{String, List, ◌==◌, if◌then◌else◌}
use tesseract_go_api.Response.{sentinel, bad_uuid, token_consumed, is_no_rows}
use tesseract_go_api.Exec.{Exec, return, throw, catch, ◌>>=◌, ◌>>◌}
use tesseract_go_api.Store.{Uuid, RefreshToken, World, query, transaction}
use tesseract_go_api.Tokens.Queries.{
  CreateRefreshTokenParams, create_refresh_token, get_refresh_token_by_hash,
  consume_refresh_token_by_hash, get_active_refresh_tokens_for_user, delete_refresh_token_by_id,
  delete_other_refresh_tokens_for_user, delete_all_refresh_tokens_for_user, cleanup_refresh_tokens,
}

-- `Create`.
unfoldable pub create : CreateRefreshTokenParams → Exec World Uuid
unfolding query create_refresh_token
create arg = query (create_refresh_token arg)

-- `GetByHash`.
unfoldable pub get_by_hash : String → Exec World RefreshToken
unfolding query get_refresh_token_by_hash
get_by_hash h = query (get_refresh_token_by_hash h)

-- `ConsumeByHash`: the number of rows is dropped.
unfoldable pub consume_by_hash : String → Exec World Unit
unfolding query consume_refresh_token_by_hash
consume_by_hash h = query (consume_refresh_token_by_hash h) >> return tt

-- `GetActiveForUser`.
unfoldable pub get_active_for_user : Uuid → Exec World (List RefreshToken)
unfolding query get_active_refresh_tokens_for_user
get_active_for_user u = query (get_active_refresh_tokens_for_user u)

-- `DeleteByIDAndUser`.
unfoldable pub delete_by_id_and_user : Uuid → Uuid → Exec World String
unfolding query delete_refresh_token_by_id
delete_by_id_and_user id u =
    catch (query (delete_refresh_token_by_id id u))
      λ e. if is_no_rows e then throw (sentinel bad_uuid) else throw e

-- `DeleteOtherForUser`.
unfoldable pub delete_other_for_user : Uuid → String → Exec World Unit
unfolding query delete_other_refresh_tokens_for_user
delete_other_for_user u h = query (delete_other_refresh_tokens_for_user u h)

-- `DeleteAllRefreshForUser`.
unfoldable pub delete_all_refresh_for_user : Uuid → Exec World Unit
unfolding query delete_all_refresh_tokens_for_user
delete_all_refresh_for_user u = query (delete_all_refresh_tokens_for_user u)

-- `Cleanup`.
unfoldable pub cleanup : Exec World Unit
unfolding query cleanup_refresh_tokens
cleanup = query cleanup_refresh_tokens

-- The body of the transaction of `ReplaceInTransaction`.
unfoldable pub replace_body : String → CreateRefreshTokenParams → Exec World Unit
unfolding query consume_refresh_token_by_hash create_refresh_token
replace_body old_hash arg = do
  affected ← query (consume_refresh_token_by_hash old_hash)
  if affected == 0
      then throw (sentinel token_consumed)
      else (query (create_refresh_token arg) >> return tt)

-- `ReplaceInTransaction`; `arg` holds the new token.
unfoldable pub replace_in_transaction : String → CreateRefreshTokenParams → Exec World Unit
unfolding transaction replace_body
replace_in_transaction old_hash arg = transaction (replace_body old_hash arg)
