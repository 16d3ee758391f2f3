-- ===== src/Tokens/Queries.antt =====
-- internal/platform/database/sqlc/tokens.sql.go: the statements on `refresh_tokens`, with the
-- constraints of migrations/00003_create_refresh_tokens.sql.
use tesseract_go_api.Prelude.{
  ℕ, String, ◌+◌, ◌*◌, ◌∷◌, [], ◌++◌, Bool, true, false, not, ◌&&◌, ◌||◌, List, Option, none, some,
  ltb, ◌==◌, str_eq, if◌then◌else◌, filter, any, find?, count, update,
}
use tesseract_go_api.Response.{no_rows, pg_error}
use tesseract_go_api.Exec.{Result, ok, err}
use tesseract_go_api.Store.{Uuid, Time, seconds, User, RefreshToken, Tables}

pub record CreateRefreshTokenParams : Type 0 where
  pub user_id : Uuid
  pub token_hash : String
  pub expires_at : Time
  pub ip : String
  pub ua : String
  pub location : String

abbrev pub has_hash : String → RefreshToken → Bool
has_hash h t = str_eq t.token_hash h

abbrev pub of_user : Uuid → RefreshToken → Bool
of_user u t = t.user_id == u

-- The row that INSERT writes, with the columns' defaults.
abbrev pub new_token : CreateRefreshTokenParams → Uuid → Time → RefreshToken
new_token arg id now = record {
  id = id;
  user_id = arg.user_id;
  token_hash = arg.token_hash;
  is_consumed = false;
  ip = arg.ip;
  ua = arg.ua;
  location = arg.location;
  updated_at = none;
  expires_at = arg.expires_at;
  created_at = some now;
}

-- CreateRefreshToken. `token_hash` is UNIQUE and `user_id` references a user.
unfoldable pub create_refresh_token :
    CreateRefreshTokenParams → Time → Tables → Result Uuid × Tables
create_refresh_token arg now db =
    if any (has_hash arg.token_hash) db.tokens
    then (err (pg_error "23505" "refresh_tokens_token_hash_key"), db)
    else if any (λ (u : User). u.id == arg.user_id) db.users
    then (
      ok db.next_id,
      record db {
        tokens = db.tokens ++ new_token arg db.next_id now ∷ [];
        next_id = db.next_id + 1;
      },
    )
    else (err (pg_error "23503" "refresh_tokens_user_id_fkey"), db)

abbrev pub one_row {ℓ} : {A : Type ℓ} → Option A → Result A
one_row none = err no_rows
one_row (some a) = ok a

-- GetRefreshTokenByHash.
unfoldable pub get_refresh_token_by_hash : String → Time → Tables → Result RefreshToken × Tables
get_refresh_token_by_hash h now db = (one_row (find? (has_hash h) db.tokens), db)

abbrev pub is_open : String → RefreshToken → Bool
is_open h t = has_hash h t && not t.is_consumed

abbrev pub consume : Time → RefreshToken → RefreshToken
consume now t = record t { is_consumed = true; updated_at = some now }

-- ConsumeRefreshTokenByHash, with the number of rows affected.
unfoldable pub consume_refresh_token_by_hash : String → Time → Tables → Result ℕ × Tables
consume_refresh_token_by_hash h now db = (
  ok (count (is_open h) db.tokens),
  record db { tokens = update (is_open h) (consume now) db.tokens },
)

-- The WHERE clause of GetActiveRefreshTokensForUser.
abbrev pub is_active : Uuid → Time → RefreshToken → Bool
is_active u now t = of_user u t && (not t.is_consumed && ltb now t.expires_at)

-- `created_at DESC`: NULL stands first.
abbrev pub created_before : RefreshToken → RefreshToken → Bool
created_before a b = elim b.created_at [
  | none ↦ elim a.created_at [ none ↦ false | some _ ↦ true ]
  | some at_b ↦ elim a.created_at [ none ↦ false | some at_a ↦ ltb at_a at_b ]
]

unfoldable pub insert_newest : RefreshToken → List RefreshToken → List RefreshToken
insert_newest t [] = t ∷ []
insert_newest t (x ∷ xs) = if created_before t x then x ∷ insert_newest t xs else t ∷ x ∷ xs

unfoldable pub newest_first : List RefreshToken → List RefreshToken
unfolding insert_newest
newest_first [] = []
newest_first (x ∷ xs) = insert_newest x (newest_first xs)

-- GetActiveRefreshTokensForUser.
unfoldable pub get_active_refresh_tokens_for_user :
    Uuid → Time → Tables → Result (List RefreshToken) × Tables
get_active_refresh_tokens_for_user u now db =
    (ok (newest_first (filter (is_active u now) db.tokens)), db)

abbrev pub is_session : Uuid → Uuid → RefreshToken → Bool
is_session id u t = t.id == id && of_user u t

abbrev pub returning_hash : Option RefreshToken → Result String
returning_hash none = err no_rows
returning_hash (some t) = ok t.token_hash

-- DeleteRefreshTokenByID.
unfoldable pub delete_refresh_token_by_id : Uuid → Uuid → Time → Tables → Result String × Tables
delete_refresh_token_by_id id u now db = (
  returning_hash (find? (is_session id u) db.tokens),
  record db { tokens = filter (λ t. not (is_session id u t)) db.tokens },
)

abbrev pub is_other : Uuid → String → RefreshToken → Bool
is_other u h t = of_user u t && not (has_hash h t)

-- DeleteOtherRefreshTokensForUser.
unfoldable pub delete_other_refresh_tokens_for_user :
    Uuid → String → Time → Tables → Result (Unit {0}) × Tables
delete_other_refresh_tokens_for_user u h now db =
    (ok tt, record db { tokens = filter (λ t. not (is_other u h t)) db.tokens })

-- DeleteAllRefreshTokensForUser.
unfoldable pub delete_all_refresh_tokens_for_user :
    Uuid → Time → Tables → Result (Unit {0}) × Tables
delete_all_refresh_tokens_for_user u now db =
    (ok tt, record db { tokens = filter (λ t. not (of_user u t)) db.tokens })

abbrev pub retention : Time
retention = 86400 * seconds

-- The WHERE clause of CleanupRefreshTokens; a comparison with NULL is not true.
abbrev pub is_stale : Time → RefreshToken → Bool
is_stale now t =
    ltb t.expires_at now
    || (t.is_consumed && elim t.updated_at [ none ↦ false | some at ↦ ltb (at + retention) now ])

-- CleanupRefreshTokens.
unfoldable pub cleanup_refresh_tokens : Time → Tables → Result (Unit {0}) × Tables
cleanup_refresh_tokens now db =
    (ok tt, record db { tokens = filter (λ t. not (is_stale now t)) db.tokens })
