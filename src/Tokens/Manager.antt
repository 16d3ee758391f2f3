-- ===== src/Tokens/Manager.antt =====
-- internal/domain/tokens/service.go and model.go: the token manager.
use tesseract_go_api.Prelude.{
  String, ◌+◌, ◌*◌, ◌/◌, ◌∷◌, [], Bool, List, Option, none, some, map, ◌==◌, str_eq, if◌then◌else◌,
}
use tesseract_go_api.Response.{sentinel, plain, no_claims}
use tesseract_go_api.Exec.{Result, ok, err, Exec, return, ◌>>=◌, ◌>>◌}
use tesseract_go_api.Store.{Uuid, Time, seconds, RefreshToken, World, external}
use tesseract_go_api.Platform.{PasetoToken, Platform}
use tesseract_go_api.Tokens.Queries.{CreateRefreshTokenParams}
use tesseract_go_api.Tokens.Repository

-- request.Metadata
pub record Metadata : Type 0 where
  pub ip : String
  pub user_agent : String
  pub location : String

-- types.UserClaims
pub record UserClaims : Type 0 where
  pub user_id : Uuid
  pub email : String
  pub role : String

-- The record that a request without claims reads: the zero value of UserClaims.
abbrev pub zero_claims : UserClaims
zero_claims = record { user_id = 0; email = ""; role = "" }

-- tokens.Session
pub record Session : Type 0 where
  pub id : Uuid
  pub ip : String
  pub ua : String
  pub location : String
  pub created_at : Option Time
  pub is_current : Bool

-- `FromDB`.
abbrev pub from_db : String → RefreshToken → Session
from_db current rt = record {
  id = rt.id;
  ip = rt.ip;
  ua = rt.ua;
  location = rt.location;
  created_at = rt.created_at;
  is_current = str_eq rt.token_hash current;
}

-- `FromDBList`.
unfoldable pub from_db_list : List RefreshToken → String → List Session
from_db_list tokens current = map (from_db current) tokens

-- The parameters of a new token.
abbrev pub token_params : Uuid → String → Time → Metadata → CreateRefreshTokenParams
token_params user_id hash expires_at meta = record {
  user_id = user_id;
  token_hash = hash;
  expires_at = expires_at;
  ip = meta.ip;
  ua = meta.user_agent;
  location = meta.location;
}

-- `CreateRefresh`.
unfoldable pub create_refresh : Uuid → String → Time → Metadata → Exec World Uuid
unfolding Repository.create
create_refresh user_id hash expires_at meta =
    Repository.create (token_params user_id hash expires_at meta)

-- `ReplaceRefresh`.
unfoldable pub replace_refresh : Uuid → String → String → Time → Metadata → Exec World Unit
unfolding Repository.replace_in_transaction
replace_refresh user_id old_hash new_hash expires_at meta =
    Repository.replace_in_transaction old_hash (token_params user_id new_hash expires_at meta)

-- `GetActiveRefreshes`.
unfoldable pub get_active_refreshes : Uuid → String → Exec World (List Session)
unfolding Repository.get_active_for_user from_db_list
get_active_refreshes user_id current = do
  tokens ← Repository.get_active_for_user user_id
  return (from_db_list tokens current)

-- A claim of a token, `GetString`.
abbrev pub get_string : String → List (String × String) → Result String
get_string key [] = err (plain "value for key not present in claims")
get_string key ((k, v) ∷ rest) = if str_eq k key then ok v else get_string key rest

abbrev pub whole_seconds : Time → Time
whole_seconds t = t / seconds * seconds

module _ (p : Platform) where
  -- `GenerateRefreshString`.
  unfoldable pub generate_refresh_string : Exec World String
  unfolding external
  generate_refresh_string = do
    external
    λ w. (ok (p.random_hex w.drawn), record w { drawn = w.drawn + 1 })

  -- The token that `CreateAccess` seals: its times are written in RFC 3339, in whole seconds.
  abbrev pub access_token : Uuid → String → String → Time → Time → PasetoToken
  access_token user_id role email ttl now = record {
    issued_at = whole_seconds now;
    not_before = whole_seconds now;
    expiration = whole_seconds (now + ttl);
    claims = ("user_id", p.uuid_string user_id) ∷ ("role", role) ∷ ("email", email) ∷ [];
  }

  -- `CreateAccess`.
  unfoldable pub create_access : Uuid → String → String → Time → Time → String
  create_access user_id role email ttl now = p.v4_encrypt (access_token user_id role email ttl now)

  abbrev parsed_uuid : String → Result Uuid
  parsed_uuid s = elim (p.uuid_parse s) [ none ↦ err (plain "invalid UUID") | some u ↦ ok u ]

  abbrev checked_role : Uuid → PasetoToken → String → Result UserClaims
  checked_role u token role =
      if str_eq role "" then err (sentinel no_claims) else elim (get_string "email" token.claims) [
        | ok email ↦ ok (record { user_id = u; email = email; role = role })
        | err e ↦ err e
      ]

  abbrev checked_user : PasetoToken → Uuid → Result UserClaims
  checked_user token u =
      if u == 0 then err (sentinel no_claims) else elim (get_string "role" token.claims) [
        | ok role ↦ checked_role u token role
        | err e ↦ err e
      ]

  abbrev read_claims : PasetoToken → Result UserClaims
  read_claims token = elim (get_string "user_id" token.claims) [
    | err e ↦ err e
    | ok s ↦ elim (parsed_uuid s) [ err e ↦ err e | ok u ↦ checked_user token u ]
  ]

  -- `ParseAccess`, at a time.
  unfoldable pub parse_access : Time → String → Result UserClaims
  parse_access now s = elim (p.v4_parse now s) [
    | none ↦ err (plain "token could not be parsed")
    | some token ↦ read_claims token
  ]
