-- ===== src/Store/Valid.antt =====
-- The integrity of the tables: the primary keys, the unique indexes and the foreign key of the
-- migrations, and that a consumed token has the time of its consumption.
use tesseract_go_api.Prelude.{
  ℕ, ◌<◌, ◌≡◌, ◌≢◌, Bool, true, ◌&&◌, List, none, ◌==◌, str_eq, is_none, All, any, IsUnique,
}
use tesseract_go_api.Store.{Tables, User, RefreshToken}

abbrev pub same_user_id : User → User → Bool
same_user_id a b = a.id == b.id

abbrev pub same_email : User → User → Bool
same_email a b = str_eq a.email b.email

-- Two rows of the partial index on slugs.
abbrev pub same_slug : User → User → Bool
same_slug a b = (is_none a.deleted_at && is_none b.deleted_at) && str_eq a.slug b.slug

abbrev pub same_token_id : RefreshToken → RefreshToken → Bool
same_token_id a b = a.id == b.id

abbrev pub same_hash : RefreshToken → RefreshToken → Bool
same_hash a b = str_eq a.token_hash b.token_hash

-- A consumed token is stamped.
abbrev pub IsStamped : RefreshToken → Type 0
IsStamped t = t.is_consumed ≡ true → t.updated_at ≢ none

pub record UsersValid (users : List User) (next : ℕ) : Type 0 where
  pub ids : IsUnique same_user_id users
  pub below : All (λ (u : User). u.id < next) users
  pub emails : IsUnique same_email users
  pub slugs : IsUnique same_slug users

pub record TokensValid (tokens : List RefreshToken) (users : List User) (next : ℕ) : Type 0 where
  pub ids : IsUnique same_token_id tokens
  pub below : All (λ (t : RefreshToken). t.id < next) tokens
  pub hashes : IsUnique same_hash tokens
  pub owners : All (λ (t : RefreshToken). any (λ (u : User). u.id == t.user_id) users ≡ true) tokens
  pub stamped : All IsStamped tokens

-- The integrity of users and tokens.
pub record IsValid (db : Tables) : Type 0 where
  pub users_valid : UsersValid db.users db.next_id
  pub tokens_valid : TokensValid db.tokens db.users db.next_id
