-- ===== src/Platform.antt =====
-- What the program takes from libraries that are not part of the repository, or from randomness:
-- SHA-256 with hexadecimal digits, the random generator, PASETO v4.local (aidanwoods.dev/go-paseto)
-- and the text of UUIDs (google/uuid). The development assumes nothing of them beyond the
-- hypotheses that a theorem names.
use tesseract_go_api.Prelude.{ℕ, String, List, Option}
use tesseract_go_api.Store.{Uuid, Time}

-- A PASETO token: its registered times and its string claims.
pub record PasetoToken : Type 0 where
  pub issued_at : Time
  pub not_before : Time
  pub expiration : Time
  pub claims : List (String × String)

pub record Platform : Type 0 where
  -- `hex.EncodeToString(sha256.Sum256(…))`
  pub sha256_hex : String → String
  -- `hex.EncodeToString` of the bytes of the n-th read of `crypto/rand`
  pub random_hex : ℕ → String
  -- `uuid.New`, at the n-th read
  pub random_uuid : ℕ → Uuid
  -- `Token.V4Encrypt` under the manager's key
  pub v4_encrypt : PasetoToken → String
  -- `Parser.ParseV4Local` at a time: the parser's default rule refuses an expired token
  pub v4_parse : Time → String → Option PasetoToken
  -- `UUID.String`, `uuid.Parse`
  pub uuid_string : Uuid → String
  pub uuid_parse : String → Option Uuid
  -- the text of the n-th `gen_random_uuid()` of the database
  pub random_slug : ℕ → String
  -- `md5(random()::text)` of the database at the n-th draw
  pub random_md5 : ℕ → String
