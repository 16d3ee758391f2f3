-- ===== src/Tests/Fixtures.antt =====
-- A platform, rows and worlds to evaluate on.
use tesseract_go_api.Prelude.{
  ℕ, zero, suc, String, Bool, true, false, [], ◌∷◌, Option, none, some, str_eq, if◌then◌else◌, ◌*◌,
}
use tesseract_go_api.Store.{Uuid, Time, seconds, User, RefreshToken, Tables, World}
use tesseract_go_api.Platform.{PasetoToken, Platform}
use tesseract_go_api.Tokens.Manager.{Metadata}
use tesseract_go_api.Auth.Service.{Lifetimes}

abbrev draws : ℕ → String
draws zero = "r0"
draws (suc zero) = "r1"
draws (suc (suc n)) = "r2"

abbrev any_token : PasetoToken
any_token = record {
  issued_at = 0;
  not_before = 0;
  expiration = 900_000_000;
  claims = ("user_id", "1") ∷ ("role", "user") ∷ ("email", "ann@x") ∷ [];
}

-- Hashes are the texts themselves, so that they differ where the texts do.
abbrev pub platform : Platform
platform = record {
  sha256_hex = λ s. s;
  random_hex = draws;
  random_uuid = λ n. n;
  v4_encrypt = λ t. "sealed";
  v4_parse = λ now s. some any_token;
  uuid_string = λ u. "1";
  uuid_parse = λ s. if str_eq s "bad" then none else some 1;
  random_slug = draws;
  random_md5 = draws;
}

abbrev pub ttl : Lifetimes
ttl = record { access_ttl = 600 * seconds; refresh_ttl = 2_592_000 * seconds }

abbrev pub meta : Metadata
meta = record { ip = "ip"; user_agent = "ua"; location = "ip" }

abbrev pub user_row : Uuid → String → String → Option Time → User
user_row id email slug deleted = record {
  id = id;
  username = "name";
  email = email;
  role = "user";
  avatar = "";
  slug = slug;
  created_at = 0;
  updated_at = 0;
  deleted_at = deleted;
}

abbrev pub token_row : Uuid → Uuid → String → Bool → Option Time → Time → RefreshToken
token_row id user hash consumed updated expires = record {
  id = id;
  user_id = user;
  token_hash = hash;
  is_consumed = consumed;
  ip = "ip";
  ua = "ua";
  location = "ip";
  updated_at = updated;
  expires_at = expires;
  created_at = some 0;
}

-- Ann has an open session and a consumed one, Bob an open one; Cid is deleted.
abbrev pub tables : Tables
tables = record {
  users =
      user_row 1 "ann@x" "ann" none
      ∷ user_row 2 "bob@x" "bob" none
      ∷ user_row 3 "cid@x" "ann" (some 5)
      ∷ [];
  tokens =
      token_row 4 1 "a1" false none 1_000_000_000
      ∷ token_row 5 1 "a0" true (some 10) 1_000_000_000
      ∷ token_row 6 2 "b1" false none 1_000_000_000
      ∷ [];
  albums = [];
  next_id = 7;
  draws = 0;
}

abbrev pub at_time : Time → World
at_time now = record {
  db = tables;
  cache = [];
  counters = [];
  pending = [];
  outcomes = [];
  now = now;
  drawn = 0;
}
