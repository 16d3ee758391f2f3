-- ===== src/Store.antt =====
-- The state that the program works on: the PostgreSQL tables (sqlc/models.go, migrations), the Redis
-- cache and counters, the background goroutines that have not run yet, the clock, and the outcomes that the
-- environment has in store for the coming database and Redis calls.
pub mod Keeps
pub mod Inversion
pub mod Valid
use tesseract_go_api.Prelude.{ℕ, String, Bool, List, [], ◌∷◌, ◌++◌, Option, none, some, ℤ}
use tesseract_go_api.Response.{plain}
use tesseract_go_api.Exec.{Result, ok, err, Exec, ◌>>=◌, ◌>>◌}
use tesseract_go_api.RateLimit.{Counters}

-- A UUID is its 128-bit value; `uuid.Nil` is zero.
abbrev pub Uuid : Type 0
Uuid = ℕ

-- Times in microseconds, the resolution of TIMESTAMPTZ.
abbrev pub Time : Type 0
Time = ℕ

abbrev pub seconds : ℕ
seconds = 1_000_000

pub record User : Type 0 where
  pub id : Uuid
  pub username : String
  pub email : String
  pub role : String
  pub avatar : String
  pub slug : String
  pub created_at : Time
  pub updated_at : Time
  pub deleted_at : Option Time

pub record RefreshToken : Type 0 where
  pub id : Uuid
  pub user_id : Uuid
  pub token_hash : String
  pub is_consumed : Bool
  pub ip : String
  pub ua : String
  pub location : String
  pub updated_at : Option Time
  pub expires_at : Time
  pub created_at : Option Time

-- shared/types/atlas.go
pub record AtlasItemMeta : Type 0 where
  pub width : ℤ
  pub height : ℤ
  pub title : String

pub record AtlasItem : Type 0 where
  pub item_type : String
  pub src : String
  pub meta : AtlasItemMeta

pub record Album : Type 0 where
  pub id : Uuid
  pub title : String
  pub cover : String
  pub date_at : Time
  pub atlas : List AtlasItem
  pub access : String
  pub shared_emails : List String
  pub direct_token : Option Uuid
  pub slug : String
  pub is_active : Bool
  pub user_id : Uuid
  pub created_at : Time
  pub updated_at : Time
  pub deleted_at : Option Time

-- The tables; `next_id` is what `uuidv7()` gives next, `draws` counts the uses of `random()` and
-- `gen_random_uuid()`.
pub record Tables : Type 0 where
  pub users : List User
  pub tokens : List RefreshToken
  pub albums : List Album
  pub next_id : ℕ
  pub draws : ℕ

-- Redis keys, by their prefix: `c:u:`, `c:u_m:`, `c:a:`, `c:a_m:` and `c:a_dtm:`. The prefixes and
-- the fixed length of a UUID's text keep the keys apart.
pub data Key : Type 0 where
  user_entity : Uuid → Key
  user_mapper : String → Key
  album_entity : Uuid → Key
  album_mapper : Uuid → String → Key
  direct_mapper : Uuid → Key

-- What a key holds: the JSON of an entity, or the text of an id.
pub data CacheValue : Type 0 where
  user_json : User → CacheValue
  album_json : Album → CacheValue
  id_text : Uuid → CacheValue

abbrev pub Cache : Type 0
Cache = List (Key × CacheValue)

-- The bodies of the goroutines that the repositories start.
pub data Task : Type 0 where
  -- `setUserToCache`
  set_user : User → Task
  -- of `Update`: the user and its slug before
  refresh_user : User → String → Task
  -- `invalidateUserCache`
  drop_user : Uuid → Task
  -- `setAlbumToCache`
  set_album : Album → Task
  -- of `Update`: the album and its slug before
  refresh_album : Album → String → Task
  -- `invalidateAlbumCache`
  drop_album : Album → Task

-- `outcomes` says how the coming external calls end: `none` is a success, `some text` an error with
-- this text that leaves everything as it was; when the list is over, all calls succeed.
pub record World : Type 0 where
  pub db : Tables
  pub cache : Cache
  pub counters : Counters
  pub pending : List Task
  pub outcomes : List (Option String)
  pub now : Time
  pub drawn : ℕ

abbrev outcome : List (Option String) → Exec World Unit
outcome [] w = (ok tt, w)
outcome (none ∷ rest) w = (ok tt, record w { outcomes = rest })
outcome (some text ∷ rest) w = (err (plain text), record w { outcomes = rest })

-- One call over the network, which may fail.
unfoldable pub external : Exec World Unit
unfolding ◌>>=◌
external w = outcome w.outcomes w

-- Runs a statement: its result, and the tables after it. `NOW()` is the world's clock.
unfoldable pub query : {A : Type 0} → (Time → Tables → Result A × Tables) → Exec World A
unfolding external
query q = do external; λ w. let (r, db) = q w.now w.db in (r, record w { db = db })

-- `go func() { … }()`.
unfoldable pub spawn : Task → Exec World Unit
unfolding ◌>>=◌
spawn task w = (ok tt, record w { pending = w.pending ++ task ∷ [] })

-- The end of a transaction that began with the tables `before`: `Commit` after a success, whose
-- failure leaves nothing written, and the deferred `Rollback` after an error.
pub settle : {A : Type 0} → Tables → Result A → Exec World A
unfolding external
settle before (err e) w = (err e, record w { db = before })
settle before (ok a) w =
    let (committed, w') = external w in
    elim committed [ ok _ ↦ (ok a, w') | err e ↦ (err e, record w' { db = before }) ]

-- `pool.Begin`, the body, and `tx.Commit` or `tx.Rollback`.
unfoldable pub transaction : {A : Type 0} → Exec World A → Exec World A
unfolding external settle
transaction body = do external; λ w. let (r, w') = body w in settle w.db r w'
