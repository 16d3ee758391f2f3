-- ===== src/RateLimit/Rules.antt =====
-- internal/platform/ratelimit/rules.go, and `Allow` as a call to the Redis of the world.
use tesseract_go_api.Prelude.{ℕ, String, none, ◌/◌}
use tesseract_go_api.Exec.{Result, Exec, ◌>>◌}
use tesseract_go_api.Store.{World, external}
use tesseract_go_api.RateLimit.{Counters, RateLimitResult, allow}

-- The window in seconds.
pub record Rule : Type 0 where
  pub key : String
  pub limit : ℕ
  pub window : ℕ

abbrev pub rule_auth : Rule
rule_auth = record { key = "auth"; limit = 10; window = 60 }

abbrev pub rule_modify : Rule
rule_modify = record { key = "modify"; limit = 20; window = 60 }

abbrev pub rule_get : Rule
rule_get = record { key = "get"; limit = 100; window = 60 }

abbrev pub rule_refresh : Rule
rule_refresh = record { key = "refresh"; limit = 5; window = 60 }

abbrev pub rule_admin : Rule
rule_admin = record { key = "admin"; limit = 42; window = 60 }

-- The clock of Redis counts milliseconds.
abbrev pub milliseconds : World → ℕ
milliseconds w = w.now / 1000

abbrev pub counted : Result RateLimitResult × Counters → World → Result RateLimitResult × World
counted (r, cs) w = (r, record w { counters = cs })

-- `Allow`: an error of the call leaves the counters.
unfoldable pub take_slot : String → ℕ → ℕ → Exec World RateLimitResult
unfolding external allow
take_slot key limit window = do
  external
  λ w. counted (allow key limit window none (milliseconds w) w.counters) w
