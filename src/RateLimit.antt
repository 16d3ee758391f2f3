-- ===== src/RateLimit.antt =====
-- internal/platform/ratelimit/ratelimit.go and rules.go: a counter for each key in Redis, by one
-- script that runs alone. Times are in milliseconds, as `PTTL` gives them.
pub mod Window
pub mod Rules
use tesseract_go_api.Prelude.{
  ℕ, String, Bool, true, false, List, [], ◌∷◌, Option, none, some, ◌+◌, ◌-◌, ◌*◌, ◌==◌, leb, str_eq,
  if◌then◌else◌,
}
use tesseract_go_api.Response.{Error, plain}
use tesseract_go_api.Exec.{Result, ok, err}

-- The value of a key and the time at which Redis drops it, if one is set.
pub record Counter : Type 0 where
  pub value : ℕ
  pub expires_at : Option ℕ

abbrev pub Counters : Type 0
Counters = List (String × Counter)

abbrev is_gone : ℕ → Option ℕ → Bool
is_gone now none = false
is_gone now (some at) = leb at now

-- GET: nothing where the key is not there or has expired.
abbrev pub alive : ℕ → Counter → Option Counter
alive now c = if is_gone now c.expires_at then none else some c

unfoldable pub current : ℕ → String → Counters → Option Counter
current now key [] = none
current now key ((k, c) ∷ rest) =
    let behind = current now key rest in if str_eq k key then alive now c else behind

unfoldable pub assign : String → Counter → Counters → Counters
assign key c [] = (key, c) ∷ []
assign key c ((k, d) ∷ rest) =
    let behind = assign key c rest in if str_eq k key then (k, c) ∷ rest else (k, d) ∷ behind

-- PTTL: -1 without an expiry, which `max(…, 0)` reads as 0.
abbrev pttl : ℕ → Option ℕ → ℕ
pttl now none = 0
pttl now (some at) = at - now

-- RateLimitResult, with the reset in milliseconds. What remains is not negative where the limit is
-- positive, as those of all rules are.
pub record RateLimitResult : Type 0 where
  pub allowed : Bool
  pub remaining : ℕ
  pub reset : ℕ

-- INCR, and PEXPIRE for a new counter.
abbrev pub incremented : ℕ → ℕ → Option Counter → Counter
incremented window now none = record { value = 1; expires_at = some (now + window * 1000) }
incremented window now (some c) =
    if c.value + 1 == 1
    then record { value = 1; expires_at = some (now + window * 1000) }
    else record c { value = c.value + 1 }

abbrev pub admitted : ℕ → ℕ → Counter → RateLimitResult
admitted limit now c = record {
  allowed = true;
  remaining = limit - c.value;
  reset = pttl now c.expires_at;
}

abbrev pub refused : ℕ → Counter → RateLimitResult
refused now c = record { allowed = false; remaining = 0; reset = pttl now c.expires_at }

abbrev pub count_up : String → ℕ → ℕ → ℕ → Option Counter → Counters → RateLimitResult × Counters
count_up key limit window now found cs = (
  admitted limit now (incremented window now found),
  assign key (incremented window now found) cs,
)

abbrev pub decide : String → ℕ → ℕ → ℕ → Option Counter → Counters → RateLimitResult × Counters
decide key limit window now none cs = count_up key limit window now none cs
decide key limit window now (some c) cs =
    if leb limit c.value then (refused now c, cs) else count_up key limit window now (some c) cs

-- `Allow`, with the window in seconds; `failure` is the error of the call, which changes nothing.
unfoldable pub allow :
    String → ℕ → ℕ → Option Error → ℕ → Counters → Result RateLimitResult × Counters
unfolding current assign
allow key limit window (some e) now cs = (err e, cs)
allow key limit window none now cs =
    let (r, cs') = decide key limit window now (current now key cs) cs in (ok r, cs')
