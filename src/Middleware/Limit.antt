-- ===== src/Middleware/Limit.antt =====
-- cmd/api/middleware.go: RateLimit.
use Prim.Native.String.{◌++◌ as append}
use tesseract_go_api.Prelude.{
  true, false, ◌≡◌, refl, ℕ, String, Option, none, some, ◌+◌, ◌*◌, ◌/◌, if◌then◌else◌,
}
use tesseract_go_api.Response.{sentinel, too_many_requests}
use tesseract_go_api.Exec.{Result, ok, err, throw, gets, ◌>>=◌, ◌>>◌}
use tesseract_go_api.Store.{Time, World}
use tesseract_go_api.Platform.{Platform}
use tesseract_go_api.Tokens.Manager.{UserClaims}
use tesseract_go_api.RateLimit.{RateLimitResult}
use tesseract_go_api.RateLimit.Rules.{Rule, take_slot}
use tesseract_go_api.Http.{Request, Handler, Exchange, decimal, set_header, put_header}
use tesseract_go_api.Middleware.{Endpoint}

-- The user's id, or the address.
abbrev pub identifier : Platform → String → Option UserClaims → String
identifier p addr none = addr
identifier p addr (some c) = p.uuid_string c.user_id

abbrev pub limit_key : {B : Type 0} → Platform → Rule → Request B → String
limit_key p rule r =
    append "rate_limit:" (append rule.key (append ":" (identifier p r.remote_addr r.claims)))

-- `time.Now().Add(result.Reset).Unix()`.
abbrev reset_at : Time → RateLimitResult → ℕ
reset_at now result = (now + result.reset * 1000) / 1_000_000

module _ {D : Type 0} where
  -- What the request meets once the limiter has answered.
  unfoldable pub limited : Rule → RateLimitResult → Handler D → Handler D
  unfolding set_header ◌>>=◌
  limited rule result next = do
    now ← gets (λ x. x.world.now)
    set_header "X-RateLimit-Limit" (decimal rule.limit)
    set_header "X-RateLimit-Remaining" (decimal result.remaining)
    set_header "X-RateLimit-Reset" (decimal (reset_at now result))
    if result.allowed
        then next
        else (set_header "Retry-After" (decimal (result.reset / 1000))
            >> throw (sentinel too_many_requests))

  -- The exchange with the headers of the limiter.
  unfoldable pub announced : Rule → RateLimitResult → Exchange D → Exchange D
  unfolding put_header
  announced rule result x = record x {
    response = record x.response {
      headers = put_header "X-RateLimit-Reset" (decimal (reset_at x.world.now result)) (
          put_header "X-RateLimit-Remaining" (decimal result.remaining)
            (put_header "X-RateLimit-Limit" (decimal rule.limit) x.response.headers));
    };
  }

  -- The headers of a refused request.
  unfoldable pub sent_away : Rule → RateLimitResult → Exchange D → Exchange D
  unfolding set_header announced
  sent_away rule result x =
      (set_header "Retry-After" (decimal (result.reset / 1000)) (announced rule result x)).1

  pub limited-allowed :
      (rule : Rule) (result : RateLimitResult) (next : Handler D) (x : Exchange D)
      → result.allowed ≡ true
      → limited rule result next x ≡ next (announced rule result x)
  unfolding limited announced sent_away
  limited-allowed rule result next x t = rw t refl

  pub limited-refused :
      (rule : Rule) (result : RateLimitResult) (next : Handler D) (x : Exchange D)
      → result.allowed ≡ false
      → limited rule result next x ≡ (err (sentinel too_many_requests), sent_away rule result x)
  unfolding limited announced sent_away
  limited-refused rule result next x t = rw t refl

  -- What follows the answer of the limiter, or its error.
  abbrev pub reserved :
      Rule
      → Handler D
      → Exchange D
      → Result RateLimitResult × World
      → Result (Unit {0}) × Exchange D
  reserved rule next x (err e, w) = (err e, record x { world = w })
  reserved rule next x (ok result, w) = limited rule result next (record x { world = w })

module _ {B D : Type 0} where
  -- `RateLimit`.
  unfoldable pub rate_limit : Platform → Rule → Endpoint B D → Endpoint B D
  unfolding take_slot limited ◌>>=◌
  rate_limit p rule next r x =
      reserved rule (next r) x (take_slot (limit_key p rule r) rule.limit rule.window x.world)
