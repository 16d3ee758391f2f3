-- ===== src/Routes/Quiet.antt =====
-- cmd/api/middleware.go around a handler: what the two leave of the tables, the cache and the
-- goroutines.
use mathlib.Core.Path.{subst}
use tesseract_go_api.Http.Cookies.{unset_access}
use tesseract_go_api.Prelude.{
  ℕ, String, Bool, true, false, List, [], ◌∷◌, Option, none, some, if◌then◌else◌, str_eq, ◌≡◌, refl,
  sym, arith, Bool-cases, inl, inr,
}
use tesseract_go_api.Response.{Error, sentinel, access_token_expired}
use tesseract_go_api.Exec.{Result, ok, err, throw, ◌>>=◌, ◌>>◌}
use tesseract_go_api.Store.{Task, Tables, Cache, World}
use tesseract_go_api.Platform.{Platform}
use tesseract_go_api.Tokens.Manager.{UserClaims, parse_access}
use tesseract_go_api.RateLimit.{RateLimitResult}
use tesseract_go_api.RateLimit.Rules.{Rule, take_slot}
use tesseract_go_api.Http.{Body, Request, Handler, Exchange, run, fresh, set_cookie, write_error}
use tesseract_go_api.Middleware.{
  origin_of, authenticated, with_role, with_token, Endpoint, check_x_headers, check_origin,
  from_allowed, parse_access_token, with_claims, dead_token, require_authentication, require_role,
}
use tesseract_go_api.Middleware.Headers.{add_security_headers, insert_language}
use tesseract_go_api.Middleware.Limit.{
  rate_limit, reserved, limited, limit_key, announced, sent_away, limited-allowed, limited-refused,
}
use tesseract_go_api.Middleware.Recorder.{etag_checker, recorded, recorder, close}
use tesseract_go_api.Routes.{Use, limit, authentication, role, HandlerName, Route}
use tesseract_go_api.Routes.Mount.{
  App, apply_use, apply_uses, if_set, identified, worded, placed, mounted, serve,
}

-- The data of the service.
abbrev pub data_of : World → Tables × Cache × List Task
data_of w = (w.db, w.cache, w.pending)

module _ {D : Type 0} where
  close-data :
      (out : Result (Unit {0}) × Exchange D) → data_of (close out).world ≡ data_of out.1.world
  unfolding write_error
  close-data (ok _, x) = refl
  close-data (err e, x) = refl

  pub run-data :
      (P : Tables × Cache × List Task → Type 0) (h : Handler D) (w : World)
      → P (data_of (h (record { world = w; response = fresh })).1.world)
      → P (data_of (run h w).world)
  unfolding run
  run-data P h w p = subst P (sym (close-data _)) p

take_slot-data :
    (key : String) (bound window : ℕ) (w : World)
    → data_of (take_slot key bound window w).1 ≡ data_of w
unfolding take_slot
take_slot-data key bound window w = ground arith

-- What the middleware keeps if the handler does: `P` is a predicate on the data.
module _ (P : Tables × Cache × List Task → Type 0) where
  module _ {D : Type 0} where
    pub record Steady (m : Handler D) : Type 0 where
      pub at : (x : Exchange D) → P (data_of x.world) → P (data_of (m x).1.world)

    Steady-if : (b : Bool) (m n : Handler D) → Steady m → Steady n → Steady (if b then m else n)
    Steady-if true m n sm sn = sm
    Steady-if false m n sm sn = sn

    Steady-throw : (e : Error) → Steady (throw e)
    unfolding throw
    Steady-throw e = record { at = λ x p. p }

  module _ {B D : Type 0} where
    abbrev pub Quiet : Endpoint B D → Type 0
    Quiet h = (r : Request B) → Steady (h r)

  module _ {B D : Type 0} (h : Endpoint B D) (q : Quiet h) where
    add_security_headers-Quiet : Quiet (add_security_headers h)
    unfolding add_security_headers
    add_security_headers-Quiet r = record { at = λ x p. (q r).at _ p }

    check_x_headers-Quiet : Quiet (check_x_headers h)
    unfolding check_x_headers
    check_x_headers-Quiet r = Steady-if _ _ _ (q r) (Steady-throw _)

    from_allowed-Quiet :
        (allowed : List String) (res : Result (String × String)) (r : Request B)
        → Steady (from_allowed allowed h r res)
    from_allowed-Quiet allowed (err e) r = Steady-throw _
    from_allowed-Quiet allowed (ok (scheme, host)) r = Steady-if _ _ _ (q r) (Steady-throw _)

    check_origin-Quiet :
        (parse_url : String → Result (String × String)) (allowed : List String)
        → Quiet (check_origin parse_url allowed h)
    unfolding check_origin
    check_origin-Quiet parse_url allowed r =
        Steady-if _ _ _ (q r) (
          Steady-if _ _ _ (Steady-throw _) (from_allowed-Quiet allowed (parse_url (origin_of r)) r))

    insert_language-Quiet : (default : String) → Quiet (insert_language default h)
    unfolding insert_language
    insert_language-Quiet default r = q _

    authenticated-Quiet : (r : Request B) (o : Option UserClaims) → Steady (authenticated h r o)
    authenticated-Quiet r none = Steady-throw _
    authenticated-Quiet r (some c) = Steady-if _ _ _ (Steady-throw _) (q r)

    require_authentication-Quiet : Quiet (require_authentication h)
    unfolding require_authentication
    require_authentication-Quiet r = authenticated-Quiet r r.claims

    with_role-Quiet :
        (name : String) (r : Request B) (o : Option UserClaims) → Steady (with_role name h r o)
    with_role-Quiet name r none = Steady-throw _
    with_role-Quiet name r (some c) = Steady-if _ _ _ (q r) (Steady-throw _)

    require_role-Quiet : (name : String) → Quiet (require_role name h)
    unfolding require_role
    require_role-Quiet name r = with_role-Quiet name r r.claims

    blocked-Steady :
        Steady {D = D} (set_cookie unset_access >> throw (sentinel access_token_expired))
    unfolding set_cookie ◌>>=◌
    blocked-Steady = record { at = λ x p. p }

    dead_token-Quiet : Quiet (dead_token h)
    dead_token-Quiet r = Steady-if _ _ _ (q r) blocked-Steady

    with_claims-Quiet : (res : Result UserClaims) (r : Request B) → Steady (with_claims h r res)
    with_claims-Quiet (err e) r = dead_token-Quiet r
    with_claims-Quiet (ok c) r = Steady-if _ _ _ (dead_token-Quiet r) (q _)

    with_token-Quiet :
        (p : Platform) (r : Request B) (o : Option String) → Steady (with_token p h r o)
    with_token-Quiet p r none = q r
    with_token-Quiet p r (some token) =
        Steady-if (str_eq token "") (h r)
          (λ x. with_claims h r (parse_access p x.world.now token) x) (q r)
          (record { at = λ x. (with_claims-Quiet (parse_access p x.world.now token) r).at x })

    parse_access_token-Quiet : (p : Platform) → Quiet (parse_access_token p h)
    unfolding parse_access_token
    parse_access_token-Quiet p r = with_token-Quiet p r (r.cookie "access_token")

    etag_checker-Quiet : (hash : List (Body D) → String) → Quiet (etag_checker hash h)
    unfolding etag_checker recorded
    etag_checker-Quiet hash r = record {
      at = λ x p.
          subst P (sym (close-data _)) ((q r).at (record x { response = recorder x.response }) p);
    }

    limited-data :
        (rule : Rule) (result : RateLimitResult) (r : Request B) (x : Exchange D)
        → P (data_of x.world)
        → P (data_of (limited rule result (h r) x).1.world)
    unfolding announced sent_away
    limited-data rule result r x p = elim (Bool-cases result.allowed) [
      | inl t ↦ rw (limited-allowed rule result (h r) x t) ((q r).at (announced rule result x) p)
      | inr t ↦ rw (limited-refused rule result (h r) x t) p
    ]

    reserved-data :
        (rule : Rule) (r : Request B) (x : Exchange D) (out : Result RateLimitResult × World)
        → P (data_of out.1)
        → P (data_of (reserved rule (h r) x out).1.world)
    reserved-data rule r x (err e, w) p = p
    reserved-data rule r x (ok result, w) p = limited-data rule result r (record x { world = w }) p

    rate_limit-Quiet : (p : Platform) (rule : Rule) → Quiet (rate_limit p rule h)
    unfolding rate_limit
    rate_limit-Quiet p rule r = record {
      at = λ x kept.
          reserved-data rule r x _ (
            subst P (sym (take_slot-data (limit_key p rule r) rule.limit rule.window x.world))
              kept);
    }

    if_set-Quiet :
        (app : App D) (on : Bool) (m : Endpoint B D → Endpoint B D)
        → Quiet (m h)
        → Quiet (if_set app on m h)
    if_set-Quiet app true m loud = loud
    if_set-Quiet app false m loud = q

  module _ {B D : Type 0} (app : App D) where
    apply_use-Quiet : (u : Use) (h : Endpoint B D) → Quiet h → Quiet (apply_use app u h)
    unfolding apply_use
    apply_use-Quiet (limit rule) h q = rate_limit-Quiet h q app.platform rule
    apply_use-Quiet authentication h q = require_authentication-Quiet h q
    apply_use-Quiet (role name) h q = require_role-Quiet h q name

    apply_uses-Quiet : (us : List Use) (h : Endpoint B D) → Quiet h → Quiet (apply_uses app us h)
    unfolding apply_uses
    apply_uses-Quiet [] h q = q
    apply_uses-Quiet (u ∷ us) h q =
        apply_use-Quiet u (apply_uses app us h) (apply_uses-Quiet us h q)

    mounted-Quiet : (h : Endpoint B D) → Quiet h → Quiet (mounted app h)
    unfolding mounted
    mounted-Quiet h q =
        let tagged = etag_checker-Quiet h q app.hash in
        let claimed = parse_access_token-Quiet (etag_checker app.hash h) tagged app.platform in
        let spoken = insert_language-Quiet (identified app h) claimed app.lang in
        let origin =
          if_set-Quiet (worded app h) spoken app app.check_origin
            (check_origin app.parse_url app.allowed_origins)
            (check_origin-Quiet (worded app h) spoken app.parse_url app.allowed_origins) in
        let page =
          if_set-Quiet (placed app h) origin app app.check_headers check_x_headers
            (check_x_headers-Quiet (placed app h) origin) in
        add_security_headers-Quiet (if_set app app.check_headers check_x_headers (placed app h))
          page

    pub serve-Quiet :
        (route : Route) (handlers : HandlerName → Endpoint B D)
        → Quiet (handlers route.handler)
        → Quiet (serve app handlers route)
    unfolding serve
    serve-Quiet route handlers q =
        mounted-Quiet (apply_uses app route.uses (handlers route.handler))
          (apply_uses-Quiet route.uses (handlers route.handler) q)

    -- What the data of the world are after a request, if the handler of the route keeps it.
    pub serve-data :
        (route : Route) (handlers : HandlerName → Endpoint B D)
        → Quiet (handlers route.handler)
        → (r : Request B) (w : World) → P (data_of w)
        → P (data_of (run (serve app handlers route r) w).world)
    serve-data route handlers q r w p =
        run-data P (serve app handlers route r) w
          ((serve-Quiet route handlers q r).at (record { world = w; response = fresh }) p)
