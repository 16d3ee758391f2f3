-- ===== src/Routes/Protection.antt =====
-- cmd/api/routes.go: the routes that modify data, and the administrator's routes, for a request without the access
-- token that they ask for.
use mathlib.Core.List.{Memᴰ}
use mathlib.Core.Path.{subst}
use tesseract_go_api.Prelude.{
  String, Bool, true, false, List, [], ◌∷◌, Option, none, some, ◌≡◌, refl, ap, ◌∙◌, ◌&&◌, ◌||◌, not,
  any, All-of_any, sym, ◌==◌, arith, All, Bool-cases, inl, inr, str_eq, eq_iff, if◌then◌else◌,
}
use tesseract_go_api.Response.{sentinel, no_permission}
use tesseract_go_api.Exec.{Result, ok, err, throw}
use tesseract_go_api.Store.{Time, World}
use tesseract_go_api.Platform.{Platform}
use tesseract_go_api.Tokens.Manager.{UserClaims, parse_access}
use tesseract_go_api.Http.{Request, run}
use tesseract_go_api.Middleware.{Endpoint, is_safe}
use tesseract_go_api.Routes.{
  Use, limit, authentication, role, HandlerName, logout, refresh_session, restore_user, purge_user,
  Route, routes,
}
use tesseract_go_api.Routes.Mount.{App, serve}
use tesseract_go_api.Routes.Agree.{has_role, same_claims, true_claims}
use tesseract_go_api.Routes.Gate.{asks, all_ask, serve-same}
use tesseract_go_api.Routes.Quiet.{data_of, serve-data}

abbrev of_user : Result UserClaims → Option UserClaims
of_user (err e) = none
of_user (ok c) = if c.user_id == 0 then none else some c

-- The claims of the access token, if it can be read at this time and names a user.
abbrev pub token_claims : Platform → Time → Option String → Option UserClaims
token_claims p now none = none
token_claims p now (some token) = of_user (parse_access p now token)

-- Claims ask no more of the holder of a token than of nobody.
asks-none : (u : Use) (claims : Option UserClaims) → asks u none ≡ true → asks u claims ≡ true
asks-none (limit rule) claims a = refl
asks-none authentication claims a = ground arith
asks-none (role name) claims a = ground arith

all_ask-none :
    (us : List Use) (claims : Option UserClaims) → all_ask us none ≡ true → all_ask us claims ≡ true
all_ask-none [] claims a = refl
all_ask-none (u ∷ us) claims a = ground (arith, asks-none u claims, all_ask-none us claims)

asks-same :
    (u : Use) (c d : UserClaims) → same_claims c (ok d) ≡ true → asks u (some c) ≡ asks u (some d)
asks-same (limit rule) c d same = refl
asks-same authentication c d same = ground arith
asks-same (role name) c d same = ap (λ t. str_eq t name) ((eq_iff c.role d.role).0 (ground arith))

all_ask-same :
    (us : List Use) (c d : UserClaims)
    → same_claims c (ok d) ≡ true
    → all_ask us (some c) ≡ all_ask us (some d)
all_ask-same [] c d same = refl
all_ask-same (u ∷ us) c d same = cc (asks-same u c d same, all_ask-same us c d same)

of_user-ask :
    (us : List Use) (c : UserClaims) (res : Result UserClaims)
    → (same_claims c res && not (c.user_id == 0)) ≡ true
    → all_ask us (some c) ≡ true
    → all_ask us (of_user res) ≡ true
of_user-ask us c (err e) same a = ground arith
of_user-ask us c (ok d) same a =
    let known : (d.user_id == 0) ≡ false = ground arith in
    let both = all_ask-same us c d (ground arith) in rw known (cc (a, both))

token-ask :
    (p : Platform) (us : List Use) (now : Time) (cookie : Option String)
    (claims : Option UserClaims)
    → true_claims p now cookie claims ≡ true
    → all_ask us claims ≡ true
    → all_ask us (token_claims p now cookie) ≡ true
token-ask p us now cookie none true_ a = all_ask-none us _ a
token-ask p us now none (some c) true_ a = ground arith
token-ask p us now (some token) (some c) true_ a =
    of_user-ask us c (parse_access p now token) true_ a

-- All but the end and the refresh of a session.
abbrev is_session : HandlerName → Bool
is_session logout = true
is_session refresh_session = true
is_session name = false

abbrev pub is_admin : HandlerName → Bool
is_admin restore_user = true
is_admin purge_user = true
is_admin name = false

-- A route that changes data asks for a user; a route of the administrator asks for the role.
abbrev needs_user : Route → Bool
needs_user route = is_safe route.method || is_session route.handler || not (all_ask route.uses none)

abbrev asks_admin : Use → Bool
asks_admin (role name) = str_eq name "admin"
asks_admin u = false

abbrev needs_admin : Route → Bool
needs_admin route = not (is_admin route.handler) || any asks_admin route.uses

-- Every route of the table passes both tests.
fails_user : any (λ route. not (needs_user route)) routes ≡ false
unfolding routes
fails_user = refl

fails_admin : any (λ route. not (needs_admin route)) routes ≡ false
unfolding routes
fails_admin = refl

All-at : {A : Type 0} (P : A → Type 0) (x : A) (xs : List A) → All P xs → Memᴰ x xs → P x
All-at P x [] h m = elim m [ ]
All-at P x (y ∷ xs) h (Memᴰ.head e) = subst P (sym e) h.0
All-at P x (y ∷ xs) h (Memᴰ.tail m) = All-at P x xs h.1 m

lacks_role :
    (us : List Use) (claims : Option UserClaims)
    → any asks_admin us ≡ true
    → has_role "admin" claims ≡ false
    → all_ask us claims ≡ false
lacks_role [] claims asked lacks = ground arith
lacks_role (role name ∷ us) claims asked lacks = elim (Bool-cases (str_eq name "admin")) [
  | inl t ↦ rw ((eq_iff name "admin").0 t) (rw lacks refl)
  | inr t ↦ ground (arith, lacks_role us claims)
]
lacks_role (limit rule ∷ us) claims asked lacks = ground (arith, lacks_role us claims)
lacks_role (authentication ∷ us) claims asked lacks = ground (arith, lacks_role us claims)

module _ {B D : Type 0} (app : App D) where
  -- A request without claims of its own, whose access token does not hold the claims that the
  -- groups of the route ask for, leaves the tables, the cache and the pending goroutines as they
  -- are, whatever the handlers do.
  pub serve-refused :
      (route : Route) (handlers : HandlerName → Endpoint B D) (r : Request B) (w : World)
      → r.claims ≡ none
      → all_ask route.uses (token_claims app.platform w.now (r.cookie "access_token")) ≡ false
      → data_of (run (serve app handlers route r) w).world ≡ data_of w
  unfolding throw
  serve-refused route handlers r w none_yet lacks =
      ap (λ x. data_of x.world)
        (serve-same app
          (λ t method header cookie.
            not (all_ask route.uses (token_claims app.platform t (cookie "access_token"))))
          route handlers (λ name r. throw (sentinel no_permission))
          (λ r x p. absurd (
            ground (
              arith,
              token-ask app.platform route.uses x.world.now (r.cookie "access_token") r.claims,
            )))
          r w (rw (none_yet, lacks) refl))
      ∙ serve-data (λ d. d ≡ data_of w) app route (λ name r. throw (sentinel no_permission))
          (λ r. record { at = λ x p. p }) r w refl

  -- On every route of the table whose method is not safe, but the end and the refresh of a session:
  -- a request without claims of its own, whose access token is missing, cannot be read at this time
  -- or names no user, leaves the tables, the cache and the pending goroutines as they are.
  pub modifying-refused :
      (route : Route) (handlers : HandlerName → Endpoint B D) (r : Request B) (w : World)
      → Memᴰ route routes
      → is_safe route.method ≡ false
      → is_session route.handler ≡ false
      → r.claims ≡ none
      → token_claims app.platform w.now (r.cookie "access_token") ≡ none
      → data_of (run (serve app handlers route r) w).world ≡ data_of w
  modifying-refused route handlers r w there unsafe other none_yet nobody =
      let needs = All-at _ route routes (All-of_any _ routes fails_user) there in
      serve-refused route handlers r w none_yet (rw nobody (ground arith))

  -- On the administrator's routes of the table: a request without claims of its own, whose access
  -- token does not give, at this time, the role of an administrator, leaves the tables, the cache
  -- and the pending goroutines as they are.
  pub admin-refused :
      (route : Route) (handlers : HandlerName → Endpoint B D) (r : Request B) (w : World)
      → Memᴰ route routes
      → is_admin route.handler ≡ true
      → r.claims ≡ none
      → has_role "admin" (token_claims app.platform w.now (r.cookie "access_token")) ≡ false
      → data_of (run (serve app handlers route r) w).world ≡ data_of w
  admin-refused route handlers r w there admin none_yet lacks =
      let needs = All-at _ route routes (All-of_any _ routes fails_admin) there in
      serve-refused route handlers r w none_yet (lacks_role route.uses _ (ground arith) lacks)
