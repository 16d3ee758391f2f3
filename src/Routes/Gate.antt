-- ===== src/Routes/Gate.antt =====
-- cmd/api/routes.go: what a request has when it reaches the handler of its route.
use tesseract_go_api.Prelude.{
  String, Bool, true, false, List, [], ◌∷◌, Option, none, ◌≡◌, refl, ap, ◌&&◌, ◌||◌, not, arith,
  is_none, if◌then◌else◌,
}
use tesseract_go_api.Response.{Error}
use tesseract_go_api.Exec.{throw}
use tesseract_go_api.Store.{Time, World}
use tesseract_go_api.Tokens.Manager.{UserClaims}
use tesseract_go_api.Http.{Request, run, fresh}
use tesseract_go_api.Middleware.{Endpoint, check_x_headers, check_origin, parse_access_token}
use tesseract_go_api.Middleware.Recorder.{etag_checker}
use tesseract_go_api.Routes.{Use, limit, authentication, role, HandlerName, Route}
use tesseract_go_api.Routes.Mount.{App, apply_use, apply_uses, if_set, mounted, serve}
use tesseract_go_api.Routes.Agree.{
  Test, Agree, knows_user, has_role, true_claims, from_page, from_origin,
  add_security_headers-Agree, check_x_headers-Agree, check_origin-Agree, insert_language-Agree,
  parse_access_token-Agree, require_authentication-Agree, require_role-Agree, etag_checker-Agree,
  rate_limit-Agree,
}

and_left : (a b : Bool) → a && b ≡ true → a ≡ true
and_left a b p = ground arith

-- What a use asks of the claims.
abbrev pub asks : Use → Option UserClaims → Bool
asks (limit rule) claims = true
asks authentication claims = knows_user claims
asks (role name) claims = has_role name claims

abbrev pub all_ask : List Use → Option UserClaims → Bool
all_ask [] claims = true
all_ask (u ∷ us) claims = asks u claims && all_ask us claims

module _ {B D : Type 0} (app : App D) where
  abbrev pub from_frontend : Request B → Bool
  from_frontend r =
      (not app.check_headers || from_page r)
      && (not app.check_origin || from_origin app.parse_url app.allowed_origins r)

  -- What the middleware of `mount` checks.
  abbrev pub passes : Test B
  passes r t = from_frontend r && true_claims app.platform t (r.cookie "access_token") r.claims

  apply_use-Agree :
      (P : Test B) (u : Use) (h k : Endpoint B D)
      → Agree (λ r t. P r t && asks u r.claims) h k
      → Agree P (apply_use app u h) (apply_use app u k)
  unfolding apply_use
  apply_use-Agree P (limit rule) h k a =
      rate_limit-Agree P h k app.platform rule (λ r x p. a r x (ground arith))
  apply_use-Agree P authentication h k a = require_authentication-Agree P h k a
  apply_use-Agree P (role name) h k a = require_role-Agree P h k name a

  apply_uses-Agree :
      (P : Test B) (us : List Use) (h k : Endpoint B D)
      → Agree (λ r t. P r t && all_ask us r.claims) h k
      → Agree P (apply_uses app us h) (apply_uses app us k)
  unfolding apply_uses
  apply_uses-Agree P [] h k a = λ r x p. a r x (ground arith)
  apply_uses-Agree P (u ∷ us) h k a =
      apply_use-Agree P u (apply_uses app us h) (apply_uses app us k)
        (apply_uses-Agree (λ r t. P r t && asks u r.claims) us h k λ r x p. a r x (ground arith))

  if_set-Agree :
      (P Q : Test B) (on : Bool) (m : Endpoint B D → Endpoint B D) (h k : Endpoint B D)
      → ((r : Request B) (t : Time) → P r t ≡ true → on ≡ false → Q r t ≡ true)
      → (on ≡ true → Agree Q h k → Agree P (m h) (m k))
      → Agree Q h k
      → Agree P (if_set app on m h) (if_set app on m k)
  if_set-Agree P Q true m h k low high a = high refl a
  if_set-Agree P Q false m h k low high a = λ r x p. a r x (low r x.world.now p refl)

  -- Handlers that refuse a request without what their route asks for.
  abbrev pub permitted : List Use → Test B
  permitted uses r t = passes r t && all_ask uses r.claims

  abbrev pub cautious : List Use → Error → Endpoint B D → Endpoint B D
  cautious uses refusal next r x =
      if permitted uses r x.world.now then next r x else throw refusal x

  module _ (Q : Time → String → (String → String) → (String → Option String) → Bool) where
    -- A test on what no middleware changes.
    abbrev pub seen : Test B
    seen r t = Q t r.method r.header r.cookie

    abbrev pub guest : Test B
    guest r t = is_none r.claims && seen r t

    -- The tests that stand before the access token, from the outer one to the inner one.
    abbrev guest_page : Test B
    guest_page r t = guest r t && (not app.check_headers || from_page r)

    abbrev guest_origin : Test B
    guest_origin r t = (from_frontend r && seen r t) && is_none r.claims

    abbrev holder : Test B
    holder r t =
        (from_frontend r && seen r t)
        && true_claims app.platform t (r.cookie "access_token") r.claims

    mounted-Agree :
        (h k : Endpoint B D) → Agree holder h k → Agree guest (mounted app h) (mounted app k)
    unfolding mounted
    mounted-Agree h k a =
        let tagged = etag_checker-Agree holder h k app.hash a in
        let claimed =
          parse_access_token-Agree (λ r t. from_frontend r && seen r t) (etag_checker app.hash h)
            (etag_checker app.hash k) app.platform (λ r t c. refl) tagged in
        let spoken =
          insert_language-Agree guest_origin
            (parse_access_token app.platform (etag_checker app.hash h))
            (parse_access_token app.platform (etag_checker app.hash k)) app.lang (λ r t lang. refl)
            claimed in
        let placed =
          if_set-Agree guest_page guest_origin app.check_origin
            (check_origin app.parse_url app.allowed_origins) _ _ (λ r t p off. ground arith)
            (λ on b.
              check_origin-Agree guest_page _ _ app.parse_url app.allowed_origins
                λ r x p. b r x (ground arith))
            spoken in
        let paged =
          if_set-Agree guest guest_page app.check_headers check_x_headers _ _
            (λ r t p off. ground arith)
            (λ on b. check_x_headers-Agree guest _ _ λ r x p. b r x (ground arith)) placed in
        add_security_headers-Agree guest _ _ paged

    pub serve-Agree :
        (route : Route) (h k : HandlerName → Endpoint B D)
        → Agree (λ r t. permitted route.uses r t && seen r t) (h route.handler) (k route.handler)
        → Agree guest (serve app h route) (serve app k route)
    unfolding serve
    serve-Agree route h k a =
        mounted-Agree (apply_uses app route.uses (h route.handler))
          (apply_uses app route.uses (k route.handler))
          (apply_uses-Agree holder route.uses (h route.handler) (k route.handler)
            λ r x p. a r x (ground arith))

    pub serve-same :
        (route : Route) (h k : HandlerName → Endpoint B D)
        → Agree (λ r t. permitted route.uses r t && seen r t) (h route.handler) (k route.handler)
        → (r : Request B) (w : World) → guest r w.now ≡ true
        → run (serve app h route r) w ≡ run (serve app k route r) w
    unfolding run
    serve-same route h k a r w p =
        ap (λ y. run (λ z. y) w)
          (serve-Agree route h k a r (record { world = w; response = fresh }) p)

  -- A request without claims of its own is served on every route as if each handler checked it
  -- again: where the settings ask for it, the header of the front end and an allowed origin unless
  -- the method is safe; claims that are those of the access token of the request, read back at this
  -- time, of a user with an id; and the claims that the route's groups ask for.
  pub serve-cautious :
      (route : Route) (handlers : HandlerName → Endpoint B D) (refusal : Error) (r : Request B)
      (w : World)
      → r.claims ≡ none
      → run (serve app handlers route r) w
        ≡ run (serve app (λ name. cautious route.uses refusal (handlers name)) route r) w
  serve-cautious route handlers refusal r w none_yet =
      serve-same (λ t method header cookie. true) route handlers
        (λ name. cautious route.uses refusal (handlers name))
        (λ r x p. rw (and_left (permitted route.uses r x.world.now) true p) refl) r w
        (rw none_yet refl)
