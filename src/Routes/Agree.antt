-- ===== src/Routes/Agree.antt =====
-- cmd/api/middleware.go around two handlers: the handlers need to agree only on the requests that it lets
-- through.
use Prim.Native.String.{◌++◌ as append}
use tesseract_go_api.Prelude.{
  ℕ, String, Bool, true, false, List, Option, none, some, ◌≡◌, refl, ◌∙◌, ap, ◌&&◌, ◌||◌, ◌==◌, not,
  arith, str_eq, str_eq_refl, Bool-cases, inl, inr, is_none,
}
use tesseract_go_api.Exec.{Result, ok, err, throw}
use tesseract_go_api.Store.{Time, World}
use tesseract_go_api.Platform.{Platform}
use tesseract_go_api.Tokens.Manager.{UserClaims, parse_access}
use tesseract_go_api.Albums.Access.{contains}
use tesseract_go_api.RateLimit.{RateLimitResult}
use tesseract_go_api.RateLimit.Rules.{Rule, take_slot}
use tesseract_go_api.Http.{Request, Exchange, Body}
use tesseract_go_api.Middleware.{
  Endpoint, is_safe, origin_of, check_x_headers, check_origin, from_allowed, parse_access_token,
  with_claims, with_token, require_authentication, require_role,
}
use tesseract_go_api.Middleware.Headers.{add_security_headers, insert_language}
use tesseract_go_api.Middleware.Limit.{
  rate_limit, reserved, limited, limit_key, announced, limited-allowed, limited-refused,
}
use tesseract_go_api.Middleware.Recorder.{etag_checker, recorded, recorder}

-- A test on a request at a time.
abbrev pub Test : Type 0 → Type 0
Test B = Request B → Time → Bool

-- The user of the claims has an id.
abbrev pub knows_user : Option UserClaims → Bool
knows_user none = false
knows_user (some c) = not (c.user_id == 0)

abbrev pub has_role : String → Option UserClaims → Bool
has_role name none = false
has_role name (some c) = str_eq c.role name

abbrev pub same_claims : UserClaims → Result UserClaims → Bool
same_claims c (err e) = false
same_claims c (ok d) = c.user_id == d.user_id && str_eq c.role d.role && str_eq c.email d.email

-- Claims of a request are those that its access token holds at this time, of a user with an id.
abbrev pub claims_in : Platform → Time → Option String → UserClaims → Bool
claims_in p now none c = false
claims_in p now (some token) c = same_claims c (parse_access p now token) && not (c.user_id == 0)

abbrev pub true_claims : Platform → Time → Option String → Option UserClaims → Bool
true_claims p now cookie none = true
true_claims p now cookie (some c) = claims_in p now cookie c

abbrev pub from_page : {B : Type 0} → Request B → Bool
from_page r = is_safe r.method || str_eq (r.header "X-Requested-With") "XMLHttpRequest"

abbrev listed : List String → Result (String × String) → Bool
listed allowed (err e) = false
listed allowed (ok (scheme, host)) = contains allowed (append scheme (append "://" host))

abbrev pub from_origin :
    {B : Type 0} → (String → Result (String × String)) → List String → Request B → Bool
from_origin parse_url allowed r =
    is_safe r.method || not (str_eq (origin_of r) "") && listed allowed (parse_url (origin_of r))

module _ {B D : Type 0} where
  abbrev pub Agree : Test B → Endpoint B D → Endpoint B D → Type 0
  Agree P h k = (r : Request B) (x : Exchange D) → P r x.world.now ≡ true → h r x ≡ k r x

  module _ (P : Test B) (h k : Endpoint B D) where
    pub add_security_headers-Agree :
        Agree P h k → Agree P (add_security_headers h) (add_security_headers k)
    unfolding add_security_headers
    add_security_headers-Agree a r x p = a r _ p

    pub check_x_headers-Agree :
        Agree (λ r t. P r t && from_page r) h k → Agree P (check_x_headers h) (check_x_headers k)
    unfolding check_x_headers
    check_x_headers-Agree a r x p = ground (arith, a r x)

    from_allowed-Agree :
        (allowed : List String) (res : Result (String × String)) (r : Request B) (x : Exchange D)
        → (listed allowed res ≡ true → h r x ≡ k r x)
        → from_allowed allowed h r res x ≡ from_allowed allowed k r res x
    unfolding throw
    from_allowed-Agree allowed (err e) r x a = refl
    from_allowed-Agree allowed (ok (scheme, host)) r x a = ground arith

    pub check_origin-Agree :
        (parse_url : String → Result (String × String)) (allowed : List String)
        → Agree (λ r t. P r t && from_origin parse_url allowed r) h k
        → Agree P (check_origin parse_url allowed h) (check_origin parse_url allowed k)
    unfolding check_origin
    check_origin-Agree parse_url allowed a r x p =
        ground (arith, a r x, from_allowed-Agree allowed (parse_url (origin_of r)) r x)

    pub insert_language-Agree :
        (default : String)
        → ((r : Request B) (t : Time) (lang : String)
            → P (record r { language = some lang }) t ≡ P r t)
        → Agree P h k
        → Agree P (insert_language default h) (insert_language default k)
    unfolding insert_language
    insert_language-Agree default still a r x p = a _ x (still r x.world.now _ ∙ p)

    pub require_authentication-Agree :
        Agree (λ r t. P r t && knows_user r.claims) h k
        → Agree P (require_authentication h) (require_authentication k)
    unfolding require_authentication
    require_authentication-Agree a r x p = ground (arith, a r x)

    pub require_role-Agree :
        (name : String)
        → Agree (λ r t. P r t && has_role name r.claims) h k
        → Agree P (require_role name h) (require_role name k)
    unfolding require_role
    require_role-Agree name a r x p = ground (arith, a r x)

    pub etag_checker-Agree :
        (hash : List (Body D) → String)
        → Agree P h k
        → Agree P (etag_checker hash h) (etag_checker hash k)
    unfolding etag_checker recorded
    etag_checker-Agree hash a r x p =
        ap (λ y. etag_checker hash (λ r. λ z. y) r x)
          (a r (record x { response = recorder x.response }) p)

    with_claims-Agree :
        (p : Platform) (r : Request B) (x : Exchange D) (token : String) (res : Result UserClaims)
        → parse_access p x.world.now token ≡ res
        → r.cookie "access_token" ≡ some token
        → r.claims ≡ none
        → P r x.world.now ≡ true
        → ((r : Request B) (t : Time) (c : UserClaims) → P (record r { claims = some c }) t ≡ P r t)
        → Agree (λ r t. P r t && true_claims p t (r.cookie "access_token") r.claims) h k
        → with_claims h r res x ≡ with_claims k r res x
    with_claims-Agree p r x token (err e) parsed there none_yet passed still a =
        ground (arith, a r x)
    with_claims-Agree p r x token (ok c) parsed there none_yet passed still a = ground (
      arith,
      a r x,
      a (record r { claims = some c }) x,
      still r x.world.now c,
      str_eq_refl c.role,
      str_eq_refl c.email,
    )

    token-Agree :
        (p : Platform) (r : Request B) (x : Exchange D) (cookie : Option String)
        → r.cookie "access_token" ≡ cookie
        → r.claims ≡ none
        → P r x.world.now ≡ true
        → ((r : Request B) (t : Time) (c : UserClaims) → P (record r { claims = some c }) t ≡ P r t)
        → Agree (λ r t. P r t && true_claims p t (r.cookie "access_token") r.claims) h k
        → with_token p h r cookie x ≡ with_token p k r cookie x
    token-Agree p r x none there none_yet passed still a = ground (arith, a r x)
    token-Agree p r x (some token) there none_yet passed still a =
        elim (Bool-cases (str_eq token "")) [
          | inl t ↦ rw t (ground (arith, a r x))
          | inr t ↦ rw t (with_claims-Agree p r x token _ refl there none_yet passed still a)
        ]

    pub parse_access_token-Agree :
        (p : Platform)
        → ((r : Request B) (t : Time) (c : UserClaims) → P (record r { claims = some c }) t ≡ P r t)
        → Agree (λ r t. P r t && true_claims p t (r.cookie "access_token") r.claims) h k
        → Agree (λ r t. P r t && is_none r.claims) (parse_access_token p h) (parse_access_token p k)
    unfolding parse_access_token
    parse_access_token-Agree p still a r x passed =
        token-Agree p r x (r.cookie "access_token") refl (ground arith) (ground arith) still a

    limited-Agree :
        (rule : Rule) (result : RateLimitResult)
        → Agree P h k
        → Agree P (λ r. limited rule result (h r)) (λ r. limited rule result (k r))
    unfolding announced
    limited-Agree rule result a r x passed = elim (Bool-cases result.allowed) [
      | inl t ↦
          rw (limited-allowed rule result (h r) x t, limited-allowed rule result (k r) x t)
            (a r (announced rule result x) passed)
      | inr t ↦
          rw (limited-refused rule result (h r) x t, limited-refused rule result (k r) x t) refl
    ]

    take_slot-now :
        (key : String) (limit window : ℕ) (w : World) → (take_slot key limit window w).1.now ≡ w.now
    unfolding take_slot
    take_slot-now key limit window w = ground arith

    -- After the call of the limiter, which leaves the clock.
    reserved-Agree :
        (rule : Rule)
        → Agree P h k
        → (r : Request B) (x : Exchange D) (out : Result RateLimitResult × World)
        → out.1.now ≡ x.world.now
        → P r x.world.now ≡ true
        → reserved rule (h r) x out ≡ reserved rule (k r) x out
    reserved-Agree rule a r x (err e, w) same passed = refl
    reserved-Agree rule a r x (ok result, w) same passed =
        limited-Agree rule result a r (record x { world = w }) (ap (P r) same ∙ passed)

    pub rate_limit-Agree :
        (p : Platform) (rule : Rule)
        → Agree P h k
        → Agree P (rate_limit p rule h) (rate_limit p rule k)
    unfolding rate_limit
    rate_limit-Agree p rule a r x passed =
        reserved-Agree rule a r x _
          (take_slot-now (limit_key p rule r) rule.limit rule.window x.world) passed
