-- ===== src/Middleware/Access.antt =====
-- What stands behind the checks of the access token and of the role.
use tesseract_go_api.Prelude.{
  String, true, false, none, some, ◌≡◌, ◌≢◌, ◌⊎◌, inl, inr, refl, ap, ◌∙◌, eq_iff, Option-cases,
  arith, str_eq, ◌==◌, Bool-cases,
}
use tesseract_go_api.Response.{status}
use tesseract_go_api.Exec.{Result, ok, err}
use tesseract_go_api.Store.{World}
use tesseract_go_api.Platform.{Platform}
use tesseract_go_api.Tokens.Manager.{UserClaims, parse_access}
use tesseract_go_api.Http.{Request, Handler, run, set_cookie}
use tesseract_go_api.Middleware.{
  Endpoint, dead_token, with_claims, is_auth_exception, parse_access_token, require_role,
}

module _ {B D : Type 0} (p : Platform) (role : String) (next : Endpoint B D) where
  -- The token and the role, which the administrator's routes ask for.
  abbrev pub guarded : Endpoint B D
  guarded = parse_access_token p (require_role role next)

  -- The handlers behind the token.
  abbrev checked : Endpoint B D
  checked = require_role role next

  -- The world stays, and the answer is 401 or 403.
  abbrev pub Refused : Handler D → World → Type 0
  Refused h w =
      ((run h w).world ≡ w)
      × (((run h w).response.status ≡ 401) ⊎ ((run h w).response.status ≡ 403))

  -- The handler runs with claims that the access token gave.
  abbrev pub Granted : Request B → Handler D → World → Type 0
  Granted r h w =
      (c : UserClaims) × (token : String) × (r.cookie "access_token" ≡ some token)
      × (parse_access p w.now token ≡ ok c)
      × (c.user_id ≢ 0)
      × (str_eq c.role role ≡ true)
      × (run h w ≡ run (next (record r { claims = some c })) w)

  module _ (r : Request B) (w : World) (none_yet : r.claims ≡ none) where
    -- Two handlers with the same run.
    carry :
        (h k : Handler D)
        → run h w ≡ run k w
        → Granted r k w ⊎ Refused k w
        → Granted r h w ⊎ Refused h w
    carry h k same (inl (c, token, there, parsed, id, is_role, runs)) =
        inl (c, token, there, parsed, id, is_role, same ∙ runs)
    carry h k same (inr (world, code)) = inr (rw same world, rw same code)

    no_claims-Refused : Refused (checked r) w
    unfolding run require_role status
    no_claims-Refused = (ground arith, inl (ground arith))

    dead_token-Refused : Refused (dead_token checked r) w
    unfolding run set_cookie status
    dead_token-Refused = elim (Bool-cases (is_auth_exception r.path)) [
      | inl t ↦ rw t no_claims-Refused
      | inr t ↦ rw t (refl, inl refl)
    ]

    role_checked :
        (token : String) (c : UserClaims)
        → r.cookie "access_token" ≡ some token
        → parse_access p w.now token ≡ ok c
        → (c.user_id == 0) ≡ false
        → Granted r (checked (record r { claims = some c })) w
          ⊎ Refused (checked (record r { claims = some c })) w
    unfolding run require_role status
    role_checked token c there parsed known = elim (Bool-cases (str_eq c.role role)) [
      | inl t ↦ inl (c, token, there, parsed, (λ e. ground arith), t, ground arith)
      | inr t ↦ inr (ground arith, inr (ground arith))
    ]

    token_checked :
        (token : String) (res : Result UserClaims)
        → r.cookie "access_token" ≡ some token
        → parse_access p w.now token ≡ res
        → Granted r (with_claims checked r res) w ⊎ Refused (with_claims checked r res) w
    token_checked token (err e) there parsed = inr dead_token-Refused
    token_checked token (ok c) there parsed = elim (Bool-cases (c.user_id == 0)) [
      | inl t ↦ rw t (inr dead_token-Refused)
      | inr t ↦ rw t (role_checked token c there parsed t)
    ]

    guarded-with_claims :
        (token : String)
        → r.cookie "access_token" ≡ some token
        → str_eq token "" ≡ false
        → run (guarded r) w ≡ run (with_claims checked r (parse_access p w.now token)) w
    unfolding run parse_access_token
    guarded-with_claims token there filled = ground arith

    guarded-checked :
        (r.cookie "access_token" ≡ none) ⊎ (r.cookie "access_token" ≡ some "")
        → run (guarded r) w ≡ run (checked r) w
    unfolding run parse_access_token
    guarded-checked (inl e) = ground arith
    guarded-checked (inr e) = ground arith

    -- A request without claims of its own meets the handler only with the claims of an access
    -- token that is read back at this time, of a user with an id and with the role; else the world
    -- stays as it is, and the answer has the status 401 or 403.
    pub guarded-run : Granted r (guarded r) w ⊎ Refused (guarded r) w
    guarded-run = elim (Option-cases (r.cookie "access_token")) [
      | inl e ↦ carry (guarded r) (checked r) (guarded-checked (inl e)) (inr no_claims-Refused)
      | inr (token, e) ↦ elim (Bool-cases (str_eq token "")) [
        | inl t ↦
            carry (guarded r) (checked r)
              (guarded-checked (inr (e ∙ ap some ((eq_iff token "").0 t)))) (inr no_claims-Refused)
        | inr t ↦
            carry (guarded r) (with_claims checked r (parse_access p w.now token))
              (guarded-with_claims token e t)
              (token_checked token (parse_access p w.now token) e refl)
      ]
    ]
