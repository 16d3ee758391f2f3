-- ===== src/Auth/Answer.antt =====
-- internal/platform/auth/handler.go: what a client receives for a refresh of its session.
use tesseract_go_api.Prelude.{
  String, ◌≡◌, ◌≤◌, refl, ap, ◌∙◌, ◌⊎◌, inl, inr, if◌then◌else◌, [], ◌∷◌, true, false, some, arith,
  find?,
}
use tesseract_go_api.Response.{Error, status, answered, is_grace_period}
use tesseract_go_api.Exec.{Result, ok, err}
use tesseract_go_api.Store.{RefreshToken, World}
use tesseract_go_api.Platform.{Platform}
use tesseract_go_api.Tokens.Queries.{has_hash}
use tesseract_go_api.Http.{
  Request, Response, Exchange, fresh, error_body, meta_of, run, write_error, write_header,
  set_cookie,
}
use tesseract_go_api.Http.Cookies as Cookies
use tesseract_go_api.Auth.Service
use tesseract_go_api.Auth.Rotation.{refresh_session-rotates, rotated, successor}
use tesseract_go_api.Auth.Handler
use tesseract_go_api.Auth.Handler.{AuthData, Config}

-- Two new cookies.
abbrev pub renewal : Config → String → String → Response AuthData
renewal c access new = record fresh {
  cookies = Cookies.access_cookie c.cookies access ∷ Cookies.refresh_cookie c.cookies new ∷ [];
}

-- An error, with two cookies that end at once.
abbrev pub refusal : Error → Response AuthData
refusal e = record fresh {
  status = status e;
  bodies = error_body (answered e) ∷ [];
  cookies = Cookies.unset_access ∷ Cookies.unset_refresh ∷ [];
}

abbrev reply : Config → Result (String × String) → Response AuthData
reply c (ok (access, new)) = renewal c access new
reply c (err e) = if is_grace_period e then fresh else refusal e

module _ (p : Platform) (c : Config) (B : Type 0) where
  -- The answer depends on what the service returns alone.
  refresh_session-reply :
      (r : Request B) (old : String) (w : World)
      → r.cookie "refresh_token" ≡ some old
      → let (result, w') = Service.refresh_session p c.ttl old (meta_of r) w in
        run (Handler.refresh_session p c B r) w ≡ record { world = w'; response = reply c result }
  unfolding run Handler.refresh_session write_error write_header set_cookie
  refresh_session-reply r old w cookie = ground arith

  -- New cookies with a rotation, or what the service's error calls for.
  abbrev pub Answered : Request B → String → World → Exchange AuthData → Type 0
  Answered r old w x =
      ((t : RefreshToken) × (access : String) × (find? (has_hash (p.sha256_hex old)) w.db.tokens
          ≡ some t)
        × (t.is_consumed ≡ false)
        × (w.now ≤ t.expires_at)
        × (x.world.db.tokens
            ≡ rotated (p.sha256_hex old) (successor p c.ttl t (meta_of r) w) w.now w.db)
        × (x.response ≡ renewal c access (p.random_hex w.drawn)))
      ⊎ ((e : Error) × ((Service.refresh_session p c.ttl old (meta_of r) w).0 ≡ err e)
          × (((is_grace_period e ≡ true) × (x.response ≡ fresh))
              ⊎ ((is_grace_period e ≡ false) × (x.response ≡ refusal e))))

  refused :
      (e : Error) (response : Response AuthData)
      → response ≡ reply c (err e)
      → ((is_grace_period e ≡ true) × (response ≡ fresh))
        ⊎ ((is_grace_period e ≡ false) × (response ≡ refusal e))
  refused e response same = ground arith

  by_result :
      (r : Request B) (old : String) (w : World) (x : Exchange AuthData)
      (result : Result (String × String)) (w' : World)
      → Service.refresh_session p c.ttl old (meta_of r) w ≡ (result, w')
      → x ≡ record { world = w'; response = reply c result }
      → Answered r old w x
  by_result r old w x (ok (access, new)) w' e same =
      let (t, found, live, in_time, drawn, tokens) =
        refresh_session-rotates p c.ttl old (meta_of r) w w' access new e in
      inl (
        t,
        access,
        found,
        live,
        in_time,
        ap (λ (y : Exchange AuthData). y.world.db.tokens) same ∙ tokens,
        ap (λ (y : Exchange AuthData). y.response) same ∙ ap (λ n. renewal c access n) drawn,
      )
  by_result r old w x (err e) w' failed same = inr (
    e,
    ap (λ (y : Result (String × String) × World). y.0) failed,
    refused e x.response (ap (λ (y : Exchange AuthData). y.response) same),
  )

  -- Whatever fails, a client that presents a refresh token receives either two new cookies, where the
  -- row of its token was found, not consumed and not expired, and the tokens afterwards are the
  -- rotation of that row, the new refresh cookie being the random text whose hash the rotation adds;
  -- or, where the service fails, a response with nothing in it if its error is the grace period, and
  -- else the error and two cookies that end at once.
  pub refresh_session-answer :
      (r : Request B) (old : String) (w : World)
      → r.cookie "refresh_token" ≡ some old
      → Answered r old w (run (Handler.refresh_session p c B r) w)
  refresh_session-answer r old w cookie =
      by_result r old w (run (Handler.refresh_session p c B r) w)
        (Service.refresh_session p c.ttl old (meta_of r) w).0
        (Service.refresh_session p c.ttl old (meta_of r) w).1 refl
        (refresh_session-reply r old w cookie)
