-- ===== src/Auth/Rotation.antt =====
-- What a refresh of a session does when it succeeds.
use tesseract_go_api.Prelude.{
  sym, ap, ◌∙◌, String, ◌+◌, ◌≤◌, ◌≡◌, refl, [], ◌∷◌, ◌++◌, false, some, List, arith, find?, update,
  count,
}
use tesseract_go_api.Response.{wrapped, refresh_session}
use tesseract_go_api.Exec.{Result, ok, Exec, gets, return, ◌>>=◌}
use tesseract_go_api.Exec.Inversion.{bind_ok, catch_ok}
use tesseract_go_api.Store.{Uuid, Time, User, RefreshToken, Tables, World}
use tesseract_go_api.Store.Inversion.{transaction_ok}
use tesseract_go_api.Platform.{Platform}
use tesseract_go_api.Tokens.Queries.{
  CreateRefreshTokenParams, has_hash, is_open, consume, new_token,
}
use tesseract_go_api.Tokens.Manager.{Metadata, token_params, create_access, generate_refresh_string}
use tesseract_go_api.Users.Service as Users
use tesseract_go_api.Users.Keeps.{Keeps-get_available}
use tesseract_go_api.Tokens.Repository
use tesseract_go_api.Tokens.Closing.{replace_body-closes}
use tesseract_go_api.Auth.Service
use tesseract_go_api.Auth.Service.{Lifetimes}

-- The tokens after a rotation: the old one consumed, the new one added.
abbrev pub rotated : String → CreateRefreshTokenParams → Time → Tables → List RefreshToken
rotated h arg now db =
    update (is_open h) (consume now) db.tokens ++ new_token arg db.next_id now ∷ []

replace_body_ok :
    (h : String) (arg : CreateRefreshTokenParams) (w w' : World)
    → Repository.replace_body h arg w ≡ (ok tt, w')
    → w'.db.tokens ≡ rotated h arg w.now w.db
unfolding Repository.replace_body
replace_body_ok h arg w w' e = ground arith

replace_ok :
    (h : String) (arg : CreateRefreshTokenParams) (w w' : World)
    → Repository.replace_in_transaction h arg w ≡ (ok tt, w')
    → (w'.db.tokens ≡ rotated h arg w.now w.db) × (w'.now ≡ w.now)
unfolding Repository.replace_in_transaction
replace_ok h arg w w' e = ground arith

or_refused_ok :
    {A : Type 0} (m : Exec World A) (w w' : World) {a : A}
    → Service.or_refused m w ≡ (ok a, w')
    → m w ≡ (ok a, w')
unfolding Service.or_refused
or_refused_ok m w w' e = catch_ok m (wrapped refresh_session) w e

replace-closes :
    (h : String) (arg : CreateRefreshTokenParams) (w w' : World)
    → Repository.replace_in_transaction h arg w ≡ (ok tt, w')
    → count (is_open h) w'.db.tokens ≡ 0
replace-closes h arg w w' e =
    let (os, v, body, end) =
      transaction_ok (Repository.replace_body h arg) w w' {a = tt}
        (unfold Repository.replace_in_transaction in e) in
    cc (replace_body-closes h arg (record w { outcomes = os }) v body, end)

module _ (p : Platform) (ttl : Lifetimes) where
  -- The parameters of the token that takes the place of `t`.
  abbrev pub successor : RefreshToken → Metadata → World → CreateRefreshTokenParams
  successor t meta w =
      token_params t.user_id (p.sha256_hex (p.random_hex w.drawn)) (w.now + ttl.refresh_ttl) meta

  replace_or_end_ok :
      (t : RefreshToken) (old new : String) (meta : Metadata) (w w' : World)
      → Service.replace_or_end p ttl t old new meta w ≡ (ok tt, w')
      → w'.db.tokens
        ≡ rotated old (token_params t.user_id new (w.now + ttl.refresh_ttl) meta) w.now w.db
  unfolding Service.replace_or_end
  replace_or_end_ok t old new meta w w' e = ground arith

  replace_or_end-closes :
      (t : RefreshToken) (old new : String) (meta : Metadata) (w w' : World)
      → Service.replace_or_end p ttl t old new meta w ≡ (ok tt, w')
      → count (is_open old) w'.db.tokens ≡ 0
  unfolding Service.replace_or_end
  replace_or_end-closes t old new meta w w' e =
      replace-closes old (token_params t.user_id new (w.now + ttl.refresh_ttl) meta) w w'
        (ground arith)

  generate_ok :
      (w w' : World) (new : String)
      → Service.or_refused (generate_refresh_string p) w ≡ (ok new, w')
      → (new ≡ p.random_hex w.drawn) × (w'.db ≡ w.db) × (w'.now ≡ w.now)
  unfolding Service.or_refused generate_refresh_string
  generate_ok w w' new e = (ground arith, ground arith, ground arith)

  get_user_ok :
      (u : Uuid) (w w' : World) (user : User)
      → Service.or_refused (Users.get_available u) w ≡ (ok user, w')
      → w'.db ≡ w.db
  get_user_ok u w w' user e =
      ap (λ (r : Result User × World). r.1.db) (sym (or_refused_ok _ w w' e))
      ∙ (Keeps-get_available {P = λ db. db ≡ w.db} u).at w refl

  issued :
      (u : User) (drawn : String) (w w' : World) (access new : String)
      → (◌>>=◌ {B = String × String}
            (gets (λ (w : World). w.now))
            λ now. return (create_access p u.id u.role u.email ttl.access_ttl now, drawn))
          w
        ≡ (ok (access, new), w')
      → (new ≡ drawn) × (w' ≡ w)
  unfolding ◌>>=◌
  issued u drawn w w' access new e = (ground arith, ground arith)

  pub rotate_ok :
      (old : String) (t : RefreshToken) (meta : Metadata) (w w' : World) (access new : String)
      → Service.rotate p ttl old t meta w ≡ (ok (access, new), w')
      → (new ≡ p.random_hex w.drawn)
        × (w'.db.tokens ≡ rotated (p.sha256_hex old) (successor t meta w) w.now w.db)
        × (count (is_open (p.sha256_hex old)) w'.db.tokens ≡ 0)
  unfolding Service.rotate
  rotate_ok old t meta w w' access new e =
      let (drawn, w₁, made, e₁) = bind_ok _ _ w e in
      let (_, w₂, replaced, e₂) = bind_ok _ _ w₁ e₁ in
      let (user, w₃, found, e₃) = bind_ok _ _ w₂ e₂ in
      let (same, still) = issued user drawn w₃ w' access new e₃ in
      let (fresh, db₁, now₁) = generate_ok w w₁ drawn made in
      let tokens₂ = replace_or_end_ok t _ _ meta w₁ w₂ replaced in
      let db₃ = get_user_ok t.user_id w₂ w₃ user found in
      let closed = replace_or_end-closes t _ _ meta w₁ w₂ replaced in
      (same ∙ fresh, cc (tokens₂, db₃, db₁, now₁, still, fresh), cc (closed, db₃, still))

  pub exchange_ok :
      (old : String) (t : RefreshToken) (meta : Metadata) (w w' : World) (access new : String)
      → Service.exchange p ttl old t meta w ≡ (ok (access, new), w')
      → (t.is_consumed ≡ false)
        × (w.now ≤ t.expires_at)
        × (Service.rotate p ttl old t meta w ≡ (ok (access, new), w'))
  unfolding Service.exchange Service.reuse ◌>>=◌
  exchange_ok old t meta w w' access new e = (ground arith, ground arith, ground arith)

  get_by_hash_ok :
      (h : String) (w w' : World) (t : RefreshToken)
      → Service.or_refused (Repository.get_by_hash h) w ≡ (ok t, w')
      → (find? (has_hash h) w.db.tokens ≡ some t) × (w' ≡ record w { outcomes = w'.outcomes })
  unfolding Service.or_refused Repository.get_by_hash
  get_by_hash_ok h w w' t e = (ground arith, ground arith)

  -- A refresh that succeeds, whatever failed or succeeded on the way, found the row of the old
  -- token, which was not consumed and had not expired; the new refresh token is the random text
  -- drawn; and the tokens afterwards are those before with the old one consumed now, and one new
  -- row for the same user with the hash of the new token, which expires a refresh lifetime from
  -- now. Nothing else of the tokens changed.
  pub refresh_session-rotates :
      (old : String) (meta : Metadata) (w w' : World) (access new : String)
      → Service.refresh_session p ttl old meta w ≡ (ok (access, new), w')
      → (t : RefreshToken) × (find? (has_hash (p.sha256_hex old)) w.db.tokens ≡ some t)
        × (t.is_consumed ≡ false)
        × (w.now ≤ t.expires_at)
        × (new ≡ p.random_hex w.drawn)
        × (w'.db.tokens ≡ rotated (p.sha256_hex old) (successor t meta w) w.now w.db)
  unfolding Service.refresh_session
  refresh_session-rotates old meta w w' access new e =
      let (t, v, read, rest) = bind_ok _ _ w e in
      let (there, same) = get_by_hash_ok _ w v t read in
      let (live, fresh, rotation) = exchange_ok old t meta v w' access new rest in
      let (drawn, tokens, _) = rotate_ok old t meta v w' access new rotation in
      let now = ap (λ (x : World). x.now) same in
      let draws = ap (λ (x : World). x.drawn) same in
      let db = ap (λ (x : World). x.db) same in
      (t, there, live, omega (arith, now, fresh), cc (drawn, draws), cc (tokens, now, draws, db))
