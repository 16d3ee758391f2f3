-- ===== src/Auth/Success.antt =====
-- internal/platform/auth/service.go: when a refresh of a session succeeds.
use tesseract_go_api.Prelude.{
  String, ◌+◌, ◌≤◌, ◌≡◌, ◌≢◌, refl, ap, ◌∙◌, [], ◌∷◌, true, false, some, List, arith, find?, update,
  count, any, ◌==◌, ◌&&◌,
}
use tesseract_go_api.Exec.{Exec, ok, ◌>>=◌}
use tesseract_go_api.Exec.Inversion.{bind_run}
use tesseract_go_api.Store.{Time, User, RefreshToken, Tables, World}
use tesseract_go_api.Platform.{Platform}
use tesseract_go_api.Tokens.Queries.{CreateRefreshTokenParams, has_hash, is_open, consume}
use tesseract_go_api.Tokens.Manager.{Metadata, token_params, create_access, generate_refresh_string}
use tesseract_go_api.Tokens.Repository
use tesseract_go_api.Users.Queries.{has_id, is_live}
use tesseract_go_api.Users.Reading.{live_found, get_available_run}
use tesseract_go_api.Auth.Service
use tesseract_go_api.Auth.Service.{Lifetimes}
use tesseract_go_api.Auth.Rotation.{rotated, successor}

open_found :
    (h : String) (ts : List RefreshToken) (t : RefreshToken)
    → find? (has_hash h) ts ≡ some t
    → t.is_consumed ≡ false
    → count (is_open h) ts ≢ 0
open_found h [] t found live = ground arith
open_found h (x ∷ xs) t found live = ground (arith, open_found h xs t)

any-hash-update :
    (h k : String) (now : Time) (ts : List RefreshToken)
    → any (has_hash k) (update (is_open h) (consume now) ts) ≡ any (has_hash k) ts
any-hash-update h k now [] = refl
any-hash-update h k now (t ∷ ts) = ground (arith, any-hash-update h k now ts)

-- The world after a replacement.
abbrev replaced : String → CreateRefreshTokenParams → World → World
replaced h arg w = record w {
  db = record w.db { tokens = rotated h arg w.now w.db; next_id = w.db.next_id + 1 };
}

replace_run :
    (h : String) (arg : CreateRefreshTokenParams) (w : World)
    → w.outcomes ≡ []
    → count (is_open h) w.db.tokens ≢ 0
    → any (has_hash arg.token_hash) w.db.tokens ≡ false
    → any (λ u. u.id == arg.user_id) w.db.users ≡ true
    → Repository.replace_in_transaction h arg w ≡ (ok tt, replaced h arg w)
unfolding Repository.replace_in_transaction Repository.replace_body
replace_run h arg w calm held free there =
    ground (arith, any-hash-update h arg.token_hash w.now w.db.tokens)

drawn_run :
    (p : Platform) (w : World)
    → w.outcomes ≡ []
    → Service.or_refused (generate_refresh_string p) w
      ≡ (ok (p.random_hex w.drawn), record w { drawn = w.drawn + 1 })
unfolding Service.or_refused generate_refresh_string
drawn_run p w calm = ground arith

or_refused_run :
    {A : Type 0} (m : Exec World A) (w w' : World) {a : A}
    → m w ≡ (ok a, w')
    → Service.or_refused m w ≡ (ok a, w')
unfolding Service.or_refused
or_refused_run m w w' e = ground arith

module _ (p : Platform) (ttl : Lifetimes) where
  replace_or_end_run :
      (t : RefreshToken) (old new : String) (meta : Metadata) (w : World)
      → w.outcomes ≡ []
      → count (is_open old) w.db.tokens ≢ 0
      → any (has_hash new) w.db.tokens ≡ false
      → any (λ u. u.id == t.user_id) w.db.users ≡ true
      → Service.replace_or_end p ttl t old new meta w
        ≡ (ok tt, replaced old (token_params t.user_id new (w.now + ttl.refresh_ttl) meta) w)
  unfolding Service.replace_or_end
  replace_or_end_run t old new meta w calm held free there =
      let arg = token_params t.user_id new (w.now + ttl.refresh_ttl) meta in
      ground (arith, replace_run old arg w calm held free there)

  rotate_run :
      (old : String) (meta : Metadata) (w : World) (t : RefreshToken) (user : User)
      → w.outcomes ≡ []
      → count (is_open (p.sha256_hex old)) w.db.tokens ≢ 0
      → find? (λ u. has_id t.user_id u && is_live u) w.db.users ≡ some user
      → any (has_hash (p.sha256_hex (p.random_hex w.drawn))) w.db.tokens ≡ false
      → (access : String) × (w' : World) × (Service.rotate p ttl old t meta w
          ≡ (ok (access, p.random_hex w.drawn), w'))
        × (w'.db.tokens ≡ rotated (p.sha256_hex old) (successor p ttl t meta w) w.now w.db)
  unfolding Service.rotate
  rotate_run old meta w t user calm held account free =
      let there = live_found t.user_id w.db.users user account in
      let w₁ = record w { drawn = w.drawn + 1 } in
      let w₂ = replaced (p.sha256_hex old) (successor p ttl t meta w) w₁ in
      let (read, w', run, same) = get_available_run t.user_id w₂ user calm account in
      (
        create_access p read.id read.role read.email ttl.access_ttl w'.now,
        w',
        bind_run _ _ w w₁ (drawn_run p w calm)
            ∙ bind_run _ _ w₁ w₂ (
                replace_or_end_run t (p.sha256_hex old) (p.sha256_hex (p.random_hex w.drawn)) meta
                  w₁ calm held free there)
            ∙ bind_run _ _ w₂ w' (or_refused_run _ w₂ w' run)
            ∙ unfold ◌>>=◌ in refl,
        ap (λ (db : Tables). db.tokens) same,
      )

  found_run :
      (h : String) (w : World) (t : RefreshToken)
      → w.outcomes ≡ []
      → find? (has_hash h) w.db.tokens ≡ some t
      → Service.or_refused (Repository.get_by_hash h) w ≡ (ok t, w)
  unfolding Service.or_refused Repository.get_by_hash
  found_run h w t calm found = ground arith

  exchange_run :
      (old : String) (meta : Metadata) (w : World) (t : RefreshToken)
      → t.is_consumed ≡ false
      → w.now ≤ t.expires_at
      → Service.exchange p ttl old t meta w ≡ Service.rotate p ttl old t meta w
  unfolding Service.exchange ◌>>=◌
  exchange_run old meta w t live fresh = ground arith

  -- A refresh with a token that is found, is not consumed and has not expired, of a user whose account
  -- is found, succeeds where no external call fails and the hash of the random text that is drawn is
  -- not taken: the text is the new refresh token.
  pub refresh_session-succeeds :
      (old : String) (meta : Metadata) (w : World) (t : RefreshToken) (user : User)
      → w.outcomes ≡ []
      → find? (has_hash (p.sha256_hex old)) w.db.tokens ≡ some t
      → t.is_consumed ≡ false
      → w.now ≤ t.expires_at
      → find? (λ u. has_id t.user_id u && is_live u) w.db.users ≡ some user
      → any (has_hash (p.sha256_hex (p.random_hex w.drawn))) w.db.tokens ≡ false
      → (access : String) × (w' : World) × (Service.refresh_session p ttl old meta w
          ≡ (ok (access, p.random_hex w.drawn), w'))
        × (w'.db.tokens ≡ rotated (p.sha256_hex old) (successor p ttl t meta w) w.now w.db)
  unfolding Service.refresh_session
  refresh_session-succeeds old meta w t user calm found live fresh account free =
      let held = open_found (p.sha256_hex old) w.db.tokens t found live in
      let (access, w', run, tokens) = rotate_run old meta w t user calm held account free in
      (
        access,
        w',
        bind_run _ _ w w (found_run (p.sha256_hex old) w t calm found)
            ∙ exchange_run old meta w t live fresh
            ∙ run,
        tokens,
      )
