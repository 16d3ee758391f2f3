-- ===== src/Auth/Reuse.antt =====
-- internal/platform/auth/service.go: a refresh token that is presented again, and two requests that
-- refresh with one token at the same time.
use tesseract_go_api.Prelude.{
  String, ◌+◌, ◌≤◌, ◌<◌, ◌*◌, ◌⊎◌, inl, inr, Bool-cases, ap, ◌∙◌, refl, List, update, ◌∷◌, ◌++◌,
  ◌≡◌, [], true, false, not, some, arith, find?, any, filter, count, any-filter_self,
}
use tesseract_go_api.Response.{
  sentinel, wrapped, token_consumed, token_grace_period, refresh_session,
}
use tesseract_go_api.Exec.{ok, err}
use tesseract_go_api.Store.{Uuid, Time, seconds, RefreshToken, World}
use tesseract_go_api.Platform.{Platform}
use tesseract_go_api.Tokens.Queries.{has_hash, of_user, is_open, consume}
use tesseract_go_api.Tokens.Manager.{Metadata, generate_refresh_string}
use tesseract_go_api.Tokens.Repository
use tesseract_go_api.Auth.Service
use tesseract_go_api.Auth.Rotation.{exchange_ok, rotate_ok, refresh_session-rotates}
use tesseract_go_api.Auth.Service.{Lifetimes, in_grace}

-- The world without the tokens of a user.
abbrev pub without_user : Uuid → World → World
without_user u w = record w {
  db = record w.db { tokens = filter (λ t. not (of_user u t)) w.db.tokens };
}

module _ (p : Platform) (ttl : Lifetimes) where
  refresh_session-in_grace :
      (old : String) (meta : Metadata) (w : World) (t : RefreshToken)
      → w.outcomes ≡ []
      → find? (has_hash (p.sha256_hex old)) w.db.tokens ≡ some t
      → t.is_consumed ≡ true
      → w.now ≤ t.expires_at
      → in_grace w.now t.updated_at ≡ true
      → Service.refresh_session p ttl old meta w ≡ (err (sentinel token_grace_period), w)
  unfolding Service.refresh_session Service.or_refused Repository.get_by_hash Service.exchange
      Service.reuse
  refresh_session-in_grace old meta w t calm found consumed fresh grace = ground arith

  -- Where no external call fails, a token that is found, is consumed and has not expired, and whose
  -- consumption lies outside of the grace period, ends all sessions of its user: the answer is the
  -- error for a consumed token, and all tokens of the user are deleted.
  pub refresh_session-after_grace :
      (old : String) (meta : Metadata) (w : World) (t : RefreshToken)
      → w.outcomes ≡ []
      → find? (has_hash (p.sha256_hex old)) w.db.tokens ≡ some t
      → t.is_consumed ≡ true
      → w.now ≤ t.expires_at
      → in_grace w.now t.updated_at ≡ false
      → Service.refresh_session p ttl old meta w
        ≡ (err (sentinel token_consumed), without_user t.user_id w)
  unfolding Service.refresh_session Service.or_refused Repository.get_by_hash Service.exchange
      Service.reuse
  refresh_session-after_grace old meta w t calm found consumed fresh late = ground arith

  -- Where no external call fails, a request that goes on from a row which another request has
  -- consumed in between ends all sessions of the user.
  lost_race :
      (old : String) (meta : Metadata) (w : World) (t : RefreshToken)
      → w.outcomes ≡ []
      → t.is_consumed ≡ false
      → w.now ≤ t.expires_at
      → count (is_open (p.sha256_hex old)) w.db.tokens ≡ 0
      → Service.exchange p ttl old t meta w ≡ (
        err (wrapped refresh_session (sentinel token_consumed)),
        record (without_user t.user_id w) { drawn = w.drawn + 1 },
      )
  unfolding Service.exchange Service.rotate Service.or_refused generate_refresh_string
      Service.replace_or_end
  lost_race old meta w t calm live fresh closed = ground arith

  -- Two requests read the row of one token before either goes on. If the first one succeeds, no
  -- call of the second one fails and the token has not expired by then, the second is refused and
  -- deletes all tokens of the user, also the one that the first request has just been given.
  pub exchange_race :
      (old : String) (first second : Metadata) (w v : World) (t : RefreshToken)
      (access new : String)
      → Service.exchange p ttl old t first w ≡ (ok (access, new), v)
      → v.outcomes ≡ []
      → v.now ≤ t.expires_at
      → (Service.exchange p ttl old t second v ≡ (
        err (wrapped refresh_session (sentinel token_consumed)),
        record (without_user t.user_id v) { drawn = v.drawn + 1 },
      ))
        × (any (of_user t.user_id) (without_user t.user_id v).db.tokens ≡ false)
  exchange_race old first second w v t access new won calm fresh =
      let (live, _, rotation) = exchange_ok p ttl old t first w v access new won in
      let (_, _, closed) = rotate_ok p ttl old t first w v access new rotation in
      (
        lost_race old second v t calm live fresh closed,
        any-filter_self (of_user t.user_id) _ v.db.tokens (λ x e. ground arith),
      )

  -- The row of a token after its rotation.
  consumed_found :
      (h : String) (now : Time) (ts more : List RefreshToken) (t : RefreshToken)
      → find? (has_hash h) ts ≡ some t
      → t.is_consumed ≡ false
      → find? (has_hash h) (update (is_open h) (consume now) ts ++ more) ≡ some (consume now t)
  consumed_found h now [] more t found live = ground arith
  consumed_found h now (x ∷ xs) more t found live = ground (arith, consumed_found h now xs more t)

  -- A token that was refreshed is presented again, at a time when no call fails, it has not expired
  -- and the tokens are still those that the refresh left. Less than five seconds after the refresh
  -- nothing happens, and the answer is the grace error; later all tokens of the user are deleted,
  -- also the one that the refresh gave, and the answer is the error for a consumed token.
  pub refresh_session-again :
      (old access new : String) (first second : Metadata) (w w' v : World) (t : RefreshToken)
      → Service.refresh_session p ttl old first w ≡ (ok (access, new), w')
      → find? (has_hash (p.sha256_hex old)) w.db.tokens ≡ some t
      → v.db.tokens ≡ w'.db.tokens
      → v.outcomes ≡ []
      → v.now ≤ t.expires_at
      → ((v.now < w.now + 5 * seconds)
          × (Service.refresh_session p ttl old second v ≡ (err (sentinel token_grace_period), v)))
        ⊎ ((w.now + 5 * seconds ≤ v.now)
            × (Service.refresh_session p ttl old second v
                ≡ (err (sentinel token_consumed), without_user t.user_id v))
            × (any (of_user t.user_id) (without_user t.user_id v).db.tokens ≡ false))
  refresh_session-again old access new first second w w' v t done found still calm fresh =
      let (row, there, live, _, _, tokens) =
        refresh_session-rotates p ttl old first w w' access new done in
      let h = p.sha256_hex old in
      let same : row ≡ t = ground (arith, there, found) in
      let open_row : t.is_consumed ≡ false = cc (live, same) in
      let spent : find? (has_hash h) v.db.tokens ≡ some (consume w.now t) =
        ap (find? (has_hash h)) (still ∙ tokens)
        ∙ consumed_found h w.now w.db.tokens _ t found open_row in
      elim (Bool-cases (in_grace v.now (some w.now))) [
        | inl early ↦ inl (
          ground (arith, early),
          refresh_session-in_grace old second v (consume w.now t) calm spent refl fresh early,
        )
        | inr late ↦ inr (
          ground (arith, late),
          refresh_session-after_grace old second v (consume w.now t) calm spent refl fresh late,
          any-filter_self (of_user t.user_id) _ v.db.tokens (λ x e. ground arith),
        )
      ]
