-- ===== src/Tokens/Closing.antt =====
-- The old token in a replacement of a refresh token.
use tesseract_go_api.Prelude.{
  ℕ, String, ◌≡◌, ◌≢◌, refl, ◌∙◌, inl, inr, [], ◌∷◌, ◌++◌, Bool, false, List, arith, update, any,
  count, str_eq, eq_iff, Bool-cases,
}
use tesseract_go_api.Exec.{ok}
use tesseract_go_api.Store.{Time, RefreshToken, World}
use tesseract_go_api.Tokens.Queries.{
  CreateRefreshTokenParams, has_hash, is_open, consume, new_token,
}
use tesseract_go_api.Tokens.Repository

count-update_consumed :
    (h : String) (now : Time) (ts : List RefreshToken)
    → count (is_open h) (update (is_open h) (consume now) ts) ≡ 0
count-update_consumed h now [] = refl
count-update_consumed h now (t ∷ ts) = ground (arith, count-update_consumed h now ts)

count-append_one :
    (q : RefreshToken → Bool) (ts : List RefreshToken) (t : RefreshToken)
    → q t ≡ false
    → count q (ts ++ t ∷ []) ≡ count q ts
count-append_one q [] t e = ground arith
count-append_one q (s ∷ ts) t e = ground (arith, count-append_one q ts t)

-- A row that was open still has its hash after it is consumed.
any-update_consumed :
    (h : String) (now : Time) (ts : List RefreshToken)
    → any (has_hash h) (update (is_open h) (consume now) ts) ≡ false
    → count (is_open h) ts ≡ 0
any-update_consumed h now [] e = refl
any-update_consumed h now (t ∷ ts) e = ground (arith, any-update_consumed h now ts)

-- The new hash is not the old one: an open row had the old hash, and hashes are unique.
no_open_left :
    (h : String) (arg : CreateRefreshTokenParams) (id now : ℕ) (ts : List RefreshToken)
    → count (is_open h) ts ≢ 0
    → any (has_hash arg.token_hash) (update (is_open h) (consume now) ts) ≡ false
    → count (is_open h) (update (is_open h) (consume now) ts ++ new_token arg id now ∷ []) ≡ 0
no_open_left h arg id now ts held free = elim (Bool-cases (str_eq arg.token_hash h)) [
  | inl same ↦
      let e : arg.token_hash ≡ h = (eq_iff _ _).0 same in
      absurd (held (any-update_consumed h now ts (rw e at free)))
  | inr other ↦
      count-append_one (is_open h) _ (new_token arg id now) (ground arith)
      ∙ count-update_consumed h now ts
]

-- After a replacement that succeeds no open row has the old hash.
pub replace_body-closes :
    (h : String) (arg : CreateRefreshTokenParams) (w w' : World)
    → Repository.replace_body h arg w ≡ (ok tt, w')
    → count (is_open h) w'.db.tokens ≡ 0
unfolding Repository.replace_body
replace_body-closes h arg w w' e = ground (arith, no_open_left h arg w.db.next_id w.now w.db.tokens)
