-- ===== src/Tokens/Sessions.antt =====
-- Sessions: the cleanup of the worker, the end of the other sessions, and the access token.
use tesseract_go_api.Prelude.{
  String, Bool, true, false, not, List, [], ◌∷◌, some, ◌≡◌, ◌≢◌, refl, ◌+◌, ◌<◌, arith, ◌&&◌,
  str_eq, filter,
}
use tesseract_go_api.Exec.{ok}
use tesseract_go_api.Store.{Uuid, Time, RefreshToken, World}
use tesseract_go_api.Platform.{Platform}
use tesseract_go_api.Tokens.Queries.{of_user, has_hash, is_other}
use tesseract_go_api.Tokens.Manager.{whole_seconds, access_token, create_access, parse_access}
use tesseract_go_api.Tokens.Repository

-- Rows that a deletion does not meet are still selected.
pub filter_spared :
    (p q : RefreshToken → Bool) (ts : List RefreshToken)
    → ((t : RefreshToken) → p t ≡ true → q t ≡ false)
    → filter p (filter (λ t. not (q t)) ts) ≡ filter p ts
filter_spared p q [] h = refl
filter_spared p q (t ∷ ts) h = ground (arith, h t, filter_spared p q ts h)

-- Where the call succeeds: the end of the other sessions leaves of the user's tokens those with the
-- current hash, and all tokens of other users.
pub delete_other_for_user-keeps :
    (u : Uuid) (h : String) (w w' : World)
    → Repository.delete_other_for_user u h w ≡ (ok tt, w')
    → (filter (of_user u) w'.db.tokens ≡ filter (λ t. of_user u t && has_hash h t) w.db.tokens)
      × (filter (λ t. not (of_user u t)) w'.db.tokens ≡ filter (λ t. not (of_user u t)) w.db.tokens)
unfolding Repository.delete_other_for_user
delete_other_for_user-keeps u h w w' e = (
  ground (arith, current w.db.tokens),
  ground (
    arith,
    filter_spared (λ t. not (of_user u t)) (is_other u h) w.db.tokens λ t n. ground arith,
  ),
)
  where
    current :
        (ts : List RefreshToken)
        → filter (of_user u) (filter (λ t. not (is_other u h t)) ts)
          ≡ filter (λ t. of_user u t && has_hash h t) ts
    current [] = refl
    current (t ∷ ts) = ground (arith, current ts)

module _ (p : Platform) where
  -- For a cipher that opens the token until it expires, and a text of the id that can be read
  -- back: the access token of a user with an id and a role gives, while it has not expired, the
  -- claims that it was made of.
  pub parse_access-create_access :
      (u : Uuid) (role email : String) (ttl issued now : Time)
      → (now < whole_seconds (issued + ttl)
          → p.v4_parse now (p.v4_encrypt (access_token p u role email ttl issued))
            ≡ some (access_token p u role email ttl issued))
      → p.uuid_parse (p.uuid_string u) ≡ some u
      → u ≢ 0
      → str_eq role "" ≡ false
      → now < whole_seconds (issued + ttl)
      → parse_access p now (create_access p u role email ttl issued)
        ≡ ok (record { user_id = u; email = email; role = role })
  unfolding parse_access create_access
  parse_access-create_access u role email ttl issued now opens reads some_user some_role fresh =
      ground (arith, opens fresh, reads)
