-- ===== src/Tokens/Valid.antt =====
-- The integrity of the tables under the statements on refresh tokens.
use tesseract_go_api.Prelude.{
  ℕ, String, ◌+◌, inl, inr, Bool-cases, ◌≡◌, refl, [], ◌∷◌, ◌++◌, Bool, true, false, List, arith,
  ◌==◌, str_eq_comm, filter, any, update, All-filter, All-update, All-append_one, All-imp,
  any_of_All, IsUnique-filter, IsUnique-append_one, IsUnique-update,
}
use tesseract_go_api.Store.{Uuid, Time, User, RefreshToken, Tables, query}
use tesseract_go_api.Store.Keeps.{Keeps, Keeps-query}
use tesseract_go_api.Store.Valid.{
  same_token_id, same_hash, IsStamped, UsersValid, TokensValid, IsValid,
}
use tesseract_go_api.Tokens.Queries.{
  CreateRefreshTokenParams, new_token, has_hash, is_open, consume, create_refresh_token,
  get_refresh_token_by_hash, get_active_refresh_tokens_for_user, consume_refresh_token_by_hash,
  delete_refresh_token_by_id, delete_other_refresh_tokens_for_user,
  delete_all_refresh_tokens_for_user, cleanup_refresh_tokens,
}

module _ {users : List User} {next : ℕ} where
  -- A DELETE, whatever its condition.
  pub filter-TokensValid :
      (keep : RefreshToken → Bool) (tokens : List RefreshToken)
      → TokensValid tokens users next
      → TokensValid (filter keep tokens) users next
  filter-TokensValid keep tokens v = record {
    ids = IsUnique-filter same_token_id keep tokens v.ids;
    below = All-filter _ keep tokens v.below;
    hashes = IsUnique-filter same_hash keep tokens v.hashes;
    owners = All-filter _ keep tokens v.owners;
    stamped = All-filter _ keep tokens v.stamped;
  }

  consume-TokensValid :
      (h : String) (now : Time) (tokens : List RefreshToken)
      → TokensValid tokens users next
      → TokensValid (update (is_open h) (consume now) tokens) users next
  consume-TokensValid h now tokens v = record {
    ids = IsUnique-update same_token_id _ (consume now) tokens (λ x y. refl) (λ x y. refl) v.ids;
    below = All-update _ _ (consume now) tokens (λ x _ b. b) v.below;
    hashes = IsUnique-update same_hash _ (consume now) tokens (λ x y. refl) (λ x y. refl) v.hashes;
    owners = All-update _ _ (consume now) tokens (λ x _ b. b) v.owners;
    stamped = All-update IsStamped _ (consume now) tokens (λ x _ _ _. cc) v.stamped;
  }

  insert-TokensValid :
      (arg : CreateRefreshTokenParams) (now : Time) (tokens : List RefreshToken)
      → TokensValid tokens users next
      → any (has_hash arg.token_hash) tokens ≡ false
      → any (λ (u : User). u.id == arg.user_id) users ≡ true
      → TokensValid (tokens ++ new_token arg next now ∷ []) users (next + 1)
  insert-TokensValid arg now tokens v free owned = record {
    ids =
        IsUnique-append_one same_token_id tokens row (λ x. ground arith) v.ids
          (any_of_All _ tokens (All-imp _ _ tokens (λ x b. ground arith) v.below));
    below =
        All-append_one _ tokens row (All-imp _ _ tokens (λ x b. omega arith) v.below) (omega arith);
    hashes =
        IsUnique-append_one same_hash tokens row (λ x. str_eq_comm _ _) v.hashes
          (no_clash tokens free);
    owners = All-append_one _ tokens row v.owners owned;
    stamped = All-append_one IsStamped tokens row v.stamped (λ e. cc);
  }
    where
      row : RefreshToken
      row = new_token arg next now

      no_clash :
          (ts : List RefreshToken)
          → any (has_hash arg.token_hash) ts ≡ false
          → any (same_hash row) ts ≡ false
      no_clash [] e = refl
      no_clash (t ∷ ts) e = ground (arith, str_eq_comm t.token_hash arg.token_hash, no_clash ts)

next_UsersValid :
    {users : List User} {next : ℕ} → UsersValid users next → UsersValid users (next + 1)
next_UsersValid {users} v = record {
  ids = v.ids;
  below = All-imp _ _ users (λ x b. omega arith) v.below;
  emails = v.emails;
  slugs = v.slugs;
}

create_refresh_token-IsValid :
    (arg : CreateRefreshTokenParams) (now : Time) (db : Tables)
    → IsValid db
    → IsValid (create_refresh_token arg now db).1
unfolding create_refresh_token
create_refresh_token-IsValid arg now db v =
    elim (Bool-cases (any (has_hash arg.token_hash) db.tokens)) [
      | inl taken ↦ rw taken v
      | inr free ↦ elim (Bool-cases (any (λ (u : User). u.id == arg.user_id) db.users)) [
        | inl owned ↦
            rw (free, owned)
              (record {
                users_valid = next_UsersValid v.users_valid;
                tokens_valid = insert-TokensValid arg now db.tokens v.tokens_valid free owned;
              })
        | inr orphan ↦ rw (free, orphan) v
      ]
    ]

-- A DELETE FROM refresh_tokens.
filter-IsValid :
    (keep : RefreshToken → Bool) (db : Tables)
    → IsValid db
    → IsValid (record db { tokens = filter keep db.tokens })
filter-IsValid keep db v = record {
  users_valid = v.users_valid;
  tokens_valid = filter-TokensValid keep db.tokens v.tokens_valid;
}

pub Keeps-create :
    (arg : CreateRefreshTokenParams) → Keeps IsValid (query (create_refresh_token arg))
Keeps-create arg = Keeps-query _ (create_refresh_token-IsValid arg)

pub Keeps-consume : (h : String) → Keeps IsValid (query (consume_refresh_token_by_hash h))
Keeps-consume h = Keeps-query _ λ now db v.
    unfold consume_refresh_token_by_hash in
    (record {
      users_valid = v.users_valid;
      tokens_valid = consume-TokensValid h now db.tokens v.tokens_valid;
    })

pub Keeps-read :
    (h : String) (u : Uuid)
    → Keeps IsValid (query (get_refresh_token_by_hash h))
      × Keeps IsValid (query (get_active_refresh_tokens_for_user u))
Keeps-read h u = (
  Keeps-query _ (λ now db v. unfold get_refresh_token_by_hash in v),
  Keeps-query _ (λ now db v. unfold get_active_refresh_tokens_for_user in v),
)

pub Keeps-delete_by_id : (id u : Uuid) → Keeps IsValid (query (delete_refresh_token_by_id id u))
Keeps-delete_by_id id u =
    Keeps-query _ λ now db v. unfold delete_refresh_token_by_id in filter-IsValid _ db v

pub Keeps-delete_other :
    (u : Uuid) (h : String) → Keeps IsValid (query (delete_other_refresh_tokens_for_user u h))
Keeps-delete_other u h =
    Keeps-query _ λ now db v. unfold delete_other_refresh_tokens_for_user in filter-IsValid _ db v

pub Keeps-delete_all : (u : Uuid) → Keeps IsValid (query (delete_all_refresh_tokens_for_user u))
Keeps-delete_all u =
    Keeps-query _ λ now db v. unfold delete_all_refresh_tokens_for_user in filter-IsValid _ db v

pub Keeps-cleanup : Keeps IsValid (query cleanup_refresh_tokens)
Keeps-cleanup = Keeps-query _ λ now db v. unfold cleanup_refresh_tokens in filter-IsValid _ db v
