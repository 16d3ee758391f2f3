-- ===== src/Users/Rows.antt =====
-- Rows of users that a statement writes or adds, and the integrity of the tables.
use tesseract_go_api.Prelude.{
  ℕ, String, ◌+◌, ◌≡◌, refl, inl, inr, [], ◌∷◌, ◌++◌, Bool, false, not, List, arith, ◌&&◌, ◌==◌,
  str_eq_comm, Bool-cases, any, update, All-update, All-append_one, All-imp, any_of_All,
  any-append_left, any-update, IsUnique, IsUnique-append_one, IsUnique-update, IsUnique-imp,
  IsUnique-update_one,
}
use tesseract_go_api.Store.{Uuid, Time, User, RefreshToken, Tables}
use tesseract_go_api.Store.Valid.{
  same_user_id, same_email, same_slug, UsersValid, TokensValid, IsValid,
}
use tesseract_go_api.Users.Queries.{
  has_id, has_email, holds_slug, other_holds_slug, insert_user, delete,
}

-- A write that keeps ids and emails, where the index on slugs is kept.
pub written-UsersValid :
    {next : ℕ} (q : User → Bool) (f : User → User) (users : List User)
    → ((x : User) → (f x).id ≡ x.id)
    → ((x : User) → (f x).email ≡ x.email)
    → UsersValid users next
    → IsUnique same_slug (update q f users)
    → UsersValid (update q f users) next
written-UsersValid q f users id email v slugs = record {
  ids = IsUnique-update same_user_id q f users (λ x y. rw id) (λ x y. rw id) v.ids;
  below = All-update _ q f users (λ x _ b. rw id b) v.below;
  emails = IsUnique-update same_email q f users (λ x y. rw email) (λ x y. rw email) v.emails;
  slugs = slugs;
}

-- The tokens keep their owners under a write that keeps ids.
pub written-TokensValid :
    {next : ℕ} (q : User → Bool) (f : User → User) (users : List User) (tokens : List RefreshToken)
    → ((x : User) → (f x).id ≡ x.id)
    → TokensValid tokens users next
    → TokensValid tokens (update q f users) next
written-TokensValid q f users tokens id v = record {
  ids = v.ids;
  below = v.below;
  hashes = v.hashes;
  owners =
      All-imp _ _ tokens
        (λ t e. rw (any-update (λ (u : User). u.id == t.user_id) q f users (λ x. rw id)) e)
        v.owners;
  stamped = v.stamped;
}

-- The write of one user whose new slug no other active user holds.
pub slug-IsUnique :
    (id : Uuid) (s : String) (f : User → User) (users : List User)
    → ((x : User) → (f x).slug ≡ s)
    → IsUnique same_user_id users
    → any (other_holds_slug id s) users ≡ false
    → IsUnique same_slug users
    → IsUnique same_slug (update (has_id id) f users)
slug-IsUnique id s f users new ids free slugs =
    IsUnique-update_one same_slug (has_id id) (holds_slug s) f
      (λ x y _ b. ground (arith, new x, str_eq_comm s y.slug)) (λ x y _ b. ground (arith, new y))
      users free (IsUnique-imp _ _ users (λ x y e. ground arith) ids) slugs

-- A user that is deleted leaves the index.
pub deleted-IsUnique :
    (id : Uuid) (now : Time) (users : List User)
    → IsUnique same_user_id users
    → IsUnique same_slug users
    → IsUnique same_slug (update (has_id id) (delete now) users)
deleted-IsUnique id now users ids slugs =
    IsUnique-update_one same_slug (has_id id) (λ _. false) (delete now) (λ x y _ b. refl)
      (λ x y _ b. ground arith) users (none_bad users)
      (IsUnique-imp _ _ users (λ x y e. ground arith) ids) slugs
  where
    none_bad : (us : List User) → any (λ u. not (has_id id u) && false) us ≡ false
    none_bad [] = refl
    none_bad (u ∷ us) = ground (arith, none_bad us)

pub next_TokensValid :
    {tokens : List RefreshToken} {users : List User} {next : ℕ} (u : User)
    → TokensValid tokens users next
    → TokensValid tokens (users ++ u ∷ []) (next + 1)
next_TokensValid {tokens} {users} u v = record {
  ids = v.ids;
  below = All-imp _ _ tokens (λ x b. omega arith) v.below;
  hashes = v.hashes;
  owners = All-imp _ _ tokens (λ t e. any-append_left _ users (u ∷ []) e) v.owners;
  stamped = v.stamped;
}

-- An INSERT that meets no clash of email or slug.
pub insert-IsValid :
    (u : User) (db : Tables)
    → IsValid db
    → u.id ≡ db.next_id
    → any (has_email u.email) db.users ≡ false
    → any (holds_slug u.slug) db.users ≡ false
    → IsValid (record db { users = db.users ++ u ∷ []; next_id = db.next_id + 1 })
insert-IsValid u db v id email slug = record {
  users_valid = record {
    ids =
        IsUnique-append_one same_user_id db.users u (λ x. ground arith) v.users_valid.ids
          (any_of_All _ db.users (All-imp _ _ db.users (λ x b. ground arith) v.users_valid.below));
    below =
        All-append_one _ db.users u (All-imp _ _ db.users (λ x b. omega arith) v.users_valid.below)
          (omega arith);
    emails =
        IsUnique-append_one same_email db.users u (λ x. str_eq_comm _ _) v.users_valid.emails
          (emails_free db.users email);
    slugs =
        IsUnique-append_one same_slug db.users u (λ x. ground (arith, str_eq_comm x.slug u.slug))
          v.users_valid.slugs (slugs_free db.users slug);
  };
  tokens_valid = next_TokensValid u v.tokens_valid;
}
  where
    emails_free :
        (us : List User) → any (has_email u.email) us ≡ false → any (same_email u) us ≡ false
    emails_free [] e = refl
    emails_free (x ∷ us) e = ground (arith, str_eq_comm x.email u.email, emails_free us)

    slugs_free :
        (us : List User) → any (holds_slug u.slug) us ≡ false → any (same_slug u) us ≡ false
    slugs_free [] e = refl
    slugs_free (x ∷ us) e = ground (arith, str_eq_comm x.slug u.slug, slugs_free us)

pub insert_user-IsValid :
    (u : User) (db : Tables)
    → IsValid db
    → u.id ≡ db.next_id
    → any (has_email u.email) db.users ≡ false
    → IsValid (insert_user u db).1
insert_user-IsValid u db v id email = elim (Bool-cases (any (holds_slug u.slug) db.users)) [
  | inl taken ↦ rw taken v
  | inr free ↦ rw free (insert-IsValid u db v id email free)
]

-- A write of users by rules that keep ids, emails and the index.
pub written-IsValid :
    (q : User → Bool) (f : User → User) (db : Tables)
    → ((x : User) → (f x).id ≡ x.id)
    → ((x : User) → (f x).email ≡ x.email)
    → IsValid db
    → IsUnique same_slug (update q f db.users)
    → IsValid (record db { users = update q f db.users })
written-IsValid q f db id email v slugs = record {
  users_valid = written-UsersValid q f db.users id email v.users_valid slugs;
  tokens_valid = written-TokensValid q f db.users db.tokens id v.tokens_valid;
}
