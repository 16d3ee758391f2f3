-- ===== src/Users/Valid.antt =====
-- The integrity of the tables under the statements on users.
use tesseract_go_api.Prelude.{
  String, refl, inl, inr, not, Option, none, some, arith, ◌==◌, Bool-cases, filter, any, update,
  All-filter, All-filter_with, any-filter_keep, IsUnique-filter, IsUnique-update,
}
use tesseract_go_api.Store.{Uuid, Time, User, RefreshToken, Tables, query}
use tesseract_go_api.Store.Keeps.{Keeps, Keeps-query}
use tesseract_go_api.Store.Valid.{same_user_id, same_email, same_slug, TokensValid, IsValid}
use tesseract_go_api.Platform.{Platform}
use tesseract_go_api.Tokens.Valid.{filter-TokensValid}
use tesseract_go_api.Users.Queries.{
  is_live, has_email, other_holds_slug, new_user, set_avatar, rewrite, delete, undelete, draw,
  create_user, upsert_user, update_user, soft_delete_user, hard_delete_user, restore_user,
  upsert_found, update_found, soft_delete_found, restore_as, hard_delete_found, restored_slug,
  restore_found,
}
use tesseract_go_api.Users.Rows.{
  slug-IsUnique, deleted-IsUnique, insert_user-IsValid, written-IsValid,
}

create_user-IsValid :
    (email username role avatar slug : String) (now : Time) (db : Tables)
    → IsValid db
    → IsValid (create_user email username role avatar slug now db).1
unfolding create_user
create_user-IsValid email username role avatar slug now db v =
    elim (Bool-cases (any (has_email email) db.users)) [
      | inl taken ↦ rw taken v
      | inr free ↦ rw free (
          insert_user-IsValid (new_user db.next_id email username role avatar slug now) db v refl
            free)
    ]

draw-IsValid : (db : Tables) → IsValid db → IsValid (draw db)
draw-IsValid db v = record { users_valid = v.users_valid; tokens_valid = v.tokens_valid }

avatar-IsValid :
    (email avatar : String) (db : Tables)
    → IsValid db
    → IsValid (record db { users = update (has_email email) (set_avatar avatar) db.users })
avatar-IsValid email avatar db v =
    written-IsValid _ (set_avatar avatar) db (λ x. refl) (λ x. refl) v
      (IsUnique-update same_slug _ (set_avatar avatar) db.users (λ x y. refl) (λ x y. refl)
        v.users_valid.slugs)

upsert_found-IsValid :
    (avatar : String) (o : Option User) (db : Tables)
    → IsValid db
    → IsValid (upsert_found avatar o db).1
upsert_found-IsValid avatar none db v = v
upsert_found-IsValid avatar (some u) db v = elim (Bool-cases (is_live u)) [
  | inl live ↦ rw live (avatar-IsValid u.email avatar db v)
  | inr dead ↦ rw dead v
]

update_found-IsValid :
    (id : Uuid) (username slug avatar : String) (now : Time) (o : Option User) (db : Tables)
    → IsValid db
    → IsValid (update_found id username slug avatar now o db).1
update_found-IsValid id username slug avatar now none db v = v
update_found-IsValid id username slug avatar now (some u) db v =
    elim (Bool-cases (any (other_holds_slug id slug) db.users)) [
      | inl taken ↦ rw taken v
      | inr free ↦ rw free (
          written-IsValid _ (rewrite username slug avatar now) db (λ x. refl) (λ x. refl) v
            (slug-IsUnique id slug _ db.users (λ x. refl) v.users_valid.ids free
              v.users_valid.slugs))
    ]

soft_delete_found-IsValid :
    (id : Uuid) (now : Time) (o : Option User) (db : Tables)
    → IsValid db
    → IsValid (soft_delete_found id now o db).1
soft_delete_found-IsValid id now none db v = v
soft_delete_found-IsValid id now (some u) db v =
    written-IsValid _ (delete now) db (λ x. refl) (λ x. refl) v
      (deleted-IsUnique id now db.users v.users_valid.ids v.users_valid.slugs)

restore_as-IsValid :
    (id : Uuid) (slug : String) (now : Time) (db : Tables)
    → IsValid db
    → IsValid (restore_as id slug now db).1
restore_as-IsValid id slug now db v = elim (Bool-cases (any (other_holds_slug id slug) db.users)) [
  | inl taken ↦ rw taken v
  | inr free ↦ rw free (
      written-IsValid _ (undelete slug now) db (λ x. refl) (λ x. refl) v
        (slug-IsUnique id slug _ db.users (λ x. refl) v.users_valid.ids free v.users_valid.slugs))
]

-- The deletion of a user takes its tokens with it, so no token is left without its user.
hard_delete_found-IsValid :
    (id : Uuid) (o : Option User) (db : Tables) → IsValid db → IsValid (hard_delete_found id o db).1
hard_delete_found-IsValid id none db v = v
hard_delete_found-IsValid id (some u) db v = record {
  users_valid = record {
    ids = IsUnique-filter same_user_id _ db.users v.users_valid.ids;
    below = All-filter _ _ db.users v.users_valid.below;
    emails = IsUnique-filter same_email _ db.users v.users_valid.emails;
    slugs = IsUnique-filter same_slug _ db.users v.users_valid.slugs;
  };
  tokens_valid = record {
    ids = kept.ids;
    below = kept.below;
    hashes = kept.hashes;
    owners =
        All-filter_with _ _ _ db.tokens
          (λ t other e.
            any-filter_keep (λ (x : User). x.id == t.user_id) _ db.users (λ x same. ground arith) e)
          v.tokens_valid.owners;
    stamped = kept.stamped;
  };
}
  where
    kept :
        TokensValid
          (filter (λ (t : RefreshToken). not (t.user_id == id)) db.tokens)
          db.users
          db.next_id
    kept = filter-TokensValid _ db.tokens v.tokens_valid

pub Keeps-create :
    (email username role avatar slug : String)
    → Keeps IsValid (query (create_user email username role avatar slug))
Keeps-create email username role avatar slug =
    Keeps-query _ (create_user-IsValid email username role avatar slug)

pub Keeps-update :
    (id : Uuid) (username slug avatar : String)
    → Keeps IsValid (query (update_user id username slug avatar))
Keeps-update id username slug avatar =
    Keeps-query _
      λ now db v. unfold update_user in update_found-IsValid id username slug avatar now _ db v

pub Keeps-soft_delete : (id : Uuid) → Keeps IsValid (query (soft_delete_user id))
Keeps-soft_delete id =
    Keeps-query _ λ now db v. unfold soft_delete_user in soft_delete_found-IsValid id now _ db v

pub Keeps-hard_delete : (id : Uuid) → Keeps IsValid (query (hard_delete_user id))
Keeps-hard_delete id =
    Keeps-query _ λ now db v. unfold hard_delete_user in hard_delete_found-IsValid id _ db v

module _ (p : Platform) where
  restore_found-IsValid :
      (id : Uuid) (now : Time) (o : Option User) (db : Tables)
      → IsValid db
      → IsValid (restore_found p id now o db).1
  restore_found-IsValid id now none db v = v
  restore_found-IsValid id now (some u) db v =
      restore_as-IsValid id (restored_slug p u db) now (draw db) (draw-IsValid db v)

  upsert_user-IsValid :
      (email username avatar : String) (now : Time) (db : Tables)
      → IsValid db
      → IsValid (upsert_user p email username avatar now db).1
  unfolding upsert_user
  upsert_user-IsValid email username avatar now db v =
      elim (Bool-cases (any (has_email email) db.users)) [
        | inl there ↦ rw there (upsert_found-IsValid avatar _ db v)
        | inr free ↦ rw free (
            insert_user-IsValid
              (new_user db.next_id email username "user" avatar (p.random_slug db.draws) now)
              (draw db) (draw-IsValid db v) refl free)
      ]

  pub Keeps-restore : (id : Uuid) → Keeps IsValid (query (restore_user p id))
  Keeps-restore id =
      Keeps-query _ λ now db v. unfold restore_user in restore_found-IsValid id now _ db v

  pub Keeps-upsert :
      (email username avatar : String) → Keeps IsValid (query (upsert_user p email username avatar))
  Keeps-upsert email username avatar = Keeps-query _ (upsert_user-IsValid email username avatar)
