-- ===== src/Albums/Integrity.antt =====
-- The integrity of users and tokens under the writes of the albums service, which may draw an id.
use tesseract_go_api.Prelude.{◌≡◌, ◌≤◌, refl, arith, Bool, Option, none, some, All-imp}
use tesseract_go_api.Exec.{Result}
use tesseract_go_api.Store.{Uuid, Time, Tables, query}
use tesseract_go_api.Store.Keeps.{Keeps, Keeps-query, Keeps_of_same, keeps_rules}
use tesseract_go_api.Store.Valid.{IsValid}
use tesseract_go_api.Platform.{Platform}
use tesseract_go_api.Cache.Keeps.{cache_rules}
use tesseract_go_api.Albums.Queries.{AlbumFields}
use tesseract_go_api.Albums.Writes.{
  create_album, update_album, update_album_direct_token, toggle_album_active, soft_delete_album,
  hard_delete_album, restore_album,
}
use tesseract_go_api.Albums.Repository
use tesseract_go_api.Albums.Service

-- Users and tokens stay, and ids are only drawn.
abbrev IsBeside : Tables → Tables → Type 0
IsBeside db db' = (db'.users ≡ db.users) × (db'.tokens ≡ db.tokens) × (db.next_id ≤ db'.next_id)

beside-IsValid : (db db' : Tables) → IsBeside db db' → IsValid db → IsValid db'
beside-IsValid db db' (users, tokens, next) v = record {
  users_valid = rw users (record {
    ids = v.users_valid.ids;
    below = All-imp _ _ db.users (λ u b. omega arith) v.users_valid.below;
    emails = v.users_valid.emails;
    slugs = v.users_valid.slugs;
  });
  tokens_valid =
      rw (users, tokens)
        (record {
          ids = v.tokens_valid.ids;
          below = All-imp _ _ db.tokens (λ t b. omega arith) v.tokens_valid.below;
          hashes = v.tokens_valid.hashes;
          owners = v.tokens_valid.owners;
          stamped = v.tokens_valid.stamped;
        });
}

Keeps_beside :
    {A : Type 0} (q : Time → Tables → Result A × Tables)
    → ((now : Time) (db : Tables) → IsBeside db (q now db).1)
    → Keeps IsValid (query q)
Keeps_beside q beside = Keeps-query q λ now db. beside-IsValid db (q now db).1 (beside now db)

create : (user : Uuid) (arg : AlbumFields) → Keeps IsValid (query (create_album user arg))
create user arg =
    Keeps_beside _ λ now db. unfold create_album in (ground arith, ground arith, ground arith)

write : (id user : Uuid) (arg : AlbumFields) → Keeps IsValid (query (update_album id user arg))
write id user arg =
    Keeps_beside _ λ now db. unfold update_album in (ground arith, ground arith, ground arith)

write_token :
    (id user : Uuid) (token : Option Uuid)
    → Keeps IsValid (query (update_album_direct_token id user token))
write_token id user token =
    Keeps_beside _
      λ now db. unfold update_album_direct_token in (ground arith, ground arith, ground arith)

toggle : (id user : Uuid) (b : Bool) → Keeps IsValid (query (toggle_album_active id user b))
toggle id user b =
    Keeps_beside _
      λ now db. unfold toggle_album_active in (ground arith, ground arith, ground arith)

trash : (id user : Uuid) → Keeps IsValid (query (soft_delete_album id user))
trash id user =
    Keeps_beside _ λ now db. unfold soft_delete_album in (ground arith, ground arith, ground arith)

remove : (id user : Uuid) → Keeps IsValid (query (hard_delete_album id user))
remove id user =
    Keeps_beside _ λ now db. unfold hard_delete_album in (ground arith, ground arith, ground arith)

put_back : (p : Platform) (id user : Uuid) → Keeps IsValid (query (restore_album p id user))
put_back p id user =
    Keeps_beside _ λ now db. unfold restore_album in (ground arith, ground arith, ground arith)

unset : (o : Option Uuid) → Keeps IsValid (Repository.unset_direct_mapper o)
unset none = search keeps_rules
unset (some token) = search (keeps_rules, cache_rules)

draw_uuid : (p : Platform) → Keeps IsValid (Service.new_uuid p)
unfolding Service.new_uuid
draw_uuid p = Keeps_of_same _ λ w. refl

set_token :
    (user id : Uuid) (token : Option Uuid)
    → Keeps IsValid (Repository.update_direct_token user id token)
unfolding Repository.update_direct_token
set_token user id token = search (keeps_rules, write_token, unset) depth 8

module _ (user : Uuid) where
  pub Keeps-create_album : (req : AlbumFields) → Keeps IsValid (Service.create user req)
  unfolding Service.create Repository.create
  Keeps-create_album req = search (keeps_rules, create) depth 8

  pub Keeps-update_album :
      (id : Uuid) (req : AlbumFields) → Keeps IsValid (Service.update user id req)
  unfolding Service.update Repository.update
  Keeps-update_album id req = search (keeps_rules, write) depth 8

  pub Keeps-revoke_token : (id : Uuid) → Keeps IsValid (Service.revoke_direct_token user id)
  unfolding Service.revoke_direct_token
  Keeps-revoke_token id = search (keeps_rules, set_token) depth 8

  pub Keeps-generate_token :
      (p : Platform) (id : Uuid) → Keeps IsValid (Service.generate_direct_token p user id)
  unfolding Service.generate_direct_token
  Keeps-generate_token p id = search (keeps_rules, set_token, draw_uuid) depth 8

  pub Keeps-toggle_active : (id : Uuid) (b : Bool) → Keeps IsValid (Service.toggle_active user id b)
  unfolding Service.toggle_active Repository.toggle_active
  Keeps-toggle_active id b = search (keeps_rules, toggle) depth 8

  pub Keeps-delete_album : (id : Uuid) → Keeps IsValid (Service.delete user id)
  unfolding Service.delete Repository.delete
  Keeps-delete_album id = search (keeps_rules, trash) depth 8

  pub Keeps-purge_album : (id : Uuid) → Keeps IsValid (Service.purge user id)
  unfolding Service.purge Repository.purge
  Keeps-purge_album id = search (keeps_rules, remove) depth 8

  pub Keeps-restore_album : (p : Platform) (id : Uuid) → Keeps IsValid (Service.restore p user id)
  unfolding Service.restore Repository.restore
  Keeps-restore_album p id = search (keeps_rules, put_back) depth 8
