-- ===== src/Albums/Keeps.antt =====
-- The albums service on behalf of one user, and the albums of the other users.
use tesseract_go_api.Prelude.{
  Bool, List, [], ◌∷◌, ◌++◌, Option, none, some, refl, ◌∙◌, ◌+◌, inl, inr, arith, Bool-cases, any,
  All-imp, All-append_one, IsUnique-append_one, any_of_All,
}
use tesseract_go_api.Store.{Uuid, Time, Album, Tables, query}
use tesseract_go_api.Store.Keeps.{Keeps, Keeps-query, Keeps_of_same, keeps_rules}
use tesseract_go_api.Platform.{Platform}
use tesseract_go_api.Cache.Keeps.{cache_rules}
use tesseract_go_api.Albums.Queries.{AlbumFields, is_live, is_live_user, holds_slug}
use tesseract_go_api.Albums.Writes.{
  new_album, assign_active, delete, is_deleted, create_album, update_album,
  update_album_direct_token, toggle_album_active, soft_delete_album, hard_delete_album,
  restore_album,
}
use tesseract_go_api.Albums.Isolation.{
  IsApart, same_id, others-append, write_found-IsApart, update_found-IsApart,
  update_token_found-IsApart, hard_delete_found-IsApart, restore_found-IsApart,
}
use tesseract_go_api.Albums.Repository
use tesseract_go_api.Albums.Service

module _ (user : Uuid) (rest : List Album) where
  insert-IsApart :
      (arg : AlbumFields) (now : Time) (db : Tables)
      → IsApart user rest db
      → IsApart user rest (record db {
        albums = db.albums ++ new_album db.next_id user arg now ∷ [];
        next_id = db.next_id + 1;
      })
  insert-IsApart arg now db v = record {
    ids =
        IsUnique-append_one same_id db.albums (new_album db.next_id user arg now)
          (λ x. ground arith) v.ids
          (any_of_All _ db.albums (All-imp _ _ db.albums (λ x b. ground arith) v.below));
    below =
        All-append_one _ db.albums (new_album db.next_id user arg now)
          (All-imp _ _ db.albums (λ x b. omega arith) v.below) (omega arith);
    apart =
        others-append user db.albums (new_album db.next_id user arg now) (ground arith) ∙ v.apart;
  }

  create_album-IsApart :
      (arg : AlbumFields) (now : Time) (db : Tables)
      → IsApart user rest db
      → IsApart user rest (create_album user arg now db).1
  unfolding create_album
  create_album-IsApart arg now db v = elim (Bool-cases (is_live_user user db.users)) [
    | inr t ↦ rw t v
    | inl t ↦ elim (Bool-cases (any (holds_slug user arg.slug) db.albums)) [
      | inl u ↦ rw (t, u) v
      | inr u ↦ rw (t, u) (insert-IsApart arg now db v)
    ]
  ]

  insert : (arg : AlbumFields) → Keeps (IsApart user rest) (query (create_album user arg))
  insert arg = Keeps-query _ (create_album-IsApart arg)

  write :
      (id : Uuid) (arg : AlbumFields) → Keeps (IsApart user rest) (query (update_album id user arg))
  write id arg = Keeps-query _ λ now db v.
      unfold update_album in update_found-IsApart user rest id is_live db v arg now _ refl

  write_token :
      (id : Uuid) (token : Option Uuid)
      → Keeps (IsApart user rest) (query (update_album_direct_token id user token))
  write_token id token = Keeps-query _ λ now db v.
      unfold update_album_direct_token in
      update_token_found-IsApart user rest id is_live db v token now _ refl

  toggle :
      (id : Uuid) (b : Bool) → Keeps (IsApart user rest) (query (toggle_album_active id user b))
  toggle id b = Keeps-query _ λ now db v.
      unfold toggle_album_active in
      write_found-IsApart user rest id is_live db v (assign_active b now) _ (λ x. refl) (λ x. refl)
        refl

  trash : (id : Uuid) → Keeps (IsApart user rest) (query (soft_delete_album id user))
  trash id = Keeps-query _ λ now db v.
      unfold soft_delete_album in
      write_found-IsApart user rest id is_live db v (delete now) _ (λ x. refl) (λ x. refl) refl

  remove : (id : Uuid) → Keeps (IsApart user rest) (query (hard_delete_album id user))
  remove id = Keeps-query _ λ now db v.
      unfold hard_delete_album in hard_delete_found-IsApart user rest id is_deleted db v _ refl

  put_back :
      (p : Platform) (id : Uuid) → Keeps (IsApart user rest) (query (restore_album p id user))
  put_back p id = Keeps-query _ λ now db v.
      unfold restore_album in restore_found-IsApart user rest id is_deleted db v p now _ refl

  unset : (o : Option Uuid) → Keeps (IsApart user rest) (Repository.unset_direct_mapper o)
  unset none = search keeps_rules
  unset (some token) = search (keeps_rules, cache_rules)

  draw_uuid : (p : Platform) → Keeps (IsApart user rest) (Service.new_uuid p)
  unfolding Service.new_uuid
  draw_uuid p = Keeps_of_same _ λ w. refl

  pub Keeps-create : (req : AlbumFields) → Keeps (IsApart user rest) (Service.create user req)
  unfolding Service.create Repository.create
  Keeps-create req = search (keeps_rules, insert) depth 8

  pub Keeps-update :
      (id : Uuid) (req : AlbumFields) → Keeps (IsApart user rest) (Service.update user id req)
  unfolding Service.update Repository.update
  Keeps-update id req = search (keeps_rules, write) depth 8

  set_token :
      (id : Uuid) (token : Option Uuid)
      → Keeps (IsApart user rest) (Repository.update_direct_token user id token)
  unfolding Repository.update_direct_token
  set_token id token = search (keeps_rules, write_token, unset) depth 8

  pub Keeps-revoke : (id : Uuid) → Keeps (IsApart user rest) (Service.revoke_direct_token user id)
  unfolding Service.revoke_direct_token
  Keeps-revoke id = search (keeps_rules, set_token) depth 8

  pub Keeps-generate :
      (p : Platform) (id : Uuid)
      → Keeps (IsApart user rest) (Service.generate_direct_token p user id)
  unfolding Service.generate_direct_token
  Keeps-generate p id = search (keeps_rules, set_token, draw_uuid) depth 8

  pub Keeps-toggle :
      (id : Uuid) (b : Bool) → Keeps (IsApart user rest) (Service.toggle_active user id b)
  unfolding Service.toggle_active Repository.toggle_active
  Keeps-toggle id b = search (keeps_rules, toggle) depth 8

  pub Keeps-delete : (id : Uuid) → Keeps (IsApart user rest) (Service.delete user id)
  unfolding Service.delete Repository.delete
  Keeps-delete id = search (keeps_rules, trash) depth 8

  pub Keeps-purge : (id : Uuid) → Keeps (IsApart user rest) (Service.purge user id)
  unfolding Service.purge Repository.purge
  Keeps-purge id = search (keeps_rules, remove) depth 8

  pub Keeps-restore :
      (p : Platform) (id : Uuid) → Keeps (IsApart user rest) (Service.restore p user id)
  unfolding Service.restore Repository.restore
  Keeps-restore p id = search (keeps_rules, put_back) depth 8
