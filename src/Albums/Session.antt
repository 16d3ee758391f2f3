-- ===== src/Albums/Session.antt =====
-- Any calls of the albums service on behalf of one user, one after the other.
use tesseract_go_api.Prelude.{Bool, List, [], ◌∷◌, ◌≡◌, ◌<◌, refl, All, IsUnique}
use tesseract_go_api.Store.{Uuid, Album, World}
use tesseract_go_api.Platform.{Platform}
use tesseract_go_api.History.{after}
use tesseract_go_api.Albums.Queries.{AlbumFields}
use tesseract_go_api.Albums.Service
use tesseract_go_api.Albums.Isolation.{IsApart, others, same_id}
use tesseract_go_api.Albums.Keeps.{
  Keeps-create, Keeps-update, Keeps-generate, Keeps-revoke, Keeps-toggle, Keeps-delete, Keeps-purge,
  Keeps-restore,
}

pub data Command : Type 0 where
  create : AlbumFields → Command
  update : Uuid → AlbumFields → Command
  generate_token : Uuid → Command
  revoke_token : Uuid → Command
  toggle : Uuid → Bool → Command
  delete : Uuid → Command
  purge : Uuid → Command
  restore : Uuid → Command

module _ (p : Platform) (user : Uuid) where
  unfoldable pub act : Command → World → World
  unfolding Service.create Service.update Service.generate_direct_token Service.revoke_direct_token
      Service.toggle_active Service.delete Service.purge Service.restore
  act (create req) = after (Service.create user req)
  act (update id req) = after (Service.update user id req)
  act (generate_token id) = after (Service.generate_direct_token p user id)
  act (revoke_token id) = after (Service.revoke_direct_token user id)
  act (toggle id b) = after (Service.toggle_active user id b)
  act (delete id) = after (Service.delete user id)
  act (purge id) = after (Service.purge user id)
  act (restore id) = after (Service.restore p user id)

  unfoldable pub act_all : List Command → World → World
  unfolding act
  act_all [] w = w
  act_all (c ∷ cs) w = act_all cs (act c w)

  act-IsApart :
      (rest : List Album) (c : Command) (w : World)
      → IsApart user rest w.db
      → IsApart user rest (act c w).db
  unfolding act
  act-IsApart rest (create req) w v = (Keeps-create user rest req).at w v
  act-IsApart rest (update id req) w v = (Keeps-update user rest id req).at w v
  act-IsApart rest (generate_token id) w v = (Keeps-generate user rest p id).at w v
  act-IsApart rest (revoke_token id) w v = (Keeps-revoke user rest id).at w v
  act-IsApart rest (toggle id b) w v = (Keeps-toggle user rest id b).at w v
  act-IsApart rest (delete id) w v = (Keeps-delete user rest id).at w v
  act-IsApart rest (purge id) w v = (Keeps-purge user rest id).at w v
  act-IsApart rest (restore id) w v = (Keeps-restore user rest p id).at w v

  act_all-IsApart :
      (rest : List Album) (cs : List Command) (w : World)
      → IsApart user rest w.db
      → IsApart user rest (act_all cs w).db
  unfolding act_all
  act_all-IsApart rest [] w v = v
  act_all-IsApart rest (c ∷ cs) w v = act_all-IsApart rest cs (act c w) (act-IsApart rest c w v)

  -- Where the ids of albums are distinct and below the next one: whatever calls a user makes to
  -- create, change, share, switch, delete, restore or purge albums, and whichever external calls
  -- fail, the albums of all other users stay as they are, and the ids stay distinct.
  pub act_all-others :
      (cs : List Command) (w : World)
      → IsUnique same_id w.db.albums
      → All (λ (a : Album). a.id < w.db.next_id) w.db.albums
      → (others user (act_all cs w).db.albums ≡ others user w.db.albums)
        × IsUnique same_id (act_all cs w).db.albums
  act_all-others cs w ids below =
      let v =
        act_all-IsApart (others user w.db.albums) cs w
          (record { ids = ids; below = below; apart = refl }) in
      (v.apart, v.ids)
