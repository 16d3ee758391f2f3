-- ===== src/Albums/Visibility.antt =====
-- Who sees an album: the list of the database, and the calls of the albums service.
use tesseract_go_api.Prelude.{
  String, Bool, true, false, not, ◌≡◌, refl, inl, inr, some, arith, ◌&&◌, ◌==◌, if◌then◌else◌,
  Bool-cases, find?-test, find?,
}
use tesseract_go_api.Response.{Error, sentinel, album_not_found}
use tesseract_go_api.Exec.{Result, ok, err, Exec, return, throw, catch, try, ◌>>=◌}
use tesseract_go_api.Exec.Inversion.{bind_ok, catch_ok}
use tesseract_go_api.Store.{Uuid, Album, World, query}
use tesseract_go_api.Store.Inversion.{query_ok}
use tesseract_go_api.Albums.Access.{can_access}
use tesseract_go_api.Albums.Queries.{
  has_owner, is_live, is_listed, has_direct_token, get_album_by_direct_token,
}
use tesseract_go_api.Albums.Repository
use tesseract_go_api.Albums.Repository.{cached_if, and_cache}
use tesseract_go_api.Albums.Service
use tesseract_go_api.Albums.Service.{is_owner, is_hidden, not_found_error, direct_token_error}

-- For an album of the user that is not deleted and a viewer who is not its owner: the list of
-- available albums shows it exactly where the single album is shown.
pub is_listed-is_hidden :
    (user viewer : Uuid) (email : String) (a : Album)
    → has_owner user a ≡ true
    → is_live a ≡ true
    → is_owner viewer a ≡ false
    → is_listed user email a ≡ not (is_hidden viewer email a)
unfolding can_access
is_listed-is_hidden user viewer email a owner live other = ground arith

module _ (m : Exec World Album) (test : Album → Bool) (x : Error) (w w' : World) (a : Album) where
  -- A test behind a call that returned.
  refused_ok :
      (b : Album) (v : World)
      → m w ≡ (ok b, v)
      → (if test b then throw x else return b) v ≡ (ok a, w')
      → (test a ≡ false) × (m w ≡ (ok a, w'))
  unfolding return throw
  refused_ok b v e k = elim (Bool-cases (test b)) [
    | inl t ↦ absurd (ground arith)
    | inr t ↦ (ground arith, ground arith)
  ]

  unless_ok :
      (m >>= λ b. if test b then throw x else return b) w ≡ (ok a, w')
      → (test a ≡ false) × (m w ≡ (ok a, w'))
  unless_ok h =
      let (b, v, e, k) = bind_ok m (λ b. if test b then throw x else return b) w h in
      refused_ok b v e k

  accepted_ok :
      (b : Album) (v : World)
      → m w ≡ (ok b, v)
      → (if test b then return b else throw x) v ≡ (ok a, w')
      → (test a ≡ true) × (m w ≡ (ok a, w'))
  unfolding return throw
  accepted_ok b v e k = elim (Bool-cases (test b)) [
    | inl t ↦ (ground arith, ground arith)
    | inr t ↦ absurd (ground arith)
  ]

  guarded_ok :
      (m >>= λ b. if test b then return b else throw x) w ≡ (ok a, w')
      → (test a ≡ true) × (m w ≡ (ok a, w'))
  guarded_ok h =
      let (b, v, e, k) = bind_ok m (λ b. if test b then return b else throw x) w h in
      accepted_ok b v e k

-- An album that `GetAvailable` returns is active or the viewer's own, and its access level lets the
-- viewer in, whatever the cache and the database hold and however their calls end.
pub get_available-is_shown :
    (user : Uuid) (slug : String) (viewer : Uuid) (email : String) (w w' : World) (a : Album)
    → Service.get_available user slug viewer email w ≡ (ok a, w')
    → ((a.is_active ≡ false → is_owner viewer a ≡ true)
        × (can_access a.access a.shared_emails email (is_owner viewer a) ≡ true))
unfolding Service.get_available
get_available-is_shown user slug viewer email w w' a e =
    let (shown, _) =
      unless_ok (catch (Repository.get_by_slug user slug) λ x. throw (not_found_error x))
        (is_hidden viewer email) (sentinel album_not_found) w w' a e in
    (λ inactive. ground arith, ground arith)

-- `GetOwned` returns albums of the user only, whatever the cache and the database hold and however
-- their calls end.
pub get_owned-has_owner :
    (user id : Uuid) (w w' : World) (a : Album)
    → Service.get_owned user id w ≡ (ok a, w')
    → a.user_id ≡ user
unfolding Service.get_owned
get_owned-has_owner user id w w' a e =
    let (own, _) =
      guarded_ok (catch (Repository.get_by_id user id) λ x. throw (not_found_error x))
        (λ a. a.user_id == user) (sentinel album_not_found) w w' a e in
    ground arith

module _ (token : Uuid) where
  -- What the link of a token may show.
  abbrev is_linked : Album → Bool
  is_linked a = a.is_active && has_direct_token token a.direct_token

  read_linked :
      (w v : World) (a : Album)
      → query (get_album_by_direct_token token) w ≡ (ok a, v)
      → is_linked a ≡ true
  unfolding get_album_by_direct_token
  read_linked w v a e =
      let (os, db, row, _) = query_ok (get_album_by_direct_token token) w v e in
      linked (ground arith)
    where
      linked :
          find? (λ a. has_direct_token token a.direct_token && a.is_active && is_live a) w.db.albums
            ≡ some a
          → is_linked a ≡ true
      linked found = ground (arith, find?-test _ w.db.albums a found)

  fetched_linked :
      (w w' : World) (a : Album)
      → Repository.fetch_by_direct_token token w ≡ (ok a, w')
      → is_linked a ≡ true
  unfolding Repository.fetch_by_direct_token
  fetched_linked w w' a e =
      let (b, v, read, k) = bind_ok (query (get_album_by_direct_token token)) and_cache w e in
      rw (returned b v k) (read_linked w v b read)
    where
      returned : (b : Album) (v : World) → and_cache b v ≡ (ok a, w') → a ≡ b
      returned b v k = ground arith

  cached_linked :
      (r : Result Album) (w w' : World) (a : Album)
      → cached_if is_linked (Repository.fetch_by_direct_token token) r w ≡ (ok a, w')
      → is_linked a ≡ true
  unfolding return
  cached_linked (err x) w w' a e = fetched_linked w w' a e
  cached_linked (ok b) w w' a e = by_test (is_linked b) refl e
    where
      by_test :
          (c : Bool)
          → is_linked b ≡ c
          → (if c then return b else Repository.fetch_by_direct_token token) w ≡ (ok a, w')
          → is_linked a ≡ true
      by_test true t k = ground arith
      by_test false t k = fetched_linked w w' a k

  -- The album that `GetByDirectToken` returns is active and has this token, whether it comes from
  -- the cache or from the database, and however their calls end.
  pub get_by_direct_token-is_linked :
      (w w' : World) (a : Album)
      → Service.get_by_direct_token token w ≡ (ok a, w')
      → (a.is_active ≡ true) × (has_direct_token token a.direct_token ≡ true)
  unfolding Service.get_by_direct_token Repository.get_by_direct_token
  get_by_direct_token-is_linked w w' a e =
      let (_, found) =
        guarded_ok (catch (Repository.get_by_direct_token token) λ x. throw (direct_token_error x))
          (λ a. a.is_active) (sentinel album_not_found) w w' a e in
      let read = catch_ok (Repository.get_by_direct_token token) direct_token_error w found in
      let (r, v, _, k) =
        bind_ok (try (Repository.get_album_from_cache_by_direct_token token))
          (cached_if is_linked (Repository.fetch_by_direct_token token)) w read in
      let linked = cached_linked r v w' a k in (ground arith, ground arith)
