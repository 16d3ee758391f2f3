-- ===== src/Users/Deletion.antt =====
-- internal/domain/users: the end of an account, and the update of a profile.
use tesseract_go_api.Prelude.{
  false, not, List, [], ◌∷◌, some, ◌≡◌, refl, arith, ◌&&◌, find?, find?-test, any, update,
  any-filter_self,
}
use tesseract_go_api.Exec.{ok}
use tesseract_go_api.Store.{Uuid, Time, User, World}
use tesseract_go_api.Platform.{Platform}
use tesseract_go_api.Tokens.Queries.{of_user}
use tesseract_go_api.Users.Queries.{is_live, has_id}
use tesseract_go_api.Users.Queries as Queries
use tesseract_go_api.Users.Service
use tesseract_go_api.Users.Handler
use tesseract_go_api.Users.Handler.{UserResponse}

deleted_not_live :
    (id : Uuid) (now : Time) (us : List User)
    → any (λ u. has_id id u && is_live u) (update (has_id id) (Queries.delete now) us) ≡ false
deleted_not_live id now [] = refl
deleted_not_live id now (u ∷ us) = ground (arith, deleted_not_live id now us)

-- Where no external call fails and the user is found: the deletion of a user leaves no active
-- account with the id and no refresh token of it.
pub delete-ends :
    (id : Uuid) (w : World) (u : User)
    → w.outcomes ≡ []
    → find? (λ x. has_id id x && is_live x) w.db.users ≡ some u
    → ((Service.delete id w).0 ≡ ok id)
      × (any (λ x. has_id id x && is_live x) (Service.delete id w).1.db.users ≡ false)
      × (any (of_user id) (Service.delete id w).1.db.tokens ≡ false)
unfolding Service.delete
delete-ends id w u calm found =
    let same : u.id ≡ id = ground (arith, find?-test _ w.db.users u found) in
    (
      ground arith,
      ground (arith, deleted_not_live id w.now w.db.users),
      ground (
        arith,
        any-filter_self (of_user id) (λ t. not (of_user id t)) w.db.tokens λ t n. ground arith,
      ),
    )
