-- ===== src/Users/Avatars.antt =====
-- internal/domain/users/handler.go: the avatars that the update of a user stores.
use tesseract_go_api.Prelude.{
  String, Bool, Option, none, some, ◌≡◌, inl, inr, refl, All, All-update, str_eq, eq_iff,
  Bool-cases, any,
}
use tesseract_go_api.Exec.{Result, ok, err, Exec, ◌>>=◌}
use tesseract_go_api.Response.{user_updated}
use tesseract_go_api.Store.{Uuid, Time, User, Tables, World, query}
use tesseract_go_api.Store.Keeps.{Keeps, Keeps-query, Keeps-catch, Keeps-bind, keeps_rules}
use tesseract_go_api.Platform.{Platform}
use tesseract_go_api.Http.{Request, Exchange, run, call, write_error, write_success_data}
use tesseract_go_api.Http.Serves.{Serves, Holds, run-Holds, serves_rules, table_rules}
use tesseract_go_api.Urls.{UrlLibrary, validate_and_sanitize_url}
use tesseract_go_api.Urls.Safety.{IsWeb, validate_and_sanitize_url-IsWeb}
use tesseract_go_api.Users.Queries.{other_holds_slug, rewrite, update_found, update_user}
use tesseract_go_api.Users.Repository
use tesseract_go_api.Users.Repository.{UpdateRequest}
use tesseract_go_api.Users.Service
use tesseract_go_api.Users.Handler as Users
use tesseract_go_api.Users.Handler.{UserResponse, Config, to_me, sanitized, secured_avatar}

module _ {Url : Type 0} (lib : UrlLibrary Url) where
  -- The avatars of all users.
  pub record AvatarsWeb (db : Tables) : Type 0 where
    pub avatars : All (λ (u : User). IsWeb lib u.avatar) db.users

  update_found-AvatarsWeb :
      (id : Uuid) (name slug avatar : String) (now : Time) (o : Option User) (db : Tables)
      → IsWeb lib avatar
      → AvatarsWeb db
      → AvatarsWeb (update_found id name slug avatar now o db).1
  update_found-AvatarsWeb id name slug avatar now none db web v = v
  update_found-AvatarsWeb id name slug avatar now (some u) db web v =
      elim (Bool-cases (any (other_holds_slug id slug) db.users)) [
        | inl t ↦ rw t v
        | inr t ↦ rw t (record {
          avatars = All-update _ _ (rewrite name slug avatar now) db.users (λ x e w. web) v.avatars;
        })
      ]

  written :
      (id : Uuid) (name slug avatar : String)
      → IsWeb lib avatar
      → Keeps AvatarsWeb (query (update_user id name slug avatar))
  written id name slug avatar web =
      Keeps-query _
        λ now db v. unfold update_user in update_found-AvatarsWeb id name slug avatar now _ db web v

  updated :
      (id : Uuid) (req : UpdateRequest)
      → IsWeb lib req.avatar
      → Keeps AvatarsWeb (Service.update id req)
  unfolding Service.update Repository.update
  updated id req web =
      Keeps-catch _ _
        (Keeps-bind _ _ (written id req.username req.slug req.avatar web) λ out. search keeps_rules)
        λ e. search keeps_rules

  module _ (c : UpdateRequest → Bool) where
    -- The handler with the check of `utils`.
    abbrev pub checked : Config
    checked = record { is_valid = c; sanitize_url = validate_and_sanitize_url lib }

    sanitized-then :
        {A : Type 0} (r : Result String) (k : String → Exec (Exchange UserResponse) A)
        → ((s : String) → r ≡ ok s → IsWeb lib s)
        → ((s : String) → IsWeb lib s → Serves (Holds AvatarsWeb) (k s))
        → Serves (Holds AvatarsWeb) (sanitized r >>= k)
    unfolding ◌>>=◌ write_error
    sanitized-then (ok url) k web next = record { at = λ x h. (next url (web url refl)).at x h }
    sanitized-then (err e) k web next = record {
      at = λ x h. (next "" (inl refl)).at _ (record { tables = h.tables });
    }

    secured-then :
        {A : Type 0} (p : Platform) (avatar : String) (k : String → Exec (Exchange UserResponse) A)
        → ((s : String) → IsWeb lib s → Serves (Holds AvatarsWeb) (k s))
        → Serves (Holds AvatarsWeb) (secured_avatar p checked avatar >>= k)
    unfolding ◌>>=◌
    secured-then p avatar k next = elim (Bool-cases (str_eq avatar "")) [
      | inl t ↦ rw t (record { at = λ x h. (next avatar (inl ((eq_iff avatar "").0 t))).at x h })
      | inr t ↦ rw t (
          sanitized-then (validate_and_sanitize_url lib avatar) k
            (validate_and_sanitize_url-IsWeb lib avatar) next)
    ]

    updated_page :
        (p : Platform) (id : Uuid) (req : UpdateRequest) (s : String)
        → IsWeb lib s
        → Serves (Holds AvatarsWeb) (do
          u ← call (Service.update id (record req { avatar = s }))
          write_success_data user_updated (to_me u))
    updated_page p id req s web =
        search (serves_rules, table_rules, updated id (record req { avatar = s }) web)

    update-Serves :
        (p : Platform) (r : Request UpdateRequest)
        → Serves (Holds AvatarsWeb) (Users.update p checked r)
    unfolding Users.update
    update-Serves p r = search (serves_rules, table_rules, secured-then, updated_page) depth 16

    -- Where the avatars of all users are empty or web URLs with a host, as the library writes them:
    -- they are so after a request to update a user, whatever the request asks for and however it
    -- ends.
    pub update-AvatarsWeb :
        (p : Platform) (r : Request UpdateRequest) (w : World)
        → AvatarsWeb w.db
        → AvatarsWeb (run (Users.update p checked r) w).world.db
    update-AvatarsWeb p r w v = run-Holds (Users.update p checked r) w (update-Serves p r) v
