-- ===== src/Albums/Access.antt =====
-- internal/domain/shared/types/access.go: who may see an album.
use tesseract_go_api.Prelude.{String, Bool, true, false, List, str_eq, any, if◌then◌else◌}

-- `slices.Contains`.
abbrev pub contains : List String → String → Bool
contains texts t = any (λ x. str_eq x t) texts

-- `Access.CanAccess`: a level that is neither public nor shared is closed to all but the owner.
unfoldable pub can_access : String → List String → String → Bool → Bool
can_access access shared_emails user_email is_owner =
    if is_owner
    then true
    else if str_eq access "public"
    then true
    else if str_eq access "shared"
    then contains shared_emails user_email
    else false
