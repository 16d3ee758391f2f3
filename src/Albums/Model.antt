-- ===== src/Albums/Model.antt =====
-- internal/domain/albums/model.go: what of an album is shown. `none` is a field that the JSON leaves
-- out.
use tesseract_go_api.Prelude.{String, Bool, true, false, List, Option, none, some, map}
use tesseract_go_api.Store.{Uuid, Time, AtlasItem, Album}

pub record AlbumResponse : Type 0 where
  pub id : Option Uuid
  pub title : String
  pub slug : Option String
  pub cover : String
  pub atlas : Option (List AtlasItem)
  pub access : Option String
  pub direct_token : Option (Option Uuid)
  pub shared_emails : Option (List String)
  pub date_at : Time
  pub is_active : Option Bool
  pub created_at : Option Time
  pub updated_at : Option Time
  pub deleted_at : Option Time
  pub is_owner : Bool

-- The fields that are in every answer, and none of the others.
abbrev pub bare : Album → AlbumResponse
bare a = record {
  id = none;
  title = a.title;
  slug = none;
  cover = a.cover;
  atlas = none;
  access = none;
  direct_token = none;
  shared_emails = none;
  date_at = a.date_at;
  is_active = none;
  created_at = none;
  updated_at = none;
  deleted_at = none;
  is_owner = false;
}

unfoldable pub to_my : Album → AlbumResponse
to_my a = record (bare a) {
  id = some a.id;
  slug = some a.slug;
  atlas = some a.atlas;
  access = some a.access;
  direct_token = some a.direct_token;
  shared_emails = some a.shared_emails;
  is_active = some a.is_active;
  is_owner = true;
}

unfoldable pub to_public : Album → AlbumResponse
to_public a = record (bare a) { slug = some a.slug; atlas = some a.atlas }

unfoldable pub to_direct : Album → AlbumResponse
to_direct a = record (bare a) { atlas = some a.atlas }

abbrev my_item : Album → AlbumResponse
my_item a = record (bare a) {
  id = some a.id;
  slug = some a.slug;
  access = some a.access;
  is_active = some a.is_active;
}

abbrev public_item : Album → AlbumResponse
public_item a = record (bare a) { slug = some a.slug }

unfoldable pub to_my_album_list : List Album → List AlbumResponse
to_my_album_list albums = map my_item albums

unfoldable pub to_public_album_list : List Album → List AlbumResponse
to_public_album_list albums = map public_item albums
