-- ===== src/Tests/Albums.antt =====
-- Albums of the small world.
use tesseract_go_api.Prelude.{
  ◌+◌, sort_by, Option, pos, String, Bool, true, false, not, List, [], ◌∷◌, none, some, ◌≡◌, refl,
  arith, filter, length-sort_by, IsUnique,
}
use tesseract_go_api.Exec.{ok}
use tesseract_go_api.Store.{query, Uuid, Time, Album, World}
use tesseract_go_api.Cursor.{sealed_with, encode, parse}
use tesseract_go_api.Cursor.Laws.{parse-encode}
use tesseract_go_api.Albums.Access.{can_access}
use tesseract_go_api.Albums.Queries.{
  RowKey, deletion_key, is_trashed, list_trashed_albums, is_before_or_at, date_key, is_owned,
  is_listed, has_direct_token,
}
use tesseract_go_api.Albums.Service
use tesseract_go_api.Albums.Service.{is_owner, is_hidden}
use tesseract_go_api.Albums.Repository
use tesseract_go_api.Albums.Lists.{list_trashed, paginate, deletion_end}
use tesseract_go_api.Albums.Paging.{walk, page_from}
use tesseract_go_api.Albums.Paging.Trash.{LeadsTo, list_trashed-page_from}
use tesseract_go_api.Albums.Paging.Walk.{in_key_order, walk-in_key_order}
use tesseract_go_api.Albums.Visibility.{
  is_listed-is_hidden, get_available-is_shown, get_owned-has_owner, get_by_direct_token-is_linked,
}
use tesseract_go_api.Albums.Isolation.{others, same_id}
use tesseract_go_api.Albums.Session.{
  toggle, delete, restore, generate_token, act_all, act_all-others,
}
use tesseract_go_api.Tests.Fixtures.{platform, at_time}
use tesseract_go_api.Tests.Sealing.{sealing, sealing-IsSealing}

abbrev album_row : Uuid → Uuid → String → Time → String → Bool → Album
album_row id user slug at access active = record {
  id = id;
  title = "title";
  cover = "cover";
  date_at = at;
  atlas = [];
  access = access;
  shared_emails = "bob@x" ∷ [];
  direct_token = some (100 + id);
  slug = slug;
  is_active = active;
  user_id = user;
  created_at = 0;
  updated_at = 0;
  deleted_at = none;
}

abbrev albums : List Album
albums =
    album_row 10 1 "sea" 50 "public" true
    ∷ album_row 11 1 "hill" 70 "shared" true
    ∷ album_row 12 1 "moor" 50 "private" true
    ∷ album_row 13 2 "sea" 60 "public" true
    ∷ []

abbrev gallery : World
gallery = record (at_time 100) { db = record (at_time 100).db { albums = albums; next_id = 14 } }

abbrev sealed_world : World
sealed_world = record (at_time 0) { drawn = 1 }

encode_runs :
    encode sealing 3 (sealing.format_id 2) (at_time 0)
    ≡ (ok (sealed_with sealing 0 3 (sealing.format_id 2)), sealed_world)
unfolding encode
encode_runs = refl

parse-encode_example :
    parse sealing (sealed_with sealing 0 3 (sealing.format_id 2)) ≡ ok (some (3, 2))
parse-encode_example =
    parse-encode sealing sealing-IsSealing 3 2 (sealed_with sealing 0 3 (sealing.format_id 2))
      (at_time 0) sealed_world encode_runs

walk-in_key_order_example :
    walk date_key (is_owned 1) albums 2 2 none ≡ in_key_order date_key (is_owned 1) albums
walk-in_key_order_example =
    walk-in_key_order date_key (is_owned 1) albums (refl, (refl, (refl, (refl, tt)))) 2
      (omega arith) (omega arith) 2
      (rw (length-sort_by (is_before_or_at date_key) (filter (is_owned 1) albums)) (omega arith))
      (omega arith)

is_listed-is_hidden_example :
    is_listed 1 "bob@x" (album_row 11 1 "hill" 70 "shared" true)
    ≡ not (is_hidden 2 "bob@x" (album_row 11 1 "hill" 70 "shared" true))
is_listed-is_hidden_example =
    is_listed-is_hidden 1 2 "bob@x" (album_row 11 1 "hill" 70 "shared" true) refl refl refl

abbrev served : World
unfolding Service.get_available Repository.get_by_slug
served = (Service.get_available 1 "hill" 2 "bob@x" gallery).1

available_runs :
    Service.get_available 1 "hill" 2 "bob@x" gallery
    ≡ (ok (album_row 11 1 "hill" 70 "shared" true), served)
unfolding Service.get_available Repository.get_by_slug served
available_runs = refl

get_available-is_shown_example :
    (true ≡ false → is_owner 2 (album_row 11 1 "hill" 70 "shared" true) ≡ true)
    × (can_access "shared"
          ("bob@x" ∷ [])
          "bob@x"
          (is_owner 2 (album_row 11 1 "hill" 70 "shared" true))
        ≡ true)
get_available-is_shown_example =
    get_available-is_shown 1 "hill" 2 "bob@x" gallery served
      (album_row 11 1 "hill" 70 "shared" true) available_runs

abbrev owned : World
unfolding Service.get_owned Repository.get_by_id
owned = (Service.get_owned 1 12 gallery).1

owned_runs : Service.get_owned 1 12 gallery ≡ (ok (album_row 12 1 "moor" 50 "private" true), owned)
unfolding Service.get_owned Repository.get_by_id owned
owned_runs = refl

get_owned-has_owner_example : (album_row 12 1 "moor" 50 "private" true).user_id ≡ 1
get_owned-has_owner_example =
    get_owned-has_owner 1 12 gallery owned (album_row 12 1 "moor" 50 "private" true) owned_runs

abbrev linked : World
unfolding Service.get_by_direct_token Repository.get_by_direct_token
linked = (Service.get_by_direct_token 113 gallery).1

linked_runs :
    Service.get_by_direct_token 113 gallery ≡ (ok (album_row 13 2 "sea" 60 "public" true), linked)
unfolding Service.get_by_direct_token Repository.get_by_direct_token linked
linked_runs = refl

get_by_direct_token-is_linked_example :
    ((album_row 13 2 "sea" 60 "public" true).is_active ≡ true)
    × (has_direct_token 113 (album_row 13 2 "sea" 60 "public" true).direct_token ≡ true)
get_by_direct_token-is_linked_example =
    get_by_direct_token-is_linked 113 gallery linked (album_row 13 2 "sea" 60 "public" true)
      linked_runs

act_all-others_example :
    (others 1
        (act_all platform 1
          (toggle 10 false ∷ delete 11 ∷ restore 11 ∷ generate_token 13 ∷ [])
          gallery).db.albums
      ≡ others 1 gallery.db.albums)
    × IsUnique same_id
        (act_all platform 1
          (toggle 10 false ∷ delete 11 ∷ restore 11 ∷ generate_token 13 ∷ [])
          gallery).db.albums
act_all-others_example =
    act_all-others platform 1 (toggle 10 false ∷ delete 11 ∷ restore 11 ∷ generate_token 13 ∷ [])
      gallery (refl, (refl, (refl, (refl, tt)))) (omega arith)

abbrev trashed_row : Uuid → Time → Album
trashed_row id at = record (album_row id 1 "old" 5 "public" true) { deleted_at = some at }

abbrev bin : World
bin = record (at_time 100) {
  db = record (at_time 100).db {
    albums = trashed_row 20 2 ∷ trashed_row 21 3 ∷ album_row 10 1 "sea" 50 "public" true ∷ [];
    next_id = 22;
  };
}

abbrev bin_listed : World
bin_listed = record bin { drawn = 1 }

list_trashed_runs :
    list_trashed sealing 1 "" (pos 1) bin
    ≡ (ok (trashed_row 21 3 ∷ [], sealed_with sealing 0 3 (sealing.format_id 21)), bin_listed)
unfolding list_trashed parse query list_trashed_albums paginate encode sort_by
list_trashed_runs = refl

list_trashed-page_from_example :
    (position : Option RowKey) × (end : Option Album) × (parse sealing "" ≡ ok position)
    × (page_from deletion_key (is_trashed 1) bin.db.albums 1 position
        ≡ ok (trashed_row 21 3 ∷ [], end))
    × LeadsTo sealing sealing-IsSealing
        (deletion_end end)
        (sealed_with sealing 0 3 (sealing.format_id 21))
list_trashed-page_from_example =
    list_trashed-page_from sealing sealing-IsSealing 1 ""
      (sealed_with sealing 0 3 (sealing.format_id 21)) 1 bin bin_listed (trashed_row 21 3 ∷ [])
      (omega arith) list_trashed_runs
