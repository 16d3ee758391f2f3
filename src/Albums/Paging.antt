-- ===== src/Albums/Paging.antt =====
-- The pages of a list of albums, from the first to the last: the statement, the cut of
-- `hydrateAlbumsList` and `ListTrashed`, and the next cursor.
pub mod Order
pub mod Walk
pub mod Trash
use tesseract_go_api.Prelude.{ℕ, zero, suc, pos, Bool, List, [], ◌++◌, Option, none, some}
use tesseract_go_api.Exec.{Result, ok, err}
use tesseract_go_api.Store.{Album}
use tesseract_go_api.Albums.Queries.{RowKey, select_page}
use tesseract_go_api.Albums.Lists.{paginate}

-- The page from a position, with the row that its next cursor leads to.
unfoldable pub page_from :
    (Album → RowKey)
    → (Album → Bool)
    → List Album
    → ℕ
    → Option RowKey
    → Result (List Album × Option Album)
unfolding select_page paginate
page_from key where_ albums limit cursor =
    paginate (pos limit) (select_page key where_ cursor (suc limit) albums)

abbrev pub then_pages :
    (Album → RowKey)
    → (Option RowKey → List Album)
    → Result (List Album × Option Album)
    → List Album
then_pages key rest (ok (page, none)) = page
then_pages key rest (ok (page, some a)) = page ++ rest (some (key a))
then_pages key rest (err e) = []

-- A client that follows the cursors, for at most so many pages.
unfoldable pub walk :
    (Album → RowKey) → (Album → Bool) → List Album → ℕ → ℕ → Option RowKey → List Album
walk key where_ albums limit zero cursor = []
walk key where_ albums limit (suc pages) cursor =
    then_pages key (λ c. walk key where_ albums limit pages c)
      (page_from key where_ albums limit cursor)
