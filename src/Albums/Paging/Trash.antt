-- ===== src/Albums/Paging/Trash.antt =====
-- `ListTrashed` (internal/domain/albums/repository.go) and the pages of the database.
use mathlib.Core.Path.{subst}
use tesseract_go_api.Prelude.{
  ℕ, suc, pos, String, List, Option, none, some, ◌≡◌, refl, ◌⊎◌, inl, inr, ◌+◌, ◌<◌, arith,
  to_int32_lem,
}
use tesseract_go_api.Response.{wrapped, invalid_cursor}
use tesseract_go_api.Exec.{Result, ok, err, lift, try, return, ◌>>=◌}
use tesseract_go_api.Exec.Inversion.{bind_ok, catch_ok}
use tesseract_go_api.Store.{Uuid, Album, World, query}
use tesseract_go_api.Store.Inversion.{query_ok}
use tesseract_go_api.Cursor.{Sealing, encode, parse}
use tesseract_go_api.Cursor.Laws.{IsSealing, parse-encode}
use tesseract_go_api.Albums.Queries.{
  RowKey, deletion_key, is_trashed, list_trashed_albums, select_page,
}
use tesseract_go_api.Albums.Lists.{
  list_trashed, next_cursor, parse_cursor, fetch_limit, paginate, trashed_page, deletion_end,
  text_or_empty,
}
use tesseract_go_api.Albums.Paging.{page_from}

module _ (s : Sealing) (sealing : IsSealing s) where
  -- No cursor behind the last page, or behind an error of `Encode`; else the way to the row.
  abbrev pub LeadsTo : Option RowKey → String → Type 0
  LeadsTo none next = next ≡ ""
  LeadsTo (some k) next = (next ≡ "") ⊎ (parse s next ≡ ok (some k))

  encoded_or_empty :
      (k : RowKey) (r : Result String) (w v w' : World) (next : String)
      → encode s k.0 (s.format_id k.1) w ≡ (r, v)
      → text_or_empty s r v ≡ (ok next, w')
      → LeadsTo (some k) next
  unfolding return
  encoded_or_empty k (ok text) w v w' next e h =
      inr (parse-encode s sealing k.0 k.1 next w v (ground arith))
  encoded_or_empty k (err x) w v w' next e h = inl (ground arith)

  next_cursor-LeadsTo :
      (end : Option RowKey) (w w' : World) (next : String)
      → next_cursor s end w ≡ (ok next, w')
      → LeadsTo end next
  unfolding return try ◌>>=◌
  next_cursor-LeadsTo none w w' next h = ground arith
  next_cursor-LeadsTo (some k) w w' next h =
      encoded_or_empty k (encode s k.0 (s.format_id k.1) w).0 w (encode s k.0 (s.format_id k.1) w).1
        w' next refl h

  parse_cursor_ok :
      (cursor : String) (position : Option RowKey) (w w' : World)
      → parse_cursor s cursor w ≡ (ok position, w')
      → (parse s cursor ≡ ok position) × (w' ≡ w)
  unfolding lift
  parse_cursor_ok cursor position w w' h =
      let e = catch_ok (lift (parse s cursor)) (wrapped invalid_cursor) w h in
      (ground arith, ground arith)

  trashed_rows :
      (user : Uuid) (position : Option RowKey) (n : ℕ) (w w' : World) (rows : List Album)
      → suc n < 2_147_483_648
      → query (list_trashed_albums user position (fetch_limit (pos n))) w ≡ (ok rows, w')
      → rows ≡ select_page deletion_key (is_trashed user) position (suc n) w.db.albums
  unfolding list_trashed_albums
  trashed_rows user position n w w' rows small h =
      let (os, db, e, _) =
        query_ok (list_trashed_albums user position (fetch_limit (pos n))) w w' h in
      ground (arith, to_int32_lem (n + 1) (omega arith))

  lift_ok : {A : Type 0} (r : Result A) (a : A) (w w' : World) → lift r w ≡ (ok a, w') → r ≡ ok a
  unfolding lift
  lift_ok r a w w' h = ground arith

  returned_ok :
      (page albums : List Album) (text next : String) (w w' : World)
      → return {A = List Album × String} (page, text) w ≡ (ok (albums, next), w')
      → (page ≡ albums) × (text ≡ next)
  unfolding return
  returned_ok page albums text next w w' h = (ground arith, ground arith)

  page_of :
      (user : Uuid) (position : Option RowKey) (n : ℕ) (w v : World) (rows page albums : List Album)
      (end : Option Album)
      → v ≡ w
      → rows ≡ select_page deletion_key (is_trashed user) position (suc n) v.db.albums
      → paginate (pos n) rows ≡ ok (page, end)
      → page ≡ albums
      → page_from deletion_key (is_trashed user) w.db.albums n position ≡ ok (albums, end)
  unfolding page_from
  page_of user position n w v rows page albums end same selected cut whole =
      cc (same, selected, cut, whole)

  -- For a sealing that undoes itself and a page length below 2^31 - 1: a list of deleted albums
  -- that `ListTrashed` returns is the page of the database's rows at the position of the cursor
  -- that was given, and the next cursor is empty or leads to the position behind the page's last
  -- row; it is empty where no row is left.
  pub list_trashed-page_from :
      (user : Uuid) (cursor next : String) (n : ℕ) (w w' : World) (albums : List Album)
      → suc n < 2_147_483_648
      → list_trashed s user cursor (pos n) w ≡ (ok (albums, next), w')
      → (position : Option RowKey) × (end : Option Album) × (parse s cursor ≡ ok position)
        × (page_from deletion_key (is_trashed user) w.db.albums n position ≡ ok (albums, end))
        × LeadsTo (deletion_end end) next
  unfolding list_trashed
  list_trashed-page_from user cursor next n w w' albums small h =
      let (position, w₁, e₁, h₁) = bind_ok _ _ w h in
      let (rows, w₂, e₂, h₂) = bind_ok _ _ w₁ h₁ in
      let ((page, end), w₃, e₃, h₃) =
        bind_ok (lift (paginate (pos n) rows)) (trashed_page s) w₂ h₂ in
      let (text, w₄, e₄, h₄) =
        bind_ok (next_cursor s (deletion_end end)) (λ c. return (page, c)) w₃ h₃ in
      let (parsed, same) = parse_cursor_ok cursor position w w₁ e₁ in
      let (pages, cursors) = returned_ok page albums text next w₄ w' h₄ in
      (
        position,
        end,
        parsed,
        page_of user position n w w₁ rows page albums end same
            (trashed_rows user position n w₁ w₂ rows small e₂)
            (lift_ok (paginate (pos n) rows) (page, end) w₂ w₃ e₃) pages,
        subst (LeadsTo (deletion_end end)) cursors
            (next_cursor-LeadsTo (deletion_end end) w₃ w₄ text e₄),
      )
