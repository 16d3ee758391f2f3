-- ===== src/Cursor/Laws.antt =====
-- internal/platform/cursor: writing a cursor and reading it back.
use Prim.Native.Char.{code}
use Prim.Native.String as Text
use Prim.Native.String.{◌++◌ as append, count}
use Prim.Native.String.append.{nil, cons}
use Prim.Native.String.count as Count
use tesseract_go_api.Prelude.{
  ℕ, String, some, ◌≡◌, refl, sym, ap, arith, ◌==◌, Bool, false, str_eq, ◌||◌,
}
use tesseract_go_api.Exec.{ok}
use tesseract_go_api.Store.{Uuid, Time, World, external}
use tesseract_go_api.Cursor.{
  Sealing, sealed_with, prepend, split_at, split_bar, encode, decode, parse,
}

-- Whether a text has a `|`.
abbrev pub has_bar : String → Bool
has_bar Text.[] = false
has_bar (Text.◌∷◌ c s) = code c == 124 || has_bar s

-- What the code relies on: each reader undoes its writer, the times have no `|` in them, a nonce has
-- its length, and no cursor is empty.
pub record IsSealing (s : Sealing) : Type 0 where
  pub times : (t : Time) → s.parse_time (s.format_time t) ≡ some t
  pub no_bar : (t : Time) → has_bar (s.format_time t) ≡ false
  pub ids : (id : Uuid) → s.parse_id (s.format_id id) ≡ some id
  pub nonces : (n : ℕ) → count (s.nonce n) ≡ s.nonce_size
  pub seals : (nonce text : String) → s.unseal nonce (s.seal nonce text) ≡ some text
  pub codes : (bytes : String) → s.decode64 (s.encode64 bytes) ≡ some bytes
  pub filled :
      (nonce text : String) → str_eq (s.encode64 (append nonce (s.seal nonce text))) "" ≡ false

split_at-append : (s t : String) → split_at (count s) (append s t) ≡ some (s, t)
unfolding split_at
split_at-append Text.[] t = rw nil refl
split_at-append (Text.◌∷◌ c s) t = rw (Count.cons, cons) (ap (prepend c) (split_at-append s t))

split_bar-append :
    (s t : String) → has_bar s ≡ false → split_bar (append s (append "|" t)) ≡ some (s, t)
unfolding split_bar
split_bar-append Text.[] t h = rw (nil, cons, nil) refl
split_bar-append (Text.◌∷◌ c s) t h = ground (arith, cons c s (append "|" t), split_bar-append s t)

module _ (s : Sealing) where
  encode_ok :
      (t : Time) (id cursor : String) (w w' : World)
      → encode s t id w ≡ (ok cursor, w')
      → cursor ≡ sealed_with s w.drawn t id
  unfolding encode external
  encode_ok t id cursor w w' e = ground arith

  module _ (sealing : IsSealing s) where
    decode-sealed_with :
        (n : ℕ) (t : Time) (id : String) → decode s (sealed_with s n t id) ≡ ok (t, id)
    unfolding decode
    decode-sealed_with n t id =
        let text : String = append (s.format_time t) (append "|" id) in
        let split : split_at s.nonce_size (append (s.nonce n) (s.seal (s.nonce n) text))
            ≡ some (s.nonce n, s.seal (s.nonce n) text) =
          rw (sym (sealing.nonces n)) (split_at-append (s.nonce n) (s.seal (s.nonce n) text)) in
        ground (
          arith,
          sealing.codes (append (s.nonce n) (s.seal (s.nonce n) text)),
          split,
          sealing.seals (s.nonce n) text,
          split_bar-append (s.format_time t) id (sealing.no_bar t),
          sealing.times t,
        )

    -- For a cipher, codecs and formats that undo themselves: the cursor that a page ends with is
    -- read back, at any later time, as the time and the id of the row it was made of.
    pub parse-encode :
        (t : Time) (id : Uuid) (cursor : String) (w w' : World)
        → encode s t (s.format_id id) w ≡ (ok cursor, w')
        → parse s cursor ≡ ok (some (t, id))
    unfolding parse
    parse-encode t id cursor w w' e = ground (
      arith,
      encode_ok t (s.format_id id) cursor w w' e,
      sealing.filled (s.nonce w.drawn) (append (s.format_time t) (append "|" (s.format_id id))),
      decode-sealed_with w.drawn t (s.format_id id),
      sealing.ids id,
    )
