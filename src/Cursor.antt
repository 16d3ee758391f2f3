-- ===== src/Cursor.antt =====
-- internal/platform/cursor/cursor.go: the sealed position of a list. The cipher, base64, the formats
-- of times and the random nonces come from Go's packages and are parameters.
pub mod Laws
use Prim.Native.Char.{Char, code}
use Prim.Native.String as Text
use Prim.Native.String.{◌++◌ as append}
use tesseract_go_api.Prelude.{
  ℕ, zero, suc, String, Option, none, some, ◌+◌, ◌==◌, str_eq, if◌then◌else◌,
}
use tesseract_go_api.Response.{Error, sentinel, plain, invalid_cursor}
use tesseract_go_api.Exec.{Result, ok, err, Exec, return, lift, ◌>>=◌, ◌>>◌}
use tesseract_go_api.Store.{Uuid, Time, World, external}

-- Go's packages, with bytes as texts.
pub record Sealing : Type 0 where
  -- `Time.Format(time.RFC3339Nano)`, `time.Parse(time.RFC3339Nano, …)`
  pub format_time : Time → String
  pub parse_time : String → Option Time
  -- `UUID.String`, `uuid.Parse`
  pub format_id : Uuid → String
  pub parse_id : String → Option Uuid
  -- the bytes of the n-th nonce, and their number
  pub nonce : ℕ → String
  pub nonce_size : ℕ
  -- `aead.Seal(nil, nonce, plaintext, nil)`, `aead.Open(nil, nonce, ciphertext, nil)`
  pub seal : String → String → String
  pub unseal : String → String → Option String
  -- `base64.URLEncoding`
  pub encode64 : String → String
  pub decode64 : String → Option String

-- The first bytes, and those behind them; nothing if the text is shorter.
abbrev pub prepend : Char → Option (String × String) → Option (String × String)
prepend c none = none
prepend c (some (s, t)) = some (Text.◌∷◌ c s, t)

unfoldable pub split_at : ℕ → String → Option (String × String)
split_at zero s = some ("", s)
split_at (suc n) Text.[] = none
split_at (suc n) (Text.◌∷◌ c s) = prepend c (split_at n s)

-- `strings.SplitN(s, "|", 2)`, where it has two parts.
unfoldable pub split_bar : String → Option (String × String)
split_bar Text.[] = none
split_bar (Text.◌∷◌ c s) =
    let rest = prepend c (split_bar s) in if code c == 124 then some ("", s) else rest

module _ (s : Sealing) where
  -- The cursor under the n-th nonce.
  abbrev pub sealed_with : ℕ → Time → String → String
  sealed_with n t id =
      s.encode64
        (append (s.nonce n) (s.seal (s.nonce n) (append (s.format_time t) (append "|" id))))

  -- `Encode`.
  unfoldable pub encode : Time → String → Exec World String
  unfolding external
  encode t id = do external; λ w. (ok (sealed_with w.drawn t id), record w { drawn = w.drawn + 1 })

  abbrev refused : {A : Type 0} → Result A
  refused = err (sentinel invalid_cursor)

  abbrev parse_parts : Option (String × String) → Result (Time × String)
  parse_parts none = refused
  parse_parts (some (date, id)) = elim (s.parse_time date) [ none ↦ refused | some t ↦ ok (t, id) ]

  abbrev open_sealed : Option (String × String) → Result (Time × String)
  open_sealed none = refused
  open_sealed (some (nonce, sealed)) = elim (s.unseal nonce sealed) [
    | none ↦ refused
    | some plaintext ↦ parse_parts (split_bar plaintext)
  ]

  -- `Decode`, of a cursor that is not empty.
  unfoldable pub decode : String → Result (Time × String)
  unfolding split_bar split_at
  decode encoded = elim (s.decode64 encoded) [
    | none ↦ refused
    | some bytes ↦ open_sealed (split_at s.nonce_size bytes)
  ]

  abbrev parse_key : Result (Time × String) → Result (Option (Time × Uuid))
  parse_key (err e) = err e
  parse_key (ok (t, text)) = elim (s.parse_id text) [
    | none ↦ err (plain "invalid UUID")
    | some id ↦ ok (some (t, id))
  ]

  -- `Parse`: nothing for the empty cursor.
  unfoldable pub parse : String → Result (Option (Time × Uuid))
  unfolding decode
  parse cursor = if str_eq cursor "" then ok none else parse_key (decode cursor)
