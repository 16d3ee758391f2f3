-- ===== src/Middleware/Revalidation.antt =====
-- cmd/api/middleware.go, ETagChecker: a client that asks again with the tag that it was given.
use tesseract_go_api.Prelude.{
  String, false, List, [], ◌∷◌, Option, none, some, ◌≡◌, ◌↔◌, refl, sym, ap, ◌∙◌, arith, str_eq,
  eq_iff, if◌then◌else◌,
}
use tesseract_go_api.Http.{Body, HeaderValue, Response, Request, Exchange, plain_text, put_header}
use tesseract_go_api.Middleware.{Endpoint}
use tesseract_go_api.Middleware.Recorder.{recorded, send, etag_checker}

-- `w.Header().Get`.
abbrev pub header_of : String → List (String × HeaderValue) → Option HeaderValue
header_of name [] = none
header_of name ((m, v) ∷ rest) = if str_eq m name then some v else header_of name rest

header_of-put :
    (asked name : String) (v : HeaderValue) (hs : List (String × HeaderValue))
    → header_of asked (put_header name v hs)
      ≡ (if str_eq name asked then some v else header_of asked hs)
unfolding put_header
header_of-put asked name v [] = refl
header_of-put asked name v ((m, u) ∷ rest) =
    ground
      (arith, eq_iff m name, eq_iff m asked, eq_iff name asked, header_of-put asked name v rest)

module _ {D : Type 0} (hash : List (Body D) → String) where
  pub send-tag :
      (tag : String) (out : Response D)
      → out.status ≡ 200
      → str_eq tag (hash out.bodies) ≡ false
      → header_of "ETag" (send hash "GET" tag out).headers ≡ some (plain_text (hash out.bodies))
  unfolding send
  send-tag tag out found other = ground (
    arith,
    header_of-put "ETag" "ETag" (plain_text (hash out.bodies)) out.headers,
    header_of-put "ETag" "Cache-Control" (plain_text "no-cache")
        (put_header "ETag" (plain_text (hash out.bodies)) out.headers),
  )

  send-again :
      (tag : String) (out : Response D)
      → out.status ≡ 200
      → ((send hash "GET" tag out).status ≡ 304) ↔ (tag ≡ hash out.bodies)
  unfolding send
  send-again tag out found = ground (arith, eq_iff tag (hash out.bodies))

module _ {B D : Type 0} (hash : List (Body D) → String) (next : Endpoint B D) where
  -- What the handlers behind the middleware wrote.
  abbrev pub written : Request B → Exchange D → Response D
  written r x = (recorded (next r) x).response

  abbrev pub sent : Request B → Exchange D → Response D
  sent r x = (etag_checker hash next r x).1.response

  -- A client GETs a page that is answered with 200 and was not tagged by the client with its hash,
  -- and GETs again, the tag that it was sent in If-None-Match, where the handlers answer with 200
  -- again: if the hash does not collide on the two bodies, the second answer is 304 exactly where
  -- the bodies are the same.
  pub etag_checker-revalidates :
      (r again : Request B) (x y : Exchange D)
      → r.method ≡ "GET"
      → again.method ≡ "GET"
      → (written r x).status ≡ 200
      → (written again y).status ≡ 200
      → str_eq (r.header "If-None-Match") (hash (written r x).bodies) ≡ false
      → header_of "ETag" (sent r x).headers ≡ some (plain_text (again.header "If-None-Match"))
      → (hash (written r x).bodies ≡ hash (written again y).bodies
          → (written r x).bodies ≡ (written again y).bodies)
      → ((sent again y).status ≡ 304) ↔ ((written r x).bodies ≡ (written again y).bodies)
  unfolding etag_checker
  etag_checker-revalidates r again x y get get' found found' untagged kept apart =
      let given = send-tag hash (r.header "If-None-Match") (written r x) found untagged in
      let tag : again.header "If-None-Match" ≡ hash (written r x).bodies = cc (kept, given, get) in
      let met = send-again hash (again.header "If-None-Match") (written again y) found' in
      let get_again : (sent again y).status
          ≡ (send hash "GET" (again.header "If-None-Match") (written again y)).status =
        cc get' in
      (λ s. apart (sym tag ∙ met.0 (sym get_again ∙ s)), λ e. get_again ∙ met.1 (tag ∙ ap hash e))
