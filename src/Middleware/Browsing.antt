-- ===== src/Middleware/Browsing.antt =====
-- cmd/api/middleware.go: ETagChecker before a client that keeps the last page and its tag.
use tesseract_go_api.Prelude.{
  String, true, false, List, [], ◌∷◌, Option, some, ◌≡◌, ◌≢◌, ◌⊎◌, inl, inr, refl, sym, ap, ◌∙◌,
  arith, ◌==◌, str_eq, eq_iff, Bool-cases, All, if◌then◌else◌,
}
use tesseract_go_api.Http.{Body, HeaderValue, Response, Request, Exchange, plain_text}
use tesseract_go_api.Middleware.{Endpoint}
use tesseract_go_api.Middleware.Recorder.{send, not_modified, tagged, etag_checker}
use tesseract_go_api.Middleware.Revalidation.{header_of, send-tag, written, sent}

-- The last page that was answered with 200, and its tag.
pub record Kept (D : Type 0) : Type 0 where
  pub bodies : List (Body D)
  pub tag : String

-- What came of a visit: the page that the client had, what the handlers wrote, and what was sent.
pub record Visit (D : Type 0) : Type 0 where
  pub had : List (Body D)
  pub wrote : Response D
  pub got : Response D

-- A GET with the client's tag.
abbrev pub ask : {B : Type 0} → String → Request B → Request B
ask tag r = record r {
  method = "GET";
  header = λ name. if str_eq name "If-None-Match" then tag else r.header name;
}

abbrev text_of : Option HeaderValue → String
text_of (some (plain_text s)) = s
text_of _ = ""

module _ {D : Type 0} where
  -- The page that the client shows: its own one after a 304.
  abbrev pub shown : Visit D → List (Body D)
  shown v = if v.got.status == 304 then v.had else v.got.bodies

  abbrev pub renew : Kept D → Response D → Kept D
  renew kept out =
      if out.status == 200
      then record { bodies = out.bodies; tag = text_of (header_of "ETag" out.headers) }
      else kept

  abbrev pub IsNew : Visit D → Type 0
  IsNew v = ¬ ((v.wrote.status ≡ 200) × (v.wrote.bodies ≡ v.had))

  -- The client shows what the handlers wrote. It is sent again exactly where it is new, and else the
  -- answer is 304 without a body.
  abbrev pub IsServed : Visit D → Type 0
  IsServed v =
      (shown v ≡ v.wrote.bodies)
      × (((v.wrote.status ≡ 200)
            × (v.wrote.bodies ≡ v.had)
            × (v.got.status ≡ 304)
            × (v.got.bodies ≡ []))
          ⊎ (IsNew v × (v.got.status ≡ v.wrote.status) × (v.got.bodies ≡ v.wrote.bodies)))

module _ {B D : Type 0} (hash : List (Body D) → String) (next : Endpoint B D) where
  abbrev pub visit : Kept D → Request B → Exchange D → Visit D
  visit kept r x = record {
    had = kept.bodies;
    wrote = written hash next (ask kept.tag r) x;
    got = sent hash next (ask kept.tag r) x;
  }

  -- A client that visits the route, each time in the world that is there then.
  abbrev pub browse : Kept D → List (Request B × Exchange D) → List (Visit D)
  browse kept [] = []
  browse kept ((r, x) ∷ more) =
      visit kept r x ∷ browse (renew kept (sent hash next (ask kept.tag r) x)) more

  as_is :
      (tag : String) (out : Response D)
      → (out.status == 200) ≡ false
      → send hash "GET" tag out ≡ out
  unfolding send
  as_is tag out e = ground arith

  spared :
      (tag : String) (out : Response D)
      → (out.status == 200) ≡ true
      → str_eq tag (hash out.bodies) ≡ true
      → send hash "GET" tag out ≡ not_modified out
  unfolding send
  spared tag out e t = ground arith

  with_tag :
      (tag : String) (out : Response D)
      → (out.status == 200) ≡ true
      → str_eq tag (hash out.bodies) ≡ false
      → send hash "GET" tag out ≡ tagged (hash out.bodies) out
  unfolding send
  with_tag tag out e t = ground arith

  sent-IsServed :
      (had : List (Body D)) (tag : String) (out : Response D)
      → tag ≡ hash had
      → out.status ≢ 304
      → (hash had ≡ hash out.bodies → had ≡ out.bodies)
      → IsServed (record { had = had; wrote = out; got = send hash "GET" tag out })
  sent-IsServed had tag out same own apart = elim (Bool-cases (out.status == 200)) [
    | inr e ↦
        rw (as_is tag out e) (ground (arith, own), inr ((λ b. ground (arith, e, b.0)), refl, refl))
    | inl e ↦ elim (Bool-cases (str_eq tag (hash out.bodies))) [
      | inl t ↦
          let met = apart (sym same ∙ (eq_iff tag (hash out.bodies)).0 t) in
          rw (spared tag out e t) (met, inl (ground (arith, e), sym met, refl, refl))
      | inr t ↦ rw (with_tag tag out e t) (
        ground (arith, e),
        inr (
          (λ b. ground (arith, eq_iff tag (hash out.bodies), t, same ∙ ap hash (sym b.1))),
          refl,
          refl,
        ),
      )
    ]
  ]

  renew-new :
      (kept : Kept D) (out : Response D) (etag : String)
      → (out.status == 200) ≡ true
      → header_of "ETag" out.headers ≡ some (plain_text etag)
      → etag ≡ hash out.bodies
      → (renew kept out).tag ≡ hash (renew kept out).bodies
  renew-new kept out etag e given same = rw (e, given) same

  renew-kept :
      (kept : Kept D) (out : Response D)
      → kept.tag ≡ hash kept.bodies
      → (renew kept (send hash "GET" kept.tag out)).tag
        ≡ hash (renew kept (send hash "GET" kept.tag out)).bodies
  renew-kept kept out same = elim (Bool-cases (out.status == 200)) [
    | inr e ↦ rw (as_is kept.tag out e, e) same
    | inl e ↦ elim (Bool-cases (str_eq kept.tag (hash out.bodies))) [
      | inl t ↦ rw (spared kept.tag out e t) same
      | inr t ↦
          renew-new kept (send hash "GET" kept.tag out) (hash out.bodies)
            (ap (λ (o : Response D). o.status == 200) (with_tag kept.tag out e t) ∙ e)
            (send-tag hash kept.tag out (ground (arith, e)) t)
            (ap (λ (o : Response D). hash o.bodies) (sym (with_tag kept.tag out e t)))
    ]
  ]

  module _ (Page : List (Body D) → Type 0) where
    renew-Page :
        (kept : Kept D) (out : Response D)
        → Page kept.bodies
        → Page out.bodies
        → Page (renew kept (send hash "GET" kept.tag out)).bodies
    renew-Page kept out had wrote = elim (Bool-cases (out.status == 200)) [
      | inr e ↦ rw (as_is kept.tag out e, e) had
      | inl e ↦ elim (Bool-cases (str_eq kept.tag (hash out.bodies))) [
        | inl t ↦ rw (spared kept.tag out e t) had
        | inr t ↦ rw (with_tag kept.tag out e t, e) wrote
      ]
    ]

    -- A client keeps the last page that was answered with 200, with its tag, and GETs a route again and
    -- again, whatever happens to the world in between. Where the handlers write no 304 of their own and
    -- the hash does not collide on the pages that they write, at every visit the client shows what the
    -- handlers wrote; a page with status 200 that the client has already is answered with 304 and no
    -- body, and everything else is sent with its status and bodies.
    pub browse-IsServed :
        ((a b : List (Body D)) → Page a → Page b → hash a ≡ hash b → a ≡ b)
        → ((r : Request B) (x : Exchange D) → Page (written hash next r x).bodies)
        → ((r : Request B) (x : Exchange D) → (written hash next r x).status ≢ 304)
        → (kept : Kept D) → kept.tag ≡ hash kept.bodies
        → Page kept.bodies
        → (visits : List (Request B × Exchange D)) → All IsServed (browse kept visits)
    unfolding etag_checker
    browse-IsServed apart pages own kept same had [] = tt
    browse-IsServed apart pages own kept same had ((r, x) ∷ more) =
        let out = written hash next (ask kept.tag r) x in
        (
          sent-IsServed kept.bodies kept.tag out same (own (ask kept.tag r) x)
              (apart kept.bodies out.bodies had (pages (ask kept.tag r) x)),
          browse-IsServed apart pages own (renew kept (send hash "GET" kept.tag out))
              (renew-kept kept out same) (renew-Page kept out had (pages (ask kept.tag r) x)) more,
        )
