-- ===== src/Middleware/Admission.antt =====
-- cmd/api/middleware.go, RateLimit: what the limiter of a route does with a request, the headers that
-- it writes, and the counters that it leaves.
use tesseract_go_api.Prelude.{
  ℕ, String, [], ◌∷◌, Option, none, some, ◌≡◌, ◌⊎◌, inl, inr, refl, sym, ap, ◌∙◌, ◌≤◌, ◌<◌, ◌+◌,
  ◌-◌, ◌*◌, ◌/◌, ◌==◌, if◌then◌else◌, arith, leb, Bool-cases, Option-cases,
}
use tesseract_go_api.Response.{status, sentinel, too_many_requests}
use tesseract_go_api.Exec.{Result, ok, err}
use tesseract_go_api.Store.{World}
use tesseract_go_api.Platform.{Platform}
use tesseract_go_api.RateLimit.{
  Counter, Counters, RateLimitResult, current, assign, allow, incremented, admitted, refused,
}
use tesseract_go_api.RateLimit.Rules.{Rule, take_slot, milliseconds}
use tesseract_go_api.Http.{Request, Response, Handler, Exchange, decimal, run, fresh, write_error}
use tesseract_go_api.Middleware.{Endpoint}
use tesseract_go_api.Middleware.Limit.{
  rate_limit, reserved, limit_key, announced, sent_away, limited-allowed, limited-refused,
}
use tesseract_go_api.Middleware.Revalidation.{header_of}
use tesseract_go_api.Middleware.Recorder.{close}

-- Requests counted under a key.
abbrev pub used : Option Counter → ℕ
used none = 0
used (some c) = c.value

incremented-value :
    (window now : ℕ) (c : Option Counter) → (incremented window now c).value ≡ used c + 1
incremented-value window now none = refl
incremented-value window now (some c) = ground arith

-- The millisecond in which Redis drops the counter of a key: one that is new, or stands at zero, after
-- the window; one without an expiry is read as if it ended at once.
abbrev pub expiry : ℕ → ℕ → Option Counter → ℕ
expiry window now none = now + window * 1000
expiry window now (some c) =
    if c.value == 0 then now + window * 1000 else elim c.expires_at [ none ↦ now | some end ↦ end ]

-- `time.Now().Add(result.Reset).Unix()` is the second of the expiry.
reset_second :
    (now end : ℕ) → now / 1000 ≤ end → (now + (end - now / 1000) * 1000) / 1_000_000 ≡ end / 1000
reset_second now end h = omega (arith, h)

current-live :
    (window now : ℕ) (key : String) (cs : Counters) (c : Counter)
    → current now key cs ≡ some c
    → now ≤ expiry window now (some c)
unfolding current
current-live window now key [] c e = ground arith
current-live window now key ((k, d) ∷ rest) c e = ground (arith, current-live window now key rest c)

expiry-after :
    (window now : ℕ) (key : String) (cs : Counters) (o : Option Counter)
    → current now key cs ≡ o
    → now ≤ expiry window now o
expiry-after window now key cs none e = omega arith
expiry-after window now key cs (some c) e = current-live window now key cs c e

incremented-reset :
    (limit window now : ℕ) (o : Option Counter)
    → (admitted limit now (incremented window now o)).reset ≡ expiry window now o - now
incremented-reset limit window now none = refl
incremented-reset limit window now (some c) = ground arith

refused-reset :
    (window now : ℕ) (c : Counter)
    → 0 < c.value
    → (refused now c).reset ≡ expiry window now (some c) - now
refused-reset window now c positive = ground arith

module _ {B D : Type 0} (p : Platform) (rule : Rule) (next : Endpoint B D) where
  abbrev pub counter : Request B → World → Option Counter
  counter r w = current (milliseconds w) (limit_key p rule r) w.counters

  abbrev pub counted_up : Request B → World → World
  counted_up r w = record w {
    counters =
        assign (limit_key p rule r) (incremented rule.window (milliseconds w) (counter r w))
          w.counters;
  }

  take_slot-over :
      (r : Request B) (w : World) (c : Counter)
      → w.outcomes ≡ []
      → counter r w ≡ some c
      → rule.limit ≤ c.value
      → take_slot (limit_key p rule r) rule.limit rule.window w
        ≡ (ok (refused (milliseconds w) c), w)
  unfolding take_slot allow
  take_slot-over r w c calm found over = ground arith

  take_slot-under :
      (r : Request B) (w : World)
      → w.outcomes ≡ []
      → 0 < rule.limit
      → used (counter r w) < rule.limit
      → take_slot (limit_key p rule r) rule.limit rule.window w ≡ (
        ok (
            admitted rule.limit
              (milliseconds w)
              (incremented rule.window (milliseconds w) (counter r w))),
        counted_up r w,
      )
  unfolding take_slot allow
  take_slot-under r w calm positive under = elim (Option-cases (counter r w)) [
    | inl e ↦ ground arith
    | inr (c, e) ↦ ground arith
  ]

  -- The second in which the window of a key ends; of a key without one, in which it would end.
  abbrev pub ending : Request B → World → ℕ
  ending r w = expiry rule.window (milliseconds w) (counter r w) / 1000

  -- The three headers of the limiter.
  abbrev pub HasHeaders : (remaining reset : ℕ) → Response D → Type 0
  HasHeaders remaining reset out =
      (header_of "X-RateLimit-Limit" out.headers ≡ some (decimal rule.limit))
      × (header_of "X-RateLimit-Remaining" out.headers ≡ some (decimal remaining))
      × (header_of "X-RateLimit-Reset" out.headers ≡ some (decimal reset))

  -- Counted up to the limit.
  abbrev pub IsOver : Request B → World → Type 0
  IsOver r w =
      let x = run (rate_limit p rule next r) w in
      (rule.limit ≤ used (counter r w))
      × (x.world ≡ w)
      × (x.response.status ≡ 429)
      × HasHeaders 0 (ending r w) x.response
      × (header_of "Retry-After" x.response.headers
          ≡ some (
              decimal
                ((expiry rule.window (milliseconds w) (counter r w) - milliseconds w) / 1000)))

  -- Below the limit.
  abbrev pub IsUnder : Request B → World → Type 0
  IsUnder r w =
      (used (counter r w) < rule.limit)
      × (x : Exchange D) × (run (rate_limit p rule next r) w ≡ close (next r x))
      × (x.world ≡ counted_up r w)
      × HasHeaders (rule.limit - (used (counter r w) + 1)) (ending r w) x.response

  abbrev start : World → Exchange D
  start w = record { world = w; response = fresh }

  run-close :
      (h : Handler D) (w : World) (out : Result (Unit {0}) × Exchange D)
      → h (start w) ≡ out
      → run h w ≡ close out
  unfolding run
  run-close h w out e = ap close e

  over-run :
      (r : Request B) (w : World) (c : Counter)
      → w.outcomes ≡ []
      → counter r w ≡ some c
      → rule.limit ≤ c.value
      → run (rate_limit p rule next r) w
        ≡ close (
          err (sentinel too_many_requests),
          sent_away rule (refused (milliseconds w) c) (start w),
        )
  unfolding rate_limit
  over-run r w c calm found over = run-close (rate_limit p rule next r) w _ (
      ap (reserved rule (next r) (start w)) (take_slot-over r w c calm found over)
      ∙ limited-refused rule (refused (milliseconds w) c) (next r) (start w) refl)

  ends_at :
      (r : Request B) (w : World) (reset : ℕ)
      → reset ≡ expiry rule.window (milliseconds w) (counter r w) - milliseconds w
      → (w.now + reset * 1000) / 1_000_000 ≡ ending r w
  ends_at r w reset e =
      ap (λ n. (w.now + n * 1000) / 1_000_000) e
      ∙ reset_second w.now _ (
          expiry-after rule.window (milliseconds w) (limit_key p rule r) w.counters (counter r w)
            refl)

  headers-announced :
      (r : Request B) (w v : World) (result : RateLimitResult) (remaining : ℕ)
      → v.now ≡ w.now
      → result.remaining ≡ remaining
      → result.reset ≡ expiry rule.window (milliseconds w) (counter r w) - milliseconds w
      → HasHeaders remaining (ending r w) (announced rule result (start v)).response
  unfolding announced
  headers-announced r w v result remaining now left reset = (
    refl,
    ap (λ n. some (decimal n)) left,
    ap (λ n. some (decimal ((n + result.reset * 1000) / 1_000_000))) now
        ∙ ap (λ n. some (decimal n)) (ends_at r w result.reset reset),
  )

  below-run :
      (r : Request B) (w : World)
      → w.outcomes ≡ []
      → 0 < rule.limit
      → used (counter r w) < rule.limit
      → IsUnder r w
  unfolding rate_limit announced
  below-run r w calm positive under =
      let result =
        admitted rule.limit (milliseconds w)
          (incremented rule.window (milliseconds w) (counter r w)) in
      (
        under,
        announced rule result (start (counted_up r w)),
        run-close (rate_limit p rule next r) w _ (
            ap (reserved rule (next r) (start w)) (take_slot-under r w calm positive under)
            ∙ limited-allowed rule _ (next r) (record (start w) { world = counted_up r w }) refl),
        refl,
        headers-announced r w (counted_up r w) result _ refl
            (ap (λ n. rule.limit - n)
              (incremented-value rule.window (milliseconds w) (counter r w)))
            (incremented-reset rule.limit rule.window (milliseconds w) (counter r w)),
      )

  turned_away :
      (r : Request B) (w : World) (result : RateLimitResult) (x : Exchange D)
      → x ≡ close {D = D} (err (sentinel too_many_requests), sent_away rule result (start w))
      → result.remaining ≡ 0
      → result.reset ≡ expiry rule.window (milliseconds w) (counter r w) - milliseconds w
      → (x.world ≡ w)
        × (x.response.status ≡ 429)
        × HasHeaders 0 (ending r w) x.response
        × (header_of "Retry-After" x.response.headers
            ≡ some (
                decimal
                  ((expiry rule.window (milliseconds w) (counter r w) - milliseconds w) / 1000)))
  unfolding sent_away write_error status
  turned_away r w result x e none_left reset = rw e (
    refl,
    refl,
    (
      refl,
      ap (λ n. some (decimal n)) none_left,
      ap (λ n. some (decimal n)) (ends_at r w result.reset reset),
    ),
    ap (λ n. some (decimal (n / 1000))) reset,
  )

  rate_limit-IsOver :
      (r : Request B) (w : World) (c : Counter)
      → w.outcomes ≡ []
      → counter r w ≡ some c
      → 0 < rule.limit
      → rule.limit ≤ c.value
      → IsOver r w
  rate_limit-IsOver r w c calm found positive over =
      let reset =
        refused-reset rule.window (milliseconds w) c (omega (arith, positive, over))
        ∙ ap (λ o. expiry rule.window (milliseconds w) o - milliseconds w) (sym found) in
      let (same, code, announcements, retry) =
        turned_away r w (refused (milliseconds w) c) _ (over-run r w c calm found over) refl
          reset in
      (ground (arith, found, over), same, code, announcements, retry)

  -- A rule with a positive limit, where the call does not fail: a request whose key has been counted
  -- up to the limit leaves the world as it is and is answered with 429; any other one meets the
  -- handler behind the limiter, its key counted up. In both cases the headers say the limit, what
  -- remains of it, and the second in which the key's counter expires; a refused request is told in
  -- Retry-After how many whole seconds are left until then.
  pub rate_limit-run :
      (r : Request B) (w : World) → w.outcomes ≡ [] → 0 < rule.limit → IsOver r w ⊎ IsUnder r w
  rate_limit-run r w calm positive = elim (Bool-cases (leb rule.limit (used (counter r w)))) [
    | inr t ↦ inr (below-run r w calm positive (ground arith))
    | inl t ↦ elim (Option-cases (counter r w)) [
      | inl e ↦ absurd (ground arith)
      | inr (c, e) ↦ inl (rate_limit-IsOver r w c calm e positive (ground arith))
    ]
  ]
