-- ===== src/Worker/Sweep.antt =====
-- internal/worker/worker.go: when the cleanup worker returns, and what it leaves of the refresh tokens.
use tesseract_go_api.Prelude.{
  Bool, true, false, not, List, [], ◌∷◌, ◌≡◌, refl, ap, ◌∙◌, ◌+◌, ◌≤◌, arith, any, filter,
}
use tesseract_go_api.Store.{Uuid, Time, RefreshToken, World}
use tesseract_go_api.Tokens.Queries.{
  is_active, is_stale, newest_first, get_active_refresh_tokens_for_user,
}
use tesseract_go_api.Exec.{ok}
use tesseract_go_api.Tokens.Sessions.{filter_spared}
use tesseract_go_api.Tokens.Repository
use tesseract_go_api.Worker.{Signal, tick, done, on_tick, start_cleanup_worker}

abbrev pub is_done : Signal → Bool
is_done (tick _) = false
is_done done = true

-- The ticks with these distances, then other signals.
abbrev pub ticks : List Time → List Signal → List Signal
ticks [] signals = signals
ticks (d ∷ ds) signals = tick d ∷ ticks ds signals

abbrev pub total : List Time → Time
total [] = 0
total (d ∷ ds) = d + total ds

-- The world at a later time without the tokens that are stale then.
abbrev pub swept : Time → World → World
swept now w = record w {
  now = now;
  db = record w.db { tokens = filter (λ t. not (is_stale now t)) w.db.tokens };
}

-- What is stale stays stale.
sweep_again :
    (now later : Time) (ts : List RefreshToken)
    → now ≤ later
    → filter (λ t. not (is_stale later t)) (filter (λ t. not (is_stale now t)) ts)
      ≡ filter (λ t. not (is_stale later t)) ts
sweep_again now later [] h = refl
sweep_again now later (t ∷ ts) h = ground (arith, sweep_again now later ts h)

swept_again :
    (now later : Time) (w : World) → now ≤ later → swept later (swept now w) ≡ swept later w
swept_again now later w h =
    ap (λ (ts : List RefreshToken). record w { now = later; db = record w.db { tokens = ts } })
      (sweep_again now later w.db.tokens h)

on_tick-swept : (d : Time) (w : World) → w.outcomes ≡ [] → on_tick d w ≡ swept (w.now + d) w
unfolding on_tick Repository.cleanup
on_tick-swept d w calm = ground arith

-- Where no call fails: after any ticks and the end of the context the worker has returned, and of the
-- tokens those are left that are not stale at the time of the last tick; nothing else has changed.
pub start_cleanup_worker-swept :
    (d : Time) (ds : List Time) (signals : List Signal) (w : World)
    → w.outcomes ≡ []
    → start_cleanup_worker (ticks (d ∷ ds) (done ∷ signals)) w
      ≡ (true, swept (w.now + (d + total ds)) w)
unfolding start_cleanup_worker
start_cleanup_worker-swept d [] signals w calm = ground (arith, on_tick-swept d w calm)
start_cleanup_worker-swept d (e ∷ ds) signals w calm =
    let first = on_tick-swept d w calm in
    start_cleanup_worker-swept e ds signals (on_tick d w)
      (ap (λ (v : World). v.outcomes) first ∙ calm)
    ∙ ap (λ (v : World). (true, swept (v.now + (e + total ds)) v)) first
    ∙ ap (λ (v : World). (true, v))
        (swept_again (w.now + d) (w.now + d + (e + total ds)) w (omega arith)
          ∙ ap (λ (n : Time). swept n w) (omega arith))

active_then :
    (u : Uuid) (now later : Time) (t : RefreshToken)
    → now ≤ later
    → is_active u later t ≡ true
    → is_stale now t ≡ false
active_then u now later t h active = ground arith

-- A tick, whether its call succeeds or fails, leaves what is active at its time or later.
on_tick-active :
    (u : Uuid) (d later : Time) (w : World)
    → w.now + d ≤ later
    → filter (is_active u later) (on_tick d w).db.tokens ≡ filter (is_active u later) w.db.tokens
unfolding Repository.cleanup
on_tick-active u d later w h = ground (
  arith,
  filter_spared (is_active u later) (is_stale (w.now + d)) w.db.tokens
      (λ t. active_then u (w.now + d) later t h),
)

on_tick-now : (d : Time) (w : World) → (on_tick d w).now ≡ w.now + d
unfolding Repository.cleanup
on_tick-now d w = ground arith

start_cleanup_worker-now :
    (signals : List Signal) (w : World) → w.now ≤ (start_cleanup_worker signals w).1.now
unfolding start_cleanup_worker
start_cleanup_worker-now [] w = omega arith
start_cleanup_worker-now (done ∷ signals) w = omega arith
start_cleanup_worker-now (tick d ∷ signals) w =
    let rest = start_cleanup_worker-now signals (on_tick d w) in
    omega (arith, rest, on_tick-now d w)

-- The worker has returned exactly where one of the signals is the end of the context, whatever fails;
-- and every user's list of sessions, read then, is what it would be without the worker.
pub start_cleanup_worker-stops :
    (u : Uuid) (signals : List Signal) (w : World)
    → let (returned, w') = start_cleanup_worker signals w in
      (returned ≡ any is_done signals)
      × ((get_active_refresh_tokens_for_user u w'.now w'.db).0
          ≡ (get_active_refresh_tokens_for_user u w'.now w.db).0)
unfolding start_cleanup_worker get_active_refresh_tokens_for_user
start_cleanup_worker-stops u [] w = (refl, refl)
start_cleanup_worker-stops u (done ∷ signals) w = (refl, refl)
start_cleanup_worker-stops u (tick d ∷ signals) w =
    let (returned, same) = start_cleanup_worker-stops u signals (on_tick d w) in
    let end = (start_cleanup_worker signals (on_tick d w)).1.now in
    let rest = start_cleanup_worker-now signals (on_tick d w) in
    (
      returned,
      same
          ∙ ap (λ ts. ok (newest_first ts))
              (on_tick-active u d end w (omega (arith, rest, on_tick-now d w))),
    )
