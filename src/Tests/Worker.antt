-- ===== src/Tests/Worker.antt =====
-- The cleanup worker on the small world.
use tesseract_go_api.Prelude.{true, [], ◌∷◌, some, ◌≡◌, refl}
use tesseract_go_api.Tokens.Queries.{get_active_refresh_tokens_for_user}
use tesseract_go_api.Worker.{tick, done, start_cleanup_worker}
use tesseract_go_api.Worker.Sweep.{
  ticks, swept, start_cleanup_worker-swept, start_cleanup_worker-stops,
}
use tesseract_go_api.Tests.Fixtures.{at_time}

-- The second tick comes after all tokens have expired.
start_cleanup_worker-swept_example :
    start_cleanup_worker (ticks (50 ∷ 2_000_000_000 ∷ []) (done ∷ [])) (at_time 100)
    ≡ (true, swept 2_000_000_150 (at_time 100))
start_cleanup_worker-swept_example =
    start_cleanup_worker-swept 50 (2_000_000_000 ∷ []) [] (at_time 100) refl

all_swept : (swept 2_000_000_150 (at_time 100)).db.tokens ≡ []
all_swept = refl

start_cleanup_worker-stops_example :
    let (returned, w') =
      start_cleanup_worker
        (tick 50 ∷ done ∷ tick 50 ∷ [])
        (record (at_time 100) { outcomes = some "refused" ∷ [] }) in
    (returned ≡ true)
    × ((get_active_refresh_tokens_for_user 1 w'.now w'.db).0
        ≡ (get_active_refresh_tokens_for_user 1 w'.now (at_time 100).db).0)
start_cleanup_worker-stops_example =
    start_cleanup_worker-stops 1 (tick 50 ∷ done ∷ tick 50 ∷ [])
      (record (at_time 100) { outcomes = some "refused" ∷ [] })
