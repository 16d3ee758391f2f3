-- ===== src/Worker.antt =====
-- internal/worker/worker.go: the cleanup worker, over what its `select` receives. Where a tick and the
-- end of the context are both there, either may come first.
pub mod Sweep
use tesseract_go_api.Prelude.{Bool, true, false, List, [], ◌∷◌, ◌+◌}
use tesseract_go_api.Store.{Time, World}
use tesseract_go_api.Tokens.Repository

-- A tick of the ticker, so much later, or the end of the context.
pub data Signal : Type 0 where
  tick : Time → Signal
  done : Signal

-- A tick: the error of the cleanup is logged only.
abbrev pub on_tick : Time → World → World
unfolding Repository.cleanup
on_tick later w = (Repository.cleanup (record w { now = w.now + later })).1

-- `StartCleanupWorker`: whether it has returned after these signals, and the world by then.
unfoldable pub start_cleanup_worker : List Signal → World → Bool × World
start_cleanup_worker [] w = (false, w)
start_cleanup_worker (done ∷ signals) w = (true, w)
start_cleanup_worker (tick later ∷ signals) w = start_cleanup_worker signals (on_tick later w)
