-- ===== src/Store/Inversion.antt =====
-- What a successful call of the database did to the world.
use tesseract_go_api.Prelude.{◌≡◌, List, Option, String, arith}
use tesseract_go_api.Exec.{Result, ok, Exec}
use tesseract_go_api.Store.{Time, Tables, World, external, query, transaction}

pub external_ok :
    (w w' : World)
    → external w ≡ (ok tt, w')
    → (os : List (Option String)) × (w' ≡ record w { outcomes = os })
unfolding external
external_ok w w' h = (w'.outcomes, ground arith)

pub query_ok :
    {A : Type 0} (q : Time → Tables → Result A × Tables) (w w' : World) {a : A}
    → query q w ≡ (ok a, w')
    → (os : List (Option String)) × (db : Tables) × (q w.now w.db ≡ (ok a, db))
      × (w' ≡ record w { db = db; outcomes = os })
unfolding query
query_ok q w w' {a} h = (w'.outcomes, w'.db, ground arith, ground arith)

pub transaction_ok :
    {A : Type 0} (m : Exec World A) (w w' : World) {a : A}
    → transaction m w ≡ (ok a, w')
    → (os : List (Option String)) × (v : World) × (m (record w { outcomes = os }) ≡ (ok a, v))
      × (w' ≡ record v { outcomes = w'.outcomes })
unfolding transaction
transaction_ok m w w' {a} h =
    let os : List (Option String) = (external w).1.outcomes in
    (os, (m (record w { outcomes = os })).1, ground arith, ground arith)
