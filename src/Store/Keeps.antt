-- ===== src/Store/Keeps.antt =====
-- Invariants of the tables under the program's actions: a rule for each way to build an action.
use tesseract_go_api.Prelude.{◌≡◌, Bool, true, false, if◌then◌else◌, arith}
use tesseract_go_api.Response.{Error}
use tesseract_go_api.Exec.{
  Result, ok, err, Exec, return, throw, lift, gets, continue, recover, catch, try, when,
  drop_result, ◌>>=◌, ◌>>◌,
}
use tesseract_go_api.Store.{Time, Tables, World, Task, external, query, spawn, settle, transaction}

-- Whatever the outcomes of the external calls, and whether the action returns or fails.
pub record Keeps (P : Tables → Type 0) {A : Type 0} (m : Exec World A) : Type 0 where
  pub at : (w : World) → P w.db → P (m w).1.db

pub external-db : (w : World) → (external w).1.db ≡ w.db
unfolding external
external-db w = ground arith

settle-P :
    (P : Tables → Type 0) {A : Type 0} (before : Tables) (r : Result A) (w : World)
    → P before
    → P w.db
    → P (settle before r w).1.db
unfolding settle
settle-P P before (ok a) w h k = ground (arith, external-db w)
settle-P P before (err e) w h k = h

module _ {P : Tables → Type 0} {A B : Type 0} where
  after_continue :
      (f : A → Exec World B)
      → ((a : A) → Keeps P (f a))
      → (r : Result A) (w : World) → P w.db
      → P (continue r f w).1.db
  after_continue f k (ok a) w h = (k a).at w h
  after_continue f k (err e) w h = h

  pub Keeps-bind :
      (first : Exec World A) (next : A → Exec World B)
      → Keeps P first
      → ((a : A) → Keeps P (next a))
      → Keeps P (first >>= next)
  unfolding ◌>>=◌
  Keeps-bind first next kept later = record {
    at = λ w h. after_continue next later (first w).0 (first w).1 (kept.at w h);
  }

  pub Keeps-then : (m : Exec World A) (n : Exec World B) → Keeps P m → Keeps P n → Keeps P (m >> n)
  Keeps-then m n km kn = Keeps-bind m (λ _. n) km (λ _. kn)

module _ {P : Tables → Type 0} {A : Type 0} where
  pub Keeps-return : (a : A) → Keeps P (return a)
  unfolding return
  Keeps-return a = record { at = λ w h. h }

  pub Keeps-throw : (e : Error) → Keeps P (throw {A = A} e)
  unfolding throw
  Keeps-throw e = record { at = λ w h. h }

  pub Keeps-lift : (r : Result A) → Keeps P (lift r)
  unfolding lift
  Keeps-lift r = record { at = λ w h. h }

  pub Keeps-gets : (f : World → A) → Keeps P (gets f)
  unfolding gets
  Keeps-gets f = record { at = λ w h. h }

  pub Keeps-if :
      (b : Bool) (m n : Exec World A) → Keeps P m → Keeps P n → Keeps P (if b then m else n)
  Keeps-if true m n km kn = km
  Keeps-if false m n km kn = kn

  after_recover :
      (h : Error → Exec World A)
      → ((e : Error) → Keeps P (h e))
      → (r : Result A) (w : World) → P w.db
      → P (recover r h w).1.db
  after_recover h k (ok a) w p = p
  after_recover h k (err e) w p = (k e).at w p

  pub Keeps-catch :
      (m : Exec World A) (h : Error → Exec World A)
      → Keeps P m
      → ((e : Error) → Keeps P (h e))
      → Keeps P (catch m h)
  unfolding catch
  Keeps-catch m h km kh = record { at = λ w p. after_recover h kh (m w).0 (m w).1 (km.at w p) }

  pub Keeps-try : (m : Exec World A) → Keeps P m → Keeps P (try m)
  unfolding try
  Keeps-try m km = record { at = km.at }

  pub Keeps-drop_result : (m : Exec World A) → Keeps P m → Keeps P (drop_result m)
  unfolding drop_result
  Keeps-drop_result m km = record { at = km.at }

  pub Keeps-query :
      (q : Time → Tables → Result A × Tables)
      → ((now : Time) (db : Tables) → P db → P (q now db).1)
      → Keeps P (query q)
  unfolding query
  Keeps-query q k = record {
    at = λ w h.
        after_continue (λ (_ : Unit) w. let (r, db) = q w.now w.db in (r, record w { db = db }))
          (λ _. record { at = λ w h. k w.now w.db h }) (external w).0 (external w).1
          (rw external-db h);
  }

  pub Keeps-transaction : (m : Exec World A) → Keeps P m → Keeps P (transaction m)
  unfolding transaction
  Keeps-transaction m km = record {
    at = λ w h.
        after_continue (λ (_ : Unit) w. let (r, w') = m w in settle w.db r w')
          (λ _. record { at = λ w h. settle-P P w.db (m w).0 (m w).1 h (km.at w h) }) (external w).0
          (external w).1 (rw external-db h);
  }

-- An action that leaves the tables alone.
pub Keeps_of_same :
    {P : Tables → Type 0} {A : Type 0} (m : Exec World A)
    → ((w : World) → (m w).1.db ≡ w.db)
    → Keeps P m
Keeps_of_same m same = record { at = λ w h. rw same h }

module _ {P : Tables → Type 0} where
  pub Keeps-external : Keeps P external
  Keeps-external = record { at = λ w h. rw external-db h }

  pub Keeps-spawn : (task : Task) → Keeps P (spawn task)
  unfolding spawn
  Keeps-spawn task = record { at = λ w h. h }

  pub Keeps-when : (b : Bool) (m : Exec World Unit) → Keeps P m → Keeps P (when b m)
  unfolding when
  Keeps-when true m km = record { at = km.at }
  Keeps-when false m km = record { at = λ w h. h }

pub ruleset keeps_rules = (
  Keeps-bind, Keeps-return, Keeps-throw, Keeps-lift, Keeps-gets, Keeps-if, Keeps-catch, Keeps-try,
  Keeps-drop_result, Keeps-when, Keeps-external, Keeps-spawn, Keeps-transaction,
)
