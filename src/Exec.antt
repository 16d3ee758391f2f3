-- ===== src/Exec.antt =====
-- Go functions that read and write the program's state and return a value or an error. What was
-- written before an error stays written.
pub mod Inversion
use tesseract_go_api.Prelude.{Option, none, some, Bool, if◌then◌else◌}
use tesseract_go_api.Response.{Error}

pub data Result {ℓ} (A : Type ℓ) : Type ℓ where
  ok : A → Result A
  err : Error → Result A

abbrev pub Exec {ℓ} : (State : Type ℓ) (Value : Type ℓ) → Type ℓ
Exec State Value = State → Result Value × State

module _ {ℓ} {S A : Type ℓ} where
  unfoldable pub return : A → Exec S A
  return a s = (ok a, s)

  unfoldable pub throw : Error → Exec S A
  throw e s = (err e, s)

  -- A result computed beside the state.
  unfoldable pub lift : Result A → Exec S A
  lift r s = (r, s)

  -- The state as it is now.
  unfoldable pub gets : (S → A) → Exec S A
  gets f s = (ok (f s), s)

  -- `if err != nil { … }`: the error goes to the handler, in the state that the call left.
  abbrev pub recover : Result A → (Error → Exec S A) → Exec S A
  recover (ok a) h s = (ok a, s)
  recover (err e) h s = h e s

  unfoldable pub catch : Exec S A → (Error → Exec S A) → Exec S A
  catch m h s = let (r, s') = m s in recover r h s'

  -- The result as a value: for code that goes on after an error.
  unfoldable pub try : Exec S A → Exec S (Result A)
  try m s = let (r, s') = m s in (ok r, s')

module _ {ℓ} {S : Type ℓ} where
  unfoldable pub modify : (S → S) → S → Result (Unit {ℓ}) × S
  modify f s = (ok tt, f s)

  unfoldable pub when : Bool → Exec S (Unit {ℓ}) → Exec S (Unit {ℓ})
  when b m s = if b then m s else (ok tt, s)

module _ {ℓ} {S A : Type ℓ} where
  -- A call whose result and error the code drops.
  unfoldable pub drop_result : Exec S A → Exec S (Unit {ℓ})
  drop_result m s = (ok tt, (m s).1)

module _ {ℓ} {S A B : Type ℓ} where
  abbrev pub continue : Result A → (A → Exec S B) → Exec S B
  continue (ok value) next state = next value state
  continue (err e) next state = (err e, state)

  -- Opening this opens the operations above.
  infixl 10 ◌>>=◌ ◌>>◌
  unfoldable pub ◌>>=◌ : Exec S A → (A → Exec S B) → Exec S B
  unfolding return throw lift gets catch try modify when drop_result
  ◌>>=◌ first next state = let (result, state') = first state in continue result next state'

  abbrev pub ◌>>◌ : Exec S A → Exec S B → Exec S B
  first >> second = first >>= λ ignored. second

-- The value, or `nil` after an error.
abbrev pub to_option {ℓ} : {A : Type ℓ} → Result A → Option A
to_option (ok a) = some a
to_option (err e) = none
