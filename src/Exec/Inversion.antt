-- ===== src/Exec/Inversion.antt =====
-- What a successful action did: its steps succeeded, one after the other.
use tesseract_go_api.Prelude.{◌≡◌, refl, arith}
use tesseract_go_api.Response.{Error}
use tesseract_go_api.Exec.{Result, ok, err, Exec, throw, catch, recover, continue, ◌>>=◌}

module _ {ℓ} {S A B : Type ℓ} where
  continue_ok :
      (r : Result A) (f : A → Exec S B) (s : S) {b : B} {s' : S}
      → continue r f s ≡ (ok b, s')
      → (a : A) × (r ≡ ok a) × (f a s ≡ (ok b, s'))
  continue_ok (ok a) f s h = (a, refl, h)
  continue_ok (err e) f s h = ground arith

  pub bind_ok :
      (m : Exec S A) (f : A → Exec S B) (s : S) {b : B} {s' : S}
      → (m >>= f) s ≡ (ok b, s')
      → (a : A) × (t : S) × (m s ≡ (ok a, t)) × (f a t ≡ (ok b, s'))
  unfolding ◌>>=◌
  bind_ok m f s h = let (a, e, k) = continue_ok (m s).0 f (m s).1 h in (a, (m s).1, ground arith, k)

module _ {ℓ} {S A : Type ℓ} where
  recover_ok :
      (r : Result A) (h : Error → Error) (s : S) {a : A} {s' : S}
      → recover r (λ e. throw (h e)) s ≡ (ok a, s')
      → ◌≡◌ {A = Result A × S} (r, s) (ok a, s')
  unfolding throw
  recover_ok (ok a) h s e = e
  recover_ok (err x) h s e = ground arith

  -- Where the handler of an error only translates it.
  pub catch_ok :
      (m : Exec S A) (h : Error → Error) (s : S) {a : A} {s' : S}
      → catch m (λ e. throw (h e)) s ≡ (ok a, s')
      → m s ≡ (ok a, s')
  unfolding catch
  catch_ok m h s e = recover_ok (m s).0 h (m s).1 e

-- A chain goes on after a success.
pub bind_run {ℓ} :
    {S A B : Type ℓ} (m : Exec S A) (k : A → Exec S B) (s s' : S) {a : A}
    → m s ≡ (ok a, s')
    → (m >>= k) s ≡ k a s'
unfolding ◌>>=◌
bind_run m k s s' e = ground arith
