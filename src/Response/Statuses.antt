-- ===== src/Response/Statuses.antt =====
-- The statuses of the answers to errors.
use tesseract_go_api.Prelude.{◌≤◌, ◌≡◌, ◌⊎◌, arith}
use tesseract_go_api.Response.{AppError, Error, code, answered, status, token_grace_period}

code-error : (e : AppError) → (e ≡ token_grace_period) ⊎ ((400 ≤ code e) × (code e ≤ 500))
code-error e = ground arith

-- Every error is answered with a status from 400 to 500, but for the grace period of a refresh
-- token, which is answered with 200.
pub status-range :
    (e : Error)
    → ((answered e ≡ token_grace_period) × (status e ≡ 200)) ⊎ ((400 ≤ status e) × (status e ≤ 500))
unfolding status
status-range e = ground (arith, code-error (answered e))
