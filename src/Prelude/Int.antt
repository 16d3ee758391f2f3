-- ===== src/Prelude/Int.antt =====
-- Go's signed integers.
use Prim.Native.Nat.{ℕ, zero, suc, ◌+◌, ◌-◌, ◌%◌, ◌<◌}
use mathlib.Core.Path.{◌≡◌}
use mathlib.Core.Bool.{Bool, true, false}
use native.Mathlib.Omega.{arith}
use tesseract_go_api.Prelude.Tests.{◌==◌, ltb, leb, if◌then◌else◌}

-- `negsuc n` is -(n + 1).
pub data ℤ : Type 0 where
  pos : ℕ → ℤ
  negsuc : ℕ → ℤ

abbrev pub int_eq : ℤ → ℤ → Bool
int_eq (pos m) (pos n) = m == n
int_eq (negsuc m) (negsuc n) = m == n
int_eq _ _ = false

-- `limit <= 0 || limit > top`, for both signs.
abbrev pub int_leb : ℤ → ℤ → Bool
int_leb (pos m) (pos n) = leb m n
int_leb (pos m) (negsuc n) = false
int_leb (negsuc m) (pos n) = true
int_leb (negsuc m) (negsuc n) = leb n m

abbrev pub increment : ℤ → ℤ
increment (pos n) = pos (n + 1)
increment (negsuc zero) = pos 0
increment (negsuc (suc n)) = negsuc n

-- The signed reading of 32 bits.
abbrev pub signed32 : ℕ → ℤ
signed32 n = if ltb n 2_147_483_648 then pos n else negsuc (4_294_967_295 - n)

-- `int32(n)`: the lowest 32 bits.
unfoldable pub to_int32 : ℤ → ℤ
to_int32 (pos n) = signed32 (n % 4_294_967_296)
to_int32 (negsuc n) = signed32 (4_294_967_295 - n % 4_294_967_296)

pub to_int32_lem : (n : ℕ) → n < 2_147_483_648 → to_int32 (pos n) ≡ pos n
unfolding to_int32
to_int32_lem n h = ground arith
