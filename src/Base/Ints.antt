-- ===== src/Base/Ints.antt =====
-- Go's signed integers.
use Prim.Native.Nat.{ℕ}
use mathlib.Core.Bool.{Bool, false}
use testkube.Base.Tests.{nat_eq, ltb}

-- `negsuc n` is `-(n + 1)`.
pub data ℤ : Type 0 where
  pos negsuc : ℕ → ℤ

-- `i == 0`
abbrev pub is_zero : ℤ → Bool
is_zero (pos n) = nat_eq n 0
is_zero (negsuc n) = false

-- `i > 1 || i < -1`
abbrev pub beyond_one : ℤ → Bool
beyond_one (pos n) = ltb 1 n
beyond_one (negsuc n) = ltb 0 n
