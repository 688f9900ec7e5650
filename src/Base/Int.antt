-- ===== src/Base/Int.antt =====
-- Signed integers over the native numbers, under the library's names: Go's int64, int32 and int.
use Prim.Native.Nat.{ℕ, ◌<◌}
use mathlib.Core.Bool.{Bool, false}
use csi_driver_ipfs.Base.Tests.{ltb, leb}

-- `negsuc n` is -(n + 1).
pub data ℤ : Type 0 where
  pos : ℕ → ℤ
  negsuc : ℕ → ℤ

-- x == 0
abbrev pub is_zero : ℤ → Bool
is_zero (pos n) = leb n 0
is_zero (negsuc n) = false

-- x > 0
abbrev pub is_positive : ℤ → Bool
is_positive (pos n) = ltb 0 n
is_positive (negsuc n) = false

abbrev pub IsPositive : ℤ → Type 0
IsPositive (pos n) = 0 < n
IsPositive (negsuc n) = ⊥
