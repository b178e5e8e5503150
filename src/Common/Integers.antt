-- ===== src/Common/Integers.antt =====
-- Go's signed integers, as far as the program tests and compares them.
use Prim.Native.Nat.{ℕ, zero, suc}
use mathlib.Core.Bool.{Bool, true, false}
use siteboost_core.Common.Tests.{ltb, leb}

-- `negsuc n` is -(n + 1).
pub data ℤ : Type 0 where
  pos negsuc : ℕ → ℤ

-- 0 < z
abbrev pub is_positive : ℤ → Bool
is_positive (pos n) = ltb 0 n
is_positive (negsuc n) = false

-- z < 0
abbrev pub is_negative : ℤ → Bool
is_negative (pos n) = false
is_negative (negsuc n) = true

-- lo ≤ z and z ≤ hi
abbrev pub is_within : ℕ → ℕ → ℤ → Bool
is_within lo hi (pos n) = elim (leb lo n) [ true ↦ leb n hi | false ↦ false ]
is_within lo hi (negsuc n) = false

-- A duration whose readers test it for being positive only: those that are not positive are as 0.
abbrev pub nanoseconds : ℤ → ℕ
nanoseconds (pos n) = n
nanoseconds (negsuc n) = 0

-- if d <= 0 { d = fallback }
abbrev pub or_default : ℕ → ℕ → ℕ
or_default zero fallback = fallback
or_default (suc d) fallback = suc d
