-- ===== src/Common/Int.antt =====
-- Signed numbers, as far as the program compares them with bounds: `negsuc n` is -(n + 1).
use Prim.Native.Nat.{ℕ}
use mathlib.Core.Bool.{Bool}
use sessionweft.Common.Tests.{leb, ltb}

pub data ℤ : Type 0 where
  pos : ℕ → ℤ
  negsuc : ℕ → ℤ

-- `(-bound..=bound).contains(&n)`.
abbrev pub within : ℕ → ℤ → Bool
within bound (pos n) = leb n bound
within bound (negsuc n) = ltb n bound
