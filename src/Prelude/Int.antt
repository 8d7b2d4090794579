-- ===== src/Prelude/Int.antt =====
-- Signed integers over the native numbers.
use Prim.Native.Nat.{ℕ}
use mathlib.Core.Bool.{Bool}
use substrata_swift.Prelude.Tests.{ltb}

-- `negsuc n` is -(n + 1).
pub data ℤ : Type 0 where
  pos : ℕ → ℤ
  negsuc : ℕ → ℤ

-- The number itself, or one less than its opposite: what a word in two's complement has to hold.
abbrev pub magnitude : ℤ → ℕ
magnitude (pos n) = n
magnitude (negsuc n) = n

-- From `-bound` to `bound - 1`.
abbrev pub in_range : ℕ → ℤ → Bool
in_range bound n = ltb (magnitude n) bound
