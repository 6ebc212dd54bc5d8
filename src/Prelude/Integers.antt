-- ===== src/Prelude/Integers.antt =====
-- Integers over the native numbers, for Go's signed integers.
use Prim.Native.Nat.{ℕ}

pub data ℤ : Type 0 where
  pos : ℕ → ℤ
  negsuc : ℕ → ℤ
