-- ===== src/Prelude/Integers.antt =====
-- Python's integers, over the native numbers.
use Prim.Native.Nat.{ℕ}

-- `negsuc n` is -1 - n.
pub data ℤ : Type 0 where
  pos negsuc : ℕ → ℤ
