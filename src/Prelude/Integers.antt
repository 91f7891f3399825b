-- ===== src/Prelude/Integers.antt =====
-- Go's int, where a negative value makes a difference.
use Prim.Native.Nat.{ℕ}

pub data ℤ : Type 0 where
  pos negsuc : ℕ → ℤ
