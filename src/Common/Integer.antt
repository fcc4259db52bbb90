-- ===== src/Common/Integer.antt =====
-- Go's `int` where it can be negative.
use Prim.Native.Nat.{ℕ}

pub data ℤ : Type 0 where
  pos : ℕ → ℤ
  negsuc : ℕ → ℤ
