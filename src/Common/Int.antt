-- ===== src/Common/Int.antt =====
-- Go's signed integers, which the service only compares with zero and passes on.
use Prim.Native.Nat.{ℕ}

-- `negsuc n` is -(n + 1).
pub data ℤ : Type 0 where
  pos : ℕ → ℤ
  negsuc : ℕ → ℤ
