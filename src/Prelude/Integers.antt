-- ===== src/Prelude/Integers.antt =====
-- Integers over the native numbers, under the library's names.
use Prim.Native.Nat.{ℕ}

pub data ℤ : Type 0 where
  pos : ℕ → ℤ
  negsuc : ℕ → ℤ
