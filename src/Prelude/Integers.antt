-- ===== src/Prelude/Integers.antt =====
-- The integers, over the native numbers.
use libgitops.Prelude.{ℕ}

pub data ℤ : Type 0 where
  pos negsuc : ℕ → ℤ
