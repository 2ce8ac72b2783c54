-- ===== src/Prelude/Int.antt =====
-- `bigint`, as a sign and a native number.
use Prim.Native.Nat.{ℕ, zero, suc, ◌+◌}

-- `negsuc n` is -(n + 1).
pub data ℤ : Type 0 where
  pos : ℕ → ℤ
  negsuc : ℕ → ℤ

-- `n + 1n`
unfoldable pub succ : ℤ → ℤ
succ (pos n) = pos (n + 1)
succ (negsuc zero) = pos 0
succ (negsuc (suc n)) = negsuc n
