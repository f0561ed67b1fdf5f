-- ===== src/Prelude/Int.antt =====
-- Whole numbers with a sign over the native numbers.
use Prim.Native.Nat.{ℕ, zero, suc, ◌*◌}

-- `negsuc n` is -(n + 1).
pub data ℤ : Type 0 where
  pos : ℕ → ℤ
  negsuc : ℕ → ℤ

unfoldable pub negate : ℤ → ℤ
negate (pos zero) = pos 0
negate (pos (suc n)) = negsuc n
negate (negsuc n) = pos (suc n)

-- n * z
unfoldable pub times : ℕ → ℤ → ℤ
unfolding negate
times n (pos m) = pos (n * m)
times n (negsuc m) = negate (pos (n * suc m))
