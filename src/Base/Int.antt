-- ===== src/Base/Int.antt =====
-- The integers, for the codes that the source writes as `i32`.
use Prim.Native.Nat.{ℕ, ◌-◌}

pub data ℤ : Type 0 where
  pos : ℕ → ℤ
  negsuc : ℕ → ℤ

-- `minus n` is -n for a positive n.
abbrev pub minus : ℕ → ℤ
minus n = negsuc (n - 1)
