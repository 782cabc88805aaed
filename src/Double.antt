-- ===== src/Double.antt =====
-- IEEE-754 arithmetic on bit patterns. The processor does it, so it is a parameter: `lt` is `<`,
-- `add` is `+`, `div` is `/`, and `of_u64` the conversion `(double)n`.
use tsedge.Common.{ℕ, Bool, IsU64}

pub record Doubles : Type 0 where
  pub lt : ℕ → ℕ → Bool
  pub add : ℕ → ℕ → ℕ
  pub div : ℕ → ℕ → ℕ
  pub of_u64 : ℕ → ℕ

-- The sum of two doubles is a double, of 64 bits.
pub record IsDoubles (d : Doubles) : Type 0 where
  pub add_fits : (a b : ℕ) → IsU64 a → IsU64 b → IsU64 (d.add a b)
