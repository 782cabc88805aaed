-- ===== src/Point.antt =====
-- `tsedge_point` (include/tsedge.h) and 64-bit arithmetic on its fields. A timestamp is the bit
-- pattern of its int64_t. A double is its bit pattern too, so `double_to_bits` and
-- `bits_to_double`, which copy the bits, are the identity here.
use tsedge.Common.{ℕ, ◌+◌, ◌-◌, ◌^◌, ◌≡◌, Bool, arith, u64, IsU64, ltb, leb}

pub record Point : Type 0 where
  pub timestamp : ℕ
  pub value : ℕ

pub record IsPoint (p : Point) : Type 0 where
  pub timestamp_fits : IsU64 p.timestamp
  pub value_fits : IsU64 p.value

-- int64_t `a + b` and `a - b`. An overflow, which C leaves undefined, wraps round here.
abbrev pub add64 : ℕ → ℕ → ℕ
add64 a b = u64 (a + b)

abbrev pub sub64 : ℕ → ℕ → ℕ
sub64 a b = u64 (a + 2 ^ 64 - b)

-- The order of int64_t on bit patterns: `a < b` and `a <= b`.
abbrev pub sign_flip : ℕ → ℕ
sign_flip a = u64 (a + 2 ^ 63)

abbrev pub lt64 : ℕ → ℕ → Bool
lt64 a b = ltb (sign_flip a) (sign_flip b)

abbrev pub le64 : ℕ → ℕ → Bool
le64 a b = leb (sign_flip a) (sign_flip b)

pub add64-sub64 : (a b : ℕ) → IsU64 a → IsU64 b → add64 b (sub64 a b) ≡ a
add64-sub64 a b ha hb = omega arith

pub add64-IsU64 : (a b : ℕ) → IsU64 (add64 a b)
add64-IsU64 a b = omega arith

pub sub64-IsU64 : (a b : ℕ) → IsU64 (sub64 a b)
sub64-IsU64 a b = omega arith
