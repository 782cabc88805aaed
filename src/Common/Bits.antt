-- ===== src/Common/Bits.antt =====
-- `&`, `|` and `^` of C as arithmetic. The native operations stand for a recursion on binary
-- digits, `digits`, whose count of rounds the first three lemmas drop.
use Prim.Native.Nat.{ℕ, zero, suc, ◌+◌, ◌-◌, ◌*◌, ◌/◌, ◌%◌, ◌^◌, ◌≤◌, ◌<◌, min, max}
use Prim.Native.Nat.{bit_and, bit_or, bit_xor, digits, bitwise, differ}
use Prim.Native.Nat.{bit_and-bitwise, bit_or-bitwise, bit_xor-bitwise}
use mathlib.Core.Path.{◌≡◌, refl, ap, ◌∙◌}
use native.Mathlib.Nat.{pow-suc, one-le-pow}
use native.Mathlib.Omega.{arith}
use native.Mathlib.Decide.{dec_lt}

module _ (z : ℕ → ℕ) (f : ℕ → ℕ → ℕ) where
  -- Where the rounds are as many as the number, one more changes nothing.
  one_more_round :
      (rounds a b : ℕ) → a ≤ rounds → digits z f (suc rounds) a b ≡ digits z f rounds a b
  one_more_round zero zero b few = refl
  one_more_round zero (suc a) b few = absurd (omega (arith, few))
  one_more_round (suc rounds) zero b few = refl
  one_more_round (suc rounds) (suc a) b few =
      rw (one_more_round rounds (suc a / 2) (b / 2) (omega (arith, few)))

  rounds_settle : (rounds a b : ℕ) → a ≤ rounds → digits z f rounds a b ≡ digits z f a a b
  rounds_settle rounds a b few = elim (dec_lt a rounds) [
    | yes more ↦ settle_below rounds more
    | no same ↦ let e : rounds ≡ a = omega (arith, few, same) in rw e
  ]
    where
      settle_below : (rounds : ℕ) → a < rounds → digits z f rounds a b ≡ digits z f a a b
      settle_below zero more = absurd (omega (arith, more))
      settle_below (suc rounds) more =
          one_more_round rounds a b (omega (arith, more)) ∙ (elim (dec_lt a rounds) [
            | yes more' ↦ settle_below rounds more'
            | no same ↦ let e : rounds ≡ a = omega (arith, more, same) in rw e
          ])

  lowest_digit :
      (a b : ℕ)
      → bitwise z f (suc a) b ≡ f (suc a % 2) (b % 2) + bitwise z f (suc a / 2) (b / 2) * 2
  lowest_digit a b = omega (arith, rounds_settle a (suc a / 2) (b / 2) (omega arith))

and_step : (a b : ℕ) → bit_and a b ≡ bit_and (a / 2) (b / 2) * 2 + min (a % 2) (b % 2)
and_step zero b = simp bit_and-bitwise (omega arith)
and_step (suc a) b = simp bit_and-bitwise (omega (arith, lowest_digit (λ y. 0) min a b))

or_step : (a b : ℕ) → bit_or a b ≡ bit_or (a / 2) (b / 2) * 2 + max (a % 2) (b % 2)
or_step zero b = simp bit_or-bitwise (omega arith)
or_step (suc a) b = simp bit_or-bitwise (omega (arith, lowest_digit (λ y. y) max a b))

-- The digit of an exclusive or.
differ-eq : (a b : ℕ) → a < 2 → b < 2 → differ a b ≡ (a + b) % 2
differ-eq zero zero p q = refl
differ-eq zero (suc zero) p q = refl
differ-eq zero (suc (suc b)) p q = absurd (omega arith)
differ-eq (suc zero) zero p q = refl
differ-eq (suc zero) (suc zero) p q = refl
differ-eq (suc zero) (suc (suc b)) p q = absurd (omega arith)
differ-eq (suc (suc a)) b p q = absurd (omega arith)

xor_step : (a b : ℕ) → bit_xor a b ≡ bit_xor (a / 2) (b / 2) * 2 + (a + b) % 2
xor_step zero b = simp bit_xor-bitwise (omega arith)
xor_step (suc a) b =
    simp bit_xor-bitwise
      (omega (arith, lowest_digit (λ y. y) differ a b, differ-eq (suc a % 2) (b % 2)))

-- Zero on the right, by the number of binary digits on the left.
and-zero_fits : (k a : ℕ) → a < 2 ^ k → bit_and a 0 ≡ 0
and-zero_fits zero a fits = let e : a ≡ 0 = omega (arith, fits) in rw e refl
and-zero_fits (suc k) a fits =
    omega (arith, and_step a 0, and-zero_fits k (a / 2) (omega (arith, fits, pow-suc 2 k)))

or-zero_fits : (k a : ℕ) → a < 2 ^ k → bit_or a 0 ≡ a
or-zero_fits zero a fits = let e : a ≡ 0 = omega (arith, fits) in rw e refl
or-zero_fits (suc k) a fits =
    omega (arith, or_step a 0, or-zero_fits k (a / 2) (omega (arith, fits, pow-suc 2 k)))

xor-zero_fits : (k a : ℕ) → a < 2 ^ k → bit_xor a 0 ≡ a
xor-zero_fits zero a fits = let e : a ≡ 0 = omega (arith, fits) in rw e refl
xor-zero_fits (suc k) a fits =
    omega (arith, xor_step a 0, xor-zero_fits k (a / 2) (omega (arith, fits, pow-suc 2 k)))

fits_itself : (a : ℕ) → a < 2 ^ a
fits_itself zero = omega arith
fits_itself (suc a) = omega (arith, fits_itself a, pow-suc 2 a)

pub and-zero : (a : ℕ) → bit_and a 0 ≡ 0
and-zero a = and-zero_fits a a (fits_itself a)

pub or-zero : (a : ℕ) → bit_or a 0 ≡ a
or-zero a = or-zero_fits a a (fits_itself a)

pub xor-zero : (a : ℕ) → bit_xor a 0 ≡ a
xor-zero a = xor-zero_fits a a (fits_itself a)

pub zero-or : (b : ℕ) → bit_or 0 b ≡ b
zero-or b = simp bit_or-bitwise

pub zero-xor : (b : ℕ) → bit_xor 0 b ≡ b
zero-xor b = simp bit_xor-bitwise

times_two_pow : (q k : ℕ) → q * 2 ^ suc k ≡ 2 * (q * 2 ^ k)
times_two_pow q k = omega (arith, ap (λ (t : ℕ). q * t) (pow-suc 2 k))

-- `|` joins a low field of `k` bits and a field above it.
pub or_fields : (k q r : ℕ) → r < 2 ^ k → bit_or r (q * 2 ^ k) ≡ r + q * 2 ^ k
or_fields zero q r h = let e : r ≡ 0 = omega arith in rw e (omega (arith, zero-or (q * 2 ^ 0)))
or_fields (suc k) q r h = ground (
  arith,
  or_step r (q * 2 ^ suc k),
  times_two_pow q k,
  or_fields k q (r / 2) (omega (arith, pow-suc 2 k)),
)

-- The same with the fields the other way round.
pub or_fields_high : (k q r : ℕ) → r < 2 ^ k → bit_or (q * 2 ^ k) r ≡ q * 2 ^ k + r
or_fields_high zero q r h = let e : r ≡ 0 = omega arith in rw e (omega (arith, or-zero (q * 2 ^ 0)))
or_fields_high (suc k) q r h = ground (
  arith,
  or_step (q * 2 ^ suc k) r,
  times_two_pow q k,
  or_fields_high k q (r / 2) (omega (arith, pow-suc 2 k)),
)

and_mask_fields : (k q r : ℕ) → r < 2 ^ k → bit_and (q * 2 ^ k + r) (2 ^ k - 1) ≡ r
and_mask_fields zero q r h = omega (arith, and-zero (q * 2 ^ 0 + r))
and_mask_fields (suc k) q r h = ground (
  arith,
  and_step (q * 2 ^ suc k + r) (2 ^ suc k - 1),
  times_two_pow q k,
  pow-suc 2 k,
  one-le-pow k 2,
  and_mask_fields k q (r / 2) (omega (arith, pow-suc 2 k)),
)

-- A mask of `k` low bits is the remainder by `2 ^ k`.
pub and_mask : (k a : ℕ) → bit_and a (2 ^ k - 1) ≡ a % 2 ^ k
and_mask k a = ground (arith, one-le-pow k 2, and_mask_fields k (a / 2 ^ k) (a % 2 ^ k))

and_bit_fields : (k q r : ℕ) → r < 2 ^ k → bit_and (q * 2 ^ k + r) (2 ^ k) ≡ q % 2 * 2 ^ k
and_bit_fields zero q r h =
    omega (arith, and_step (q * 2 ^ 0 + r) 1, and-zero ((q * 2 ^ 0 + r) / 2))
and_bit_fields (suc k) q r h = ground (
  arith,
  and_step (q * 2 ^ suc k + r) (2 ^ suc k),
  times_two_pow q k,
  times_two_pow (q % 2) k,
  pow-suc 2 k,
  and_bit_fields k q (r / 2) (omega (arith, pow-suc 2 k)),
)

-- One bit.
pub and_bit : (k a : ℕ) → bit_and a (2 ^ k) ≡ a / 2 ^ k % 2 * 2 ^ k
and_bit k a = ground (arith, one-le-pow k 2, and_bit_fields k (a / 2 ^ k) (a % 2 ^ k))

-- The exclusive or of two words of `k` bits has `k` bits.
pub xor-lt : (k a b : ℕ) → a < 2 ^ k → b < 2 ^ k → bit_xor a b < 2 ^ k
xor-lt zero a b p q = let e : a ≡ 0 = omega arith in rw (e, zero-xor b) q
xor-lt (suc k) a b p q = omega (
  arith,
  xor_step a b,
  pow-suc 2 k,
  xor-lt k (a / 2) (b / 2) (omega (arith, pow-suc 2 k)) (omega (arith, pow-suc 2 k)),
)

-- The same of `|`.
pub or-lt : (k a b : ℕ) → a < 2 ^ k → b < 2 ^ k → bit_or a b < 2 ^ k
or-lt zero a b p q = let e : a ≡ 0 = omega arith in rw (e, zero-or b) q
or-lt (suc k) a b p q = omega (
  arith,
  or_step a b,
  pow-suc 2 k,
  or-lt k (a / 2) (b / 2) (omega (arith, pow-suc 2 k)) (omega (arith, pow-suc 2 k)),
)

-- Exclusive or with one word twice gives the other back.
xor_cancel_bound : (n a b : ℕ) → a + b ≤ n → bit_xor a (bit_xor a b) ≡ b
xor_cancel_bound n zero b h = zero-xor _ ∙ zero-xor b
xor_cancel_bound zero (suc a) b h = absurd (omega arith)
xor_cancel_bound (suc n) (suc a) b h =
    let half : bit_xor (suc a) b / 2 ≡ bit_xor (suc a / 2) (b / 2) =
      omega (arith, xor_step (suc a) b) in
    let rest : bit_xor (suc a / 2) (bit_xor (suc a) b / 2) ≡ b / 2 =
      rw half (xor_cancel_bound n (suc a / 2) (b / 2) (omega arith)) in
    omega (arith, xor_step (suc a) (bit_xor (suc a) b), xor_step (suc a) b, rest)

pub xor_cancel : (a b : ℕ) → bit_xor a (bit_xor a b) ≡ b
xor_cancel a b = xor_cancel_bound (a + b) a b (omega arith)

-- Exclusive or with a word of `k` ones is the complement.
pub xor_ones : (k a : ℕ) → a < 2 ^ k → bit_xor a (2 ^ k - 1) ≡ 2 ^ k - 1 - a
xor_ones zero a h = let e : a ≡ 0 = omega arith in rw e (omega (arith, zero-xor 0))
xor_ones (suc k) a h =
    ground (arith, xor_step a (2 ^ suc k - 1), pow-suc 2 k, one-le-pow k 2, xor_ones k (a / 2))
