-- ===== src/Bitstream/LittleEndian.antt =====
-- `tsedge_read_u32_le`, `tsedge_read_u64_le` against `tsedge_write_u32_le`, `tsedge_write_u64_le`.
use native.Mathlib.Nat.{div-add-mod, div-div-eq-div-mul, one-le-pow, pow-le-pow_right, div-eq_of_lt}
use native.Mathlib.Numerals.{towards_suc}
use tsedge.Common.{
  ℕ, zero, suc, ◌+◌, ◌*◌, ◌/◌, ◌%◌, ◌^◌, ◌≤◌, ◌<◌, ◌≡◌, refl, ap, ◌∙◌, List, [], ◌∷◌, ◌++◌, arith,
  length, length-append, drop, ltb, false, u8, u32, u64, IsByte, IsU32, IsU64, All, ◌>>>◌, bit_and,
}
use tsedge.Common.Bits.{or_fields, and_mask, or-lt}
use tsedge.Bitstream.{write_bytes, read_bytes, write_u32_le, write_u64_le, read_u32_le, read_u64_le}

two_pow-add_eight : (n : ℕ) → 2 ^ (n + 8) ≡ 256 * 2 ^ n
two_pow-add_eight n = simp towards_suc (omega arith)

-- The weight of the next byte.
pub next_weight : (i : ℕ) → 2 ^ ((i + 1) * 8) ≡ 2 ^ (i * 8) * 256
next_weight i =
    let e : (i + 1) * 8 ≡ i * 8 + 8 = omega arith in rw e (omega (arith, two_pow-add_eight (i * 8)))

-- The byte that round `i` stores.
pub stored_byte : (value i : ℕ) → u8 (bit_and (value >>> (i * 8)) 0xff) ≡ value / 2 ^ (i * 8) % 256
stored_byte value i = omega (arith, and_mask 8 (value / 2 ^ (i * 8)))

-- What is left of `value` above byte `i`, weighed, is its lowest byte and what is left above it.
pub split_byte :
    (value i : ℕ)
    → value / 2 ^ (i * 8) * 2 ^ (i * 8)
      ≡ value / 2 ^ (i * 8) % 256 * 2 ^ (i * 8) + value / 2 ^ ((i + 1) * 8) * 2 ^ ((i + 1) * 8)
split_byte value i =
    let p = 2 ^ (i * 8) in
    let w = value / p in
    rw (next_weight i, ← div-div-eq-div-mul value p 256)
      (omega (arith, ap (λ (t : ℕ). t * p) (div-add-mod w 256)))

module _ (cast : ℕ → ℕ) (width : ℕ) (keeps : (n : ℕ) → n < 2 ^ (width * 8) → cast n ≡ n) where
  -- A byte at a place inside the width is kept by the cast.
  cast_byte : (i b : ℕ) → b < 256 → i < width → cast (b * 2 ^ (i * 8)) ≡ b * 2 ^ (i * 8)
  cast_byte i b hb hi = keeps _ (omega (arith, below, next_weight i, fits))
    where
      fits : 2 ^ ((i + 1) * 8) ≤ 2 ^ (width * 8)
      fits = pow-le-pow_right (omega arith) (omega arith)

      below : b * 2 ^ (i * 8) < 256 * 2 ^ (i * 8)
      below = grind (arith, one-le-pow (i * 8) 2)

  -- The loop adds what is left of `value` to the bytes that it has read.
  read_bytes-write_bytes :
      (left i value acc : ℕ) (rest : List ℕ)
      → i + left ≡ width
      → value < 2 ^ (width * 8)
      → acc < 2 ^ (i * 8)
      → read_bytes cast left i (write_bytes left i value ++ rest) acc
        ≡ acc + value / 2 ^ (i * 8) * 2 ^ (i * 8)
  unfolding read_bytes write_bytes
  read_bytes-write_bytes zero i value acc rest hw hv ha =
      let e : i ≡ width = omega arith in
      let none_left : value / 2 ^ (i * 8) ≡ 0 = rw e (div-eq_of_lt hv) in rw none_left (omega arith)
  read_bytes-write_bytes (suc left) i value acc rest hw hv ha =
      rw
        (
          stored_byte value i,
          cast_byte i (value / 2 ^ (i * 8) % 256) (omega arith) (omega arith),
          or_fields (i * 8) (value / 2 ^ (i * 8) % 256) acc ha,
        )
        (read_bytes-write_bytes left (i + 1) value (acc + value / 2 ^ (i * 8) % 256 * 2 ^ (i * 8))
            rest (omega arith) hv (omega (arith, next_weight i, bound))
          ∙ omega (arith, split_byte value i))
    where
      bound : acc + value / 2 ^ (i * 8) % 256 * 2 ^ (i * 8) < 256 * 2 ^ (i * 8)
      bound = grind (arith, one-le-pow (i * 8) 2)

length-write_bytes : (left i value : ℕ) → length (write_bytes left i value) ≡ left
unfolding write_bytes
length-write_bytes zero i value = refl
length-write_bytes (suc left) i value = ap suc (length-write_bytes left (i + 1) value)

-- `read_u32_le` gives back the uint32_t that `write_u32_le` stored, whatever follows it.
pub read-write_u32_le :
    (value : ℕ) (rest : List ℕ) → IsU32 value → read_u32_le (write_u32_le value ++ rest) ≡ value
unfolding read_u32_le write_u32_le
read-write_u32_le value rest h =
    read_bytes-write_bytes (λ n. u32 n) 4 (λ n hn. omega arith) 4 0 value 0 rest refl h
      (omega arith)
    ∙ omega arith

-- `read_u64_le` gives back the uint64_t that `write_u64_le` stored, whatever follows it.
pub read-write_u64_le :
    (value : ℕ) (rest : List ℕ) → IsU64 value → read_u64_le (write_u64_le value ++ rest) ≡ value
unfolding read_u64_le write_u64_le
read-write_u64_le value rest h =
    read_bytes-write_bytes (λ n. u64 n) 8 (λ n hn. omega arith) 8 0 value 0 rest refl h
      (omega arith)
    ∙ omega arith

pub length-write_u32_le : (value : ℕ) → length (write_u32_le value) ≡ 4
unfolding write_u32_le
length-write_u32_le value = length-write_bytes 4 0 value

pub length-write_u64_le : (value : ℕ) → length (write_u64_le value) ≡ 8
unfolding write_u64_le
length-write_u64_le value = length-write_bytes 8 0 value

write_bytes-IsByte : (left i value : ℕ) → All IsByte (write_bytes left i value)
unfolding write_bytes
write_bytes-IsByte zero i value = tt
write_bytes-IsByte (suc left) i value = (omega arith, write_bytes-IsByte left (i + 1) value)

pub write_u64_le-IsByte : (value : ℕ) → All IsByte (write_u64_le value)
unfolding write_u64_le
write_u64_le-IsByte value = write_bytes-IsByte 8 0 value

-- A cast to `k` bits keeps the loop's value within `k` bits.
read_bytes-lt :
    (k : ℕ) (cast : ℕ → ℕ)
    → ((n : ℕ) → cast n < 2 ^ k)
    → (left i : ℕ) (src : List ℕ) (acc : ℕ) → acc < 2 ^ k
    → read_bytes cast left i src acc < 2 ^ k
unfolding read_bytes
read_bytes-lt k cast small zero i src acc h = h
read_bytes-lt k cast small (suc left) i [] acc h = h
read_bytes-lt k cast small (suc left) i (b ∷ src) acc h =
    read_bytes-lt k cast small left (i + 1) src _ (or-lt k acc _ h (small _))

pub read_u32_le-IsU32 : (src : List ℕ) → IsU32 (read_u32_le src)
unfolding read_u32_le
read_u32_le-IsU32 src = read_bytes-lt 32 (λ n. u32 n) (λ n. omega arith) 4 0 src 0 (omega arith)

pub read_u64_le-IsU64 : (src : List ℕ) → IsU64 (read_u64_le src)
unfolding read_u64_le
read_u64_le-IsU64 src = read_bytes-lt 64 (λ n. u64 n) (λ n. omega arith) 8 0 src 0 (omega arith)

-- A reader that stands at a stored word finds 8 bytes, and what follows behind them.
pub write_u64_le_present :
    (value : ℕ) (rest : List ℕ) → ltb (length (write_u64_le value ++ rest)) 8 ≡ false
write_u64_le_present value rest =
    ground (arith, length-append (write_u64_le value) rest, length-write_u64_le value)

pub drop-write_u64_le : (value : ℕ) (rest : List ℕ) → drop 8 (write_u64_le value ++ rest) ≡ rest
unfolding write_u64_le
drop-write_u64_le value rest = refl

-- `read_u32_le` looks at 4 bytes.
pub read_u32_le-append :
    (src rest : List ℕ) → 4 ≤ length src → read_u32_le (src ++ rest) ≡ read_u32_le src
unfolding read_u32_le read_bytes
read_u32_le-append [] rest h = absurd (omega (arith, h))
read_u32_le-append (a ∷ []) rest h = absurd (omega (arith, h))
read_u32_le-append (a ∷ b ∷ []) rest h = absurd (omega (arith, h))
read_u32_le-append (a ∷ b ∷ c ∷ []) rest h = absurd (omega (arith, h))
read_u32_le-append (a ∷ b ∷ c ∷ d ∷ src) rest h = refl
