-- ===== src/Compress/ZeroBytes.antt =====
-- `leading_zero_bytes` and `trailing_zero_bytes`, and the bytes between them.
use native.Mathlib.Nat.{
  div-add-mod, pow-le-pow_right, one-le-pow, div-lt_iff_lt-mul, mod-lt, mod-eq_of_lt, mul-mod_left,
}
use native.Mathlib.Decide.{dec_le}
use tsedge.Common.{
  ℕ, zero, suc, ◌+◌, ◌-◌, ◌*◌, ◌/◌, ◌%◌, ◌^◌, ◌≤◌, ◌<◌, ◌≡◌, ◌≢◌, sym, ap, ◌∙◌, Bool-cases, inl,
  inr, arith, ◌==◌, IsU64, bit_and, ◌>>>◌,
}
use tsedge.Common.Bits.{and_mask}
use tsedge.Bitstream.LittleEndian.{next_weight}
use tsedge.Compress.{
  leading_zero_loop, leading_zero_bytes, trailing_zero_loop, trailing_zero_bytes, significant_bytes,
}

next_weight_suc : (i : ℕ) → 2 ^ (suc i * 8) ≡ 2 ^ (i * 8) * 256
next_weight_suc i = let e : suc i * 8 ≡ (i + 1) * 8 = omega arith in rw e (next_weight i)

-- A word of `left + 1` bytes whose top byte is zero is a word of `left` bytes.
top_byte_zero :
    (left value : ℕ)
    → value < 2 ^ (suc left * 8)
    → value / 2 ^ (left * 8) % 256 ≡ 0
    → value < 2 ^ (left * 8)
top_byte_zero left value h z =
    let p = 2 ^ (left * 8) in
    let q_small : value / p < 256 =
      (div-lt_iff_lt-mul (one-le-pow (left * 8) 2 (omega arith))).1
        (omega (arith, next_weight_suc left)) in
    omega (
      arith,
      div-add-mod value p,
      ap (λ (t : ℕ). p * t) (none_left q_small),
      mod-lt value (one-le-pow (left * 8) 2 (omega arith)),
    )
  where
    none_left : value / 2 ^ (left * 8) < 256 → value / 2 ^ (left * 8) ≡ 0
    none_left small = omega arith

-- The count is that of the zero bytes at the top: `low` bytes remain below them.
leading_zero_loop_lem :
    (left value count : ℕ)
    → value < 2 ^ (left * 8)
    → (low : ℕ) × (leading_zero_loop left value count + low ≡ count + left)
      × (value < 2 ^ (low * 8))
unfolding leading_zero_loop
leading_zero_loop_lem zero value count h = (0, omega arith, h)
leading_zero_loop_lem (suc left) value count h =
    elim (Bool-cases (bit_and (value >>> (left * 8)) 0xff == 0)) [
      | inl empty ↦
          let small =
            top_byte_zero left value h (ground (arith, and_mask 8 (value / 2 ^ (left * 8)))) in
          let (low, e, below) = leading_zero_loop_lem left value (count + 1) small in
          (low, rw empty (omega (arith, e)), below)
      | inr full ↦ (suc left, rw full (omega arith), h)
    ]

-- A multiple of 256 ^ count whose next byte is zero is a multiple of 256 ^ (count + 1).
next_byte_zero :
    (count value : ℕ)
    → value % 2 ^ (count * 8) ≡ 0
    → value / 2 ^ (count * 8) % 256 ≡ 0
    → value % 2 ^ ((count + 1) * 8) ≡ 0
next_byte_zero count value h z = mod-eq_zero_of_weights
  where
    p : ℕ
    p = 2 ^ (count * 8)

    q : ℕ
    q = value / p

    whole : value ≡ q / 256 * (p * 256)
    whole = omega (
      arith,
      div-add-mod value p,
      ap (λ (t : ℕ). p * t) (div-add-mod q 256),
      ap (λ (t : ℕ). p * t) z,
    )

    mod-eq_zero_of_weights : value % 2 ^ ((count + 1) * 8) ≡ 0
    mod-eq_zero_of_weights =
        rw (next_weight count)
          (ap (λ (t : ℕ). t % (p * 256)) whole ∙ mul-mod_left (q / 256) (p * 256))

trailing_zero_loop_lem :
    (left value count : ℕ)
    → value % 2 ^ (count * 8) ≡ 0
    → (value % 2 ^ (trailing_zero_loop left value count * 8) ≡ 0)
      × (trailing_zero_loop left value count ≤ count + left)
unfolding trailing_zero_loop
trailing_zero_loop_lem zero value count h = (h, omega arith)
trailing_zero_loop_lem (suc left) value count h =
    elim (Bool-cases (bit_and (value >>> (count * 8)) 0xff == 0)) [
      | inl empty ↦
          let (e, at_most) =
            trailing_zero_loop_lem left value (count + 1) (
              next_byte_zero count value h
                (ground (arith, and_mask 8 (value / 2 ^ (count * 8))))) in
          rw empty (e, omega arith)
      | inr full ↦ rw full (h, omega arith)
    ]

-- How a word of 64 bits that is not zero divides into zero bytes at the top, the bytes that the
-- encoder keeps, of which there is one at least, and zero bytes at the bottom.
pub record Division (value : ℕ) : Type 0 where
  pub whole : leading_zero_bytes value + (significant_bytes value + trailing_zero_bytes value) ≡ 8
  pub some_kept : 1 ≤ significant_bytes value
  pub below : value < 2 ^ ((significant_bytes value + trailing_zero_bytes value) * 8)
  pub bottom_zero : value % 2 ^ (trailing_zero_bytes value * 8) ≡ 0

-- A word that is not zero, and whose lowest `t` bytes are, has a bit above them.
multiple-le : (value k : ℕ) → value ≢ 0 → value % 2 ^ k ≡ 0 → 2 ^ k ≤ value
multiple-le value k ne z = elim (dec_le (2 ^ k) value) [
  | yes le ↦ le
  | no nle ↦ absurd (ne (sym (mod-eq_of_lt {n = value} {m = 2 ^ k} (omega arith)) ∙ z))
]

pub zero_bytes_divide : (value : ℕ) → value ≢ 0 → IsU64 value → Division value
unfolding significant_bytes leading_zero_bytes trailing_zero_bytes
zero_bytes_divide value ne h =
    let (low, e, below) = leading_zero_loop_lem 8 value 0 h in
    let (bottom, at_most) = trailing_zero_loop_lem 8 value 0 (omega arith) in
    let t = trailing_zero_loop 8 value 0 in
    let room : t < low = fewer t low (multiple-le value (t * 8) ne bottom) below in
    let kept : significant_bytes value ≡ low - t = omega (arith, e) in
    let top : (low - t) + t ≡ low = omega arith in
    record {
      whole = omega (arith, e, kept);
      some_kept = omega (arith, kept);
      below = rw (kept, top) below;
      bottom_zero = bottom;
    }
  where
    fewer : (t low : ℕ) → 2 ^ (t * 8) ≤ value → value < 2 ^ (low * 8) → t < low
    fewer t low le lt = elim (dec_le low t) [
      | yes p ↦ absurd (
          omega
            (arith, pow-le-pow_right {n = 2} (omega arith) {i = low * 8} {j = t * 8} (omega arith)))
      | no p ↦ omega arith
    ]
