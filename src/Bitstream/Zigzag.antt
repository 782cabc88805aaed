-- ===== src/Bitstream/Zigzag.antt =====
-- `tsedge_zigzag_encode` and `tsedge_zigzag_decode`.
use tsedge.Common.{
  ℕ, ◌+◌, ◌-◌, ◌*◌, ◌/◌, ◌%◌, ◌^◌, ◌≤◌, ◌<◌, ◌≡◌, ◌⊎◌, inl, inr, bit_and, Bool-cases, arith, ltb,
  u64, IsU64,
}
use tsedge.Common.Bits.{xor-zero, xor_ones, xor-lt, and_mask}
use tsedge.Bitstream.{zigzag_encode, zigzag_decode}

-- A non-negative value is doubled.
zigzag_encode_nonneg : (v : ℕ) → v < 2 ^ 63 → zigzag_encode v ≡ 2 * v
unfolding zigzag_encode
zigzag_encode_nonneg v h = ground (arith, xor-zero (u64 (v * 2)))

-- The pattern of -k, which is 2 ^ 64 - k, becomes 2 * k - 1.
zigzag_encode_neg : (v : ℕ) → 2 ^ 63 ≤ v → IsU64 v → zigzag_encode v ≡ 2 * (2 ^ 64 - v) - 1
unfolding zigzag_encode
zigzag_encode_neg v h k = ground (arith, xor_ones 64 (u64 (v * 2)))

low_bit : (w : ℕ) → bit_and w 1 ≡ w % 2
low_bit w = omega (arith, and_mask 1 w)

zigzag_decode_even : (w : ℕ) → w % 2 ≡ 0 → zigzag_decode w ≡ w / 2
unfolding zigzag_decode
zigzag_decode_even w h = rw (low_bit w, h) (xor-zero (w / 2))

zigzag_decode_odd : (w : ℕ) → IsU64 w → w % 2 ≡ 1 → zigzag_decode w ≡ 2 ^ 64 - 1 - w / 2
unfolding zigzag_decode
zigzag_decode_odd w hw h = rw (low_bit w, h) (xor_ones 64 (w / 2) (omega arith))

-- Decoding the zigzag form of any int64_t gives the value back.
pub zigzag_decode-encode : (v : ℕ) → IsU64 v → zigzag_decode (zigzag_encode v) ≡ v
zigzag_decode-encode v h = elim (Bool-cases (ltb v (2 ^ 63))) [
  | inl nonneg ↦ ground (arith, zigzag_encode_nonneg v, zigzag_decode_even (zigzag_encode v))
  | inr neg ↦ ground (arith, zigzag_encode_neg v, zigzag_decode_odd (zigzag_encode v))
]

-- Every uint64_t is the zigzag form of what it decodes to.
pub zigzag_encode-decode : (w : ℕ) → IsU64 w → zigzag_encode (zigzag_decode w) ≡ w
zigzag_encode-decode w h = elim (Bool-cases (ltb (w % 2) 1)) [
  | inl even ↦ ground (arith, zigzag_decode_even w, zigzag_encode_nonneg (zigzag_decode w))
  | inr odd ↦ ground (arith, zigzag_decode_odd w, zigzag_encode_neg (zigzag_decode w))
]

pub zigzag_encode-IsU64 : (v : ℕ) → IsU64 v → IsU64 (zigzag_encode v)
zigzag_encode-IsU64 v h = elim (Bool-cases (ltb v (2 ^ 63))) [
  | inl nonneg ↦ ground (arith, zigzag_encode_nonneg v)
  | inr neg ↦ ground (arith, zigzag_encode_neg v)
]

pub zigzag_decode-IsU64 : (w : ℕ) → IsU64 w → IsU64 (zigzag_decode w)
unfolding zigzag_decode
zigzag_decode-IsU64 w h = xor-lt 64 _ _ (omega arith) (omega arith)

-- A value of magnitude below `m`, of either sign, has a zigzag form below 2 * m.
pub zigzag_encode-lt :
    (v m : ℕ) → IsU64 v → m ≤ 2 ^ 63 → (v < m) ⊎ (2 ^ 64 ≤ v + m) → zigzag_encode v < 2 * m
zigzag_encode-lt v m h hm near = elim (Bool-cases (ltb v (2 ^ 63))) [
  | inl nonneg ↦ ground (arith, zigzag_encode_nonneg v)
  | inr neg ↦ ground (arith, zigzag_encode_neg v)
]
