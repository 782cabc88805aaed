-- ===== src/Bitstream.antt =====
-- src/compression/bitstream.c: little-endian integers, zigzag and variable-length integers.
-- A byte is a number below 2 ^ 8, and an int64_t is its bit pattern, a number below 2 ^ 64.
-- A pointer into an array is the list of the bytes from there on.
pub mod LittleEndian
pub mod Zigzag
pub mod Varint
pub mod Cursor
use mathlib.Core.Logic.{dite}
use mathlib.Core.WellFounded.{Acc}
use native.Mathlib.Decide.{dec_lt}
use tsedge.Common.{
  ℕ, zero, suc, ◌+◌, ◌-◌, ◌*◌, ◌/◌, ◌%◌, ◌^◌, ◌<◌, bit_and, bit_or, bit_xor, Bool, List, [], ◌∷◌,
  arith, u8, u32, u64, ◌<<<◌, ◌>>>◌, leb, ltb, ◌==◌, if◌then◌else◌, Result, ok, err, corrupt, lt_wf,
}

-- `for (i = 0; i < n; ++i) dst[i] = (uint8_t)((value >> (i * 8)) & 0xff);` with `left` rounds left:
-- the bytes that the loop stores.
pub write_bytes : ℕ → ℕ → ℕ → List ℕ
write_bytes zero i value = []
write_bytes (suc left) i value =
    u8 (bit_and (value >>> (i * 8)) 0xff) ∷ write_bytes left (i + 1) value

-- `for (i = 0; i < n; ++i) value |= (uintN_t)src[i] << (i * 8);` with `left` rounds left, where
-- `cast` is the conversion to the width and the list is `src + i`. A read past the end has no
-- meaning in C; here the loop stops.
pub read_bytes : (ℕ → ℕ) → ℕ → ℕ → List ℕ → ℕ → ℕ
read_bytes cast zero i src value = value
read_bytes cast (suc left) i [] value = value
read_bytes cast (suc left) i (byte ∷ src) value =
    read_bytes cast left (i + 1) src (bit_or value (cast (byte <<< (i * 8))))

unfoldable pub write_u32_le : ℕ → List ℕ
unfolding write_bytes
write_u32_le value = write_bytes 4 0 value

unfoldable pub write_u64_le : ℕ → List ℕ
unfolding write_bytes
write_u64_le value = write_bytes 8 0 value

unfoldable pub read_u32_le : List ℕ → ℕ
unfolding read_bytes
read_u32_le src = read_bytes (λ n. u32 n) 4 0 src 0

unfoldable pub read_u64_le : List ℕ → ℕ
unfolding read_bytes
read_u64_le src = read_bytes (λ n. u64 n) 8 0 src 0

-- `(uint64_t)(value >> 63)` of an int64_t: the sign in every bit.
abbrev pub sign_mask : ℕ → ℕ
sign_mask value = if ltb value (2 ^ 63) then 0 else 2 ^ 64 - 1

unfoldable pub zigzag_encode : ℕ → ℕ
zigzag_encode value = bit_xor (u64 (value <<< 1)) (sign_mask value)

-- `-(int64_t)(value & 1)` is 0 or a word of ones.
unfoldable pub zigzag_decode : ℕ → ℕ
zigzag_decode value = bit_xor (value >>> 1) (u64 (2 ^ 64 - bit_and value 1))

pub shift_shrinks : (v : ℕ) → 127 < v → v / 128 < v
shift_shrinks v h = omega arith

-- `while (value >= 0x80) { value >>= 7; ++size; }`
pub varint_size_loop : (value : ℕ) → Acc ◌<◌ value → ℕ → ℕ
varint_size_loop value (Acc.intro _ smaller) size =
    dite (dec_lt 127 value)
      (λ more. varint_size_loop (value >>> 7) (smaller _ (shift_shrinks value more)) (size + 1))
      (λ _. size)

unfoldable pub varint_size : ℕ → ℕ
unfolding varint_size_loop lt_wf dec_lt
varint_size value = varint_size_loop value (lt_wf.apply value) 1

-- The bytes that the loop stores through the cursor.
pub write_varint_loop : (value : ℕ) → Acc ◌<◌ value → List ℕ
write_varint_loop value (Acc.intro _ smaller) =
    dite (dec_lt 127 value)
      (λ more.
        u8 (bit_or (bit_and value 0x7f) 0x80)
        ∷ write_varint_loop (value >>> 7) (smaller _ (shift_shrinks value more)))
      (λ _. u8 value ∷ [])

unfoldable pub write_varint : ℕ → List ℕ
unfolding write_varint_loop lt_wf dec_lt
write_varint value = write_varint_loop value (lt_wf.apply value)

-- The list is what stands between the cursor and `end`. The result is the value and the new cursor.
pub read_varint_loop : List ℕ → ℕ → ℕ → Result (ℕ × List ℕ)
read_varint_loop [] value shift = err corrupt
read_varint_loop (byte ∷ rest) value shift =
    let value' = bit_or value (u64 (bit_and byte 0x7f <<< shift)) in
    let more = read_varint_loop rest value' (shift + 7) in
    let round = if bit_and byte 0x80 == 0 then ok (value', rest) else more in
    if leb shift 63 then round else err corrupt

unfoldable pub read_varint : List ℕ → Result (ℕ × List ℕ)
unfolding read_varint_loop
read_varint cursor = read_varint_loop cursor 0 0
