-- ===== src/Compress/Values.antt =====
-- The value stream: what `tsedge_compress_values` stores, `tsedge_decompress_values` reads back.
use native.Mathlib.Nat.{
  div-add-mod, div-eq_of_lt, mod-eq_of_lt, one-le-pow, pow-le-pow_right, zero-add,
}
use tsedge.Common.{
  ℕ, zero, suc, ◌+◌, ◌-◌, ◌*◌, ◌/◌, ◌%◌, ◌^◌, ◌≤◌, ◌<◌, ◌≡◌, refl, sym, ap, ◌∙◌, List, [], ◌∷◌,
  ◌++◌, append_assoc, append-nil, map, Bool, Bool-cases, inl, inr, arith, length, length-append,
  drop-append, ◌==◌, ltb, u8, u64, IsU64, All, bit_or, bit_xor, ok,
}
use tsedge.Common.Bits.{or_fields_high, xor_cancel, xor-zero, xor-lt}
use tsedge.Point.{Point, IsPoint}
use tsedge.Bitstream.{write_u64_le}
use tsedge.Bitstream.LittleEndian.{
  next_weight, stored_byte, split_byte, read-write_u64_le, write_u64_le_present, drop-write_u64_le,
  length-write_u64_le,
}
use tsedge.Compress.ZeroBytes.{Division, zero_bytes_divide}
use tsedge.Compress.{
  Stream, leading_zero_bytes, trailing_zero_bytes, significant_bytes, value_size, values_size_loop,
  write_significant, value_bytes, values_bytes_loop, compress_values, read_significant,
  decode_significant, decode_value, decode_values_loop, decompress_values,
}

length-write_significant :
    (left byte_index value : ℕ) → length (write_significant left byte_index value) ≡ left
unfolding write_significant
length-write_significant zero byte_index value = refl
length-write_significant (suc left) byte_index value =
    ap suc (length-write_significant left (byte_index + 1) value)

-- Of `value`, the bytes from `t` on stand for this.
abbrev from_byte : ℕ → ℕ → ℕ
from_byte t value = value / 2 ^ (t * 8) * 2 ^ (t * 8)

-- One round joins the next lower byte to the bytes above it.
join_byte :
    (t value : ℕ)
    → t < 8
    → bit_or (from_byte (t + 1) value) (u64 (value / 2 ^ (t * 8) % 256 * 2 ^ (t * 8)))
      ≡ from_byte t value
join_byte t value h =
    rw
      (
        mod-eq_of_lt {n = byte * 2 ^ (t * 8)} {m = 2 ^ 64}
            (omega (arith, small, next_weight t, fits)),
        or_fields_high ((t + 1) * 8) (value / 2 ^ ((t + 1) * 8)) (byte * 2 ^ (t * 8))
            (omega (arith, small, next_weight t)),
      )
      (omega (arith, split_byte value t))
  where
    byte : ℕ
    byte = value / 2 ^ (t * 8) % 256

    small : byte * 2 ^ (t * 8) < 256 * 2 ^ (t * 8)
    small = grind (arith, one-le-pow (t * 8) 2)

    fits : 2 ^ ((t + 1) * 8) ≤ 2 ^ 64
    fits = pow-le-pow_right (omega arith) {j = 64} (omega arith)

-- The bytes from `t` to `t + left` in the order in which they are stored, the highest first.
read-write_significant :
    (left t byte_index value : ℕ) (rest : List ℕ)
    → byte_index + (left + t) ≡ 8
    → read_significant left byte_index
        (write_significant left byte_index value ++ rest)
        (from_byte (left + t) value)
      ≡ from_byte t value
unfolding read_significant write_significant
read-write_significant zero t byte_index value rest h = rw zero-add
read-write_significant (suc left) t byte_index value rest h =
    let here : 7 - byte_index ≡ left + t = omega arith in
    let above : suc left + t ≡ (left + t) + 1 = omega arith in
    rw (here, above, stored_byte value (left + t), join_byte (left + t) value (omega arith))
      (read-write_significant left t (byte_index + 1) value rest (omega arith))

u8_keeps : (n : ℕ) → n ≤ 8 → u8 n ≡ n
u8_keeps n h = omega arith

-- The kept bytes of `value` give it back.
decode-write_significant :
    (value : ℕ) (rest : List ℕ)
    → Division value
    → decode_significant (
        u8 (leading_zero_bytes value)
        ∷ u8 (significant_bytes value)
        ∷ (write_significant (significant_bytes value) (leading_zero_bytes value) value ++ rest))
      ≡ ok (value, rest)
unfolding decode_significant
decode-write_significant value rest d =
    let l = leading_zero_bytes value in
    let s = significant_bytes value in
    let t = trailing_zero_bytes value in
    let top = d.whole in
    let kept = write_significant s l value in
    let start : from_byte (s + t) value ≡ 0 =
      ap (λ (q : ℕ). q * 2 ^ ((s + t) * 8)) (div-eq_of_lt d.below) ∙ omega arith in
    let word : read_significant s l (kept ++ rest) 0 ≡ value =
      (rw start at (read-write_significant s t l value rest d.whole))
      ∙ omega (arith, div-add-mod value (2 ^ (t * 8)), d.bottom_zero) in
    rw
      (
        u8_keeps l (omega arith),
        u8_keeps s (omega arith),
        drop-append s kept rest (length-write_significant s l value),
        word,
      )
      (ground (arith, d.some_kept, length-append kept rest, length-write_significant s l value))

-- One value: the decoder's round on what the encoder's round stored.
decode_value-value_bytes :
    (prev current : ℕ) (rest : List ℕ)
    → IsU64 prev
    → IsU64 current
    → decode_value prev (value_bytes (bit_xor prev current) ++ rest) ≡ ok (current, rest)
unfolding decode_value value_bytes
decode_value-value_bytes prev current rest hp hc = elim (Bool-cases (word == 0)) [
  | inl same ↦ rw same (ap (λ (v : ℕ). ok (v, rest)) (unchanged (ground arith)))
  | inr changed ↦ elim (Bool-cases (ltb (significant_bytes word + 3) 9)) [
    | inl short ↦ rw (
      changed,
      short,
      decode-write_significant word rest (zero_bytes_divide word (ground arith) fits),
      back,
    )
    | inr long ↦ rw (
      changed,
      long,
      write_u64_le_present word rest,
      read-write_u64_le word rest fits,
      drop-write_u64_le word rest,
      back,
    )
  ]
]
  where
    word : ℕ
    word = bit_xor prev current

    fits : IsU64 word
    fits = xor-lt 64 prev current hp hc

    back : bit_xor prev word ≡ current
    back = xor_cancel prev current

    unchanged : word ≡ 0 → prev ≡ current
    unchanged z = sym (xor-zero prev) ∙ ap (λ (w : ℕ). bit_xor prev w) (sym z) ∙ back

unfoldable pub values : List Point → List ℕ
values points = map (λ p. p.value) points

decode_values_loop-bytes :
    (points : List Point) (prev : ℕ) (rest : List ℕ)
    → All IsPoint points
    → IsU64 prev
    → decode_values_loop (length points) (values_bytes_loop prev points ++ rest) prev
      ≡ ok (values points, rest)
unfolding decode_values_loop values_bytes_loop values
decode_values_loop-bytes [] prev rest h hp = refl
decode_values_loop-bytes (p ∷ points) prev rest h hp =
    let more = values_bytes_loop p.value points in
    rw (
      append_assoc (value_bytes (bit_xor prev p.value)) more rest,
      decode_value-value_bytes prev p.value (more ++ rest) hp h.0.value_fits,
      decode_values_loop-bytes points p.value rest h.1 h.0.value_fits,
    )

-- The size loop counts the bytes of each value.
length-value_bytes : (word : ℕ) → length (value_bytes word) ≡ value_size word
unfolding value_bytes value_size
length-value_bytes word = ground (
  arith,
  length-write_significant (significant_bytes word) (leading_zero_bytes word) word,
  length-write_u64_le word,
)

pub values_size_loop-length :
    (prev : ℕ) (points : List Point) (size : ℕ)
    → values_size_loop prev points size ≡ size + length (values_bytes_loop prev points)
unfolding values_size_loop values_bytes_loop
values_size_loop-length prev [] size = omega arith
values_size_loop-length prev (p ∷ points) size =
    let word = bit_xor prev p.value in
    omega (
      arith,
      length-append (value_bytes word) (values_bytes_loop p.value points),
      length-value_bytes word,
      values_size_loop-length p.value points (size + value_size word),
    )

decompress-values_bytes :
    (p : Point) (points : List Point)
    → All IsPoint (p ∷ points)
    → decompress_values
        (write_u64_le p.value ++ values_bytes_loop p.value points)
        (suc (length points))
      ≡ ok (values (p ∷ points))
unfolding decompress_values values
decompress-values_bytes p points h =
    let more = values_bytes_loop p.value points in
    rw (
      write_u64_le_present p.value more,
      read-write_u64_le p.value more h.0.value_fits,
      drop-write_u64_le p.value more,
      ← append-nil more,
      decode_values_loop-bytes points p.value [] h.1 h.0.value_fits,
    )

-- Where `tsedge_compress_values` succeeds, the two loops agree: the stores fill the allocated
-- buffer exactly, and `tsedge_decompress_values` on that buffer and the number of points gives back
-- the bit pattern of every value.
pub decompress-compress_values :
    (alloc : ℕ → Bool) (points : List Point) {s : Stream}
    → All IsPoint points
    → compress_values alloc points ≡ ok s
    → (length s.bytes ≡ s.size) × (decompress_values s.bytes (length points) ≡ ok (values points))
unfolding compress_values
decompress-compress_values alloc [] h e = unfold decompress_values values in ground arith
decompress-compress_values alloc (p ∷ points) h e = ground (
  arith,
  values_size_loop-length p.value points 8,
  length-append (write_u64_le p.value) (values_bytes_loop p.value points),
  length-write_u64_le p.value,
  decompress-values_bytes p points h,
)
