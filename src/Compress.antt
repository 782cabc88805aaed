-- ===== src/Compress.antt =====
-- src/compression/compress.c: the lossless streams of timestamps and of values.
-- `alloc` says whether malloc gives that many bytes. A buffer that a cursor fills is the list of
-- the bytes that were stored, beside the size that was allocated for it.
pub mod Timestamps
pub mod ZeroBytes
pub mod Values
pub mod Streams
pub mod Sizes
pub mod Total
use tsedge.Common.{
  ℕ, zero, suc, ◌+◌, ◌-◌, ◌*◌, ◌/◌, ◌^◌, Bool, ◌||◌, List, [], ◌∷◌, ◌++◌, bit_and, bit_or, bit_xor,
  u8, u32, u64, ◌<<<◌, ◌>>>◌, ltb, leb, ◌==◌, if◌then◌else◌, length, take, drop, Result, ok, err,
  corrupt, no_memory, fail_if, ◌>>=◌, ◌>>◌,
}
use tsedge.Point.{Point, add64, sub64}
use tsedge.Bitstream.{
  write_u64_le, read_u64_le, zigzag_encode, zigzag_decode, varint_size, write_varint, read_varint,
}

-- `*out` and `*out_size`.
pub record Stream : Type 0 where
  pub bytes : List ℕ
  pub size : ℕ

-- The first loop of `tsedge_compress_timestamps`: `prev` is `points[i - 1].timestamp`.
pub timestamps_size_loop : ℕ → ℕ → List Point → ℕ → ℕ
timestamps_size_loop prev prev_delta [] size = size
timestamps_size_loop prev prev_delta (p ∷ points) size =
    let delta = sub64 p.timestamp prev in
    let dod = sub64 delta prev_delta in
    timestamps_size_loop p.timestamp delta points (size + varint_size (zigzag_encode dod))

pub timestamps_size : Point → List Point → ℕ
timestamps_size p [] = 8
timestamps_size p (q ∷ points) =
    timestamps_size_loop q.timestamp (sub64 q.timestamp p.timestamp) points (8 + 8)

-- The second loop, which stores the varints.
pub timestamps_bytes_loop : ℕ → ℕ → List Point → List ℕ
timestamps_bytes_loop prev prev_delta [] = []
timestamps_bytes_loop prev prev_delta (p ∷ points) =
    let delta = sub64 p.timestamp prev in
    let dod = sub64 delta prev_delta in
    write_varint (zigzag_encode dod) ++ timestamps_bytes_loop p.timestamp delta points

-- What is stored under `if (count >= 2)`.
pub timestamps_bytes_rest : Point → List Point → List ℕ
timestamps_bytes_rest p [] = []
timestamps_bytes_rest p (q ∷ points) =
    let prev_delta = sub64 q.timestamp p.timestamp in
    write_u64_le prev_delta ++ timestamps_bytes_loop q.timestamp prev_delta points

pub timestamps_bytes : Point → List Point → List ℕ
timestamps_bytes p points = write_u64_le p.timestamp ++ timestamps_bytes_rest p points

unfoldable pub compress_timestamps : (ℕ → Bool) → List Point → Result Stream
unfolding timestamps_size_loop timestamps_size timestamps_bytes_loop timestamps_bytes_rest
    timestamps_bytes
compress_timestamps alloc [] = ok (record { bytes = []; size = 0 })
compress_timestamps alloc (p ∷ points) =
    let size = timestamps_size p points in
    if alloc size
    then ok (record { bytes = timestamps_bytes p points; size = size })
    else err no_memory

-- The loop of `tsedge_decompress_timestamps` with `left` rounds left; `prev` is `out[i - 1]`. The
-- result is what the rounds store into `out`, and the cursor.
pub decode_timestamps_loop : ℕ → List ℕ → ℕ → ℕ → Result (List ℕ × List ℕ)
decode_timestamps_loop zero cursor prev prev_delta = ok ([], cursor)
decode_timestamps_loop (suc left) cursor prev prev_delta = do
  (encoded, cursor') ← read_varint cursor
  let delta = add64 prev_delta (zigzag_decode encoded)
  let current = add64 prev delta
  (out, end) ← decode_timestamps_loop left cursor' current delta
  ok (current ∷ out, end)

-- From `if (count >= 2)` on.
pub decode_timestamps_rest : ℕ → ℕ → List ℕ → Result (List ℕ × List ℕ)
decode_timestamps_rest first zero cursor = ok ([], cursor)
decode_timestamps_rest first (suc left) cursor = do
  fail_if (ltb (length cursor) 8) corrupt
  let prev_delta = read_u64_le cursor
  let second = add64 first prev_delta
  (out, end) ← decode_timestamps_loop left (drop 8 cursor) second prev_delta
  ok (second ∷ out, end)

-- `data` holds `size` bytes.
unfoldable pub decompress_timestamps : List ℕ → ℕ → Result (List ℕ)
unfolding decode_timestamps_loop decode_timestamps_rest
decompress_timestamps bytes zero = ok []
decompress_timestamps bytes (suc left) = do
  fail_if (ltb (length bytes) 8) corrupt
  let first = read_u64_le bytes
  (out, end) ← decode_timestamps_rest first left (drop 8 bytes)
  if length end == 0 then ok (first ∷ out) else err corrupt

-- `for (shift = 56; shift >= 0; shift -= 8)` with `left` rounds left, so `shift` is 8 * (left - 1).
pub leading_zero_loop : ℕ → ℕ → ℕ → ℕ
leading_zero_loop zero value count = count
leading_zero_loop (suc left) value count =
    let rest = leading_zero_loop left value (count + 1) in
    if bit_and (value >>> (left * 8)) 0xff == 0 then rest else count

pub leading_zero_bytes : ℕ → ℕ
leading_zero_bytes value = leading_zero_loop 8 value 0

-- `for (shift = 0; shift <= 56; shift += 8)` with `left` rounds left; the shift is 8 * count.
pub trailing_zero_loop : ℕ → ℕ → ℕ → ℕ
trailing_zero_loop zero value count = count
trailing_zero_loop (suc left) value count =
    let rest = trailing_zero_loop left value (count + 1) in
    if bit_and (value >>> (count * 8)) 0xff == 0 then rest else count

pub trailing_zero_bytes : ℕ → ℕ
trailing_zero_bytes value = trailing_zero_loop 8 value 0

-- `8u - leading - trailing`.
pub significant_bytes : ℕ → ℕ
significant_bytes value = u32 (2 ^ 32 + 8 - leading_zero_bytes value - trailing_zero_bytes value)

pub value_size : ℕ → ℕ
value_size xor_value =
    let significant = significant_bytes xor_value in
    if xor_value == 0 then 1 else if ltb (significant + 3) 9 then significant + 3 else 9

pub values_size_loop : ℕ → List Point → ℕ → ℕ
values_size_loop prev [] size = size
values_size_loop prev (p ∷ points) size =
    values_size_loop p.value points (size + value_size (bit_xor prev p.value))

-- `for (j = 0; j < significant; ++j)` with `left` rounds left, at `byte_index`.
pub write_significant : ℕ → ℕ → ℕ → List ℕ
write_significant zero byte_index xor_value = []
write_significant (suc left) byte_index xor_value =
    u8 (bit_and (xor_value >>> ((7 - byte_index) * 8)) 0xff)
    ∷ write_significant left (byte_index + 1) xor_value

pub value_bytes : ℕ → List ℕ
value_bytes xor_value =
    let leading = leading_zero_bytes xor_value in
    let significant = significant_bytes xor_value in
    if xor_value == 0
    then 0 ∷ []
    else if ltb (significant + 3) 9
    then 1 ∷ u8 leading ∷ u8 significant ∷ write_significant significant leading xor_value
    else 2 ∷ write_u64_le xor_value

pub values_bytes_loop : ℕ → List Point → List ℕ
values_bytes_loop prev [] = []
values_bytes_loop prev (p ∷ points) =
    value_bytes (bit_xor prev p.value) ++ values_bytes_loop p.value points

unfoldable pub compress_values : (ℕ → Bool) → List Point → Result Stream
unfolding leading_zero_loop leading_zero_bytes trailing_zero_loop trailing_zero_bytes
    significant_bytes value_size values_size_loop write_significant value_bytes values_bytes_loop
compress_values alloc [] = ok (record { bytes = []; size = 0 })
compress_values alloc (p ∷ points) =
    let size = values_size_loop p.value points 8 in
    if alloc size
    then ok
        (record { bytes = write_u64_le p.value ++ values_bytes_loop p.value points; size = size })
    else err no_memory

-- The loop of marker 1 with `left` rounds left. The caller has checked that the bytes are there.
pub read_significant : ℕ → ℕ → List ℕ → ℕ → ℕ
read_significant zero byte_index cursor xor_value = xor_value
read_significant (suc left) byte_index [] xor_value = xor_value
read_significant (suc left) byte_index (byte ∷ cursor) xor_value =
    read_significant left (byte_index + 1) cursor
      (bit_or xor_value (u64 (byte <<< ((7 - byte_index) * 8))))

-- `leading` and `significant` are the next two bytes.
pub decode_significant : List ℕ → Result (ℕ × List ℕ)
decode_significant [] = err corrupt
decode_significant (leading ∷ []) = err corrupt
decode_significant (leading ∷ significant ∷ cursor) = do
  fail_if
      (leb 8 leading || (significant == 0 || (ltb 8 significant || ltb 8 (leading + significant))))
      corrupt
  fail_if (ltb (length cursor) significant) corrupt
  ok (read_significant significant leading cursor 0, drop significant cursor)

-- One round: `current` and the cursor.
pub decode_value : ℕ → List ℕ → Result (ℕ × List ℕ)
decode_value prev [] = err corrupt
decode_value prev (marker ∷ cursor) =
    if marker == 1
    then (do (xor_value, end) ← decode_significant cursor; ok (bit_xor prev xor_value, end))
    else if marker == 2
    then (do
      fail_if (ltb (length cursor) 8) corrupt
      ok (bit_xor prev (read_u64_le cursor), drop 8 cursor))
    else if marker == 0
    then ok (prev, cursor)
    else err corrupt

pub decode_values_loop : ℕ → List ℕ → ℕ → Result (List ℕ × List ℕ)
decode_values_loop zero cursor prev = ok ([], cursor)
decode_values_loop (suc left) cursor prev = do
  (current, cursor') ← decode_value prev cursor
  (out, end) ← decode_values_loop left cursor' current
  ok (current ∷ out, end)

unfoldable pub decompress_values : List ℕ → ℕ → Result (List ℕ)
unfolding read_significant decode_significant decode_value decode_values_loop
decompress_values bytes zero = ok []
decompress_values bytes (suc left) = do
  fail_if (ltb (length bytes) 8) corrupt
  let first = read_u64_le bytes
  (out, end) ← decode_values_loop left (drop 8 bytes) first
  if length end == 0 then ok (first ∷ out) else err corrupt
