-- ===== src/Compress/Total.antt =====
-- The decoders of src/compression/compress.c on any bytes.
use tsedge.Common.{
  ℕ, zero, suc, ◌+◌, ◌≡◌, refl, List, [], ◌∷◌, inl, inr, arith, length, drop, All, IsU64, Result,
  ok, err, corrupt, Result-cases,
}
use tsedge.Common.Bits.{xor-lt, or-lt}
use tsedge.Point.{add64}
use tsedge.Bitstream.{read_u64_le, read_varint, zigzag_decode}
use tsedge.Bitstream.LittleEndian.{read_u64_le-IsU64}
use tsedge.Bitstream.Cursor.{read_varint_error}
use tsedge.Compress.Streams.{
  TimestampsStream, ValuesStream, decompress_timestamps-TimestampsStream,
  decompress_values-ValuesStream,
}
use tsedge.Compress.{
  decode_timestamps_loop, decode_timestamps_rest, decompress_timestamps, read_significant,
  decode_significant, decode_value, decode_values_loop, decompress_values,
}

-- What a decoder for `count` words may return: that many words of 64 bits whose stream the bytes
-- are, or TSEDGE_ERR_CORRUPT.
abbrev pub Decodes : ℕ → (List ℕ → Type 0) → Result (List ℕ) → Type 0
Decodes count IsStreamOf (ok out) = (length out ≡ count) × All IsU64 out × IsStreamOf out
Decodes count IsStreamOf (err e) = e ≡ corrupt

-- The words alone.
abbrev Words : ℕ → Result (List ℕ) → Type 0
Words count (ok out) = (length out ≡ count) × All IsU64 out
Words count (err e) = e ≡ corrupt

with_stream-Decodes :
    (count : ℕ) (IsStreamOf : List ℕ → Type 0) (decoded : Result (List ℕ))
    → Words count decoded
    → ((out : List ℕ) → decoded ≡ ok out → IsStreamOf out)
    → Decodes count IsStreamOf decoded
with_stream-Decodes count IsStreamOf (ok out) (many, fit) stream = (many, fit, stream out refl)
with_stream-Decodes count IsStreamOf (err e) corrupted stream = corrupted

-- The same of a loop, which also returns the cursor.
abbrev DecodesTo : ℕ → Result (List ℕ × List ℕ) → Type 0
DecodesTo count (ok (out, end)) = (length out ≡ count) × All IsU64 out
DecodesTo count (err e) = e ≡ corrupt

decode_timestamps_loop-DecodesTo :
    (left : ℕ) (cursor : List ℕ) (prev prev_delta : ℕ)
    → DecodesTo left (decode_timestamps_loop left cursor prev prev_delta)
unfolding decode_timestamps_loop
decode_timestamps_loop-DecodesTo zero cursor prev prev_delta = (refl, tt)
decode_timestamps_loop-DecodesTo (suc left) cursor prev prev_delta =
    elim (Result-cases (read_varint cursor)) [
      | inl ((encoded, cursor'), e) ↦
          let delta = add64 prev_delta (zigzag_decode encoded) in
          rw e
            (ground (arith, decode_timestamps_loop-DecodesTo left cursor' (add64 prev delta) delta))
      | inr (x, e) ↦ rw e (read_varint_error cursor x e)
    ]

decode_timestamps_rest-DecodesTo :
    (first left : ℕ) (cursor : List ℕ) → DecodesTo left (decode_timestamps_rest first left cursor)
unfolding decode_timestamps_rest
decode_timestamps_rest-DecodesTo first zero cursor = (refl, tt)
decode_timestamps_rest-DecodesTo first (suc left) cursor =
    let delta = read_u64_le cursor in
    ground (arith, decode_timestamps_loop-DecodesTo left (drop 8 cursor) (add64 first delta) delta)

decompress_timestamps-Words :
    (bytes : List ℕ) (count : ℕ) → Words count (decompress_timestamps bytes count)
unfolding decompress_timestamps
decompress_timestamps-Words bytes zero = (refl, tt)
decompress_timestamps-Words bytes (suc left) = ground (
  arith,
  read_u64_le-IsU64 bytes,
  decode_timestamps_rest-DecodesTo (read_u64_le bytes) left (drop 8 bytes),
)

-- On any bytes `tsedge_decompress_timestamps` answers TSEDGE_ERR_CORRUPT, or it stores exactly `count`
-- words of 64 bits, and if these are not none then the bytes are a stream of them: 8 bytes for the
-- first timestamp, if there is a second one 8 bytes for the first delta, for every later one a
-- complete varint that says how much the delta changes, and no byte more.
pub decompress_timestamps-Decodes :
    (bytes : List ℕ) (count : ℕ)
    → Decodes count (TimestampsStream bytes) (decompress_timestamps bytes count)
decompress_timestamps-Decodes bytes count =
    with_stream-Decodes count (TimestampsStream bytes) (decompress_timestamps bytes count)
      (decompress_timestamps-Words bytes count) (decompress_timestamps-TimestampsStream bytes count)

read_significant-lt :
    (left byte_index : ℕ) (cursor : List ℕ) (word : ℕ)
    → IsU64 word
    → IsU64 (read_significant left byte_index cursor word)
unfolding read_significant
read_significant-lt zero byte_index cursor word h = h
read_significant-lt (suc left) byte_index [] word h = h
read_significant-lt (suc left) byte_index (b ∷ cursor) word h =
    read_significant-lt left (byte_index + 1) cursor _ (or-lt 64 word _ h (omega arith))

-- What a round may return.
abbrev DecodesOne : Result (ℕ × List ℕ) → Type 0
DecodesOne (ok (current, end)) = IsU64 current
DecodesOne (err e) = e ≡ corrupt

decode_significant-DecodesOne : (cursor : List ℕ) → DecodesOne (decode_significant cursor)
unfolding decode_significant
decode_significant-DecodesOne [] = refl
decode_significant-DecodesOne (leading ∷ []) = refl
decode_significant-DecodesOne (leading ∷ significant ∷ cursor) =
    ground (arith, read_significant-lt significant leading cursor 0)

decode_value-DecodesOne :
    (prev : ℕ) (cursor : List ℕ) → IsU64 prev → DecodesOne (decode_value prev cursor)
unfolding decode_value
decode_value-DecodesOne prev [] h = refl
decode_value-DecodesOne prev (marker ∷ cursor) h = elim (Result-cases (decode_significant cursor)) [
  | inl ((word, end), e) ↦ ground (
    arith,
    rw e at (decode_significant-DecodesOne cursor),
    xor-lt 64 prev word,
    xor-lt 64 prev (read_u64_le cursor),
    read_u64_le-IsU64 cursor,
  )
  | inr (x, e) ↦ ground (
    arith,
    rw e at (decode_significant-DecodesOne cursor),
    xor-lt 64 prev (read_u64_le cursor),
    read_u64_le-IsU64 cursor,
  )
]

decode_values_loop-DecodesTo :
    (left : ℕ) (cursor : List ℕ) (prev : ℕ)
    → IsU64 prev
    → DecodesTo left (decode_values_loop left cursor prev)
unfolding decode_values_loop
decode_values_loop-DecodesTo zero cursor prev h = (refl, tt)
decode_values_loop-DecodesTo (suc left) cursor prev h =
    elim (Result-cases (decode_value prev cursor)) [
      | inl ((current, cursor'), e) ↦
          let fits : IsU64 current = rw e at (decode_value-DecodesOne prev cursor h) in
          rw e (ground (arith, decode_values_loop-DecodesTo left cursor' current fits))
      | inr (x, e) ↦
          let corrupted : x ≡ corrupt = rw e at (decode_value-DecodesOne prev cursor h) in
          rw e corrupted
    ]

decompress_values-Words : (bytes : List ℕ) (count : ℕ) → Words count (decompress_values bytes count)
unfolding decompress_values
decompress_values-Words bytes zero = (refl, tt)
decompress_values-Words bytes (suc left) = ground (
  arith,
  decode_values_loop-DecodesTo left (drop 8 bytes) (read_u64_le bytes) (read_u64_le-IsU64 bytes),
  read_u64_le-IsU64 bytes,
)

-- On any bytes `tsedge_decompress_values` answers TSEDGE_ERR_CORRUPT, or it stores exactly `count`
-- words of 64 bits, and if these are not none then the bytes are a stream of them: 8 bytes for the
-- first value, for every later one a marker with what it announces, all of it in front of the end
-- and a run of significant bytes inside the 8 of a word, and no byte more.
pub decompress_values-Decodes :
    (bytes : List ℕ) (count : ℕ)
    → Decodes count (ValuesStream bytes) (decompress_values bytes count)
decompress_values-Decodes bytes count =
    with_stream-Decodes count (ValuesStream bytes) (decompress_values bytes count)
      (decompress_values-Words bytes count) (decompress_values-ValuesStream bytes count)
