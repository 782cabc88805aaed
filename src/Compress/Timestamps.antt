-- ===== src/Compress/Timestamps.antt =====
-- The timestamp stream: what `tsedge_compress_timestamps` stores, `tsedge_decompress_timestamps`
-- reads back.
use tsedge.Common.{
  ℕ, suc, ◌+◌, ◌≡◌, refl, Bool, List, [], ◌∷◌, ◌++◌, map, append-nil, append_assoc, arith, length,
  length-append, All, IsU64, ok,
}
use tsedge.Point.{Point, IsPoint, sub64, add64-sub64}
use tsedge.Bitstream.{write_u64_le, zigzag_encode, varint_size, write_varint}
use tsedge.Bitstream.LittleEndian.{
  read-write_u64_le, write_u64_le_present, drop-write_u64_le, length-write_u64_le,
}
use tsedge.Bitstream.Zigzag.{zigzag_decode-encode, zigzag_encode-IsU64}
use tsedge.Bitstream.Varint.{read-write_varint, varint_size-length}
use tsedge.Compress.{
  Stream, timestamps_size_loop, timestamps_size, timestamps_bytes_loop, timestamps_bytes_rest,
  timestamps_bytes, compress_timestamps, decode_timestamps_loop, decode_timestamps_rest,
  decompress_timestamps,
}

-- The size loop counts the bytes that the second loop stores.
timestamps_size_loop-length :
    (prev prev_delta : ℕ) (points : List Point) (size : ℕ)
    → timestamps_size_loop prev prev_delta points size
      ≡ size + length (timestamps_bytes_loop prev prev_delta points)
unfolding timestamps_size_loop timestamps_bytes_loop
timestamps_size_loop-length prev prev_delta [] size = omega arith
timestamps_size_loop-length prev prev_delta (p ∷ points) size =
    let delta = sub64 p.timestamp prev in
    let word = zigzag_encode (sub64 delta prev_delta) in
    rw (length-append (write_varint word) (timestamps_bytes_loop p.timestamp delta points)) (
      omega (
        arith,
        timestamps_size_loop-length p.timestamp delta points (size + varint_size word),
        varint_size-length word,
      ))

pub timestamps_size-length :
    (p : Point) (points : List Point)
    → timestamps_size p points ≡ length (timestamps_bytes p points)
unfolding timestamps_size timestamps_bytes timestamps_bytes_rest
timestamps_size-length p [] =
    omega (arith, length-append (write_u64_le p.timestamp) [], length-write_u64_le p.timestamp)
timestamps_size-length p (q ∷ points) =
    let delta = sub64 q.timestamp p.timestamp in
    let varints = timestamps_bytes_loop q.timestamp delta points in
    omega (
      arith,
      length-append (write_u64_le p.timestamp) (write_u64_le delta ++ varints),
      length-append (write_u64_le delta) varints,
      length-write_u64_le p.timestamp,
      length-write_u64_le delta,
      timestamps_size_loop-length q.timestamp delta points 16,
    )

unfoldable pub timestamps : List Point → List ℕ
timestamps points = map (λ p. p.timestamp) points

-- The decoder's loop, started behind the point that the encoder's loop started behind.
decode_timestamps_loop-bytes :
    (points : List Point) (prev prev_delta : ℕ) (rest : List ℕ)
    → All IsPoint points
    → IsU64 prev
    → IsU64 prev_delta
    → decode_timestamps_loop
        (length points)
        (timestamps_bytes_loop prev prev_delta points ++ rest)
        prev
        prev_delta
      ≡ ok (timestamps points, rest)
unfolding decode_timestamps_loop timestamps_bytes_loop timestamps
decode_timestamps_loop-bytes [] prev prev_delta rest h hp hd = refl
decode_timestamps_loop-bytes (p ∷ points) prev prev_delta rest h hp hd =
    let delta = sub64 p.timestamp prev in
    let dod = sub64 delta prev_delta in
    let more = timestamps_bytes_loop p.timestamp delta points in
    let fits : IsU64 dod = omega arith in
    let delta_fits : IsU64 delta = omega arith in
    rw (
      append_assoc (write_varint (zigzag_encode dod)) more rest,
      read-write_varint (zigzag_encode dod) (more ++ rest) (zigzag_encode-IsU64 dod fits),
      zigzag_decode-encode dod fits,
      add64-sub64 delta prev_delta delta_fits hd,
      add64-sub64 p.timestamp prev h.0.timestamp_fits hp,
      decode_timestamps_loop-bytes points p.timestamp delta rest h.1 h.0.timestamp_fits delta_fits,
    )

decode_timestamps_rest-bytes :
    (p : Point) (points : List Point)
    → All IsPoint (p ∷ points)
    → decode_timestamps_rest p.timestamp (length points) (timestamps_bytes_rest p points)
      ≡ ok (timestamps points, [])
unfolding decode_timestamps_rest timestamps_bytes_rest timestamps
decode_timestamps_rest-bytes p [] h = refl
decode_timestamps_rest-bytes p (q ∷ points) (hp, (hq, hs)) =
    let delta = sub64 q.timestamp p.timestamp in
    let more = timestamps_bytes_loop q.timestamp delta points in
    let fits : IsU64 delta = omega arith in
    rw (
      write_u64_le_present delta more,
      read-write_u64_le delta more fits,
      drop-write_u64_le delta more,
      add64-sub64 q.timestamp p.timestamp hq.timestamp_fits hp.timestamp_fits,
      ← append-nil more,
      decode_timestamps_loop-bytes points q.timestamp delta [] hs hq.timestamp_fits fits,
    )

-- The whole stream.
decompress-timestamps_bytes :
    (p : Point) (points : List Point)
    → All IsPoint (p ∷ points)
    → decompress_timestamps (timestamps_bytes p points) (suc (length points))
      ≡ ok (timestamps (p ∷ points))
unfolding decompress_timestamps timestamps_bytes timestamps
decompress-timestamps_bytes p points h =
    let more = timestamps_bytes_rest p points in
    rw (
      write_u64_le_present p.timestamp more,
      read-write_u64_le p.timestamp more h.0.timestamp_fits,
      drop-write_u64_le p.timestamp more,
      decode_timestamps_rest-bytes p points h,
    )

-- Where `tsedge_compress_timestamps` succeeds, the two loops agree: the stores fill the allocated
-- buffer exactly, and `tsedge_decompress_timestamps` on that buffer and the number of points gives
-- back every timestamp.
pub decompress-compress_timestamps :
    (alloc : ℕ → Bool) (points : List Point) {s : Stream}
    → All IsPoint points
    → compress_timestamps alloc points ≡ ok s
    → (length s.bytes ≡ s.size)
      × (decompress_timestamps s.bytes (length points) ≡ ok (timestamps points))
unfolding compress_timestamps
decompress-compress_timestamps alloc [] h e =
    unfold decompress_timestamps timestamps in ground arith
decompress-compress_timestamps alloc (p ∷ points) h e =
    ground (arith, timestamps_size-length p points, decompress-timestamps_bytes p points h)
