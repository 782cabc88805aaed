-- ===== src/Compress/Sizes.antt =====
-- How large the streams are, and that only an allocation can fail.
use tsedge.Common.{
  ℕ, suc, ◌+◌, ◌*◌, ◌≤◌, ◌≡◌, refl, Bool, true, List, [], ◌∷◌, ◌++◌, arith, length, IsU64, bit_xor,
  ok,
}
use tsedge.Point.{Point, sub64, sub64-IsU64}
use tsedge.Bitstream.{write_u64_le, zigzag_encode, varint_size}
use tsedge.Bitstream.Zigzag.{zigzag_encode-IsU64}
use tsedge.Bitstream.Varint.{varint_size-length, write_varint_shape}
use tsedge.Compress.{
  Stream, timestamps_size_loop, timestamps_size, timestamps_bytes, values_bytes_loop,
  compress_timestamps, value_size, values_size_loop, compress_values,
}

varint_size_bound : (v : ℕ) → IsU64 v → varint_size v ≤ 10
varint_size_bound v h = omega (arith, varint_size-length v, write_varint_shape v h)

timestamps_size_loop_bounds :
    (prev prev_delta : ℕ) (points : List Point) (size : ℕ)
    → (size ≤ timestamps_size_loop prev prev_delta points size)
      × (timestamps_size_loop prev prev_delta points size ≤ size + 10 * length points)
unfolding timestamps_size_loop
timestamps_size_loop_bounds prev prev_delta [] size = omega arith
timestamps_size_loop_bounds prev prev_delta (p ∷ points) size =
    let delta = sub64 p.timestamp prev in
    let word = zigzag_encode (sub64 delta prev_delta) in
    omega (
      arith,
      timestamps_size_loop_bounds p.timestamp delta points (size + varint_size word),
      varint_size_bound word (zigzag_encode-IsU64 _ (sub64-IsU64 delta prev_delta)),
    )

timestamps_size_bounds :
    (p : Point) (points : List Point)
    → (8 ≤ timestamps_size p points) × (timestamps_size p points ≤ 10 * suc (length points))
unfolding timestamps_size
timestamps_size_bounds p [] = omega arith
timestamps_size_bounds p (q ∷ points) =
    omega (arith, timestamps_size_loop_bounds q.timestamp (sub64 q.timestamp p.timestamp) points 16)

value_size_bounds : (word : ℕ) → value_size word ≤ 9
unfolding value_size
value_size_bounds word = ground arith

values_size_loop_bounds :
    (prev : ℕ) (points : List Point) (size : ℕ)
    → (size ≤ values_size_loop prev points size)
      × (values_size_loop prev points size ≤ size + 9 * length points)
unfolding values_size_loop
values_size_loop_bounds prev [] size = omega arith
values_size_loop_bounds prev (p ∷ points) size =
    let word = bit_xor prev p.value in
    omega (
      arith,
      value_size_bounds word,
      values_size_loop_bounds p.value points (size + value_size word),
    )

-- If malloc gives up to 10 bytes a point, `tsedge_compress_timestamps` succeeds, with at most 10
-- bytes a point and, for one point or more, at least 8.
pub compress_timestamps_total :
    (alloc : ℕ → Bool) (points : List Point)
    → ((k : ℕ) → k ≤ 10 * length points → alloc k ≡ true)
    → (s : Stream) × (compress_timestamps alloc points ≡ ok s)
      × (s.size ≤ 10 * length points)
      × (1 ≤ length points → 8 ≤ s.size)
unfolding compress_timestamps
compress_timestamps_total alloc [] given =
    (record { bytes = []; size = 0 }, refl, omega arith, λ h. absurd (omega arith))
compress_timestamps_total alloc (p ∷ points) given =
    let (low, high) = timestamps_size_bounds p points in
    (
      record { bytes = timestamps_bytes p points; size = timestamps_size p points },
      rw (given _ high),
      high,
      λ h. low,
    )

-- If malloc gives up to 9 bytes a point, `tsedge_compress_values` succeeds, with at most 9 bytes a
-- point and, for one point or more, at least 8.
pub compress_values_total :
    (alloc : ℕ → Bool) (points : List Point)
    → ((k : ℕ) → k ≤ 9 * length points → alloc k ≡ true)
    → (s : Stream) × (compress_values alloc points ≡ ok s)
      × (s.size ≤ 9 * length points)
      × (1 ≤ length points → 8 ≤ s.size)
unfolding compress_values
compress_values_total alloc [] given =
    (record { bytes = []; size = 0 }, refl, omega arith, λ h. absurd (omega arith))
compress_values_total alloc (p ∷ points) given =
    let (low, high) = values_size_loop_bounds p.value points 8 in
    let fits : values_size_loop p.value points 8 ≤ 9 * suc (length points) = omega (arith, high) in
    let filled : Stream = record {
      bytes = write_u64_le p.value ++ values_bytes_loop p.value points;
      size = values_size_loop p.value points 8;
    } in
    (filled, rw (given _ fits), fits, λ h. low)
