-- ===== src/Tests/Codec.antt =====
-- src/compression on concrete words, bytes and points.
use tsedge.Common.{
  ℕ, ◌+◌, ◌*◌, ◌≤◌, ◌<◌, ◌≡◌, refl, true, List, [], ◌∷◌, ◌++◌, arith, length, drop, All, IsU64, ok,
  err, corrupt,
}
use tsedge.Point.{Point, IsPoint}
use tsedge.Bitstream.{
  zigzag_decode, read_u64_le, write_u64_le, zigzag_encode, varint_size, write_varint, read_varint,
}
use tsedge.Bitstream.Varint.{read-write_varint}
use tsedge.Bitstream.Cursor.{read_varint_takes, read_varint_cut}
use tsedge.Compress.{
  Stream, compress_timestamps, compress_values, decompress_timestamps, decompress_values,
}
use tsedge.Compress.Timestamps.{timestamps, decompress-compress_timestamps}
use tsedge.Compress.Values.{values, decompress-compress_values}
use tsedge.Compress.Streams.{TimestampsStream, ValuesStream, all_bytes}
use tsedge.Compress.Streams.Accepted.{decompress_streams}
use tsedge.Compress.Total.{Decodes, decompress_timestamps-Decodes, decompress_values-Decodes}
use tsedge.Compress.Sizes.{compress_timestamps_total, compress_values_total}

-- Two bytes: 0xac, 0x02.
read-write_varint_example : read_varint (write_varint 300 ++ (9 ∷ [])) ≡ ok (300, 9 ∷ [])
read-write_varint_example = read-write_varint 300 (9 ∷ []) (omega arith)

read_varint_takes_example :
    IsU64 300
    × (length {A = ℕ} (9 ∷ []) < length {A = ℕ} (0xac ∷ 0x02 ∷ 9 ∷ []))
    × (length {A = ℕ} (0xac ∷ 0x02 ∷ 9 ∷ []) ≤ length {A = ℕ} (9 ∷ []) + 10)
unfolding read_varint
read_varint_takes_example = read_varint_takes (0xac ∷ 0x02 ∷ 9 ∷ []) 300 (9 ∷ []) refl

write_300 : write_varint 300 ≡ (0xac ∷ []) ++ (0x02 ∷ [])
unfolding write_varint
write_300 = refl

read_varint_cut_example : read_varint (0xac ∷ []) ≡ err corrupt
read_varint_cut_example = read_varint_cut 300 0x02 (0xac ∷ []) [] (omega arith) write_300

-- 1.0, 1.0 and 2.0, at times that are not evenly spaced.
abbrev three_points : List Point
three_points =
    record { timestamp = 1000; value = 0x3ff0_0000_0000_0000 }
    ∷ record { timestamp = 2000; value = 0x3ff0_0000_0000_0000 }
    ∷ record { timestamp = 2990; value = 0x4000_0000_0000_0000 }
    ∷ []

three_points-IsPoint : All IsPoint three_points
three_points-IsPoint = ground arith

-- Two words and a delta of -10 in one byte.
abbrev timestamp_bytes : List ℕ
timestamp_bytes =
    0xe8 ∷ 0x03 ∷ 0 ∷ 0 ∷ 0 ∷ 0 ∷ 0 ∷ 0 ∷ 0xe8 ∷ 0x03 ∷ 0 ∷ 0 ∷ 0 ∷ 0 ∷ 0 ∷ 0 ∷ 0x13 ∷ []

compress_three_timestamps :
    compress_timestamps (λ k. true) three_points
    ≡ ok (record { bytes = timestamp_bytes; size = 17 })
unfolding compress_timestamps write_u64_le varint_size write_varint zigzag_encode
compress_three_timestamps = refl

decompress-compress_timestamps_example :
    (length timestamp_bytes ≡ 17)
    × (decompress_timestamps timestamp_bytes 3 ≡ ok (timestamps three_points))
decompress-compress_timestamps_example =
    decompress-compress_timestamps (λ k. true) three_points three_points-IsPoint
      compress_three_timestamps

-- A word, one byte for the same value, and 0x7ff0 behind no leading zero byte.
abbrev value_bytes : List ℕ
value_bytes = 0 ∷ 0 ∷ 0 ∷ 0 ∷ 0 ∷ 0 ∷ 0xf0 ∷ 0x3f ∷ 0 ∷ 1 ∷ 0 ∷ 2 ∷ 0x7f ∷ 0xf0 ∷ []

compress_three_values :
    compress_values (λ k. true) three_points ≡ ok (record { bytes = value_bytes; size = 14 })
unfolding compress_values write_u64_le
compress_three_values = refl

decompress-compress_values_example :
    (length value_bytes ≡ 14) × (decompress_values value_bytes 3 ≡ ok (values three_points))
decompress-compress_values_example =
    decompress-compress_values (λ k. true) three_points three_points-IsPoint compress_three_values

compress_timestamps_total_example :
    (s : Stream) × (compress_timestamps (λ k. true) three_points ≡ ok s)
    × (s.size ≤ 10 * length three_points)
    × (1 ≤ length three_points → 8 ≤ s.size)
compress_timestamps_total_example =
    compress_timestamps_total (λ k. true) three_points (λ k hk. refl)

compress_values_total_example :
    (s : Stream) × (compress_values (λ k. true) three_points ≡ ok s)
    × (s.size ≤ 9 * length three_points)
    × (1 ≤ length three_points → 8 ≤ s.size)
compress_values_total_example = compress_values_total (λ k. true) three_points (λ k hk. refl)

decompress_timestamps-Decodes_example :
    Decodes 3 (TimestampsStream timestamp_bytes) (decompress_timestamps timestamp_bytes 3)
decompress_timestamps-Decodes_example = decompress_timestamps-Decodes timestamp_bytes 3

decompress_values-Decodes_example :
    Decodes 3 (ValuesStream value_bytes) (decompress_values value_bytes 3)
decompress_values-Decodes_example = decompress_values-Decodes value_bytes 3

-- A word, and a word of 8 bytes for a difference of one bit, which the encoder writes as one byte.
abbrev long_value_bytes : List ℕ
long_value_bytes = 5 ∷ 0 ∷ 0 ∷ 0 ∷ 0 ∷ 0 ∷ 0 ∷ 0 ∷ 2 ∷ 1 ∷ 0 ∷ 0 ∷ 0 ∷ 0 ∷ 0 ∷ 0 ∷ 0 ∷ []

timestamp_bytes-TimestampsStream : TimestampsStream timestamp_bytes (1000 ∷ 2000 ∷ 2990 ∷ [])
unfolding read_u64_le read_varint zigzag_decode
timestamp_bytes-TimestampsStream =
    (omega arith, refl, (omega arith, refl, (0x13, [], refl, refl, refl)))

long_value_bytes-ValuesStream : ValuesStream long_value_bytes (5 ∷ 4 ∷ [])
unfolding read_u64_le
long_value_bytes-ValuesStream = (
  omega arith,
  refl,
  ([], all_bytes (drop 9 long_value_bytes) refl (omega arith) refl refl, refl),
)

decompress_streams_example :
    (decompress_timestamps timestamp_bytes 3 ≡ ok (1000 ∷ 2000 ∷ 2990 ∷ []))
    × (decompress_values long_value_bytes 2 ≡ ok (5 ∷ 4 ∷ []))
decompress_streams_example =
    decompress_streams timestamp_bytes (1000 ∷ 2000 ∷ 2990 ∷ []) long_value_bytes (5 ∷ 4 ∷ [])
      timestamp_bytes-TimestampsStream long_value_bytes-ValuesStream
