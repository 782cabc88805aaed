-- ===== src/Block.antt =====
-- src/storage/block.c and block.h: the header and the payload of one compressed block.
-- A FILE open for reading is the list of the bytes from its cursor on: fread takes what is there,
-- and a seek past the end leaves nothing to read.
pub mod Header
pub mod Payload
use mathlib.Core.Bool.{not}
use tsedge.Common.{
  ℕ, ◌+◌, ◌-◌, ◌*◌, ◌^◌, ◌≤◌, ◌≡◌, Bool, ◌||◌, Option, none, some, List, [], ◌∷◌, ◌++◌, u32, IsU32,
  IsU64, ltb, ◌==◌, length, take, drop, Result, ok, err, corrupt, io, invalid_argument, no_memory,
  fail_if, ◌>>=◌, ◌>>◌,
}
use tsedge.Point.{lt64, sign_flip}
use tsedge.Bitstream.{write_u32_le, write_u64_le, read_u32_le, read_u64_le}

-- TSEDGE_BLOCK_MAX_POINTS at its default, and the constants that depend on it.
abbrev pub block_max_points : ℕ
block_max_points = 16384

abbrev pub block_max_payload_bytes : ℕ
block_max_payload_bytes = block_max_points * 32

abbrev pub block_header_size : ℕ
block_header_size = 72

abbrev pub block_compression_delta_xor : ℕ
block_compression_delta_xor = 1

abbrev block_magic : ℕ
block_magic = 0x4245_5354

abbrev block_version : ℕ
block_version = 2

-- `tsedge_block_header`.
pub record BlockHeader : Type 0 where
  pub point_count : ℕ
  pub min_timestamp : ℕ
  pub max_timestamp : ℕ
  pub timestamp_size : ℕ
  pub value_size : ℕ
  pub payload_size : ℕ
  pub compression_type : ℕ
  pub min_value : ℕ
  pub max_value : ℕ
  pub sum_value : ℕ

-- What `tsedge_block_write_header` stores into `buf`.
unfoldable pub header_bytes : BlockHeader → List ℕ
header_bytes h =
    write_u32_le block_magic
    ++ (write_u32_le block_version
        ++ (write_u32_le h.point_count
            ++ (write_u32_le h.compression_type
                ++ (write_u64_le h.min_timestamp
                    ++ (write_u64_le h.max_timestamp
                        ++ (write_u32_le h.timestamp_size
                            ++ (write_u32_le h.value_size
                                ++ (write_u32_le h.payload_size
                                    ++ (write_u64_le h.min_value
                                        ++ (write_u64_le h.max_value
                                            ++ (write_u64_le h.sum_value
                                                ++ write_u32_le 0)))))))))))

-- The bytes that `tsedge_block_write_header` hands to fwrite.
unfoldable pub write_header : BlockHeader → Result (List ℕ)
unfolding header_bytes
write_header h = do fail_if (h.point_count == 0) invalid_argument; ok (header_bytes h)

unfoldable pub validate_payload_sizes : BlockHeader → Result (Unit {0})
validate_payload_sizes h =
    let expected_payload_size = h.timestamp_size + h.value_size in
    fail_if
      (h.timestamp_size == 0
        || (h.value_size == 0
            || (ltb (2 ^ 32 - 1) expected_payload_size
                || (not (h.payload_size == u32 expected_payload_size)
                    || (ltb block_max_payload_bytes h.payload_size
                        || (ltb block_max_payload_bytes h.timestamp_size
                            || ltb block_max_payload_bytes h.value_size))))))
      corrupt

-- The fields, as `tsedge_block_read_header` takes them from `buf`.
unfoldable pub header_fields : List ℕ → BlockHeader
header_fields buf = record {
  point_count = read_u32_le (drop 8 buf);
  min_timestamp = read_u64_le (drop 16 buf);
  max_timestamp = read_u64_le (drop 24 buf);
  timestamp_size = read_u32_le (drop 32 buf);
  value_size = read_u32_le (drop 36 buf);
  payload_size = read_u32_le (drop 40 buf);
  compression_type = read_u32_le (drop 12 buf);
  min_value = read_u64_le (drop 44 buf);
  max_value = read_u64_le (drop 52 buf);
  sum_value = read_u64_le (drop 60 buf);
}

-- The checks of `tsedge_block_read_header` on a full buffer.
unfoldable pub parse_header : List ℕ → Result BlockHeader
parse_header buf = do
  let magic = read_u32_le buf
  let version = read_u32_le (drop 4 buf)
  fail_if (not (magic == block_magic) || not (version == block_version)) corrupt
  let h = header_fields buf
  let reserved = read_u32_le (drop 68 buf)
  fail_if
      (h.point_count == 0
        || (ltb block_max_points h.point_count
            || (lt64 h.max_timestamp h.min_timestamp
                || (not (h.compression_type == block_compression_delta_xor)
                    || not (reserved == 0)))))
      corrupt
  validate_payload_sizes h
  ok h

-- `tsedge_block_read_header`: `none` is `*eof = true`; else the header and the cursor behind it.
unfoldable pub read_header : List ℕ → Result (Option (BlockHeader × List ℕ))
read_header [] = ok none
read_header (b ∷ rest) = do
  let buf = b ∷ rest
  fail_if (ltb (length buf) block_header_size) corrupt
  h ← parse_header buf
  ok (some (h, drop block_header_size buf))

-- The bytes that `tsedge_block_write_payload` hands to fwrite, in two calls.
unfoldable pub write_payload : List ℕ → List ℕ → List ℕ
write_payload timestamp_data value_data = timestamp_data ++ value_data

-- `read_exact`: the bytes, and the cursor behind them.
unfoldable pub read_exact : List ℕ → ℕ → Result (List ℕ × List ℕ)
read_exact cursor size = do
  fail_if (ltb (length cursor) size) io
  ok (take size cursor, drop size cursor)

-- `tsedge_block_read_payload` behind its allocations: both streams, and the cursor behind them.
unfoldable pub read_payload : (ℕ → Bool) → List ℕ → BlockHeader → Result (List ℕ × List ℕ × List ℕ)
unfolding read_exact
read_payload alloc cursor h = do
  validate_payload_sizes h
  fail_if (not (alloc h.timestamp_size) || not (alloc h.value_size)) no_memory
  (timestamp_data, cursor') ← read_exact cursor h.timestamp_size
  (value_data, end) ← read_exact cursor' h.value_size
  ok (timestamp_data, value_data, end)

-- `tsedge_block_skip_payload`. The test on LONG_MAX is compiled only where long has 32 bits.
unfoldable pub skip_payload : List ℕ → BlockHeader → Result (List ℕ)
skip_payload cursor h = do validate_payload_sizes h; ok (drop h.payload_size cursor)

-- The headers that the reader accepts.
pub record IsHeader (h : BlockHeader) : Type 0 where
  pub points : 1 ≤ h.point_count
  pub points_fit : h.point_count ≤ block_max_points
  pub min_fits : IsU64 h.min_timestamp
  pub max_fits : IsU64 h.max_timestamp
  pub ordered : sign_flip h.min_timestamp ≤ sign_flip h.max_timestamp
  pub compression : h.compression_type ≡ block_compression_delta_xor
  pub timestamps : 1 ≤ h.timestamp_size
  pub values : 1 ≤ h.value_size
  pub payload : h.payload_size ≡ h.timestamp_size + h.value_size
  pub payload_fits : h.payload_size ≤ block_max_payload_bytes
  pub min_value_fits : IsU64 h.min_value
  pub max_value_fits : IsU64 h.max_value
  pub sum_value_fits : IsU64 h.sum_value
