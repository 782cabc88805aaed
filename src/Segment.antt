-- ===== src/Segment.antt =====
-- src/storage/segment_writer.c, segment_reader.c and segment.h: a segment file is a sequence of
-- blocks. A file is the list of its bytes, and `none` where there is no file (ENOENT).
pub mod Stored
pub mod Append
pub mod TimeBounds
pub mod Layout
pub mod Files
pub mod Scan
pub mod Reader
use mathlib.Core.Bool.{not}
use tsedge.Common.{
  ℕ, zero, suc, ◌+◌, ◌*◌, ◌-◌, ◌^◌, Bool, true, false, ◌&&◌, ◌||◌, Option, none, some, List, [],
  ◌∷◌, ◌++◌, u32, ltb, ◌==◌, if◌then◌else◌, length, take, drop, Result, ok, err, corrupt, io,
  internal, invalid_argument, no_memory, fail_if, ◌>>=◌, ◌>>◌,
}
use tsedge.Point.{Point, lt64, le64}
use tsedge.Double.{Doubles}
use tsedge.Compress.{
  Stream, compress_timestamps, compress_values, decompress_timestamps, decompress_values,
}
use tsedge.Block.{
  BlockHeader, block_header_size, block_compression_delta_xor, write_header, write_payload,
  read_header, read_payload, skip_payload,
}

-- Which of the calls on one FILE succeed. If a write or the close fails, `persisted` is how many of
-- the bytes that were handed over are in the file.
pub record Stdio : Type 0 where
  pub opens : Bool
  pub seeks : Bool
  pub tells : Bool
  pub writes : Bool
  pub closes : Bool
  pub persisted : ℕ

-- `tsedge_block_index_entry`.
pub record IndexEntry : Type 0 where
  pub segment_id : ℕ
  pub offset : ℕ
  pub min_timestamp : ℕ
  pub max_timestamp : ℕ
  pub point_count : ℕ
  pub payload_size : ℕ

unfoldable pub fill_index_entry : ℕ → ℕ → BlockHeader → IndexEntry
fill_index_entry segment_id offset h = record {
  segment_id = segment_id;
  offset = offset;
  min_timestamp = h.min_timestamp;
  max_timestamp = h.max_timestamp;
  point_count = h.point_count;
  payload_size = h.payload_size;
}

-- The variables of the loop of `make_header`.
pub record Bounds : Type 0 where
  pub min_ts : ℕ
  pub max_ts : ℕ
  pub min_value : ℕ
  pub max_value : ℕ
  pub sum_value : ℕ

module _ (d : Doubles) where
  unfoldable pub bounds_step : Bounds → Point → Bounds
  bounds_step b p = record {
    min_ts = if lt64 p.timestamp b.min_ts then p.timestamp else b.min_ts;
    max_ts = if lt64 b.max_ts p.timestamp then p.timestamp else b.max_ts;
    min_value = if d.lt p.value b.min_value then p.value else b.min_value;
    max_value = if d.lt b.max_value p.value then p.value else b.max_value;
    sum_value = d.add b.sum_value p.value;
  }

  unfoldable pub bounds_loop : Bounds → List Point → Bounds
  bounds_loop b [] = b
  bounds_loop b (p ∷ points) = bounds_loop (bounds_step b p) points

  unfoldable pub first_bounds : Point → Bounds
  first_bounds p = record {
    min_ts = p.timestamp;
    max_ts = p.timestamp;
    min_value = p.value;
    max_value = p.value;
    sum_value = p.value;
  }

  -- The fields that `make_header` stores at its end.
  unfoldable pub filled_header : ℕ → ℕ → ℕ → Bounds → BlockHeader
  filled_header count timestamp_size value_size b = record {
    point_count = u32 count;
    min_timestamp = b.min_ts;
    max_timestamp = b.max_ts;
    timestamp_size = u32 timestamp_size;
    value_size = u32 value_size;
    payload_size = u32 (timestamp_size + value_size);
    compression_type = block_compression_delta_xor;
    min_value = b.min_value;
    max_value = b.max_value;
    sum_value = b.sum_value;
  }

  unfoldable pub make_header : List Point → ℕ → ℕ → Result BlockHeader
  make_header [] timestamp_size value_size = err internal
  make_header (p ∷ points) timestamp_size value_size = do
    let count = length (p ∷ points)
    fail_if
        (ltb (2 ^ 32 - 1) count || (ltb (2 ^ 32 - 1) timestamp_size || ltb (2 ^ 32 - 1) value_size))
        internal
    fail_if (ltb (2 ^ 32 - 1) (timestamp_size + value_size)) internal
    let b = bounds_loop (first_bounds p) points
    ok (filled_header count timestamp_size value_size b)

module _ (alloc : ℕ → Bool) where
  -- `tsedge_segment_estimate_block_size`.
  unfoldable pub estimate_block_size : List Point → Result ℕ
  estimate_block_size [] = ok 0
  estimate_block_size (p ∷ points) = do
    timestamps ← compress_timestamps alloc (p ∷ points)
    values ← compress_values alloc (p ∷ points)
    ok (block_header_size + timestamps.size + values.size)

-- What `tsedge_segment_append_block` leaves: its status and index entry, and the file.
pub record Appended : Type 0 where
  pub result : Result (Option IndexEntry)
  pub file : Option (List ℕ)

-- The bytes of an existing file; fopen with "ab" creates an empty one.
abbrev pub contents : Option (List ℕ) → List ℕ
contents none = []
contents (some bytes) = bytes

-- The calls on the FILE: `block` is what is handed to fwrite.
unfoldable pub store_block : Stdio → Option (List ℕ) → List ℕ → IndexEntry → Appended
store_block stdio file block entry =
    let bytes = contents file in
    if not stdio.opens
    then record { result = err io; file = file }
    else if not (stdio.seeks && stdio.tells)
    then record { result = err io; file = some bytes }
    else if stdio.writes && stdio.closes
    then record { result = ok (some entry); file = some (bytes ++ block) }
    else record { result = err io; file = some (bytes ++ take stdio.persisted block) }

-- The file is opened only if the block could be built.
unfoldable pub store_prepared :
    Stdio → Option (List ℕ) → ℕ → Result (BlockHeader × List ℕ) → Appended
store_prepared stdio file segment_id (err e) = record { result = err e; file = file }
store_prepared stdio file segment_id (ok (h, block)) =
    let offset = length (contents file) in
    store_block stdio file block (fill_index_entry segment_id offset h)

module _ (d : Doubles) (alloc : ℕ → Bool) where
  -- Compression, the header, and the bytes that go to the file. `tsedge_block_write_header` refuses
  -- only a count of 0, which `make_header` has ruled out, so its check may stand before the fopen.
  unfoldable pub prepare_block : List Point → Result (BlockHeader × List ℕ)
  prepare_block points = do
    timestamps ← compress_timestamps alloc points
    values ← compress_values alloc points
    h ← make_header d points timestamps.size values.size
    header ← write_header h
    ok (h, header ++ write_payload timestamps.bytes values.bytes)

  unfoldable pub append_block : Stdio → Option (List ℕ) → ℕ → List Point → Appended
  append_block stdio file segment_id [] = record { result = ok none; file = file }
  append_block stdio file segment_id (p ∷ points) =
      store_prepared stdio file segment_id (prepare_block (p ∷ points))

-- The growth of the array in `append_index_entry`: the capacity behind it. An entry has 40 bytes.
unfoldable pub index_capacity : (ℕ → Bool) → ℕ → ℕ → Result ℕ
index_capacity alloc count capacity =
    let next = if capacity == 0 then 16 else capacity * 2 in
    if count == capacity
    then (if alloc (next * 40) then ok next else err no_memory)
    else ok capacity

-- The loop of `tsedge_segment_scan_index` at `offset`, with the cursor there and the count and the
-- capacity of `entries`. Every round but the last reads a header, so more rounds than bytes are
-- enough. A loop without rounds answers TSEDGE_ERR_INTERNAL, which the code never does.
module _ (stdio : Stdio) (alloc : ℕ → Bool) (segment_id : ℕ) where
  unfoldable pub scan_loop : ℕ → ℕ → ℕ → ℕ → List ℕ → Result (List IndexEntry)
  scan_loop zero count capacity offset cursor = err internal
  scan_loop (suc rounds) count capacity offset cursor = do
    fail_if (not stdio.tells) io
    header ← read_header cursor
    elim header [
      | none ↦ ok []
      | some (h, behind) ↦ do
        capacity' ← index_capacity alloc count capacity
        end ← skip_payload behind h
        fail_if (not stdio.seeks) io
        let next = offset + block_header_size + h.payload_size
        entries ← scan_loop rounds (count + 1) capacity' next end
        ok (fill_index_entry segment_id offset h ∷ entries)
    ]

  unfoldable pub scan_index : Option (List ℕ) → Result (List IndexEntry)
  scan_index none = ok []
  scan_index (some bytes) = do
    fail_if (not stdio.opens) io
    entries ← scan_loop (suc (length bytes)) 0 0 0 bytes
    fail_if (not stdio.closes) io
    ok entries
