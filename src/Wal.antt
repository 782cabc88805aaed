-- ===== src/Wal.antt =====
-- src/storage/wal.c: the entries of the write-ahead log, their checks, and replay.
-- A series name is the list of its bytes in front of the NUL.
pub mod Buffer
pub mod Entry
pub mod Replay
use mathlib.Core.Bool.{not}
use tsedge.Common.{
  ℕ, zero, suc, ◌+◌, ◌-◌, ◌*◌, ◌/◌, ◌^◌, Bool, true, false, ◌||◌, Option, none, some, List, [], ◌∷◌,
  ◌++◌, u32, u64, bit_xor, ltb, leb, ◌==◌, if◌then◌else◌, length, take, drop, Result, ok, err,
  Error, corrupt, io, internal, invalid_argument, no_memory, fail_if, ◌>>=◌, ◌>>◌,
}
use tsedge.Point.{Point}
use tsedge.Bitstream.{write_u32_le, write_u64_le, read_u32_le, read_u64_le}

abbrev pub wal_magic : ℕ
wal_magic = 0x5745_5354

abbrev pub max_series_name : ℕ
max_series_name = 255

abbrev pub wal_max_batch_points : ℕ
wal_max_batch_points = 65536

abbrev pub wal_v2_min_entry_size : ℕ
wal_v2_min_entry_size = 32 + 1 + 4

abbrev pub wal_v3_point_min_entry_size : ℕ
wal_v3_point_min_entry_size = 36 + 1 + 4

abbrev pub wal_v3_batch_min_entry_size : ℕ
wal_v3_batch_min_entry_size = 24 + 1 + 16 + 4

abbrev pub wal_max_entry_size : ℕ
wal_max_entry_size = 24 + max_series_name + 4 + wal_max_batch_points * 16

unfoldable pub fnv1a32_loop : ℕ → List ℕ → ℕ
fnv1a32_loop hash [] = hash
fnv1a32_loop hash (byte ∷ bytes) = fnv1a32_loop (u32 (bit_xor hash byte * 16777619)) bytes

unfoldable pub fnv1a32 : List ℕ → ℕ
unfolding fnv1a32_loop
fnv1a32 bytes = fnv1a32_loop 2166136261 bytes

-- SIZE_MAX is 2 ^ 64 - 1.
unfoldable pub batch_entry_size : ℕ → ℕ → Result ℕ
batch_entry_size name_len count = do
  fail_if
      (name_len == 0
        || (ltb max_series_name name_len || (count == 0 || ltb wal_max_batch_points count)))
      invalid_argument
  fail_if (ltb ((2 ^ 64 - 1 - 24 - name_len - 4) / 16) count) invalid_argument
  let entry_size = 24 + name_len + count * 16 + 4
  fail_if (ltb (2 ^ 32 - 1) entry_size || ltb wal_max_entry_size entry_size) invalid_argument
  ok entry_size

-- The checksum that ends every entry, over all bytes before it.
unfoldable pub with_checksum : List ℕ → List ℕ
with_checksum body = body ++ write_u32_le (fnv1a32 body)

-- What `wal_encode_point_v3` stores before the checksum.
unfoldable pub point_body : List ℕ → Point → ℕ → List ℕ
point_body name point entry_size =
    write_u32_le wal_magic
    ++ (write_u32_le 3
        ++ (write_u32_le (u32 entry_size)
            ++ (write_u32_le 1
                ++ (write_u32_le (u32 (length name))
                    ++ (write_u64_le point.timestamp ++ (write_u64_le point.value ++ name))))))

unfoldable pub encode_point : List ℕ → Point → ℕ → Result (List ℕ)
encode_point name point capacity = do
  let name_len = length name
  fail_if (name_len == 0 || ltb max_series_name name_len) invalid_argument
  let entry_size = 36 + name_len + 4
  fail_if (ltb (2 ^ 32 - 1) entry_size || ltb capacity entry_size) invalid_argument
  ok (with_checksum (point_body name point entry_size))

-- The loop of `wal_encode_batch_v3` over the points.
unfoldable pub point_words : List Point → List ℕ
point_words [] = []
point_words (p ∷ points) = write_u64_le p.timestamp ++ (write_u64_le p.value ++ point_words points)

unfoldable pub batch_body : List ℕ → List Point → ℕ → List ℕ
batch_body name points entry_size =
    write_u32_le wal_magic
    ++ (write_u32_le 3
        ++ (write_u32_le (u32 entry_size)
            ++ (write_u32_le 2
                ++ (write_u32_le (u32 (length name))
                    ++ (write_u32_le (u32 (length points)) ++ (name ++ point_words points))))))

unfoldable pub encode_batch : List ℕ → List Point → ℕ → Result (List ℕ)
encode_batch name points capacity = do
  entry_size ← batch_entry_size (length name) (length points)
  fail_if (ltb capacity entry_size) invalid_argument
  ok (with_checksum (batch_body name points entry_size))

unfoldable pub validate_checksum : List ℕ → ℕ → Result (Unit {0})
validate_checksum entry entry_size =
    let expected_checksum = read_u32_le (drop (entry_size - 4) entry) in
    let actual_checksum = fnv1a32 (take (entry_size - 4) entry) in
    fail_if (not (expected_checksum == actual_checksum)) corrupt

-- The size test of an entry for one point: `fixed` bytes stand before the name.
unfoldable pub check_point_size : ℕ → ℕ → ℕ → ℕ → Result (Unit {0})
check_point_size min_entry_size fixed name_len entry_size =
    fail_if
      (ltb entry_size min_entry_size
        || (name_len == 0
            || (ltb max_series_name name_len || not (entry_size == fixed + name_len + 4))))
      corrupt

-- The size test of a batch; every failure of `wal_v3_batch_entry_size` counts as corruption.
unfoldable pub expect_size : Result ℕ → ℕ → Result (Unit {0})
expect_size (err e) entry_size = err corrupt
expect_size (ok expected_size) entry_size =
    fail_if (ltb entry_size wal_v3_batch_min_entry_size || not (expected_size == entry_size))
      corrupt

unfoldable pub check_batch_size : ℕ → ℕ → ℕ → Result (Unit {0})
check_batch_size name_len point_count entry_size =
    expect_size (batch_entry_size name_len point_count) entry_size

-- Which of the three layouts an entry has, for `wal_validate_entry` and `replay_entry`.
pub data Layout : Type 0 where
  v2_point v3_point v3_batch : Layout

unfoldable pub version_layout : ℕ → ℕ → Result Layout
version_layout version record_type =
    if version == 2
    then ok v2_point
    else if not (version == 3)
    then err corrupt
    else if record_type == 1
    then ok v3_point
    else if record_type == 2
    then ok v3_batch
    else err corrupt

unfoldable pub entry_layout : List ℕ → ℕ → Result Layout
entry_layout entry entry_size = do
  let magic = read_u32_le entry
  let version = read_u32_le (drop 4 entry)
  let stored_entry_size = read_u32_le (drop 8 entry)
  let record_type = read_u32_le (drop 12 entry)
  fail_if (not (magic == wal_magic) || not (stored_entry_size == entry_size)) corrupt
  version_layout version record_type

-- The sizes and the checksum of an entry.
unfoldable pub check_entry : Layout → List ℕ → ℕ → Result (Unit {0})
check_entry v2_point entry entry_size = do
  check_point_size wal_v2_min_entry_size 32 (read_u32_le (drop 12 entry)) entry_size
  validate_checksum entry entry_size
check_entry v3_point entry entry_size = do
  check_point_size wal_v3_point_min_entry_size 36 (read_u32_le (drop 16 entry)) entry_size
  validate_checksum entry entry_size
check_entry v3_batch entry entry_size = do
  check_batch_size (read_u32_le (drop 16 entry)) (read_u32_le (drop 20 entry)) entry_size
  validate_checksum entry entry_size

unfoldable pub validate_entry : List ℕ → ℕ → Result (Unit {0})
validate_entry entry entry_size = do
  layout ← entry_layout entry entry_size
  check_entry layout entry entry_size
