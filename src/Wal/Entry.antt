-- ===== src/Wal/Entry.antt =====
-- What the entries that src/storage/wal.c encodes look like to its readers.
use tsedge.Common.{
  ℕ, ◌+◌, ◌-◌, ◌*◌, ◌≤◌, ◌≡◌, ◌∙◌, List, [], ◌∷◌, ◌++◌, append-nil, arith, length, length-append,
  drop, take-append, drop-append, u32, IsU32, bit_xor, ok,
}
use tsedge.Point.{Point}
use tsedge.Bitstream.{write_u32_le, write_u64_le, read_u32_le}
use tsedge.Bitstream.LittleEndian.{read-write_u32_le, length-write_u32_le, length-write_u64_le}
use tsedge.Wal.{
  wal_magic, max_series_name, wal_max_batch_points, fnv1a32_loop, fnv1a32, batch_entry_size,
  with_checksum, point_words, batch_body, encode_batch, validate_checksum, check_batch_size,
  expect_size, v3_batch, version_layout, entry_layout, check_entry, validate_entry,
}

fnv1a32_loop-IsU32 : (hash : ℕ) (bytes : List ℕ) → IsU32 hash → IsU32 (fnv1a32_loop hash bytes)
unfolding fnv1a32_loop
fnv1a32_loop-IsU32 hash [] h = h
fnv1a32_loop-IsU32 hash (byte ∷ bytes) h =
    fnv1a32_loop-IsU32 (u32 (bit_xor hash byte * 16777619)) bytes (omega arith)

fnv1a32-IsU32 : (bytes : List ℕ) → IsU32 (fnv1a32 bytes)
unfolding fnv1a32
fnv1a32-IsU32 bytes = fnv1a32_loop-IsU32 2166136261 bytes (omega arith)

-- An entry that ends in the checksum of the rest passes the test of the checksum.
validate_checksum-with_checksum :
    (body : List ℕ) (entry_size : ℕ)
    → length body + 4 ≡ entry_size
    → validate_checksum (with_checksum body) entry_size ≡ ok tt
unfolding validate_checksum with_checksum
validate_checksum-with_checksum body entry_size full =
    let size : length body ≡ entry_size - 4 = omega (arith, full) in
    let sum = write_u32_le (fnv1a32 body) in
    rw
      (
        drop-append (entry_size - 4) body sum size,
        take-append (entry_size - 4) body sum size,
        ← append-nil sum,
        read-write_u32_le (fnv1a32 body) [] (fnv1a32-IsU32 body),
      )
      (ground arith)

length-point_words : (points : List Point) → length (point_words points) ≡ length points * 16
unfolding point_words
length-point_words [] = omega arith
length-point_words (p ∷ points) = omega (
  arith,
  length-point_words points,
  length-append (write_u64_le p.timestamp) (write_u64_le p.value ++ point_words points),
  length-append (write_u64_le p.value) (point_words points),
  length-write_u64_le p.timestamp,
  length-write_u64_le p.value,
)

-- The sizes of names that the log takes.
pub record NameFits (name : List ℕ) : Type 0 where
  pub some_byte : 1 ≤ length name
  pub fit : length name ≤ max_series_name

module _ (name : List ℕ) (points : List Point) (n : NameFits name) where
  abbrev pub batch_size : ℕ
  batch_size = 24 + length name + length points * 16 + 4

  abbrev pub batch_entry : List ℕ
  batch_entry = with_checksum (batch_body name points batch_size)

  module _ (some_point : 1 ≤ length points) (fit : length points ≤ wal_max_batch_points) where
    pub batch_entry_size_fits : batch_entry_size (length name) (length points) ≡ ok batch_size
    unfolding batch_entry_size
    batch_entry_size_fits = ground (arith, n.some_byte, n.fit, some_point, fit)

    pub encode_batch_fits :
        (capacity : ℕ) → batch_size ≤ capacity → encode_batch name points capacity ≡ ok batch_entry
    unfolding encode_batch
    encode_batch_fits capacity room = rw batch_entry_size_fits (ground (arith, room))

    length-batch_body : length (batch_body name points batch_size) + 4 ≡ batch_size
    unfolding batch_body write_u32_le
    length-batch_body =
        omega (arith, length-append name (point_words points), length-point_words points)

    pub length-batch_entry : length batch_entry ≡ batch_size
    unfolding with_checksum
    length-batch_entry = omega (
      arith,
      length-append (batch_body name points batch_size)
          (write_u32_le (fnv1a32 (batch_body name points batch_size))),
      length-write_u32_le (fnv1a32 (batch_body name points batch_size)),
      length-batch_body,
    )

    -- The size that the entry states, whatever follows it.
    pub batch_states_size :
        (rest : List ℕ) → read_u32_le (drop 8 (batch_entry ++ rest)) ≡ batch_size
    unfolding with_checksum batch_body write_u32_le
    batch_states_size rest =
        read-write_u32_le (u32 batch_size) (drop 12 (batch_entry ++ rest)) (omega arith)
        ∙ omega (arith, n.fit, fit)

    pub batch_layout : entry_layout batch_entry batch_size ≡ ok v3_batch
    unfolding with_checksum batch_body write_u32_le entry_layout version_layout
    batch_layout =
        let size : u32 batch_size ≡ batch_size = omega (arith, n.fit, fit) in
        rw
          (
            read-write_u32_le wal_magic (drop 4 batch_entry) (omega arith),
            read-write_u32_le 3 (drop 8 batch_entry) (omega arith),
            read-write_u32_le (u32 batch_size) (drop 12 batch_entry) (omega arith),
            read-write_u32_le 2 (drop 16 batch_entry) (omega arith),
            size,
          )
          (ground arith)

    pub batch_name_len : read_u32_le (drop 16 batch_entry) ≡ length name
    unfolding with_checksum batch_body write_u32_le
    batch_name_len =
        read-write_u32_le (u32 (length name)) (drop 20 batch_entry) (omega arith)
        ∙ omega (arith, n.fit)

    pub batch_count : read_u32_le (drop 20 batch_entry) ≡ length points
    unfolding with_checksum batch_body write_u32_le
    batch_count =
        read-write_u32_le (u32 (length points)) (drop 24 batch_entry) (omega arith)
        ∙ omega (arith, fit)

    pub batch_check : check_entry v3_batch batch_entry batch_size ≡ ok tt
    unfolding check_entry check_batch_size expect_size
    batch_check =
        rw
          (
            batch_name_len,
            batch_count,
            batch_entry_size_fits,
            validate_checksum-with_checksum (batch_body name points batch_size) batch_size
                length-batch_body,
          )
          (ground (arith, some_point, n.some_byte))

    -- `wal_validate_entry` accepts what `wal_encode_batch_v3` stores.
    pub validate_entry-batch : validate_entry batch_entry batch_size ≡ ok tt
    unfolding validate_entry
    validate_entry-batch = rw (batch_layout, batch_check)
