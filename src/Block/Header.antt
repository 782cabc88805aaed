-- ===== src/Block/Header.antt =====
-- `tsedge_block_write_header` and `tsedge_block_read_header` agree on the well-formed headers.
use tsedge.Common.{
  ℕ, ◌+◌, ◌≤◌, ◌≡◌, refl, some, List, [], ◌∷◌, ◌++◌, append-nil, arith, IsU32, IsU64, ltb, length,
  length-drop, sym, subst, ltb-eq_false, >>=-eq-ok, fail_if-eq-ok, ok-some-pair_injective,
  ltb_false→le, drop, ok, corrupt, ◌>>=◌,
}
use tsedge.Bitstream.{write_u32_le, write_u64_le, read_u32_le}
use tsedge.Bitstream.LittleEndian.{
  read-write_u32_le, read-write_u64_le, read_u32_le-IsU32, read_u64_le-IsU64,
}
use tsedge.Block.{
  BlockHeader, IsHeader, block_magic, block_version, header_bytes, write_header,
  validate_payload_sizes, header_fields, parse_header, read_header, block_header_size,
}

-- The sizes that the reader accepts, as an equivalence in two halves.
pub validate_payload_sizes_ok : (h : BlockHeader) → IsHeader h → validate_payload_sizes h ≡ ok tt
unfolding validate_payload_sizes
validate_payload_sizes_ok h v = ground arith

-- What `header_bytes` stores from byte 8 on, by the offset of each word.
module _ (h : BlockHeader) (rest : List ℕ) (v : IsHeader h) where
  -- The cursor at an offset from the header's first byte.
  abbrev at : ℕ → List ℕ
  at offset = drop offset (header_bytes h ++ rest)

  -- The fields are read back from where they were stored.
  header_fields-header_bytes : header_fields (header_bytes h ++ rest) ≡ h
  unfolding header_fields header_bytes write_u32_le write_u64_le
  header_fields-header_bytes = λ i. record {
    point_count = read-write_u32_le h.point_count (at 12) (omega arith) i;
    min_timestamp = read-write_u64_le h.min_timestamp (at 24) v.min_fits i;
    max_timestamp = read-write_u64_le h.max_timestamp (at 32) v.max_fits i;
    timestamp_size = read-write_u32_le h.timestamp_size (at 36) (omega arith) i;
    value_size = read-write_u32_le h.value_size (at 40) (omega arith) i;
    payload_size = read-write_u32_le h.payload_size (at 44) (omega arith) i;
    compression_type = read-write_u32_le h.compression_type (at 16) (omega arith) i;
    min_value = read-write_u64_le h.min_value (at 52) v.min_value_fits i;
    max_value = read-write_u64_le h.max_value (at 60) v.max_value_fits i;
    sum_value = read-write_u64_le h.sum_value (at 68) v.sum_value_fits i;
  }

  -- The magic, the version and the reserved word pass the reader's tests.
  read_magic : read_u32_le (header_bytes h ++ rest) ≡ block_magic
  unfolding header_bytes write_u32_le write_u64_le
  read_magic = read-write_u32_le block_magic (at 4) (omega arith)

  read_version : read_u32_le (at 4) ≡ block_version
  unfolding header_bytes write_u32_le write_u64_le
  read_version = read-write_u32_le block_version (at 8) (omega arith)

  read_reserved : read_u32_le (at 68) ≡ 0
  unfolding header_bytes write_u32_le write_u64_le
  read_reserved = read-write_u32_le 0 rest (omega arith)

  parse_header-header_bytes : parse_header (header_bytes h ++ rest) ≡ ok h
  unfolding parse_header
  parse_header-header_bytes =
      rw
        (
          read_magic,
          read_version,
          header_fields-header_bytes,
          read_reserved,
          validate_payload_sizes_ok h v,
        )
        (ground arith)

  length-header_bytes : length (header_bytes h ++ rest) ≡ 72 + length rest
  unfolding header_bytes write_u32_le write_u64_le
  length-header_bytes = omega arith

-- A full buffer is parsed; the cursor moves past it.
read_header_full :
    (buf : List ℕ)
    → 72 ≤ length buf
    → read_header buf ≡ (do h ← parse_header buf; ok (some (h, drop 72 buf)))
unfolding read_header
read_header_full [] h = absurd (omega arith)
read_header_full (b ∷ rest) h = rw (ltb-eq_false (length (b ∷ rest)) 72 h)

-- `tsedge_block_write_header` accepts every well-formed header and stores 72 bytes, and
-- `tsedge_block_read_header` gives that header back, with the cursor behind it, whatever follows.
pub read-write_header :
    (h : BlockHeader)
    → IsHeader h
    → (buf : List ℕ) × (write_header h ≡ ok buf)
      × (length buf ≡ block_header_size)
      × ((rest : List ℕ) → read_header (buf ++ rest) ≡ ok (some (h, rest)))
unfolding write_header
read-write_header h v = (
  header_bytes h,
  ground arith,
  rw append-nil at (length-header_bytes h [] v),
  λ rest.
      rw
        (
          read_header_full (header_bytes h ++ rest) (omega (arith, length-header_bytes h rest v)),
          parse_header-header_bytes h rest v,
        )
        (unfold header_bytes write_u32_le write_u64_le in refl),
)

-- The widths of what is read, whatever the bytes.
record FieldsFit (h : BlockHeader) : Type 0 where
  point_count : IsU32 h.point_count
  timestamp_size : IsU32 h.timestamp_size
  value_size : IsU32 h.value_size
  min_timestamp : IsU64 h.min_timestamp
  max_timestamp : IsU64 h.max_timestamp
  min_value : IsU64 h.min_value
  max_value : IsU64 h.max_value
  sum_value : IsU64 h.sum_value

header_fields-FieldsFit : (buf : List ℕ) → FieldsFit (header_fields buf)
unfolding header_fields
header_fields-FieldsFit buf = record {
  point_count = read_u32_le-IsU32 _;
  timestamp_size = read_u32_le-IsU32 _;
  value_size = read_u32_le-IsU32 _;
  min_timestamp = read_u64_le-IsU64 _;
  max_timestamp = read_u64_le-IsU64 _;
  min_value = read_u64_le-IsU64 _;
  max_value = read_u64_le-IsU64 _;
  sum_value = read_u64_le-IsU64 _;
}

parse_header-IsHeader : (buf : List ℕ) {h : BlockHeader} → parse_header buf ≡ ok h → IsHeader h
unfolding parse_header validate_payload_sizes
parse_header-IsHeader buf e = ground (arith, header_fields-FieldsFit buf)

-- Whatever the bytes, a header that `tsedge_block_read_header` accepts is well formed, and the
-- cursor has moved by its 72 bytes.
pub read_header_accepts :
    (bytes : List ℕ) (h : BlockHeader) (rest : List ℕ)
    → read_header bytes ≡ ok (some (h, rest))
    → IsHeader h
      × (rest ≡ drop block_header_size bytes)
      × (length bytes ≡ length rest + block_header_size)
unfolding read_header
read_header_accepts [] h rest e = cc
read_header_accepts (b ∷ bytes) h rest e =
    let buf : List ℕ = b ∷ bytes in
    let (full, e') = fail_if-eq-ok (ltb (length buf) 72) corrupt _ e in
    let (h', parsed, e'') = >>=-eq-ok (parse_header buf) _ e' in
    let (same, same_rest) = ok-some-pair_injective h' h (drop 72 buf) rest e'' in
    (
      subst IsHeader same (parse_header-IsHeader buf parsed),
      sym same_rest,
      rw (← same_rest, length-drop 72 buf) (omega (arith, ltb_false→le (length buf) 72 full)),
    )
