-- ===== src/Tests/Storage.antt =====
-- src/storage on concrete blocks and files.
use tsedge.Common.{
  ℕ, ◌+◌, ◌%◌, ◌^◌, ◌≡◌, refl, Bool, true, false, ◌&&◌, none, some, List, [], ◌∷◌, ◌++◌, ◌⊎◌, arith,
  length, take, drop, select, ltb, All, Error, ok, err,
}
use tsedge.Point.{Point}
use tsedge.Double.{Doubles, IsDoubles}
use tsedge.Bitstream.{read_u32_le, read_u64_le}
use tsedge.Block.{
  BlockHeader, IsHeader, block_header_size, validate_payload_sizes, header_fields, parse_header,
  write_header, read_header, read_payload, write_payload, skip_payload,
}
use tsedge.Block.Header.{read-write_header, read_header_accepts}
use tsedge.Block.Payload.{read-write_payload}
use tsedge.Segment.{
  Stdio, IndexEntry, bounds_loop, first_bounds, contents, prepare_block, append_block, scan_index,
}
use tsedge.Segment.TimeBounds.{Within, Widens, bounds_loop-Within}
use tsedge.Segment.Stored.{FillBlock, IsStored, prepare_block-IsStored}
use tsedge.Segment.Append.{Works, appended, append_block-IsStored, append_block_cases}
use tsedge.Segment.Layout.{StoredBlock, file_bytes, entries_from, stored_points}
use tsedge.Segment.Scan.{scan_index-file_bytes, scan_index-append_block}
use tsedge.Segment.Reader.{in_range, read_range_indexed}
use tsedge.Segment.Reader.Sequential.{read_range, read_range-read_range_indexed}
use tsedge.Segment.Reader.Range.{visit, read_range_indexed-visit}

-- Word arithmetic in the place of the processor's.
abbrev words : Doubles
words = record {
  lt = λ a b. ltb a b;
  add = λ a b. (a + b) % 2 ^ 64;
  div = λ a b. a;
  of_u64 = λ n. n;
}

words-IsDoubles : IsDoubles words
words-IsDoubles = record { add_fits = λ a b ha hb. omega arith }

abbrev healthy : Stdio
healthy = record {
  opens = true;
  seeks = true;
  tells = true;
  writes = true;
  closes = true;
  persisted = 0;
}

abbrev plenty : ℕ → Bool
plenty k = true

healthy-Works : Works healthy
healthy-Works = (refl, refl, refl, refl, refl)

abbrev two_points : List Point
two_points =
    record { timestamp = 1000; value = 0x3ff0_0000_0000_0000 }
    ∷ record { timestamp = 2000; value = 0x4000_0000_0000_0000 }
    ∷ []

two_points-FillBlock : FillBlock two_points
two_points-FillBlock = record { some_point = omega arith; fit = omega arith; all = ground arith }

abbrev small_header : BlockHeader
small_header = record {
  point_count = 2;
  min_timestamp = 1000;
  max_timestamp = 2000;
  timestamp_size = 3;
  value_size = 2;
  payload_size = 5;
  compression_type = 1;
  min_value = 0x3ff0_0000_0000_0000;
  max_value = 0x4000_0000_0000_0000;
  sum_value = 0x4008_0000_0000_0000;
}

small_header-IsHeader : IsHeader small_header
small_header-IsHeader = ground arith

read-write_header_example :
    (buf : List ℕ) × (write_header small_header ≡ ok buf)
    × (length buf ≡ block_header_size)
    × ((rest : List ℕ) → read_header (buf ++ rest) ≡ ok (some (small_header, rest)))
read-write_header_example = read-write_header small_header small_header-IsHeader

abbrev small_header_bytes : List ℕ
small_header_bytes =
    0x54 ∷ 0x53 ∷ 0x45 ∷ 0x42 ∷ 2 ∷ 0 ∷ 0 ∷ 0 ∷ 2 ∷ 0 ∷ 0 ∷ 0 ∷ 1 ∷ 0 ∷ 0 ∷ 0 ∷ 0xe8 ∷ 3 ∷ 0 ∷ 0 ∷ 0
    ∷ 0 ∷ 0 ∷ 0 ∷ 0xd0 ∷ 7 ∷ 0 ∷ 0 ∷ 0 ∷ 0 ∷ 0 ∷ 0 ∷ 3 ∷ 0 ∷ 0 ∷ 0 ∷ 2 ∷ 0 ∷ 0 ∷ 0 ∷ 5 ∷ 0 ∷ 0 ∷ 0
    ∷ 0 ∷ 0 ∷ 0 ∷ 0 ∷ 0 ∷ 0 ∷ 0xf0 ∷ 0x3f ∷ 0 ∷ 0 ∷ 0 ∷ 0 ∷ 0 ∷ 0 ∷ 0 ∷ 0x40 ∷ 0 ∷ 0 ∷ 0 ∷ 0 ∷ 0 ∷ 0
    ∷ 8 ∷ 0x40 ∷ 0 ∷ 0 ∷ 0 ∷ 0 ∷ 9 ∷ []

read_header_accepts_example :
    IsHeader small_header
    × ((9 ∷ []) ≡ drop block_header_size small_header_bytes)
    × (length small_header_bytes ≡ length {A = ℕ} (9 ∷ []) + block_header_size)
unfolding read_header parse_header header_fields validate_payload_sizes read_u32_le read_u64_le
read_header_accepts_example = read_header_accepts small_header_bytes small_header (9 ∷ []) refl

read-write_payload_example :
    (read_payload plenty (write_payload (1 ∷ 2 ∷ 3 ∷ []) (4 ∷ 5 ∷ []) ++ (9 ∷ [])) small_header
      ≡ ok (1 ∷ 2 ∷ 3 ∷ [], 4 ∷ 5 ∷ [], 9 ∷ []))
    × (skip_payload (write_payload (1 ∷ 2 ∷ 3 ∷ []) (4 ∷ 5 ∷ []) ++ (9 ∷ [])) small_header
        ≡ ok (9 ∷ []))
read-write_payload_example =
    read-write_payload plenty small_header (1 ∷ 2 ∷ 3 ∷ []) (4 ∷ 5 ∷ []) (9 ∷ [])
      small_header-IsHeader refl refl refl refl

prepare_block-IsStored_example :
    (h : BlockHeader) × (buf : List ℕ) × (payload : List ℕ) × (prepare_block words plenty two_points
      ≡ ok (h, buf ++ payload))
    × IsStored two_points h buf payload
prepare_block-IsStored_example =
    prepare_block-IsStored words plenty two_points words-IsDoubles (λ k hk. refl)
      two_points-FillBlock

append_block-IsStored_example :
    (h : BlockHeader) × (buf : List ℕ) × (payload : List ℕ) × IsStored two_points h buf payload
    × (append_block words plenty healthy none 1 two_points ≡ appended none 1 h (buf ++ payload))
append_block-IsStored_example =
    append_block-IsStored words plenty healthy none 1 two_points words-IsDoubles (λ k hk. refl)
      healthy-Works two_points-FillBlock

-- The disk is full behind 10 bytes.
abbrev full_disk : Stdio
full_disk = record {
  opens = true;
  seeks = true;
  tells = true;
  writes = false;
  closes = true;
  persisted = 10;
}

append_block_cases_example :
    let r = append_block words plenty full_disk none 1 two_points in
    ((two_points ≡ []) × (r ≡ record { result = ok none; file = none }))
    ⊎ (((h : BlockHeader) × (block : List ℕ) × (prepare_block words plenty two_points
            ≡ ok (h, block))
          × (r ≡ appended none 1 h block))
        ⊎ ((e : Error) × (added : List ℕ) × (r.result ≡ err e)
            × (contents r.file ≡ contents none ++ added)
            × (full_disk.writes && full_disk.closes ≡ true → added ≡ [])))
append_block_cases_example = append_block_cases words plenty full_disk none 1 two_points

bounds_loop-Within_example :
    Widens
      (first_bounds words (record { timestamp = 5; value = 0 }))
      (bounds_loop words (first_bounds words (record { timestamp = 5; value = 0 })) two_points)
    × All
        (Within
          (bounds_loop words
            (first_bounds words (record { timestamp = 5; value = 0 }))
            two_points).min_ts
          (bounds_loop words
            (first_bounds words (record { timestamp = 5; value = 0 }))
            two_points).max_ts)
        two_points
bounds_loop-Within_example =
    bounds_loop-Within words (first_bounds words (record { timestamp = 5; value = 0 })) two_points

abbrev one_block : StoredBlock
one_block =
    let (h, buf, payload, _, stored) =
      prepare_block-IsStored words plenty two_points words-IsDoubles (λ k hk. refl)
        two_points-FillBlock in
    record { points = two_points; header = h; buf = buf; payload = payload; stored = stored }

scan_index-file_bytes_example :
    (scan_index healthy plenty 1 (some (file_bytes (one_block ∷ [])))
      ≡ ok (entries_from 1 0 (one_block ∷ [])))
    × ((b : StoredBlock) (kept : ℕ)
        → scan_index healthy plenty 1
            (some (file_bytes (one_block ∷ []) ++ (b.buf ++ take kept b.payload)))
          ≡ ok (entries_from 1 0 ((one_block ∷ []) ++ (b ∷ []))))
scan_index-file_bytes_example =
    scan_index-file_bytes healthy plenty 1 (one_block ∷ []) healthy-Works (λ k. refl)

scan_index-append_block_example :
    (b : StoredBlock) × (entry : IndexEntry) × (b.points ≡ two_points)
    × (append_block words plenty healthy (some (file_bytes (one_block ∷ []))) 1 two_points
        ≡ record {
          result = ok (some entry);
          file = some (file_bytes ((one_block ∷ []) ++ (b ∷ [])));
        })
    × (scan_index healthy plenty 1 (some (file_bytes ((one_block ∷ []) ++ (b ∷ []))))
        ≡ ok (entries_from 1 0 (one_block ∷ []) ++ (entry ∷ [])))
scan_index-append_block_example =
    scan_index-append_block words plenty healthy 1 (one_block ∷ []) two_points words-IsDoubles
      (λ k. refl) healthy-Works two_points-FillBlock

read_range_indexed-visit_example :
    read_range_indexed healthy plenty
      (λ seen. false)
      (some (file_bytes (one_block ∷ [])))
      (entries_from 1 0 (one_block ∷ []))
      1500
      2500
      []
    ≡ (let (seen', stopped) =
          visit (λ seen. false) (select (in_range 1500 2500) (stored_points (one_block ∷ []))) [] in
        (seen', ok stopped))
read_range_indexed-visit_example =
    read_range_indexed-visit healthy plenty (λ seen. false) 1 (one_block ∷ []) 1500 2500 []
      healthy-Works (λ k hk. refl) refl

read_range-read_range_indexed_example :
    read_range healthy plenty (λ seen. false) (some (file_bytes (one_block ∷ []))) 1500 2500 []
    ≡ read_range_indexed healthy plenty
        (λ seen. false)
        (some (file_bytes (one_block ∷ [])))
        (entries_from 1 0 (one_block ∷ []))
        1500
        2500
        []
read_range-read_range_indexed_example =
    read_range-read_range_indexed healthy plenty (λ seen. false) 1 (one_block ∷ []) 1500 2500 []
      healthy-Works (λ k hk. refl) refl
