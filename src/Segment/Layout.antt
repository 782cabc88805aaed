-- ===== src/Segment/Layout.antt =====
-- The abstract view of a segment file of src/storage/segment_writer.c and segment_reader.c: a
-- sequence of blocks, each with the points that it stands for.
use native.Mathlib.Nat.{add-zero}
use tsedge.Common.{
  ℕ, ◌+◌, ◌≤◌, ◌≡◌, refl, List, [], ◌∷◌, ◌++◌, append_assoc, arith, length, length-append,
}
use tsedge.Point.{Point}
use tsedge.Block.{BlockHeader, block_header_size}
use tsedge.Segment.{IndexEntry, fill_index_entry}
use tsedge.Segment.Stored.{IsStored}

pub record StoredBlock : Type 0 where
  pub points : List Point
  pub header : BlockHeader
  pub buf : List ℕ
  pub payload : List ℕ
  pub stored : IsStored points header buf payload

-- The bytes of one block.
abbrev pub block_bytes : StoredBlock → List ℕ
block_bytes b = b.buf ++ b.payload

unfoldable pub file_bytes : List StoredBlock → List ℕ
file_bytes [] = []
file_bytes (b ∷ blocks) = block_bytes b ++ file_bytes blocks

-- The index of blocks that start at `offset`.
unfoldable pub entries_from : ℕ → ℕ → List StoredBlock → List IndexEntry
entries_from segment_id offset [] = []
entries_from segment_id offset (b ∷ blocks) =
    fill_index_entry segment_id offset b.header
    ∷ entries_from segment_id (offset + length (block_bytes b)) blocks

unfoldable pub stored_points : List StoredBlock → List Point
stored_points [] = []
stored_points (b ∷ blocks) = b.points ++ stored_points blocks

pub file_bytes-append :
    (blocks more : List StoredBlock)
    → file_bytes (blocks ++ more) ≡ file_bytes blocks ++ file_bytes more
unfolding file_bytes
file_bytes-append [] more = refl
file_bytes-append (b ∷ blocks) more =
    rw
      (
        file_bytes-append blocks more,
        append_assoc (block_bytes b) (file_bytes blocks) (file_bytes more),
      )
      refl

pub entries_from-append :
    (segment_id offset : ℕ) (blocks more : List StoredBlock)
    → entries_from segment_id offset (blocks ++ more)
      ≡ entries_from segment_id offset blocks
        ++ entries_from segment_id (offset + length (file_bytes blocks)) more
unfolding entries_from file_bytes
entries_from-append segment_id offset [] more = rw (add-zero offset) refl
entries_from-append segment_id offset (b ∷ blocks) more =
    let here : offset + length (block_bytes b) + length (file_bytes blocks)
        ≡ offset + length (block_bytes b ++ file_bytes blocks) =
      omega (arith, length-append (block_bytes b) (file_bytes blocks)) in
    rw (entries_from-append segment_id (offset + length (block_bytes b)) blocks more, here) refl

pub length-block_bytes :
    (b : StoredBlock) → length (block_bytes b) ≡ block_header_size + b.header.payload_size
length-block_bytes b =
    omega (arith, length-append b.buf b.payload, b.stored.header_length, b.stored.payload_length)

pub length-file_bytes : (blocks : List StoredBlock) → length blocks ≤ length (file_bytes blocks)
unfolding file_bytes
length-file_bytes [] = omega arith
length-file_bytes (b ∷ blocks) = omega (
  arith,
  length-file_bytes blocks,
  length-append (block_bytes b) (file_bytes blocks),
  length-block_bytes b,
)

pub stored_points-append :
    (blocks more : List StoredBlock)
    → stored_points (blocks ++ more) ≡ stored_points blocks ++ stored_points more
unfolding stored_points
stored_points-append [] more = refl
stored_points-append (b ∷ blocks) more =
    rw
      (
        stored_points-append blocks more,
        append_assoc b.points (stored_points blocks) (stored_points more),
      )
      refl
