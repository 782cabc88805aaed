-- ===== src/Series/Query/Found.antt =====
-- The file of every segment of a directory is found under its id, so that a loop of
-- src/core/series_query.c over the index of a series is a loop over its blocks.
use tsedge.Common.{
  ℕ, ◌≤◌, ◌<◌, ◌≡◌, refl, ap, sym, ◌∙◌, true, false, some, List, [], ◌∷◌, ◌++◌, append_assoc, arith,
  ◌==◌, All, length, length-append,
}
use tsedge.Point.{Point}
use tsedge.Segment.{IndexEntry, fill_index_entry}
use tsedge.Segment.Layout.{
  StoredBlock, block_bytes, file_bytes, entries_from, stored_points, stored_points-append,
}
use tsedge.Series.{Files, file_of}
use tsedge.Series.Disk.{StoredSegment, disk_files, disk_entries, disk_points, Ordered}

-- The files that these segments have.
abbrev pub Found : Files → List StoredSegment → Type 0
Found files segments = All (λ g. file_of files g.id ≡ some (file_bytes g.blocks)) segments

Found-cons :
    (id : ℕ) (bytes : List ℕ) (files : Files) (segments : List StoredSegment)
    → All (λ g. id < g.id) segments
    → Found files segments
    → Found ((id, bytes) ∷ files) segments
unfolding file_of
Found-cons id bytes files [] above found = tt
Found-cons id bytes files (g ∷ segments) (here, above) (file, found) =
    let other : id == g.id ≡ false = ground arith in
    (rw other file, Found-cons id bytes files segments above found)

pub disk_files-Found :
    (active : ℕ) (segments : List StoredSegment)
    → Ordered active segments
    → Found (disk_files segments) segments
unfolding file_of
disk_files-Found active [] o = tt
disk_files-Found active (g ∷ segments) (low, high, above, o) =
    let same : g.id == g.id ≡ true = ground arith in
    (
      rw same refl,
      Found-cons g.id (file_bytes g.blocks) (disk_files segments) segments above
          (disk_files-Found active segments o),
    )

-- All blocks, in the order of the index.
unfoldable pub disk_blocks : List StoredSegment → List StoredBlock
disk_blocks [] = []
disk_blocks (g ∷ segments) = g.blocks ++ disk_blocks segments

pub stored_points-disk_blocks :
    (segments : List StoredSegment) → stored_points (disk_blocks segments) ≡ disk_points segments
unfolding disk_blocks disk_points stored_points
stored_points-disk_blocks [] = refl
stored_points-disk_blocks (g ∷ segments) =
    stored_points-append g.blocks (disk_blocks segments)
    ∙ ap (λ (t : List Point). stored_points g.blocks ++ t) (stored_points-disk_blocks segments)

-- What holds of no entries, and goes on to one more in front whose block is found in its file, holds
-- of the whole index.
module _ (files : Files) (P : List IndexEntry → List StoredBlock → Type 0)
    (step : (id : ℕ) (front rest : List ℕ) (b : StoredBlock) (entries : List IndexEntry)
        (blocks : List StoredBlock)
      → 1 ≤ id
      → file_of files id ≡ some (front ++ (block_bytes b ++ rest))
      → P entries blocks
      → P (fill_index_entry id (length front) b.header ∷ entries) (b ∷ blocks)) where
  over_blocks :
      (id : ℕ) (front : List ℕ) (blocks : List StoredBlock) (entries : List IndexEntry)
      (more : List StoredBlock)
      → 1 ≤ id
      → file_of files id ≡ some (front ++ file_bytes blocks)
      → P entries more
      → P (entries_from id (length front) blocks ++ entries) (blocks ++ more)
  unfolding file_bytes entries_from
  over_blocks id front [] entries more low file holds = holds
  over_blocks id front (b ∷ blocks) entries more low file holds =
      let rest =
        over_blocks id (front ++ block_bytes b) blocks entries more low
          (file ∙ ap some (sym (append_assoc front (block_bytes b) (file_bytes blocks)))) holds in
      step id front (file_bytes blocks) b _ (blocks ++ more) low file
        (rw (length-append front (block_bytes b)) at rest)

  pub over_segments :
      (active : ℕ) (segments : List StoredSegment)
      → Ordered active segments
      → Found files segments
      → P [] []
      → P (disk_entries segments) (disk_blocks segments)
  unfolding disk_entries disk_blocks
  over_segments active [] o found holds = holds
  over_segments active (g ∷ segments) (low, high, above, o) (file, found) holds =
      over_blocks g.id [] g.blocks (disk_entries segments) (disk_blocks segments) low file
        (over_segments active segments o found holds)
