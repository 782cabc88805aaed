-- ===== src/Series/Rebuild/Same.antt =====
-- A rebuilt index is the one that the appends have maintained, src/core/series_index.c.
use tsedge.Common.{
  ℕ, ◌≤◌, ◌≡◌, refl, ap, sym, ◌∙◌, Bool, List, [], ◌∷◌, ◌++◌, append-nil, append_assoc, arith, All,
  IsU32, length, ok,
}
use tsedge.Point.{IsPoint}
use tsedge.Block.{block_max_points}
use tsedge.Segment.{Stdio, IndexEntry}
use tsedge.Segment.Files.Names.{make_path_total}
use tsedge.Segment.Append.{Works}
use tsedge.Segment.Scan.{Plenty, scan_index-file_bytes}
use tsedge.Segment.Layout.{entries_from}
use tsedge.Series.{Series, push_index_entry, add_block_index_entry}
use tsedge.Series.Disk.{StoredSegment, disk_files, disk_ids, disk_entries, Ordered, Stores}
use tsedge.Series.Query.Found.{Found, disk_files-Found}
use tsedge.Series.Append.Ready.{ensure_capacity_total}
use tsedge.Series.Rebuild.{
  then_series, with_output, clear_index, last_id, append_block_index_entries, scan_segments,
  rebuild_index,
}

-- The series with these entries behind those of its index.
abbrev indexed : Series → List IndexEntry → ℕ → Series
indexed s entries capacity = record s {
  block_index = s.block_index ++ entries;
  block_index_capacity = capacity;
}

module _ (calls : ℕ → Stdio) (works : (id : ℕ) → Works (calls id)) (alloc : ℕ → Bool)
    (plenty : Plenty alloc) where
  append_block_index_entries_done :
      (s : Series) (entries : List IndexEntry)
      → (capacity : ℕ) × (append_block_index_entries calls alloc s entries
          ≡ (indexed s entries capacity, ok tt))
  unfolding append_block_index_entries then_series add_block_index_entry push_index_entry
  append_block_index_entries_done s [] = (
    s.block_index_capacity,
    ap (λ (t : List IndexEntry). (record s { block_index = t }, ok tt))
        (sym (append-nil s.block_index)),
  )
  append_block_index_entries_done s (e ∷ entries) =
      let (grown, room) =
        ensure_capacity_total alloc 40 16 (length s.block_index) s.block_index_capacity plenty in
      let (capacity, rest) = append_block_index_entries_done (indexed s (e ∷ []) grown) entries in
      (
        capacity,
        rw room (
            rest
            ∙ ap
                (λ (t : List IndexEntry).
                  (record s { block_index = t; block_index_capacity = capacity }, ok tt))
                (append_assoc s.block_index (e ∷ []) entries)),
      )

  scan_segments_done :
      (s : Series) (top : ℕ) (segments : List StoredSegment)
      → 1 ≤ s.active_segment_id
      → Ordered top segments
      → Found s.files segments
      → let index = s.block_index ++ disk_entries segments in
        scan_segments calls alloc s (disk_ids segments)
        ≡ (record s { block_index = index; block_index_capacity = length index }, ok tt)
  unfolding scan_segments with_output disk_entries then_series
  scan_segments_done s top [] active o found =
      let (path, made) = make_path_total alloc s.dir_path s.active_segment_id plenty active in
      rw (made, append-nil s.block_index) refl
  scan_segments_done s top (g ∷ segments) active (low, high, above, o) (file, found) =
      let (path, made) = make_path_total alloc s.dir_path g.id plenty low in
      let scanned =
        (scan_index-file_bytes (calls g.id) alloc g.id g.blocks (works g.id) plenty).0 in
      let entries = entries_from g.id 0 g.blocks in
      let (capacity, added) = append_block_index_entries_done s entries in
      rw (made, file, scanned, added)
        (rw (append_assoc s.block_index entries (disk_entries segments)) at
          (scan_segments_done (indexed s entries capacity) top segments active o found))

last_id-Ordered :
    (top : ℕ) (segments : List StoredSegment)
    → Ordered top segments
    → 1 ≤ top
    → Ordered (last_id (disk_ids segments)) segments
      × (1 ≤ last_id (disk_ids segments))
      × (last_id (disk_ids segments) ≤ top)
unfolding last_id
last_id-Ordered top [] o low = (tt, omega arith, low)
last_id-Ordered top (g ∷ []) (low, high, above, o) some_top =
    ((low, omega arith, tt, tt), low, high)
last_id-Ordered top (g ∷ (h ∷ segments)) (low, high, above, o) some_top =
    let (ordered, some_id, below) = last_id-Ordered top (h ∷ segments) o some_top in
    let later = ordered.1 in ((low, omega (arith, above.0, later), above, ordered), some_id, below)

-- Take a series whose directory has these segments and whose buffer holds valid points, whatever its
-- index says. If every call on a FILE succeeds, malloc never fails and the scan of the directory has
-- found the ids of the segments in ascending order, `tsedge_series_rebuild_index` returns TSEDGE_OK,
-- leaves files and buffer alone, and behind it the series agrees with its directory: its table and its
-- index are those that appending the blocks one by one maintains, and the active segment is the last.
pub rebuild_index-Stores :
    (calls : ℕ → Stdio) (alloc : ℕ → Bool) (s : Series) (top : ℕ) (segments : List StoredSegment)
    → ((id : ℕ) → Works (calls id))
    → Plenty alloc
    → 1 ≤ top
    → IsU32 top
    → Ordered top segments
    → s.files ≡ disk_files segments
    → length s.buffer ≤ block_max_points
    → All IsPoint s.buffer
    → let r = rebuild_index calls alloc (ok (disk_ids segments)) s in
      (r.1 ≡ ok tt)
      × Stores r.0 segments
      × (r.0.active_segment_id ≡ last_id (disk_ids segments))
      × (r.0.buffer ≡ s.buffer)
unfolding rebuild_index with_output clear_index
rebuild_index-Stores calls alloc s top segments works plenty low fits o files room hs =
    let ids = disk_ids segments in
    let started : Series = record (clear_index s) {
      segment_ids = ids;
      segment_capacity = length ids;
      active_segment_id = last_id ids;
    } in
    let (ordered, some_id, below) = last_id-Ordered top segments o low in
    let found : Found s.files segments = rw files (disk_files-Found top segments o) in
    rw (scan_segments_done calls works alloc plenty started top segments some_id o found) (
      refl,
      record {
        files_eq = files;
        ids_eq = refl;
        index_eq = refl;
        ordered = ordered;
        active_low = some_id;
        active_fits = omega (arith, below, fits);
        buffer_fits = room;
        all = hs;
      },
      refl,
      refl,
    )
