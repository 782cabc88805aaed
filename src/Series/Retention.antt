-- ===== src/Series/Retention.antt =====
-- `tsedge_series_delete_before` of src/core/series_retention.c. A segment goes as a whole, once its
-- newest point is too old.
pub mod Unlinked
pub mod Newest
pub mod Kept
use tsedge.Common.{
  ℕ, ◌+◌, ◌*◌, Bool, true, false, List, [], ◌∷◌, ◌++◌, ◌==◌, u64, if◌then◌else◌, length, Result, ok,
  err, io, no_memory,
}
use tsedge.Point.{lt64, le64}
use tsedge.Segment.{Stdio, IndexEntry}
use tsedge.Segment.Files.{make_path}
use tsedge.Series.{Files, Series, SeriesStep}
use tsedge.Series.Append.{Env, Db, DbStep, then_do, on_series, flush}
use tsedge.Series.Rebuild.{rebuild_index}

pub record SegmentBounds : Type 0 where
  pub segment_id : ℕ
  pub min_timestamp : ℕ
  pub max_timestamp : ℕ
  pub block_count : ℕ

-- `find_segment_bounds`, as far as the caller tells it from NULL.
unfoldable pub bounds_known : List SegmentBounds → ℕ → Bool
bounds_known [] segment_id = false
bounds_known (b ∷ bounds) segment_id =
    let rest = bounds_known bounds segment_id in if b.segment_id == segment_id then true else rest

unfoldable pub widen : SegmentBounds → IndexEntry → SegmentBounds
widen b entry = record b {
  min_timestamp =
      if lt64 entry.min_timestamp b.min_timestamp then entry.min_timestamp else b.min_timestamp;
  max_timestamp =
      if lt64 b.max_timestamp entry.max_timestamp then entry.max_timestamp else b.max_timestamp;
  block_count = u64 (b.block_count + 1);
}

-- The array with the first bounds of the entry's segment widened.
unfoldable pub widen_first : List SegmentBounds → IndexEntry → List SegmentBounds
widen_first [] entry = []
widen_first (b ∷ bounds) entry =
    let rest = widen_first bounds entry in
    if b.segment_id == entry.segment_id then widen b entry ∷ bounds else b ∷ rest

abbrev pub single_bounds : IndexEntry → SegmentBounds
single_bounds entry = record {
  segment_id = entry.segment_id;
  min_timestamp = entry.min_timestamp;
  max_timestamp = entry.max_timestamp;
  block_count = 1;
}

-- `add_segment_bounds`: the array and its capacity behind it.
unfoldable pub add_segment_bounds :
    (ℕ → Bool) → List SegmentBounds → ℕ → IndexEntry → Result (List SegmentBounds × ℕ)
add_segment_bounds alloc bounds capacity entry =
    let next = if capacity == 0 then 8 else capacity * 2 in
    let longer = bounds ++ (single_bounds entry ∷ []) in
    if bounds_known bounds entry.segment_id
    then ok (widen_first bounds entry, capacity)
    else if length bounds == capacity
    then if alloc (next * 32) then ok (longer, next) else err no_memory
    else ok (longer, capacity)

unfoldable pub and_bounds :
    Result (List SegmentBounds × ℕ)
    → (List SegmentBounds → ℕ → Result (List SegmentBounds))
    → Result (List SegmentBounds)
and_bounds (err e) next = err e
and_bounds (ok (bounds, capacity)) next = next bounds capacity

-- The loop over the index.
unfoldable pub collect_bounds :
    (ℕ → Bool) → List SegmentBounds → ℕ → List IndexEntry → Result (List SegmentBounds)
collect_bounds alloc bounds capacity [] = ok bounds
collect_bounds alloc bounds capacity (entry ∷ entries) =
    and_bounds (add_segment_bounds alloc bounds capacity entry)
      λ bounds' capacity'. collect_bounds alloc bounds' capacity' entries

-- The directory without this file.
unfoldable pub remove_file : Files → ℕ → Files
remove_file [] segment_id = []
remove_file ((id, bytes) ∷ files) segment_id =
    let rest = remove_file files segment_id in if id == segment_id then rest else (id, bytes) ∷ rest

-- The series, `deleted_any`, and `delete_rc`.
abbrev pub Deletion : Type 0
Deletion = (Series × Bool) × Result (Unit {0})

unfoldable pub unlink_path : Bool → Series → Bool → ℕ → Result (List ℕ) → Deletion
unlink_path unlinks s deleted_any segment_id (err e) = ((s, deleted_any), err no_memory)
unlink_path unlinks s deleted_any segment_id (ok path) =
    if unlinks
    then ((record s { files = remove_file s.files segment_id }, true), ok tt)
    else ((s, deleted_any), err io)

unfoldable pub then_delete : Deletion → (Series → Bool → Deletion) → Deletion
then_delete ((s, deleted_any), err e) next = ((s, deleted_any), err e)
then_delete ((s, deleted_any), ok done) next = next s deleted_any

-- `unlinks` says for a segment whether `unlink` succeeds on its file or finds none.
module _ (unlinks : ℕ → Bool) (alloc : ℕ → Bool) (older_than_timestamp : ℕ) where
  unfoldable pub delete_segment : Series → Bool → SegmentBounds → Deletion
  delete_segment s deleted_any b =
      let unlinked =
        unlink_path (unlinks b.segment_id) s deleted_any b.segment_id
          (make_path alloc s.dir_path b.segment_id) in
      if le64 older_than_timestamp b.max_timestamp then ((s, deleted_any), ok tt) else unlinked

  unfoldable pub delete_loop : Series → Bool → List SegmentBounds → Deletion
  delete_loop s deleted_any [] = ((s, deleted_any), ok tt)
  delete_loop s deleted_any (b ∷ bounds) =
      then_delete (delete_segment s deleted_any b)
        λ s' deleted_any'. delete_loop s' deleted_any' bounds

-- `scans` and `discovered` are what the rebuilding meets: the calls on the FILE of a segment, and what
-- `tsedge_segment_discover_ids` answers for the directory as it then is.
module _ (scans : ℕ → Stdio) (alloc : ℕ → Bool) (discovered : Files → Result (List ℕ)) where
  unfoldable pub rebuild_after : Deletion → SeriesStep
  rebuild_after ((s, deleted_any), err e) =
      ((rebuild_index scans alloc (discovered s.files) s).0, err e)
  rebuild_after ((s, true), ok done) = rebuild_index scans alloc (discovered s.files) s
  rebuild_after ((s, false), ok done) = (s, ok tt)

  unfoldable pub delete_old : (ℕ → Bool) → ℕ → Series → Result (List SegmentBounds) → SeriesStep
  delete_old unlinks older_than_timestamp s (err e) = (s, err e)
  delete_old unlinks older_than_timestamp s (ok bounds) =
      rebuild_after (delete_loop unlinks alloc older_than_timestamp s false bounds)

-- `tsedge_series_delete_before`.
unfoldable pub delete_before :
    Env → (Db → DbStep) → (ℕ → Stdio) → (Files → Result (List ℕ)) → (ℕ → Bool) → Db → ℕ → DbStep
delete_before env quota scans discovered unlinks db older_than_timestamp =
    then_do (flush env quota db true) λ db'.
      let s = db'.series in
      if length s.block_index == 0
      then (db', ok tt)
      else on_series db' (
          delete_old scans env.alloc discovered unlinks older_than_timestamp s
            (collect_bounds env.alloc [] 0 s.block_index))
