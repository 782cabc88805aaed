-- ===== src/Series/Rebuild.antt =====
-- `tsedge_series_rebuild_index` of src/core/series_index.c: the table of segments and the index from
-- the files.
pub mod Same
pub mod Reopened
use tsedge.Common.{ℕ, Bool, Option, none, some, List, [], ◌∷◌, length, Result, ok, err}
use tsedge.Segment.{Stdio, IndexEntry, scan_index}
use tsedge.Segment.Files.{make_path}
use tsedge.Series.{Series, SeriesStep, file_of, add_block_index_entry}

-- `if (rc != TSEDGE_OK) return rc;` between two calls on a series.
unfoldable pub then_series : SeriesStep → (Series → SeriesStep) → SeriesStep
then_series (s, err e) next = (s, err e)
then_series (s, ok done) next = next s

-- A call with an output that leaves the series as it is.
unfoldable pub with_output {ℓ} : {A : Type ℓ} → Series → Result A → (A → SeriesStep) → SeriesStep
with_output s (err e) next = (s, err e)
with_output s (ok output) next = next output

-- `tsedge_series_clear_index`.
unfoldable pub clear_index : Series → Series
clear_index s = record s {
  segment_ids = [];
  segment_capacity = 0;
  block_index = [];
  block_index_capacity = 0;
}

-- The last id of the table, or 1.
unfoldable pub last_id : List ℕ → ℕ
last_id [] = 1
last_id (id ∷ []) = id
last_id (id ∷ (next ∷ ids)) = last_id (next ∷ ids)

-- `calls` says for a segment which calls on the FILE succeed that is opened for its scan.
module _ (calls : ℕ → Stdio) (alloc : ℕ → Bool) where
  unfoldable pub append_block_index_entries : Series → List IndexEntry → SeriesStep
  append_block_index_entries s [] = (s, ok tt)
  append_block_index_entries s (e ∷ entries) =
      then_series (add_block_index_entry alloc s e) λ s'. append_block_index_entries s' entries

  -- The loop over the table, and the path of the active segment behind it.
  unfoldable pub scan_segments : Series → List ℕ → SeriesStep
  scan_segments s [] =
      let trimmed = record s { block_index_capacity = length s.block_index } in
      with_output trimmed (make_path alloc s.dir_path s.active_segment_id) λ path. (trimmed, ok tt)
  scan_segments s (id ∷ ids) = with_output s (make_path alloc s.dir_path id) λ path.
      with_output s (scan_index (calls id) alloc id (file_of s.files id))
        λ entries. then_series (append_block_index_entries s entries) λ s'. scan_segments s' ids

  -- `discovered` is what `tsedge_segment_discover_ids` answers for the directory of the series.
  unfoldable pub rebuild_index : Result (List ℕ) → Series → SeriesStep
  rebuild_index discovered s = with_output (clear_index s) discovered λ ids.
      scan_segments
        (record (clear_index s) {
          segment_ids = ids;
          segment_capacity = length ids;
          active_segment_id = last_id ids;
        })
        ids
