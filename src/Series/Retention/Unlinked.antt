-- ===== src/Series/Retention/Unlinked.antt =====
-- The files that the calls of src/core/series_retention.c and series_index.c leave alone.
use tsedge.Common.{
  ℕ, Option, ◌≡◌, refl, ◌∙◌, Bool, true, false, List, [], ◌∷◌, ◌==◌, arith, length, Result, ok, err,
  Bool-cases, inl, inr,
}
use tsedge.Point.{le64}
use tsedge.Segment.{Stdio, IndexEntry, scan_index}
use tsedge.Segment.Files.{make_path}
use tsedge.Series.{
  Files, Series, SeriesStep, file_of, add_block_index_entry, push_index_entry, ensure_capacity,
}
use tsedge.Series.Rebuild.{
  rebuild_index, scan_segments, append_block_index_entries, then_series, with_output, clear_index,
  last_id,
}
use tsedge.Series.Retention.{SegmentBounds, remove_file, unlink_path, then_delete, delete_segment}

file_of-remove_file :
    (files : Files) (segment_id id : ℕ)
    → (segment_id == id) ≡ false
    → file_of (remove_file files segment_id) id ≡ file_of files id
unfolding file_of remove_file
file_of-remove_file [] segment_id id other = refl
file_of-remove_file ((k, bytes) ∷ files) segment_id id other =
    let rest = file_of-remove_file files segment_id id other in
    elim (Bool-cases (k == segment_id)) [
      | inl gone ↦ let kept : (k == id) ≡ false = ground arith in rw gone (rw kept rest)
      | inr stays ↦ rw stays (rw rest refl)
    ]

push_index_entry-files :
    (s : Series) (e : IndexEntry) (capacity : Result ℕ)
    → (push_index_entry s e capacity).0.files ≡ s.files
unfolding push_index_entry
push_index_entry-files s e (err x) = refl
push_index_entry-files s e (ok capacity) = refl

-- `then_series` between calls that leave the files alone.
then_series-files :
    (step : SeriesStep) (next : Series → SeriesStep) (files : Files)
    → step.0.files ≡ files
    → ((s : Series) → s.files ≡ files → (next s).0.files ≡ files)
    → (then_series step next).0.files ≡ files
unfolding then_series
then_series-files (s, err e) next files kept after = kept
then_series-files (s, ok done) next files kept after = after s kept

with_output-files {ℓ} :
    {A : Type ℓ} (s : Series) (output : Result A) (next : A → SeriesStep) (files : Files)
    → s.files ≡ files
    → ((a : A) → (next a).0.files ≡ files)
    → (with_output s output next).0.files ≡ files
unfolding with_output
with_output-files s (err e) next files kept after = kept
with_output-files s (ok a) next files kept after = after a

module _ (calls : ℕ → Stdio) (alloc : ℕ → Bool) (files : Files) where
  append_block_index_entries-files :
      (s : Series) (entries : List IndexEntry)
      → s.files ≡ files
      → (append_block_index_entries calls alloc s entries).0.files ≡ files
  unfolding append_block_index_entries add_block_index_entry
  append_block_index_entries-files s [] kept = kept
  append_block_index_entries-files s (e ∷ entries) kept =
      then_series-files (add_block_index_entry alloc s e)
        (λ s'. append_block_index_entries calls alloc s' entries) files
        (push_index_entry-files s e
            (ensure_capacity alloc 40 16 (length s.block_index) s.block_index_capacity)
          ∙ kept)
        (λ s' same. append_block_index_entries-files s' entries same)

  scan_segments-files :
      (s : Series) (ids : List ℕ)
      → s.files ≡ files
      → (scan_segments calls alloc s ids).0.files ≡ files
  unfolding scan_segments
  scan_segments-files s [] kept =
      let trimmed = record s { block_index_capacity = length s.block_index } in
      with_output-files trimmed (make_path alloc s.dir_path s.active_segment_id)
        (λ path. (trimmed, ok tt)) files kept (λ path. kept)
  scan_segments-files s (id ∷ ids) kept =
      let scanned = scan_index (calls id) alloc id (file_of s.files id) in
      let indexed = λ (entries : List IndexEntry).
        then_series (append_block_index_entries calls alloc s entries)
          λ s'. scan_segments calls alloc s' ids in
      with_output-files s (make_path alloc s.dir_path id) (λ path. with_output s scanned indexed)
        files kept
        λ path. with_output-files s scanned indexed files kept λ entries.
          then_series-files (append_block_index_entries calls alloc s entries)
            (λ s'. scan_segments calls alloc s' ids) files
            (append_block_index_entries-files s entries kept)
            (λ s' same. scan_segments-files s' ids same)

  -- A rebuilt index, complete or not, leaves the files as they are.
  pub rebuild_index-files :
      (discovered : Result (List ℕ)) (s : Series)
      → s.files ≡ files
      → (rebuild_index calls alloc discovered s).0.files ≡ files
  unfolding rebuild_index clear_index with_output
  rebuild_index-files (err e) s kept = kept
  rebuild_index-files (ok ids) s kept =
      scan_segments-files
        (record (clear_index s) {
          segment_ids = ids;
          segment_capacity = length ids;
          active_segment_id = last_id ids;
        })
        ids kept

module _ (unlinks : ℕ → Bool) (alloc : ℕ → Bool) (older_than_timestamp : ℕ) where
  unlink_path-other :
      (s : Series) (deleted_any : Bool) (segment_id id : ℕ) (path : Result (List ℕ))
      → (segment_id == id) ≡ false
      → file_of (unlink_path (unlinks segment_id) s deleted_any segment_id path).0.0.files id
        ≡ file_of s.files id
  unfolding unlink_path
  unlink_path-other s deleted_any segment_id id (err e) other = refl
  unlink_path-other s deleted_any segment_id id (ok path) other =
      elim (Bool-cases (unlinks segment_id)) [
        | inl unlinked ↦ rw unlinked (file_of-remove_file s.files segment_id id other)
        | inr failed ↦ rw failed refl
      ]

  -- The bounds of one segment say nothing of the file of another.
  pub delete_segment-other :
      (s : Series) (deleted_any : Bool) (b : SegmentBounds) (id : ℕ)
      → (b.segment_id == id) ≡ false
      → file_of (delete_segment unlinks alloc older_than_timestamp s deleted_any b).0.0.files id
        ≡ file_of s.files id
  unfolding delete_segment
  delete_segment-other s deleted_any b id other =
      let unlinked =
        unlink_path-other s deleted_any b.segment_id id (make_path alloc s.dir_path b.segment_id)
          other in
      elim (Bool-cases (le64 older_than_timestamp b.max_timestamp)) [
        | inl young ↦ rw young refl
        | inr old ↦ rw old unlinked
      ]

  -- A segment that is not too old stays.
  pub delete_segment-young :
      (s : Series) (deleted_any : Bool) (b : SegmentBounds) (id : ℕ)
      → le64 older_than_timestamp b.max_timestamp ≡ true
      → file_of (delete_segment unlinks alloc older_than_timestamp s deleted_any b).0.0.files id
        ≡ file_of s.files id
  unfolding delete_segment
  delete_segment-young s deleted_any b id young = rw young refl

  pub then_delete-file :
      (d : (Series × Bool) × Result (Unit {0}))
      (next : Series → Bool → (Series × Bool) × Result (Unit {0})) (id : ℕ) (file : Option (List ℕ))
      → file_of d.0.0.files id ≡ file
      → ((s : Series) (deleted_any : Bool)
          → file_of s.files id ≡ file
          → file_of (next s deleted_any).0.0.files id ≡ file)
      → file_of (then_delete d next).0.0.files id ≡ file
  unfolding then_delete
  then_delete-file ((s, deleted_any), err e) next id file kept after = kept
  then_delete-file ((s, deleted_any), ok done) next id file kept after = after s deleted_any kept
