-- ===== src/Series.antt =====
-- One series: src/core/series.h and series_index.c, and src/storage/segment_rotation.c.
pub mod Disk
pub mod Append
pub mod Query
pub mod Rebuild
pub mod Retention
use tsedge.Common.{
  ℕ, zero, suc, ◌+◌, ◌*◌, ◌^◌, Bool, true, false, Option, none, some, List, [], ◌∷◌, ◌++◌, u32, u64,
  ltb, leb, ◌==◌, if◌then◌else◌, length, Result, ok, err, internal, invalid_argument, no_memory,
  fail_if, ◌>>=◌, ◌>>◌,
}
use tsedge.Point.{Point}
use tsedge.Segment.{IndexEntry}
use tsedge.Segment.Files.{make_path}

-- The regular files of a directory by segment id, each its bytes.
abbrev pub Files : Type 0
Files = List (ℕ × List ℕ)

-- `none` where there is no file (ENOENT).
unfoldable pub file_of : Files → ℕ → Option (List ℕ)
file_of [] segment_id = none
file_of ((id, bytes) ∷ files) segment_id =
    let rest = file_of files segment_id in if id == segment_id then some bytes else rest

-- The directory with this file written.
unfoldable pub set_file : Files → ℕ → List ℕ → Files
set_file [] segment_id bytes = (segment_id, bytes) ∷ []
set_file ((id, old) ∷ files) segment_id bytes =
    let rest = set_file files segment_id bytes in
    if id == segment_id then (id, bytes) ∷ files else (id, old) ∷ rest

-- `tsedge_series`, and `files`, the segment files of its directory. A count is the length of its
-- array; `active_segment_path` is the path of `active_segment_id`.
pub record Series : Type 0 where
  pub name : List ℕ
  pub dir_path : List ℕ
  pub active_segment_id : ℕ
  pub segment_ids : List ℕ
  pub segment_capacity : ℕ
  pub buffer : List Point
  pub block_index : List IndexEntry
  pub block_index_capacity : ℕ
  pub files : Files

-- A call that changes a series, and its status.
abbrev pub SeriesStep : Type 0
SeriesStep = Series × Result (Unit {0})

unfoldable pub segment_id_known : List ℕ → ℕ → Bool
segment_id_known [] segment_id = false
segment_id_known (id ∷ ids) segment_id =
    let rest = segment_id_known ids segment_id in if id == segment_id then true else rest

-- The growth of an array of elements of `size` bytes from `first` elements on, by doubling: the
-- capacity behind it.
unfoldable pub ensure_capacity : (ℕ → Bool) → ℕ → ℕ → ℕ → ℕ → Result ℕ
ensure_capacity alloc size first count capacity =
    let next = if capacity == 0 then first else capacity * 2 in
    if ltb count capacity
    then ok capacity
    else if alloc (next * size)
    then ok next
    else err no_memory

unfoldable pub push_segment_id : Series → ℕ → Result ℕ → SeriesStep
push_segment_id s segment_id (err e) = (s, err e)
push_segment_id s segment_id (ok capacity) = (
  record s { segment_ids = s.segment_ids ++ (segment_id ∷ []); segment_capacity = capacity },
  ok tt,
)

unfoldable pub push_index_entry : Series → IndexEntry → Result ℕ → SeriesStep
push_index_entry s entry (err e) = (s, err e)
push_index_entry s entry (ok capacity) = (
  record s { block_index = s.block_index ++ (entry ∷ []); block_index_capacity = capacity },
  ok tt,
)

module _ (alloc : ℕ → Bool) where
  -- `tsedge_series_add_segment_id`.
  unfoldable pub add_segment_id : Series → ℕ → SeriesStep
  add_segment_id s segment_id =
      let pushed =
        push_segment_id s segment_id
          (ensure_capacity alloc 4 4 (length s.segment_ids) s.segment_capacity) in
      if segment_id == 0
      then (s, err invalid_argument)
      else if segment_id_known s.segment_ids segment_id
      then (s, ok tt)
      else pushed

  -- `tsedge_series_add_block_index_entry`.
  unfoldable pub add_block_index_entry : Series → IndexEntry → SeriesStep
  add_block_index_entry s entry =
      push_index_entry s entry
        (ensure_capacity alloc 40 16 (length s.block_index) s.block_index_capacity)

-- TSEDGE_SEGMENT_MAX_BYTES.
abbrev pub segment_max_bytes : ℕ
segment_max_bytes = 64 * 1024 * 1024

-- `tsedge_segment_file_size_or_zero`.
unfoldable pub file_size_or_zero : Option (List ℕ) → ℕ
file_size_or_zero none = 0
file_size_or_zero (some bytes) = length bytes

-- `tsedge_segment_rotate_if_needed`: the active segment behind it.
unfoldable pub rotate_if_needed : (ℕ → Bool) → Series → ℕ → Result ℕ
rotate_if_needed alloc s block_size =
    let active_size = file_size_or_zero (file_of s.files s.active_segment_id) in
    let next_segment_id = u32 (s.active_segment_id + 1) in
    let rotated : Result ℕ = (do
      fail_if (next_segment_id == 0) internal
      path ← make_path alloc s.dir_path next_segment_id
      ok next_segment_id) in
    if active_size == 0
    then ok s.active_segment_id
    else if leb (u64 (active_size + block_size)) segment_max_bytes
    then ok s.active_segment_id
    else rotated
