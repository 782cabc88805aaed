-- ===== src/Series/Query/Windows.antt =====
-- `tsedge_series_aggregate_windowed` of src/core/series_query.c. A `window_accumulator` has the fields
-- of `tsedge_aggregate_state`, and `window_add_value` and `window_add_block` have the statements of
-- `aggregate_state_add` and `aggregate_state_add_block`, so that those stand for them here.
pub mod Bounds
pub mod Sums
use mathlib.Core.Bool.{not}
use tsedge.Common.{
  ℕ, zero, suc, ◌+◌, ◌-◌, ◌*◌, ◌/◌, ◌%◌, ◌^◌, Bool, true, false, ◌&&◌, ◌||◌, Option, none, some,
  List, [], ◌∷◌, u64, ltb, leb, ◌==◌, if◌then◌else◌, length, drop, Error, Result, ok, err, corrupt,
  io, internal, invalid_argument, no_memory, fail_if, ◌>>=◌, ◌>>◌,
}
use tsedge.Point.{Point, lt64, le64, add64, sub64}
use tsedge.Double.{Doubles}
use tsedge.Block.{BlockHeader, read_header}
use tsedge.Segment.{Stdio, IndexEntry}
use tsedge.Segment.Files.{make_path}
use tsedge.Segment.Reader.{decode_points}
use tsedge.Segment.Reader.Aggregate.{AggregateState, aggregate_state_add, aggregate_state_add_block}
use tsedge.Series.{Series, file_of}
use tsedge.Series.Query.{ReadStats, count_up, count_skipped, count_decoded, count_total}
use tsedge.Series.Query.Aggregate.{empty_state}

-- TSEDGE_MAX_WINDOW_AGGREGATES.
abbrev pub max_window_aggregates : ℕ
max_window_aggregates = 1000000

-- `tsedge_window_aggregate`.
pub record WindowAggregate : Type 0 where
  pub window_start : ℕ
  pub window_end : ℕ
  pub count : ℕ
  pub min : ℕ
  pub max : ℕ
  pub avg : ℕ

-- `validate_window_range`: the number of windows. Behind the tests the range lies between 1 and
-- INT64_MAX, so that its division is that of natural numbers.
unfoldable pub validate_window_range : ℕ → ℕ → ℕ → Result ℕ
validate_window_range start_time end_time window_size =
    let range = sub64 end_time start_time in
    let window_count = range / window_size + (if range % window_size == 0 then 0 else 1) in
    let counted : Result ℕ = (do
      fail_if (lt64 start_time 0 && lt64 (add64 (2 ^ 63 - 1) start_time) end_time) invalid_argument
      fail_if (ltb max_window_aggregates window_count) invalid_argument
      ok window_count) in
    if le64 window_size 0 || lt64 end_time start_time
    then err invalid_argument
    else if start_time == end_time
    then ok 0
    else counted

-- `window_index_for_timestamp`, which is called only for a timestamp from `start_time` on.
unfoldable pub window_index : ℕ → ℕ → ℕ → ℕ
window_index timestamp start_time window_size = sub64 timestamp start_time / window_size

-- `block_intersects_window_range`.
unfoldable pub block_intersects_window_range : IndexEntry → ℕ → ℕ → Bool
block_intersects_window_range e start_time end_time =
    le64 start_time e.max_timestamp && lt64 e.min_timestamp end_time

-- The statement on `windows[index]`.
unfoldable pub update_window :
    ℕ → (AggregateState → AggregateState) → List AggregateState → List AggregateState
update_window index change [] = []
update_window zero change (w ∷ windows) = change w ∷ windows
update_window (suc index) change (w ∷ windows) = w ∷ update_window index change windows

unfoldable pub empty_windows : ℕ → List AggregateState
empty_windows zero = []
empty_windows (suc n) = empty_state ∷ empty_windows n

-- Where a window begins and ends, by its index.
unfoldable pub window_start : ℕ → ℕ → ℕ → ℕ
window_start start_time window_size index = add64 start_time (u64 (index * window_size))

unfoldable pub window_end : ℕ → ℕ → ℕ → ℕ → ℕ
window_end start_time end_time window_size index =
    let start = window_start start_time window_size index in
    if lt64 (sub64 end_time start) window_size then end_time else add64 start window_size

module _ (d : Doubles) (start_time end_time window_size : ℕ) where
  -- The loops over the points of a block and of the buffer; `rc` is the status where an index is too
  -- large.
  unfoldable pub add_to_windows :
      Error → List AggregateState → List Point → Result (List AggregateState)
  add_to_windows rc windows [] = ok windows
  add_to_windows rc windows (p ∷ points) =
      let index = window_index p.timestamp start_time window_size in
      let inside = le64 start_time p.timestamp && lt64 p.timestamp end_time in
      let changed = update_window index (λ w. aggregate_state_add d w p.value) windows in
      let rest = add_to_windows rc (if inside then changed else windows) points in
      if inside && leb (length windows) index then err rc else rest

  -- The windows that are not empty, from the one with this index on.
  unfoldable pub window_results : ℕ → List AggregateState → List WindowAggregate
  window_results index [] = []
  window_results index (w ∷ windows) =
      let rest = window_results (index + 1) windows in
      if w.count == 0
      then rest
      else record {
        window_start = window_start start_time window_size index;
        window_end = window_end start_time end_time window_size index;
        count = w.count;
        min = w.min_value;
        max = w.max_value;
        avg = d.div w.sum_value (d.of_u64 w.count);
      }
        ∷ rest

  -- Whether the block lies in one window, whose index is that of its first timestamp.
  unfoldable pub can_use_metadata : IndexEntry → ℕ → Bool
  can_use_metadata e window_count =
      let min_index = window_index e.min_timestamp start_time window_size in
      let max_index = window_index e.max_timestamp start_time window_size in
      (le64 start_time e.min_timestamp && lt64 e.max_timestamp end_time)
      && (min_index == max_index && ltb min_index window_count)

  module _ (calls : IndexEntry → Stdio) (alloc : ℕ → Bool) (s : Series) where
    -- The block behind its header; an error frees the windows.
    unfoldable pub window_block :
        IndexEntry
        → Option (BlockHeader × List ℕ)
        → List AggregateState
        → Result (List AggregateState)
    window_block e none windows = err corrupt
    window_block e (some (h, cursor)) windows =
        let index = window_index e.min_timestamp start_time window_size in
        let decoded : Result (List AggregateState) = (do
          (points, end) ← decode_points alloc cursor h
          add_to_windows corrupt windows points) in
        if can_use_metadata e (length windows)
        then ok (update_window index (λ w. aggregate_state_add_block d w h) windows)
        else decoded

    unfoldable pub window_file :
        IndexEntry → Option (List ℕ) → List AggregateState → Result (List AggregateState)
    window_file e none windows = err io
    window_file e (some bytes) windows = do
      fail_if (not (calls e).opens) io
      fail_if (not (calls e).seeks) io
      header ← read_header (drop e.offset bytes)
      windows' ← window_block e header windows
      fail_if (not (calls e).closes) io
      ok windows'

    unfoldable pub window_entry : IndexEntry → List AggregateState → Result (List AggregateState)
    window_entry e windows = do
      path ← make_path alloc s.dir_path e.segment_id
      window_file e (file_of s.files e.segment_id) windows

    unfoldable pub next_window :
        ReadStats
        → Result (List AggregateState)
        → (List AggregateState → ReadStats × Result (List AggregateState))
        → ReadStats × Result (List AggregateState)
    next_window stats (err rc) more = (stats, err rc)
    next_window stats (ok windows) more = more windows

    -- The counters of a block that meets the range.
    unfoldable pub count_windowed : ReadStats → IndexEntry → ℕ → ReadStats
    count_windowed stats e window_count =
        if can_use_metadata e window_count
        then record stats { blocks_scanned = count_up stats.blocks_scanned }
        else count_decoded stats e

    unfoldable pub window_entries :
        List IndexEntry → ReadStats → List AggregateState → ReadStats × Result (List AggregateState)
    window_entries [] stats windows = (stats, ok windows)
    window_entries (e ∷ entries) stats windows =
        let more = window_entries entries in
        let counted = count_windowed stats e (length windows) in
        if block_intersects_window_range e start_time end_time
        then next_window counted (window_entry e windows) (more counted)
        else more (count_skipped stats) windows

    -- The array of the results has 48 bytes for each; without one there is no array.
    unfoldable pub finish_windows : List WindowAggregate → Result (List WindowAggregate)
    finish_windows [] = ok []
    finish_windows (w ∷ results) =
        if alloc (length (w ∷ results) * 48) then ok (w ∷ results) else err no_memory

    unfoldable pub windows_with : ReadStats → Result ℕ → ReadStats × Result (List WindowAggregate)
    windows_with stats (err rc) = (stats, err rc)
    windows_with stats (ok zero) = (stats, ok [])
    windows_with stats (ok (suc n)) =
        let (stats', on_disk) =
          window_entries s.block_index (count_total stats s) (empty_windows (suc n)) in
        let results : Result (List WindowAggregate) = (do
          stored ← on_disk
          windows ← add_to_windows internal stored s.buffer
          finish_windows (window_results 0 windows)) in
        if alloc (suc n * 32) then (stats', results) else (stats, err no_memory)

    -- `tsedge_series_aggregate_windowed`: the counters, and the status with `*out_windows`.
    unfoldable pub aggregate_windowed : ReadStats → ReadStats × Result (List WindowAggregate)
    aggregate_windowed stats =
        windows_with stats (validate_window_range start_time end_time window_size)
