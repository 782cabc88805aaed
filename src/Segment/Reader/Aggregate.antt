-- ===== src/Segment/Reader/Aggregate.antt =====
-- `tsedge_segment_aggregate` of src/storage/segment_reader.c: count, minimum, maximum and sum of a
-- range, with the statistics of the header where a block lies in the range as a whole.
pub mod Summary
pub mod Join
pub mod Ranks
pub mod Range
use mathlib.Core.Bool.{not}
use tsedge.Common.{
  ℕ, ◌+◌, Bool, Option, none, some, List, [], ◌∷◌, u64, ◌==◌, if◌then◌else◌, drop, Result, ok, err,
  corrupt, io, invalid_argument, fail_if, ◌>>=◌, ◌>>◌,
}
use tsedge.Point.{Point, lt64}
use tsedge.Double.{Doubles}
use tsedge.Block.{BlockHeader, read_header, skip_payload}
use tsedge.Segment.{Stdio, IndexEntry}
use tsedge.Segment.Reader.{block_intersects_index, block_fully_covered, in_range, decode_points}

-- `tsedge_aggregate_state`.
pub record AggregateState : Type 0 where
  pub count : ℕ
  pub min_value : ℕ
  pub max_value : ℕ
  pub sum_value : ℕ

-- `if (rc != TSEDGE_OK) return rc;` behind an entry.
unfoldable pub next_entry :
    AggregateState
    → Result AggregateState
    → (AggregateState → AggregateState × Result (Unit {0}))
    → AggregateState × Result (Unit {0})
next_entry state (err x) more = (state, err x)
next_entry state (ok state') more = more state'

module _ (d : Doubles) where
  unfoldable pub aggregate_state_add : AggregateState → ℕ → AggregateState
  aggregate_state_add state value =
      let min_value = if state.count == 0 then value else state.min_value in
      let max_value = if state.count == 0 then value else state.max_value in
      record {
        count = u64 (state.count + 1);
        min_value = if d.lt value min_value then value else min_value;
        max_value = if d.lt max_value value then value else max_value;
        sum_value = d.add state.sum_value value;
      }

  unfoldable pub aggregate_state_add_block : AggregateState → BlockHeader → AggregateState
  aggregate_state_add_block state h =
      let min_value = if state.count == 0 then h.min_value else state.min_value in
      let max_value = if state.count == 0 then h.max_value else state.max_value in
      record {
        count = u64 (state.count + h.point_count);
        min_value = if d.lt h.min_value min_value then h.min_value else min_value;
        max_value = if d.lt max_value h.max_value then h.max_value else max_value;
        sum_value = d.add state.sum_value h.sum_value;
      }

  -- The loop of `aggregate_partial_block` over the decoded points.
  unfoldable pub add_in_range : ℕ → ℕ → AggregateState → List Point → AggregateState
  add_in_range from_timestamp to_timestamp state [] = state
  add_in_range from_timestamp to_timestamp state (p ∷ points) =
      add_in_range from_timestamp to_timestamp
        (if in_range from_timestamp to_timestamp p
          then aggregate_state_add state p.value
          else state)
        points

  module _ (stdio : Stdio) (alloc : ℕ → Bool) where
    -- `aggregate_partial_block`; an error leaves the state as it is.
    unfoldable pub aggregate_partial_block :
        List ℕ → BlockHeader → ℕ → ℕ → AggregateState → Result AggregateState
    aggregate_partial_block cursor h from_timestamp to_timestamp state = do
      (points, end) ← decode_points alloc cursor h
      ok (add_in_range from_timestamp to_timestamp state points)

    -- A block behind its header: the statistics, or the points.
    unfoldable pub aggregate_header :
        Option (BlockHeader × List ℕ) → ℕ → ℕ → AggregateState → Result AggregateState
    aggregate_header none from_timestamp to_timestamp state = err corrupt
    aggregate_header (some (h, cursor)) from_timestamp to_timestamp state =
        let covered : Result AggregateState = (do
          end ← skip_payload cursor h
          fail_if (not stdio.seeks) io
          ok (aggregate_state_add_block state h)) in
        if block_fully_covered h from_timestamp to_timestamp
        then covered
        else aggregate_partial_block cursor h from_timestamp to_timestamp state

    -- One entry that meets the range.
    unfoldable pub aggregate_entry :
        List ℕ → IndexEntry → ℕ → ℕ → AggregateState → Result AggregateState
    aggregate_entry bytes e from_timestamp to_timestamp state = do
      fail_if (not stdio.seeks) io
      header ← read_header (drop e.offset bytes)
      aggregate_header header from_timestamp to_timestamp state

    -- The loop over the entries, up to the first error.
    unfoldable pub aggregate_loop :
        List ℕ → List IndexEntry → ℕ → ℕ → AggregateState → AggregateState × Result (Unit {0})
    aggregate_loop bytes [] from_timestamp to_timestamp state =
        (state, (if stdio.closes then ok tt else err io))
    aggregate_loop bytes (e ∷ entries) from_timestamp to_timestamp state =
        let more = aggregate_loop bytes entries from_timestamp to_timestamp in
        if block_intersects_index e from_timestamp to_timestamp
        then next_entry state (aggregate_entry bytes e from_timestamp to_timestamp state) more
        else more state

    -- `tsedge_segment_aggregate`: the state that it leaves, and its status.
    unfoldable pub aggregate :
        Option (List ℕ)
        → List IndexEntry
        → ℕ
        → ℕ
        → AggregateState
        → AggregateState × Result (Unit {0})
    aggregate file entries from_timestamp to_timestamp state =
        if lt64 to_timestamp from_timestamp
        then (state, err invalid_argument)
        else aggregate_file file entries
      where
        aggregate_file : Option (List ℕ) → List IndexEntry → AggregateState × Result (Unit {0})
        aggregate_file file [] = (state, ok tt)
        aggregate_file none (e ∷ entries) = (state, ok tt)
        aggregate_file (some bytes) (e ∷ entries) =
            if stdio.opens
            then aggregate_loop bytes (e ∷ entries) from_timestamp to_timestamp state
            else (state, err io)
