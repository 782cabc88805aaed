-- ===== src/Series/Query/Aggregate.antt =====
-- The aggregates over a range of `tsedge_series_aggregate` and `tsedge_series_aggregate_min_max`,
-- src/core/series_query.c.
pub mod Exact
pub mod Answers
use tsedge.Common.{
  ℕ, ◌+◌, Bool, true, false, ◌&&◌, List, [], ◌∷◌, ◌==◌, if◌then◌else◌, Result, ok, err, not_found,
  invalid_argument,
}
use tsedge.Point.{Point, lt64, le64}
use tsedge.Double.{Doubles}
use tsedge.Segment.{Stdio, IndexEntry}
use tsedge.Segment.Files.{make_path}
use tsedge.Segment.Reader.Aggregate.{AggregateState, add_in_range, aggregate}
use tsedge.Series.{Series, file_of}
use tsedge.Series.Query.{
  ReadStats, Pass, count_up, outside, count_skipped, count_decoded, count_total, with_path,
}

-- `tsedge_agg_type`; `other` is any number that names none.
pub data AggType : Type 0 where
  agg_min agg_max agg_sum agg_avg agg_count other : AggType

-- What memset leaves; the bits 0 are the double 0.
abbrev pub empty_state : AggregateState
empty_state = record { count = 0; min_value = 0; max_value = 0; sum_value = 0 }

unfoldable pub block_fully_covered_index : IndexEntry → ℕ → ℕ → Bool
block_fully_covered_index e from_timestamp to_timestamp =
    le64 from_timestamp e.min_timestamp && le64 e.max_timestamp to_timestamp

-- Only a block that is not covered is counted as decoded.
unfoldable pub count_aggregated : ReadStats → IndexEntry → ℕ → ℕ → ReadStats
count_aggregated stats e from_timestamp to_timestamp =
    if block_fully_covered_index e from_timestamp to_timestamp
    then record stats { blocks_scanned = count_up stats.blocks_scanned }
    else count_decoded stats e

unfoldable pub next_aggregate :
    AggregateState × Result (Unit {0})
    → ReadStats
    → (AggregateState → Pass AggregateState (Unit {0}))
    → Pass AggregateState (Unit {0})
next_aggregate (state, ok done) stats more = more state
next_aggregate (state, err e) stats more = record { state = state; stats = stats; result = err e }

-- The switch on the type.
unfoldable pub aggregate_result : Doubles → AggType → AggregateState → Result ℕ
aggregate_result d agg_min state = ok state.min_value
aggregate_result d agg_max state = ok state.max_value
aggregate_result d agg_sum state = ok state.sum_value
aggregate_result d agg_avg state = ok (d.div state.sum_value (d.of_u64 state.count))
aggregate_result d agg_count state = ok (d.of_u64 state.count)
aggregate_result d other state = err invalid_argument

abbrev pub counts : AggType → Bool
counts agg_count = true
counts agg_min = false
counts agg_max = false
counts agg_sum = false
counts agg_avg = false
counts other = false

-- The status, and what is made of the state if it is TSEDGE_OK.
unfoldable pub finish_query {ℓ} : {A : Type ℓ} → Result (Unit {0}) → Result A → Result A
finish_query (err e) result = err e
finish_query (ok done) result = result

module _ (d : Doubles) (calls : IndexEntry → Stdio) (alloc : ℕ → Bool) (s : Series) where
  module _ (from_timestamp to_timestamp : ℕ) where
    unfoldable pub aggregate_entry_of :
        IndexEntry → AggregateState → AggregateState × Result (Unit {0})
    aggregate_entry_of e state = with_path (make_path alloc s.dir_path e.segment_id) state (
        aggregate d (calls e) alloc (file_of s.files e.segment_id) (e ∷ []) from_timestamp
          to_timestamp state)

    unfoldable pub aggregate_entries :
        List IndexEntry → ReadStats → AggregateState → Pass AggregateState (Unit {0})
    aggregate_entries [] stats state = record { state = state; stats = stats; result = ok tt }
    aggregate_entries (e ∷ entries) stats state =
        let more = aggregate_entries entries in
        let counted = count_aggregated stats e from_timestamp to_timestamp in
        if outside e from_timestamp to_timestamp
        then more (count_skipped stats) state
        else next_aggregate (aggregate_entry_of e state) counted (more counted)

    -- The buffer; `aggregate_add_value` is `aggregate_state_add` once more.
    unfoldable pub aggregate_buffer :
        Pass AggregateState (Unit {0}) → Pass AggregateState (Unit {0})
    aggregate_buffer pass =
        next_aggregate (pass.state, pass.result) pass.stats
          λ state. record {
            state = add_in_range d from_timestamp to_timestamp state s.buffer;
            stats = pass.stats;
            result = ok tt;
          }

    -- `aggregate_series_state`.
    unfoldable pub aggregate_series_state :
        ReadStats → AggregateState → Pass AggregateState (Unit {0})
    aggregate_series_state stats state =
        if lt64 to_timestamp from_timestamp
        then record { state = state; stats = stats; result = err invalid_argument }
        else aggregate_buffer (aggregate_entries s.block_index (count_total stats s) empty_state)

  -- `tsedge_series_aggregate`: the counters, and the status with `*out_result`.
  unfoldable pub series_aggregate : ReadStats → ℕ → ℕ → AggType → ReadStats × Result ℕ
  series_aggregate stats from_timestamp to_timestamp type =
      let pass = aggregate_series_state from_timestamp to_timestamp stats empty_state in
      let state = pass.state in
      if lt64 to_timestamp from_timestamp then (stats, err invalid_argument) else (
        pass.stats,
        finish_query pass.result (
            if state.count == 0 && (if counts type then false else true)
            then err not_found
            else aggregate_result d type state),
      )

  -- `tsedge_series_aggregate_min_max`: the counters, and the status with `*out_min` and `*out_max`.
  unfoldable pub series_aggregate_min_max : ReadStats → ℕ → ℕ → ReadStats × Result (ℕ × ℕ)
  series_aggregate_min_max stats from_timestamp to_timestamp =
      let pass = aggregate_series_state from_timestamp to_timestamp stats empty_state in
      let state = pass.state in
      if lt64 to_timestamp from_timestamp then (stats, err invalid_argument) else (
        pass.stats,
        finish_query pass.result
            (if state.count == 0 then err not_found else ok (state.min_value, state.max_value)),
      )
