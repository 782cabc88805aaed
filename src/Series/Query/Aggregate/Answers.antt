-- ===== src/Series/Query/Aggregate/Answers.antt =====
-- What `tsedge_series_aggregate` and `tsedge_series_aggregate_min_max` of src/core/series_query.c answer.
use Prim.Native.Nat.{min, max}
use tsedge.Common.{
  ℕ, ◌≡◌, refl, ap, subst, Bool, Bool-cases, true, false, List, [], ◌∷◌, inl, inr, arith, ◌==◌,
  length, select, ok, err, not_found,
}
use tsedge.Point.{Point, lt64}
use tsedge.Double.{Doubles}
use tsedge.Segment.{Stdio, IndexEntry}
use tsedge.Segment.Append.{Works}
use tsedge.Segment.Scan.{Plenty}
use tsedge.Segment.Reader.{in_range}
use tsedge.Segment.Reader.Aggregate.{AggregateState}
use tsedge.Segment.Reader.Aggregate.Join.{join_all, join_onto}
use tsedge.Segment.Reader.Aggregate.Ranks.{Ranks, Adds, ranks}
use tsedge.Series.{Series}
use tsedge.Series.Disk.{StoredSegment, Stores, visible}
use tsedge.Series.Query.{ReadStats}
use tsedge.Series.Query.Aggregate.{
  empty_state, agg_count, aggregate_series_state, aggregate_result, finish_query, series_aggregate,
  series_aggregate_min_max,
}
use tsedge.Series.Query.Aggregate.Exact.{Sound, aggregate_series_state-Adds}

-- The extrema of a state that has come from the empty one.
state_extrema :
    (d : Doubles) (r : Ranks d) (p : Point) (points : List Point) (state : AggregateState)
    → Adds d r empty_state (p ∷ points) state
    → (state.count == 0 ≡ false)
      × (r.rank state.min_value ≡ join_all min (r.rank p.value) (ranks d r points))
      × (r.rank state.max_value ≡ join_all max (r.rank p.value) (ranks d r points))
unfolding join_onto
state_extrema d r p points state adds =
    let counted = adds.count in
    let some_point : state.count == 0 ≡ false = ground arith in
    let low = rw some_point at adds.low in
    let high = rw some_point at adds.high in (some_point, cc, cc)

-- What `tsedge_series_aggregate_min_max` answers for a range that is not empty the wrong way round, on
-- a series that agrees with its directory, whose values are no NaNs and whose headers state the
-- extrema that the writer computes; every call on a FILE succeeds and malloc never fails.
-- * No point of the series is in the range: TSEDGE_ERR_NOT_FOUND.
-- * Otherwise TSEDGE_OK with two values whose ranks are the least and the greatest rank of the values
--   of these points, on disk or in memory, both ends of the range included.
pub series_aggregate_min_max-Adds :
    (d : Doubles) (r : Ranks d) (calls : IndexEntry → Stdio) (alloc : ℕ → Bool) (s : Series)
    (segments : List StoredSegment) (from_timestamp to_timestamp : ℕ) (stats : ReadStats)
    → ((e : IndexEntry) → Works (calls e))
    → Plenty alloc
    → Stores s segments
    → Sound r s segments
    → lt64 to_timestamp from_timestamp ≡ false
    → let hits = select (in_range from_timestamp to_timestamp) (visible s segments) in
      let answered =
        (series_aggregate_min_max d calls alloc s stats from_timestamp to_timestamp).1 in
      (hits ≡ [] → answered ≡ err not_found)
      × ((p : Point) (points : List Point)
          → hits ≡ p ∷ points
          → (low : ℕ) × (high : ℕ) × (answered ≡ ok (low, high))
            × (r.rank low ≡ join_all min (r.rank p.value) (ranks d r points))
            × (r.rank high ≡ join_all max (r.rank p.value) (ranks d r points)))
unfolding series_aggregate_min_max finish_query
series_aggregate_min_max-Adds d r calls alloc s segments from_timestamp to_timestamp stats works
      plenty st sound order =
    let (status, adds) =
      aggregate_series_state-Adds d r calls alloc s segments from_timestamp to_timestamp works
        plenty st sound order stats empty_state in
    let state =
      (aggregate_series_state d calls alloc s from_timestamp to_timestamp stats
        empty_state).state in
    (
      λ nothing.
          let counted = adds.count in
          let none_in : state.count == 0 ≡ true = ground (arith, ap length nothing) in
          rw (order, status, none_in) refl,
      λ p points found.
          let (some_point, low, high) =
            state_extrema d r p points state
              (subst (λ (t : List Point). Adds d r empty_state t state) found adds) in
          (state.min_value, state.max_value, rw (order, status, some_point) refl, low, high),
    )

-- Under the same conditions `tsedge_series_aggregate` answers a count with TSEDGE_OK and the number of
-- points of the series in the range, also where it is 0, converted to a double.
pub series_aggregate_count :
    (d : Doubles) (r : Ranks d) (calls : IndexEntry → Stdio) (alloc : ℕ → Bool) (s : Series)
    (segments : List StoredSegment) (from_timestamp to_timestamp : ℕ) (stats : ReadStats)
    → ((e : IndexEntry) → Works (calls e))
    → Plenty alloc
    → Stores s segments
    → Sound r s segments
    → lt64 to_timestamp from_timestamp ≡ false
    → (series_aggregate d calls alloc s stats from_timestamp to_timestamp agg_count).1
      ≡ ok (d.of_u64 (length (select (in_range from_timestamp to_timestamp) (visible s segments))))
unfolding series_aggregate finish_query aggregate_result
series_aggregate_count d r calls alloc s segments from_timestamp to_timestamp stats works plenty st
      sound order =
    let (status, adds) =
      aggregate_series_state-Adds d r calls alloc s segments from_timestamp to_timestamp works
        plenty st sound order stats empty_state in
    let state =
      (aggregate_series_state d calls alloc s from_timestamp to_timestamp stats
        empty_state).state in
    let hits = length (select (in_range from_timestamp to_timestamp) (visible s segments)) in
    let counted : state.count ≡ hits = omega (arith, adds.count) in
    rw (order, status, counted)
      (elim (Bool-cases (hits == 0)) [ inl nothing ↦ rw nothing refl | inr found ↦ rw found refl ])
