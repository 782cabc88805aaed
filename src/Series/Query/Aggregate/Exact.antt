-- ===== src/Series/Query/Aggregate/Exact.antt =====
-- The aggregates of src/core/series_query.c against the points of the series that are in the range.
use tsedge.Common.{
  ℕ, ◌^◌, ◌≤◌, ◌<◌, ◌≡◌, refl, ap, sym, subst, Bool, Bool-cases, true, false, some, List, ◌∷◌, ◌++◌,
  inl, inr, arith, length, length-append, length-select, select, select-append, All, Result, ok,
}
use tsedge.Point.{Point, lt64}
use tsedge.Double.{Doubles}
use tsedge.Segment.{Stdio, IndexEntry, fill_index_entry}
use tsedge.Segment.Files.Names.{make_path_total}
use tsedge.Segment.Append.{Works}
use tsedge.Segment.Scan.{Plenty}
use tsedge.Segment.Layout.{StoredBlock, block_bytes}
use tsedge.Segment.Reader.{block_intersects_index, in_range}
use tsedge.Segment.Reader.Aggregate.{
  AggregateState, add_in_range, aggregate, aggregate_loop, next_entry,
}
use tsedge.Segment.Reader.Aggregate.Summary.{
  add_stored, summary, add_stored-ruled_out, aggregate_entry-stored,
}
use tsedge.Segment.Reader.Aggregate.Ranks.{Ranks, Number, Numbers, Readable, Adds, Adds-append}
use tsedge.Segment.Reader.Aggregate.Range.{add_in_range-Adds, summary-Adds}
use tsedge.Series.{Series, file_of}
use tsedge.Series.Disk.{StoredSegment, disk_points, Stores, visible}
use tsedge.Series.Query.{ReadStats, outside, with_path, count_skipped, count_total}
use tsedge.Series.Query.Found.{
  Found, disk_files-Found, disk_blocks, stored_points-disk_blocks, over_segments,
}
use tsedge.Series.Query.Range.{outside_lem, answer}
use tsedge.Series.Query.Aggregate.{
  empty_state, count_aggregated, next_aggregate, aggregate_entry_of, aggregate_entries,
  aggregate_buffer, aggregate_series_state,
}

module _ (d : Doubles) (calls : IndexEntry → Stdio) (works : (e : IndexEntry) → Works (calls e))
    (alloc : ℕ → Bool) (plenty : Plenty alloc) (s : Series) (from_timestamp to_timestamp : ℕ)
    (order : lt64 to_timestamp from_timestamp ≡ false) where
  aggregate_entry_of-stored :
      (id : ℕ) (front rest : List ℕ) (b : StoredBlock) (state : AggregateState)
      → 1 ≤ id
      → file_of s.files id ≡ some (front ++ (block_bytes b ++ rest))
      → block_intersects_index
          (fill_index_entry id (length front) b.header)
          from_timestamp
          to_timestamp
        ≡ true
      → aggregate_entry_of d calls alloc s from_timestamp to_timestamp
          (fill_index_entry id (length front) b.header)
          state
        ≡ (add_stored d from_timestamp to_timestamp state b, ok tt)
  unfolding aggregate_entry_of with_path aggregate aggregate_loop next_entry fill_index_entry
  aggregate_entry_of-stored id front rest b state low file meets =
      let e = fill_index_entry id (length front) b.header in
      let (opens, seeks, tells, writes, closes) = works e in
      let (path, made) = make_path_total alloc s.dir_path id plenty low in
      let here =
        aggregate_entry-stored d from_timestamp to_timestamp (calls e) (works e) alloc
          (λ k fits. plenty k) id front rest b state in
      rw (made, order, file, meets, here, opens, closes) refl

  -- A loop over entries that adds these blocks, whatever the counters are.
  abbrev Sums : List IndexEntry → List StoredBlock → Type 0
  Sums entries blocks =
      (stats : ReadStats) (state : AggregateState)
      → answer (aggregate_entries d calls alloc s from_timestamp to_timestamp entries stats state)
        ≡ (summary d from_timestamp to_timestamp state blocks, ok tt)

  aggregate_entries-block :
      (id : ℕ) (front rest : List ℕ) (b : StoredBlock) (entries : List IndexEntry)
      (blocks : List StoredBlock)
      → 1 ≤ id
      → file_of s.files id ≡ some (front ++ (block_bytes b ++ rest))
      → Sums entries blocks
      → Sums (fill_index_entry id (length front) b.header ∷ entries) (b ∷ blocks)
  unfolding aggregate_entries next_aggregate summary
  aggregate_entries-block id front rest b entries blocks low file more stats state =
      let e = fill_index_entry id (length front) b.header in
      let test = outside_lem e from_timestamp to_timestamp in
      elim (Bool-cases (outside e from_timestamp to_timestamp)) [
        | inl out ↦
            rw
              (
                out,
                add_stored-ruled_out d from_timestamp to_timestamp id (length front) b state
                    (rw out at test) order,
              )
              (more (count_skipped stats) state)
        | inr meets ↦
            rw (meets, aggregate_entry_of-stored id front rest b state low file (rw meets at test))
              (more (count_aggregated stats e from_timestamp to_timestamp)
                (add_stored d from_timestamp to_timestamp state b))
      ]

  aggregate_entries-summary :
      (segments : List StoredSegment) (stats : ReadStats) (state : AggregateState)
      → Stores s segments
      → answer
          (aggregate_entries d calls alloc s from_timestamp to_timestamp s.block_index stats state)
        ≡ (summary d from_timestamp to_timestamp state (disk_blocks segments), ok tt)
  unfolding aggregate_entries summary
  aggregate_entries-summary segments stats state st =
      let found : Found s.files segments =
        rw st.files_eq (disk_files-Found _ segments st.ordered) in
      let pass =
        over_segments s.files Sums aggregate_entries-block s.active_segment_id segments st.ordered
          found (λ stats' state'. refl) in
      subst
        (λ (entries : List IndexEntry).
          answer (aggregate_entries d calls alloc s from_timestamp to_timestamp entries stats state)
          ≡ (summary d from_timestamp to_timestamp state (disk_blocks segments), ok tt))
        (sym st.index_eq) (pass stats state)

  aggregate_series_state-summary :
      (segments : List StoredSegment) (stats : ReadStats) (state : AggregateState)
      → Stores s segments
      → answer (aggregate_series_state d calls alloc s from_timestamp to_timestamp stats state) ≡ (
        add_in_range d from_timestamp to_timestamp
            (summary d from_timestamp to_timestamp empty_state (disk_blocks segments))
            s.buffer,
        ok tt,
      )
  unfolding aggregate_series_state aggregate_buffer next_aggregate
  aggregate_series_state-summary segments stats state st =
      let loop = aggregate_entries-summary segments (count_total stats s) empty_state st in
      rw
        (
          order,
          ap (λ (t : AggregateState × Result (Unit {0})). t.1) loop,
          ap (λ (t : AggregateState × Result (Unit {0})). t.0) loop,
        )
        refl

-- The values of a series are numbers, and the headers of its blocks state their extrema.
pub record Sound {d : Doubles} (r : Ranks d) (s : Series) (segments : List StoredSegment)
    : Type 0 where
  pub blocks : All (Readable d r) (disk_blocks segments)
  pub buffer : All (λ (p : Point). Number d r p.value) s.buffer
  pub zero_number : Number d r 0
  pub fewer : length (visible s segments) < 2 ^ 64

module _ (d : Doubles) (r : Ranks d) (calls : IndexEntry → Stdio) (alloc : ℕ → Bool) (s : Series)
    (segments : List StoredSegment) (from_timestamp to_timestamp : ℕ)
    (works : (e : IndexEntry) → Works (calls e)) (plenty : Plenty alloc) (st : Stores s segments)
    (sound : Sound r s segments) (order : lt64 to_timestamp from_timestamp ≡ false) where
  -- The points of the series in the range.
  abbrev pub hits : List Point
  hits = select (in_range from_timestamp to_timestamp) (visible s segments)

  pub aggregate_series_state-Adds :
      (stats : ReadStats) (state : AggregateState)
      → let pass = aggregate_series_state d calls alloc s from_timestamp to_timestamp stats state in
        (pass.result ≡ ok tt) × Adds d r empty_state hits pass.state
  aggregate_series_state-Adds stats state =
      let test = in_range from_timestamp to_timestamp in
      let total = length-append (disk_points segments) s.buffer in
      let same = stored_points-disk_blocks segments in
      let below = sound.fewer in
      let start : Numbers d r empty_state = (sound.zero_number, sound.zero_number) in
      let on_disk : Adds d r empty_state (select test (disk_points segments))
          (summary d from_timestamp to_timestamp empty_state (disk_blocks segments)) =
        rw same at (
          summary-Adds d r from_timestamp to_timestamp empty_state (disk_blocks segments)
            sound.blocks start (rw same (omega (arith, below, total)))) in
      let in_memory =
        add_in_range-Adds d r from_timestamp to_timestamp
          (summary d from_timestamp to_timestamp empty_state (disk_blocks segments)) s.buffer
          sound.buffer on_disk.numbers
          (omega (arith, on_disk.count, length-select test (disk_points segments), below, total)) in
      let final =
        aggregate_series_state-summary d calls works alloc plenty s from_timestamp to_timestamp
          order segments stats state st in
      (
        ap (λ (t : AggregateState × Result (Unit {0})). t.1) final,
        rw
            (
              ap (λ (t : AggregateState × Result (Unit {0})). t.0) final,
              select-append test (disk_points segments) s.buffer,
            )
            (Adds-append d r empty_state _ _ (select test (disk_points segments))
              (select test s.buffer) on_disk in_memory),
      )
