-- ===== src/Series/Query/Range.antt =====
-- `tsedge_series_read_range` of src/core/series_query.c against a pass over all points of the series.
use tsedge.Common.{
  ℕ, ◌≤◌, ◌≡◌, refl, ap, sym, subst, Bool, Bool-cases, true, false, some, List, ◌∷◌, ◌++◌, inl, inr,
  arith, if◌then◌else◌, length, select, Result, ok,
}
use tsedge.Point.{Point, lt64}
use tsedge.Segment.{Stdio, IndexEntry, fill_index_entry}
use tsedge.Segment.Files.Names.{make_path_total}
use tsedge.Segment.Append.{Works}
use tsedge.Segment.Scan.{Plenty}
use tsedge.Segment.Layout.{StoredBlock, block_bytes, stored_points}
use tsedge.Segment.Reader.{
  block_intersects_index, in_range, deliver, after_block, indexed_loop, read_range_indexed,
}
use tsedge.Segment.Reader.Range.{
  visit, deliver-select, deliver-append, deliver-ruled_out, deliver_block-stored,
}
use tsedge.Series.{Series, file_of}
use tsedge.Series.Disk.{StoredSegment, disk_points, Stores, visible}
use tsedge.Series.Query.{
  ReadStats, Pass, outside, with_path, count_skipped, count_decoded, count_total, next_read,
  read_entry, read_entries, read_buffer, read_range,
}
use tsedge.Series.Query.Found.{Found, disk_files-Found, over_segments, stored_points-disk_blocks}

-- The two tests on an entry agree.
pub outside_lem :
    (e : IndexEntry) (from_timestamp to_timestamp : ℕ)
    → block_intersects_index e from_timestamp to_timestamp
      ≡ (if outside e from_timestamp to_timestamp then false else true)
unfolding block_intersects_index outside
outside_lem e from_timestamp to_timestamp = ground arith

-- What a read leaves, without the counters.
abbrev pub answer {ℓ κ} : {S : Type ℓ} {Output : Type κ} → Pass S Output → S × Result Output
answer pass = (pass.state, pass.result)

-- A pass that may have stopped, and its status.
abbrev stopped_ok : List Point × Bool → List Point × Result Bool
stopped_ok (seen, stopped) = (seen, ok stopped)

module _ (calls : IndexEntry → Stdio) (works : (e : IndexEntry) → Works (calls e))
    (alloc : ℕ → Bool) (plenty : Plenty alloc) (s : Series) (callback : List Point → Bool)
    (from_timestamp to_timestamp : ℕ) (order : lt64 to_timestamp from_timestamp ≡ false) where
  read_entry-stored :
      (id : ℕ) (front rest : List ℕ) (b : StoredBlock) (seen : List Point)
      → 1 ≤ id
      → file_of s.files id ≡ some (front ++ (block_bytes b ++ rest))
      → block_intersects_index
          (fill_index_entry id (length front) b.header)
          from_timestamp
          to_timestamp
        ≡ true
      → read_entry calls alloc s callback from_timestamp to_timestamp
          (fill_index_entry id (length front) b.header)
          seen
        ≡ stopped_ok (deliver callback from_timestamp to_timestamp b.points seen)
  unfolding read_entry with_path read_range_indexed indexed_loop after_block fill_index_entry
  read_entry-stored id front rest b seen low file meets =
      let e = fill_index_entry id (length front) b.header in
      let (opens, seeks, tells, writes, closes) = works e in
      let (path, made) = make_path_total alloc s.dir_path id plenty low in
      let here =
        deliver_block-stored (calls e) (works e) alloc (λ k fits. plenty k) callback from_timestamp
          to_timestamp id front rest b seen in
      let run = deliver callback from_timestamp to_timestamp b.points seen in
      rw (made, order, file, meets, here, opens)
        (elim (Bool-cases run.1) [ inl stop ↦ rw stop refl | inr go ↦ rw (go, closes) refl ])

  -- A loop over entries that leaves what a pass over the points of these blocks does, whatever the
  -- counters are.
  abbrev Delivers : List IndexEntry → List StoredBlock → Type 0
  Delivers entries blocks =
      (stats : ReadStats) (seen : List Point)
      → answer (read_entries calls alloc s callback from_timestamp to_timestamp entries stats seen)
        ≡ stopped_ok (deliver callback from_timestamp to_timestamp (stored_points blocks) seen)

  -- One more block in front.
  read_entries-block :
      (id : ℕ) (front rest : List ℕ) (b : StoredBlock) (entries : List IndexEntry)
      (blocks : List StoredBlock)
      → 1 ≤ id
      → file_of s.files id ≡ some (front ++ (block_bytes b ++ rest))
      → Delivers entries blocks
      → Delivers (fill_index_entry id (length front) b.header ∷ entries) (b ∷ blocks)
  unfolding read_entries next_read stored_points
  read_entries-block id front rest b entries blocks low file more stats seen =
      let e = fill_index_entry id (length front) b.header in
      let test = outside_lem e from_timestamp to_timestamp in
      let run = deliver callback from_timestamp to_timestamp b.points seen in
      rw (deliver-append callback from_timestamp to_timestamp b.points (stored_points blocks) seen)
        (elim (Bool-cases (outside e from_timestamp to_timestamp)) [
          | inl out ↦
              rw
                (
                  out,
                  deliver-ruled_out callback from_timestamp to_timestamp id (length front) b.header
                      b.points seen b.stored.within (rw out at test),
                )
                (more (count_skipped stats) seen)
          | inr meets ↦
              rw (meets, read_entry-stored id front rest b seen low file (rw meets at test))
                (elim (Bool-cases run.1) [
                  | inl stop ↦ rw stop refl
                  | inr go ↦ rw go (more (count_decoded stats e) run.0)
                ])
        ])

  read_entries-deliver :
      (segments : List StoredSegment) (stats : ReadStats) (seen : List Point)
      → Stores s segments
      → answer
          (read_entries calls alloc s callback from_timestamp to_timestamp s.block_index stats seen)
        ≡ stopped_ok (deliver callback from_timestamp to_timestamp (disk_points segments) seen)
  unfolding read_entries
  read_entries-deliver segments stats seen st =
      let found : Found s.files segments =
        rw st.files_eq (disk_files-Found _ segments st.ordered) in
      let pass =
        over_segments s.files Delivers read_entries-block s.active_segment_id segments st.ordered
          found (λ stats' seen'. unfold stored_points deliver in refl) in
      subst
        (λ (entries : List IndexEntry).
          answer
            (read_entries calls alloc s callback from_timestamp to_timestamp entries stats seen)
          ≡ stopped_ok (deliver callback from_timestamp to_timestamp (disk_points segments) seen))
        (sym st.index_eq) (rw (stored_points-disk_blocks segments) at (pass stats seen))

-- A read of a range that is not empty the wrong way round, on a series that agrees with its
-- directory: if every call on a FILE succeeds and malloc never fails, the callback gets the points of
-- the series with a timestamp in the range, both ends included, first those of all segments and then
-- those in memory, in order, up to the first one on which it asks to stop. The status is TSEDGE_OK.
pub read_range-visit :
    (calls : IndexEntry → Stdio) (alloc : ℕ → Bool) (s : Series) (segments : List StoredSegment)
    (callback : List Point → Bool) (from_timestamp to_timestamp : ℕ) (stats : ReadStats)
    (seen : List Point)
    → ((e : IndexEntry) → Works (calls e))
    → Plenty alloc
    → Stores s segments
    → lt64 to_timestamp from_timestamp ≡ false
    → let pass = read_range calls alloc s callback from_timestamp to_timestamp stats seen in
      (pass.result ≡ ok tt)
      × (pass.state
          ≡ (visit callback
              (select (in_range from_timestamp to_timestamp) (visible s segments))
              seen).0)
unfolding read_range read_buffer
read_range-visit calls alloc s segments callback from_timestamp to_timestamp stats seen works plenty
      st order =
    let run = deliver callback from_timestamp to_timestamp (disk_points segments) seen in
    let loop =
      read_entries calls alloc s callback from_timestamp to_timestamp s.block_index
        (count_total stats s) seen in
    let pass : answer loop ≡ stopped_ok run =
      read_entries-deliver calls works alloc plenty s callback from_timestamp to_timestamp order
        segments (count_total stats s) seen st in
    let state_eq : loop.state ≡ run.0 = ap (λ (t : List Point × Result Bool). t.0) pass in
    let result_eq : loop.result ≡ ok run.1 = ap (λ (t : List Point × Result Bool). t.1) pass in
    rw
      (
        order,
        ← deliver-select callback from_timestamp to_timestamp (visible s segments) seen,
        deliver-append callback from_timestamp to_timestamp (disk_points segments) s.buffer seen,
      )
      (elim (Bool-cases run.1) [
        | inl stop ↦ rw (result_eq, stop) (refl, state_eq)
        | inr go ↦ rw (result_eq, go, state_eq) (refl, refl)
      ])
