-- ===== src/Segment/Reader/Aggregate/Range.antt =====
-- `tsedge_segment_aggregate` against the points of the file that are in the range.
use tsedge.Common.{
  ℕ, ◌+◌, ◌^◌, ◌<◌, ◌≡◌, refl, sym, ◌∙◌, ap, Bool, Bool-cases, true, false, some, List, [], ◌∷◌,
  ◌++◌, inl, inr, arith, ltb, length, length-append, fail_if-eq-ok, >>=-eq-ok, ok-injective,
  ok-pair_injective, internal, ◌-◌, ◌||◌, length-select, select, select-append, All, ok,
}
use tsedge.Point.{Point, lt64}
use tsedge.Double.{Doubles}
use tsedge.Block.{BlockHeader}
use tsedge.Segment.{make_header, filled_header, prepare_block, Stdio}
use tsedge.Segment.TimeBounds.{Within}
use tsedge.Segment.Stored.{Gives}
use tsedge.Segment.Append.{Works}
use tsedge.Segment.Layout.{StoredBlock, file_bytes, entries_from, stored_points}
use tsedge.Segment.Reader.{block_fully_covered, in_range}
use tsedge.Segment.Reader.Aggregate.{AggregateState, aggregate_state_add, add_in_range, aggregate}
use tsedge.Segment.Reader.Aggregate.Summary.{add_stored, summary, aggregate-summary}
use tsedge.Compress.{compress_timestamps, compress_values}
use tsedge.Block.{write_header, write_payload}
use tsedge.Segment.Reader.Aggregate.Ranks.{
  Ranks, Describes, Readable, Number, Numbers, Adds, Adds-nil, Adds-append,
  aggregate_state_add-Adds, aggregate_state_add_block-Adds,
}

module _ (d : Doubles) (r : Ranks d) (from_timestamp to_timestamp : ℕ) where
  abbrev pub selected : List Point → List Point
  selected points = select (in_range from_timestamp to_timestamp) points

  -- The points of a block that are in the range.
  pub add_in_range-Adds :
      (s : AggregateState) (points : List Point)
      → All (λ q. Number d r q.value) points
      → Numbers d r s
      → s.count + length points < 2 ^ 64
      → Adds d r s (selected points) (add_in_range d from_timestamp to_timestamp s points)
  unfolding add_in_range
  add_in_range-Adds s [] hs numbers fits = Adds-nil d r s numbers
  add_in_range-Adds s (p ∷ points) (hp, hs) numbers fits =
      elim (Bool-cases (in_range from_timestamp to_timestamp p)) [
        | inr out ↦ rw out (add_in_range-Adds s points hs numbers (omega arith))
        | inl within ↦
            let here = aggregate_state_add-Adds d r s p hp numbers (omega arith) in
            let count : (aggregate_state_add d s p.value).count ≡ s.count + 1 = here.count in
            rw within (
              Adds-append d r s (aggregate_state_add d s p.value) _ (p ∷ []) (selected points) here
                (add_in_range-Adds (aggregate_state_add d s p.value) points hs here.numbers
                  (omega arith)))
      ]

  selected_whole :
      (h : BlockHeader) (points : List Point)
      → All (Within h.min_timestamp h.max_timestamp) points
      → block_fully_covered h from_timestamp to_timestamp ≡ true
      → selected points ≡ points
  unfolding block_fully_covered in_range
  selected_whole h [] all covered = refl
  selected_whole h (p ∷ points) (here, all) covered =
      let within : in_range from_timestamp to_timestamp p ≡ true = ground arith in
      rw (within, selected_whole h points all covered) refl

  add_stored-Adds :
      (s : AggregateState) (b : StoredBlock)
      → Readable d r b
      → Numbers d r s
      → s.count + length b.points < 2 ^ 64
      → Adds d r s (selected b.points) (add_stored d from_timestamp to_timestamp s b)
  unfolding add_stored
  add_stored-Adds s b (described, hs) numbers fits =
      elim (Bool-cases (block_fully_covered b.header from_timestamp to_timestamp)) [
        | inr partly ↦ rw partly (add_in_range-Adds s b.points hs numbers fits)
        | inl covered ↦
            rw (covered, selected_whole b.header b.points b.stored.within covered)
              (aggregate_state_add_block-Adds d r s b.points b.header described hs numbers
                b.stored.is_header.points b.stored.count fits)
      ]

  pub summary-Adds :
      (s : AggregateState) (blocks : List StoredBlock)
      → All (Readable d r) blocks
      → Numbers d r s
      → s.count + length (stored_points blocks) < 2 ^ 64
      → Adds d r s
          (selected (stored_points blocks))
          (summary d from_timestamp to_timestamp s blocks)
  unfolding summary stored_points
  summary-Adds s [] hs numbers fits = Adds-nil d r s numbers
  summary-Adds s (b ∷ blocks) (hb, hs) numbers fits =
      let total = length-append b.points (stored_points blocks) in
      let test = in_range from_timestamp to_timestamp in
      let s' = add_stored d from_timestamp to_timestamp s b in
      let here = add_stored-Adds s b hb numbers (omega arith) in
      let fewer = length-select test b.points in
      rw (select-append test b.points (stored_points blocks)) (
        Adds-append d r s s' _ (selected b.points) (selected (stored_points blocks)) here
          (summary-Adds s' blocks hs here.numbers (omega (arith, here.count, fewer))))

-- The aggregate of a range that is not empty the wrong way round, on a file of whole blocks and its
-- index. Suppose that every call on the FILE succeeds, that malloc gives what a block needs, that
-- the headers state the extrema that the writer computes, that the processor compares the values by
-- rank, none being a NaN, and that the count stays below 2 ^ 64. Then the status is TSEDGE_OK; the
-- count has grown by the number of points in the range, both ends included; and the minimum and the
-- maximum have the rank of the smallest and the largest value among the old ones and these points.
pub aggregate-Adds :
    (d : Doubles) (r : Ranks d) (stdio : Stdio) (alloc : ℕ → Bool) (segment_id : ℕ)
    (blocks : List StoredBlock) (from_timestamp to_timestamp : ℕ) (state : AggregateState)
    → Works stdio
    → Gives alloc
    → lt64 to_timestamp from_timestamp ≡ false
    → All (Readable d r) blocks
    → Numbers d r state
    → state.count + length (stored_points blocks) < 2 ^ 64
    → let (state', status) =
        aggregate d stdio alloc
          (some (file_bytes blocks))
          (entries_from segment_id 0 blocks)
          from_timestamp
          to_timestamp
          state in
      (status ≡ ok tt)
      × Adds d r state (select (in_range from_timestamp to_timestamp) (stored_points blocks)) state'
aggregate-Adds d r stdio alloc segment_id blocks from_timestamp to_timestamp state works gives order
      readable numbers fits =
    rw
      (aggregate-summary d from_timestamp to_timestamp stdio works alloc gives segment_id blocks
        state order)
      (refl, summary-Adds d r from_timestamp to_timestamp state blocks readable numbers fits)

make_header-Describes :
    (d : Doubles) (points : List Point) (timestamp_size value_size : ℕ) (h : BlockHeader)
    → make_header d points timestamp_size value_size ≡ ok h
    → Describes d points h
unfolding make_header filled_header
make_header-Describes d [] timestamp_size value_size h e = tt
make_header-Describes d (p ∷ points) timestamp_size value_size h e =
    let count = length (p ∷ points) in
    let (fits, e') =
      fail_if-eq-ok
        (ltb (2 ^ 32 - 1) count || (ltb (2 ^ 32 - 1) timestamp_size || ltb (2 ^ 32 - 1) value_size))
        internal _ e in
    let (fits', e'') =
      fail_if-eq-ok (ltb (2 ^ 32 - 1) (timestamp_size + value_size)) internal _ e' in
    let same = ok-injective e'' in
    (
      sym (ap (λ (g : BlockHeader). g.min_value) same),
      sym (ap (λ (g : BlockHeader). g.max_value) same),
    )

-- What the writer stores as extrema: `aggregate-Adds` applies to every block that it builds.
pub prepare_block-Describes :
    (d : Doubles) (alloc : ℕ → Bool) (points : List Point) (h : BlockHeader) (block : List ℕ)
    → prepare_block d alloc points ≡ ok (h, block)
    → Describes d points h
unfolding prepare_block
prepare_block-Describes d alloc points h block e =
    let (t, t_ok, e1) = >>=-eq-ok (compress_timestamps alloc points) _ e in
    let (v, v_ok, e2) = >>=-eq-ok (compress_values alloc points) _ e1 in
    let (h', h_ok, e3) = >>=-eq-ok (make_header d points t.size v.size) _ e2 in
    let (buf, buf_ok, e4) = >>=-eq-ok (write_header h') _ e3 in
    let (same, same_block) =
      ok-pair_injective h' h (buf ++ write_payload t.bytes v.bytes) block e4 in
    make_header-Describes d points t.size v.size h (h_ok ∙ ap ok same)
