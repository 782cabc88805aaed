-- ===== src/Segment/Reader/Aggregate/Summary.antt =====
-- The loop of `tsedge_segment_aggregate` over whole blocks is a pass over those blocks.
use tsedge.Common.{
  ℕ, ◌≡◌, refl, Bool, Bool-cases, false, some, List, [], ◌∷◌, ◌++◌, append_assoc, inl, inr, arith,
  if◌then◌else◌, length, length-append, drop-append, All, ok,
}
use tsedge.Point.{Point, lt64}
use tsedge.Double.{Doubles}
use tsedge.Block.{BlockHeader, IsHeader}
use tsedge.Segment.Scan.{skip_payload-IsHeader}
use tsedge.Segment.{Stdio, fill_index_entry}
use tsedge.Segment.TimeBounds.{Within}
use tsedge.Segment.Stored.{Gives}
use tsedge.Segment.Append.{Works}
use tsedge.Segment.Layout.{StoredBlock, block_bytes, file_bytes, entries_from}
use tsedge.Segment.Reader.{block_intersects_index, block_fully_covered}
use tsedge.Segment.Reader.Range.{in_range-ruled_out}
use tsedge.Segment.Reader.Aggregate.{
  AggregateState, aggregate_state_add_block, add_in_range, aggregate_partial_block,
  aggregate_header, aggregate_entry, aggregate_loop, aggregate, next_entry,
}

module _ (d : Doubles) (from_timestamp to_timestamp : ℕ) where
  -- What a block adds: its statistics if it lies in the range, else its points that do.
  unfoldable pub add_stored : AggregateState → StoredBlock → AggregateState
  add_stored state b =
      if block_fully_covered b.header from_timestamp to_timestamp
      then aggregate_state_add_block d state b.header
      else add_in_range d from_timestamp to_timestamp state b.points

  unfoldable pub summary : AggregateState → List StoredBlock → AggregateState
  summary state [] = state
  summary state (b ∷ blocks) = summary (add_stored state b) blocks

  covered-intersects :
      (segment_id offset : ℕ) (h : BlockHeader)
      → IsHeader h
      → block_intersects_index (fill_index_entry segment_id offset h) from_timestamp to_timestamp
        ≡ false
      → lt64 to_timestamp from_timestamp ≡ false
      → block_fully_covered h from_timestamp to_timestamp ≡ false
  unfolding block_intersects_index block_fully_covered fill_index_entry
  covered-intersects segment_id offset h is_header out order =
      let ordered = is_header.ordered in ground arith

  add_in_range-ruled_out :
      (segment_id offset : ℕ) (h : BlockHeader) (state : AggregateState) (points : List Point)
      → All (Within h.min_timestamp h.max_timestamp) points
      → block_intersects_index (fill_index_entry segment_id offset h) from_timestamp to_timestamp
        ≡ false
      → add_in_range d from_timestamp to_timestamp state points ≡ state
  unfolding add_in_range
  add_in_range-ruled_out segment_id offset h state [] all out = refl
  add_in_range-ruled_out segment_id offset h state (p ∷ points) (here, all) out =
      rw
        (in_range-ruled_out (λ seen. false) from_timestamp to_timestamp segment_id offset h p here
          out)
        (add_in_range-ruled_out segment_id offset h state points all out)

  -- A block that the index rules out adds nothing.
  pub add_stored-ruled_out :
      (segment_id offset : ℕ) (b : StoredBlock) (state : AggregateState)
      → block_intersects_index
          (fill_index_entry segment_id offset b.header)
          from_timestamp
          to_timestamp
        ≡ false
      → lt64 to_timestamp from_timestamp ≡ false
      → add_stored state b ≡ state
  unfolding add_stored
  add_stored-ruled_out segment_id offset b state out order =
      rw (covered-intersects segment_id offset b.header b.stored.is_header out order)
        (add_in_range-ruled_out segment_id offset b.header state b.points b.stored.within out)

  module _ (stdio : Stdio) (works : Works stdio) (alloc : ℕ → Bool) (gives : Gives alloc) where
    aggregate_header-stored :
        (rest : List ℕ) (b : StoredBlock) (state : AggregateState)
        → aggregate_header d stdio alloc
            (some (b.header, b.payload ++ rest))
            from_timestamp
            to_timestamp
            state
          ≡ ok (add_stored state b)
    unfolding aggregate_header aggregate_partial_block add_stored
    aggregate_header-stored rest b state =
        let (opens, seeks, tells, writes, closes) = works in
        elim (Bool-cases (block_fully_covered b.header from_timestamp to_timestamp)) [
          | inl covered ↦
              rw
                (
                  covered,
                  skip_payload-IsHeader b.header (b.payload ++ rest) b.stored.is_header,
                  seeks,
                )
                refl
          | inr partly ↦ rw (partly, b.stored.decodes alloc rest gives) refl
        ]

    pub aggregate_entry-stored :
        (segment_id : ℕ) (front rest : List ℕ) (b : StoredBlock) (state : AggregateState)
        → aggregate_entry d stdio alloc
            (front ++ (block_bytes b ++ rest))
            (fill_index_entry segment_id (length front) b.header)
            from_timestamp
            to_timestamp
            state
          ≡ ok (add_stored state b)
    unfolding aggregate_entry fill_index_entry
    aggregate_entry-stored segment_id front rest b state =
        let (opens, seeks, tells, writes, closes) = works in
        rw
          (
            aggregate_entry,
            drop-append (length front) front (block_bytes b ++ rest) refl,
            append_assoc b.buf b.payload rest,
            b.stored.reads_header (b.payload ++ rest),
            aggregate_header-stored rest b state,
            seeks,
          )
          refl

    pub aggregate_loop-summary :
        (segment_id : ℕ) (front : List ℕ) (blocks : List StoredBlock) (state : AggregateState)
        → lt64 to_timestamp from_timestamp ≡ false
        → aggregate_loop d stdio alloc
            (front ++ file_bytes blocks)
            (entries_from segment_id (length front) blocks)
            from_timestamp
            to_timestamp
            state
          ≡ (summary state blocks, ok tt)
    unfolding aggregate_loop next_entry file_bytes entries_from summary
    aggregate_loop-summary segment_id front [] state order =
        let (opens, seeks, tells, writes, closes) = works in rw closes refl
    aggregate_loop-summary segment_id front (b ∷ blocks) state order =
        let more : (s : AggregateState) → _ = λ s.
          rw
            (
              append_assoc front (block_bytes b) (file_bytes blocks),
              length-append front (block_bytes b),
            )
            at (aggregate_loop-summary segment_id (front ++ block_bytes b) blocks s order) in
        elim (Bool-cases (
          block_intersects_index (fill_index_entry segment_id (length front) b.header)
            from_timestamp to_timestamp)) [
              | inr out ↦
                  rw (out, add_stored-ruled_out segment_id (length front) b state out order)
                    (more state)
              | inl meets ↦
                  rw (meets, aggregate_entry-stored segment_id front (file_bytes blocks) b state)
                    (more (add_stored state b))
            ]

    -- On a file of whole blocks and its index the status is TSEDGE_OK.
    pub aggregate-summary :
        (segment_id : ℕ) (blocks : List StoredBlock) (state : AggregateState)
        → lt64 to_timestamp from_timestamp ≡ false
        → aggregate d stdio alloc
            (some (file_bytes blocks))
            (entries_from segment_id 0 blocks)
            from_timestamp
            to_timestamp
            state
          ≡ (summary state blocks, ok tt)
    unfolding aggregate aggregate_loop aggregate_entry aggregate_header aggregate_partial_block
    aggregate-summary segment_id [] state order =
        unfold file_bytes entries_from summary in rw order refl
    aggregate-summary segment_id (b ∷ blocks) state order =
        let (opens, seeks, tells, writes, closes) = works in
        let pass = aggregate_loop-summary segment_id [] (b ∷ blocks) state order in
        unfold entries_from in rw (order, opens) pass
