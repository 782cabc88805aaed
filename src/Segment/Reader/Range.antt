-- ===== src/Segment/Reader/Range.antt =====
-- `tsedge_segment_read_range_indexed` against a plain pass over the points of the file.
use tsedge.Common.{
  ℕ, ◌≡◌, refl, Bool, Bool-cases, true, false, some, List, [], ◌∷◌, ◌++◌, append_assoc, inl, inr,
  arith, if◌then◌else◌, length, length-append, drop-append, select, All, ok,
}
use tsedge.Point.{Point, lt64}
use tsedge.Block.{BlockHeader}
use tsedge.Segment.{Stdio, fill_index_entry}
use tsedge.Segment.TimeBounds.{Within}
use tsedge.Segment.Stored.{Gives}
use tsedge.Segment.Append.{Works}
use tsedge.Segment.Layout.{StoredBlock, block_bytes, file_bytes, entries_from, stored_points}
use tsedge.Segment.Reader.{
  block_intersects_index, in_range, deliver, deliver_block, after_block, indexed_loop,
  read_range_indexed,
}

-- Points handed to the callback until it asks to stop.
pub visit : (List Point → Bool) → List Point → List Point → List Point × Bool
visit callback [] seen = (seen, false)
visit callback (p ∷ points) seen =
    let seen' = seen ++ (p ∷ []) in
    let next = visit callback points seen' in if callback seen' then (seen', true) else next

module _ (callback : List Point → Bool) (from_timestamp to_timestamp : ℕ) where
  pub deliver-select :
      (points seen : List Point)
      → deliver callback from_timestamp to_timestamp points seen
        ≡ visit callback (select (in_range from_timestamp to_timestamp) points) seen
  unfolding deliver visit
  deliver-select [] seen = refl
  deliver-select (p ∷ points) seen = elim (Bool-cases (in_range from_timestamp to_timestamp p)) [
    | inr out ↦ rw out (deliver-select points seen)
    | inl within ↦ elim (Bool-cases (callback (seen ++ (p ∷ [])))) [
      | inl stop ↦ rw (within, stop) refl
      | inr more ↦ rw (within, more) (deliver-select points (seen ++ (p ∷ [])))
    ]
  ]

  -- A pass over two lists goes on in the second unless it stopped in the first.
  pub deliver-append :
      (xs ys seen : List Point)
      → deliver callback from_timestamp to_timestamp (xs ++ ys) seen ≡ (
          let (seen', stopped) = deliver callback from_timestamp to_timestamp xs seen in
          if stopped then (seen', true) else deliver callback from_timestamp to_timestamp ys seen')
  unfolding deliver
  deliver-append [] ys seen = refl
  deliver-append (p ∷ xs) ys seen = elim (Bool-cases (in_range from_timestamp to_timestamp p)) [
    | inr out ↦ rw out (deliver-append xs ys seen)
    | inl within ↦ elim (Bool-cases (callback (seen ++ (p ∷ [])))) [
      | inl stop ↦ rw (within, stop) refl
      | inr more ↦ rw (within, more) (deliver-append xs ys (seen ++ (p ∷ [])))
    ]
  ]

  pub in_range-ruled_out :
      (segment_id offset : ℕ) (h : BlockHeader) (p : Point)
      → Within h.min_timestamp h.max_timestamp p
      → block_intersects_index (fill_index_entry segment_id offset h) from_timestamp to_timestamp
        ≡ false
      → in_range from_timestamp to_timestamp p ≡ false
  unfolding block_intersects_index in_range fill_index_entry
  in_range-ruled_out segment_id offset h p here out = ground arith

  -- A block that the index rules out has no point in the range.
  pub deliver-ruled_out :
      (segment_id offset : ℕ) (h : BlockHeader) (points seen : List Point)
      → All (Within h.min_timestamp h.max_timestamp) points
      → block_intersects_index (fill_index_entry segment_id offset h) from_timestamp to_timestamp
        ≡ false
      → deliver callback from_timestamp to_timestamp points seen ≡ (seen, false)
  unfolding deliver
  deliver-ruled_out segment_id offset h [] seen all out = refl
  deliver-ruled_out segment_id offset h (p ∷ points) seen (here, all) out =
      rw (in_range-ruled_out segment_id offset h p here out)
        (deliver-ruled_out segment_id offset h points seen all out)

module _ (stdio : Stdio) (works : Works stdio) (alloc : ℕ → Bool) (gives : Gives alloc)
    (callback : List Point → Bool) (from_timestamp to_timestamp : ℕ) where
  pub deliver_block-stored :
      (segment_id : ℕ) (front rest : List ℕ) (b : StoredBlock) (seen : List Point)
      → deliver_block stdio alloc callback
          (front ++ (block_bytes b ++ rest))
          (fill_index_entry segment_id (length front) b.header)
          from_timestamp
          to_timestamp
          seen
        ≡ (let (seen', stopped) = deliver callback from_timestamp to_timestamp b.points seen in
            (seen', ok stopped))
  unfolding deliver_block fill_index_entry
  deliver_block-stored segment_id front rest b seen =
      let (opens, seeks, tells, writes, closes) = works in
      rw
        (
          deliver_block,
          drop-append (length front) front (block_bytes b ++ rest) refl,
          append_assoc b.buf b.payload rest,
          b.stored.reads_header (b.payload ++ rest),
          b.stored.decodes alloc rest gives,
          seeks,
        )
        refl

  -- The loop over the index of whole blocks is one pass over their points.
  indexed_loop-deliver :
      (segment_id : ℕ) (front : List ℕ) (blocks : List StoredBlock) (seen : List Point)
      → indexed_loop stdio alloc callback
          (front ++ file_bytes blocks)
          (entries_from segment_id (length front) blocks)
          from_timestamp
          to_timestamp
          seen
        ≡ (let (seen', stopped) =
              deliver callback from_timestamp to_timestamp (stored_points blocks) seen in
            (seen', ok stopped))
  unfolding indexed_loop after_block file_bytes entries_from stored_points
  indexed_loop-deliver segment_id front [] seen =
      let (opens, seeks, tells, writes, closes) = works in unfold deliver in rw closes refl
  indexed_loop-deliver segment_id front (b ∷ blocks) seen =
      let run = deliver callback from_timestamp to_timestamp b.points seen in
      let more = indexed_loop-deliver segment_id (front ++ block_bytes b) blocks in
      let more' : (seen' : List Point) → _ = λ seen'.
        rw
          (
            append_assoc front (block_bytes b) (file_bytes blocks),
            length-append front (block_bytes b),
          )
          at (more seen') in
      rw (deliver-append callback from_timestamp to_timestamp b.points (stored_points blocks) seen)
        (elim (Bool-cases (
          block_intersects_index (fill_index_entry segment_id (length front) b.header)
            from_timestamp to_timestamp)) [
              | inr out ↦
                  rw
                    (
                      out,
                      deliver-ruled_out callback from_timestamp to_timestamp segment_id
                          (length front) b.header b.points seen b.stored.within out,
                    )
                    (more' seen)
              | inl meets ↦
                  rw (meets, deliver_block-stored segment_id front (file_bytes blocks) b seen)
                    (elim (Bool-cases run.1) [
                      | inl stop ↦ rw stop refl
                      | inr go ↦ rw go (more' run.0)
                    ])
            ])

-- A read of a range that is not empty the wrong way round, on a file of whole blocks and its index:
-- if every call on the FILE succeeds and malloc gives what a block needs, the callback gets the
-- points of the file with a timestamp in the range, both ends included, in the order of the file,
-- up to the first one on which it asks to stop. The status is TSEDGE_OK, with `*out_stopped` set if
-- it did.
pub read_range_indexed-visit :
    (stdio : Stdio) (alloc : ℕ → Bool) (callback : List Point → Bool) (segment_id : ℕ)
    (blocks : List StoredBlock) (from_timestamp to_timestamp : ℕ) (seen : List Point)
    → Works stdio
    → Gives alloc
    → lt64 to_timestamp from_timestamp ≡ false
    → read_range_indexed stdio alloc callback
        (some (file_bytes blocks))
        (entries_from segment_id 0 blocks)
        from_timestamp
        to_timestamp
        seen
      ≡ (let (seen', stopped) =
            visit callback
              (select (in_range from_timestamp to_timestamp) (stored_points blocks))
              seen in
          (seen', ok stopped))
unfolding read_range_indexed indexed_loop deliver_block
read_range_indexed-visit stdio alloc callback segment_id [] from_timestamp to_timestamp seen works
      gives order =
    unfold file_bytes entries_from stored_points visit in rw order refl
read_range_indexed-visit stdio alloc callback segment_id (b ∷ blocks) from_timestamp to_timestamp
      seen works gives order =
    let (opens, seeks, tells, writes, closes) = works in
    let pass =
      indexed_loop-deliver stdio works alloc gives callback from_timestamp to_timestamp segment_id
        [] (b ∷ blocks) seen in
    unfold entries_from in
    rw
      (
        order,
        opens,
        ← deliver-select callback from_timestamp to_timestamp (stored_points (b ∷ blocks)) seen,
      )
      pass
