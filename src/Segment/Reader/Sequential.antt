-- ===== src/Segment/Reader/Sequential.antt =====
-- `tsedge_segment_read_range` of src/storage/segment_reader.c, the read without an index.
use tsedge.Common.{
  ℕ, zero, suc, ◌<◌, ◌≡◌, refl, Bool, Bool-cases, true, false, ◌&&◌, Option, none, some, List, [],
  ◌∷◌, ◌++◌, append_assoc, inl, inr, arith, if◌then◌else◌, length, drop-append, Result, ok, err, io,
  internal, invalid_argument, ◌>>=◌,
}
use tsedge.Point.{Point, lt64, le64}
use tsedge.Block.{BlockHeader, read_header, skip_payload}
use tsedge.Segment.{Stdio, fill_index_entry}
use tsedge.Segment.Stored.{Gives}
use tsedge.Segment.Append.{Works}
use tsedge.Segment.Scan.{skip_payload-IsHeader}
use tsedge.Segment.Layout.{StoredBlock, file_bytes, entries_from, stored_points, length-file_bytes}
use tsedge.Segment.Reader.{read_range_indexed, block_intersects_index, decode_points, deliver}
use tsedge.Segment.Reader.Range.{
  read_range_indexed-visit, deliver-select, deliver-append, deliver-ruled_out,
}

unfoldable pub block_intersects_header : BlockHeader → ℕ → ℕ → Bool
block_intersects_header h from_timestamp to_timestamp =
    le64 from_timestamp h.max_timestamp && le64 h.min_timestamp to_timestamp

-- The callback's points, and the status with `*out_stopped`.
abbrev pub Answer : Type 0
Answer = List Point × Result Bool

-- What the loop does with the header: it returns an error, ends at the end of the file, or goes on.
unfoldable pub with_header :
    List Point
    → Result (Option (BlockHeader × List ℕ))
    → Answer
    → (BlockHeader → List ℕ → Answer)
    → Answer
with_header seen (err e) ended next = (seen, err e)
with_header seen (ok none) ended next = ended
with_header seen (ok (some (h, behind))) ended next = next h behind

-- The same with a payload that is skipped or decoded.
unfoldable pub with_cursor : {A : Type 0} → List Point → Result A → (A → Answer) → Answer
with_cursor seen (err e) next = (seen, err e)
with_cursor seen (ok end) next = next end

-- A callback that asks to stop ends the read.
unfoldable pub with_delivered : List Point × Bool → (List Point → Answer) → Answer
with_delivered (seen, true) next = (seen, ok true)
with_delivered (seen, false) next = next seen

module _ (stdio : Stdio) (alloc : ℕ → Bool) (callback : List Point → Bool) where
  -- The loop with the cursor at a header. Every round but the last takes one, so that more rounds than
  -- bytes are enough; a loop without rounds answers TSEDGE_ERR_INTERNAL, which the code never does.
  unfoldable pub range_loop : ℕ → ℕ → ℕ → List ℕ → List Point → Answer
  range_loop zero from_timestamp to_timestamp cursor seen = (seen, err internal)
  range_loop (suc rounds) from_timestamp to_timestamp cursor seen =
      with_header seen (read_header cursor) (seen, (if stdio.closes then ok false else err io))
        (λ h behind.
          let skipped =
            with_cursor seen
              (skip_payload behind h >>= λ end. if stdio.seeks then ok end else err io)
              (λ end. range_loop rounds from_timestamp to_timestamp end seen) in
          let decoded = with_cursor seen (decode_points alloc behind h) (λ out.
            with_delivered (deliver callback from_timestamp to_timestamp out.0 seen)
              (λ seen'. range_loop rounds from_timestamp to_timestamp out.1 seen')) in
          if block_intersects_header h from_timestamp to_timestamp then decoded else skipped)

  unfoldable pub read_range : Option (List ℕ) → ℕ → ℕ → List Point → Answer
  read_range none from_timestamp to_timestamp seen =
      if lt64 to_timestamp from_timestamp then (seen, err invalid_argument) else (seen, ok false)
  read_range (some bytes) from_timestamp to_timestamp seen =
      if lt64 to_timestamp from_timestamp
      then (seen, err invalid_argument)
      else if stdio.opens
      then range_loop (suc (length bytes)) from_timestamp to_timestamp bytes seen
      else (seen, err io)

module _ (stdio : Stdio) (works : Works stdio) (alloc : ℕ → Bool) (gives : Gives alloc)
    (callback : List Point → Bool) (from_timestamp to_timestamp : ℕ) where
  -- The loop over whole blocks is one pass over their points.
  range_loop-deliver :
      (rounds : ℕ) (blocks : List StoredBlock) (seen : List Point)
      → length blocks < rounds
      → range_loop stdio alloc callback rounds from_timestamp to_timestamp (file_bytes blocks) seen
        ≡ (let (seen', stopped) =
              deliver callback from_timestamp to_timestamp (stored_points blocks) seen in
            (seen', ok stopped))
  unfolding range_loop file_bytes stored_points with_header with_cursor with_delivered
  range_loop-deliver zero blocks seen enough = absurd (omega (arith, enough))
  range_loop-deliver (suc rounds) [] seen enough =
      let (opens, seeks, tells, writes, closes) = works in
      unfold read_header deliver in rw closes refl
  range_loop-deliver (suc rounds) (b ∷ blocks) seen enough =
      let (opens, seeks, tells, writes, closes) = works in
      let run = deliver callback from_timestamp to_timestamp b.points seen in
      let rest = file_bytes blocks in
      let more : (seen' : List Point) → _ =
        λ seen'. range_loop-deliver rounds blocks seen' (omega (arith, enough)) in
      rw
        (
          append_assoc b.buf b.payload rest,
          b.stored.reads_header (b.payload ++ rest),
          deliver-append callback from_timestamp to_timestamp b.points (stored_points blocks) seen,
        )
        (elim (Bool-cases (block_intersects_header b.header from_timestamp to_timestamp)) [
          | inr out ↦
              rw
                (
                  out,
                  skip_payload-IsHeader b.header (b.payload ++ rest) b.stored.is_header,
                  drop-append b.header.payload_size b.payload rest b.stored.payload_length,
                  seeks,
                  deliver-ruled_out callback from_timestamp to_timestamp 0 0 b.header b.points seen
                      b.stored.within
                      (unfold block_intersects_index block_intersects_header fill_index_entry in
                        out),
                )
                (more seen)
          | inl meets ↦
              rw (meets, b.stored.decodes alloc rest gives)
                (elim (Bool-cases run.1) [ inl stop ↦ rw stop refl | inr go ↦ rw go (more run.0) ])
        ])

-- On a file of whole blocks the read without an index and the read with the file's index hand the
-- same points to the callback, in the same order, and end with the same status, wherever the callback
-- stops. Every call on the FILE succeeds, malloc gives what a block needs, and the range is not
-- empty the wrong way round.
pub read_range-read_range_indexed :
    (stdio : Stdio) (alloc : ℕ → Bool) (callback : List Point → Bool) (segment_id : ℕ)
    (blocks : List StoredBlock) (from_timestamp to_timestamp : ℕ) (seen : List Point)
    → Works stdio
    → Gives alloc
    → lt64 to_timestamp from_timestamp ≡ false
    → read_range stdio alloc callback (some (file_bytes blocks)) from_timestamp to_timestamp seen
      ≡ read_range_indexed stdio alloc callback
          (some (file_bytes blocks))
          (entries_from segment_id 0 blocks)
          from_timestamp
          to_timestamp
          seen
unfolding read_range range_loop
read_range-read_range_indexed stdio alloc callback segment_id blocks from_timestamp to_timestamp
      seen works gives order =
    let (opens, seeks, tells, writes, closes) = works in
    rw
      (
        read_range_indexed-visit stdio alloc callback segment_id blocks from_timestamp to_timestamp
            seen works gives order,
        ← deliver-select callback from_timestamp to_timestamp (stored_points blocks) seen,
        order,
        opens,
      )
      (range_loop-deliver stdio works alloc gives callback from_timestamp to_timestamp
        (suc (length (file_bytes blocks))) blocks seen (omega (arith, length-file_bytes blocks)))
