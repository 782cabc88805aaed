-- ===== src/Segment/Reader.antt =====
-- The range reads of src/storage/segment_reader.c.
pub mod Range
pub mod Sequential
pub mod Aggregate
use mathlib.Core.Bool.{not}
use tsedge.Common.{
  ℕ, zero, suc, ◌+◌, ◌*◌, ◌-◌, ◌^◌, Bool, true, false, ◌&&◌, ◌||◌, Option, none, some, List, [],
  ◌∷◌, ◌++◌, u32, ltb, ◌==◌, if◌then◌else◌, length, take, drop, Result, ok, err, corrupt, io,
  internal, invalid_argument, no_memory, fail_if, ◌>>=◌, ◌>>◌,
}
use tsedge.Point.{Point, lt64, le64}
use tsedge.Double.{Doubles}
use tsedge.Compress.{
  Stream, compress_timestamps, compress_values, decompress_timestamps, decompress_values,
}
use tsedge.Block.{
  BlockHeader, block_header_size, block_compression_delta_xor, write_header, write_payload,
  read_header, read_payload, skip_payload,
}
use tsedge.Segment.{Stdio, IndexEntry}

-- `block_intersects_index`, also the test of series_query.c before a segment is read.
unfoldable pub block_intersects_index : IndexEntry → ℕ → ℕ → Bool
block_intersects_index e from_timestamp to_timestamp =
    le64 from_timestamp e.max_timestamp && le64 e.min_timestamp to_timestamp

unfoldable pub block_fully_covered : BlockHeader → ℕ → ℕ → Bool
block_fully_covered h from_timestamp to_timestamp =
    le64 from_timestamp h.min_timestamp && le64 h.max_timestamp to_timestamp

-- The test on every decoded point.
unfoldable pub in_range : ℕ → ℕ → Point → Bool
in_range from_timestamp to_timestamp p =
    le64 from_timestamp p.timestamp && le64 p.timestamp to_timestamp

-- The arrays `timestamps` and `values`, index by index.
unfoldable pub zip_points : List ℕ → List ℕ → List Point
zip_points [] values = []
zip_points (t ∷ timestamps) [] = []
zip_points (t ∷ timestamps) (v ∷ values) =
    record { timestamp = t; value = v } ∷ zip_points timestamps values

-- The allocation and decoding that `decode_block` and `aggregate_partial_block` share, with the
-- cursor behind the header: the points, and the cursor behind the payload.
unfoldable pub decode_points : (ℕ → Bool) → List ℕ → BlockHeader → Result (List Point × List ℕ)
unfolding zip_points
decode_points alloc cursor h = do
  fail_if (not (alloc (h.point_count * 8)) || not (alloc (h.point_count * 8))) no_memory
  (timestamp_data, value_data, end) ← read_payload alloc cursor h
  timestamps ← decompress_timestamps timestamp_data h.point_count
  values ← decompress_values value_data h.point_count
  ok (zip_points timestamps values, end)

-- The loop of `decode_block` over the decoded points. `seen` are the points that the callback has
-- had so far, and `callback` on them says whether its last call returned a value other than 0. The
-- result is the points that it has had at the end, and `*out_stopped`.
unfoldable pub deliver : (List Point → Bool) → ℕ → ℕ → List Point → List Point → List Point × Bool
deliver callback from_timestamp to_timestamp [] seen = (seen, false)
deliver callback from_timestamp to_timestamp (p ∷ points) seen =
    let seen' = seen ++ (p ∷ []) in
    let next = deliver callback from_timestamp to_timestamp points seen' in
    let skipped = deliver callback from_timestamp to_timestamp points seen in
    if in_range from_timestamp to_timestamp p
    then (if callback seen' then (seen', true) else next)
    else skipped

-- What the loop does after a block: it goes on to the next entry, or returns.
unfoldable pub after_block :
    List Point × Result Bool → List Point × Result Bool → List Point × Result Bool
after_block (seen, ok false) more = more
after_block (seen, ok true) more = (seen, ok true)
after_block (seen, err x) more = (seen, err x)

module _ (stdio : Stdio) (alloc : ℕ → Bool) (callback : List Point → Bool) where
  -- `decode_block` for one entry of the index, with the seek and the header before it.
  unfoldable pub deliver_block : List ℕ → IndexEntry → ℕ → ℕ → List Point → List Point × Result Bool
  deliver_block bytes e from_timestamp to_timestamp seen =
      let decoded : Result (List Point) = (do
        fail_if (not stdio.seeks) io
        header ← read_header (drop e.offset bytes)
        elim header [
          | none ↦ err corrupt
          | some (h, cursor) ↦ do (points, end) ← decode_points alloc cursor h; ok points
        ]) in
      elim decoded [
        | err x ↦ (seen, err x)
        | ok points ↦
            let (seen', stopped) = deliver callback from_timestamp to_timestamp points seen in
            (seen', ok stopped)
      ]

  -- The loop over the entries; without a stop it ends in fclose.
  unfoldable pub indexed_loop :
      List ℕ → List IndexEntry → ℕ → ℕ → List Point → List Point × Result Bool
  indexed_loop bytes [] from_timestamp to_timestamp seen =
      (seen, (if stdio.closes then ok false else err io))
  indexed_loop bytes (e ∷ entries) from_timestamp to_timestamp seen =
      let passed = indexed_loop bytes entries from_timestamp to_timestamp seen in
      let r = deliver_block bytes e from_timestamp to_timestamp seen in
      let more = indexed_loop bytes entries from_timestamp to_timestamp r.0 in
      if block_intersects_index e from_timestamp to_timestamp then after_block r more else passed

  -- `tsedge_segment_read_range_indexed`: the callback's points, and the status with `*out_stopped`.
  unfoldable pub read_range_indexed :
      Option (List ℕ) → List IndexEntry → ℕ → ℕ → List Point → List Point × Result Bool
  read_range_indexed file entries from_timestamp to_timestamp seen =
      if lt64 to_timestamp from_timestamp
      then (seen, err invalid_argument)
      else read_file file entries
    where
      read_file : Option (List ℕ) → List IndexEntry → List Point × Result Bool
      read_file file [] = (seen, ok false)
      read_file none (e ∷ entries) = (seen, ok false)
      read_file (some bytes) (e ∷ entries) =
          if stdio.opens
          then indexed_loop bytes (e ∷ entries) from_timestamp to_timestamp seen
          else (seen, err io)
