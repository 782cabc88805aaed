-- ===== src/Compress/Streams/Accepted.antt =====
-- The decoders of src/compression/compress.c on the streams that they are for.
use tsedge.Common.{
  ℕ, ◌+◌, ◌≡◌, refl, sym, false, List, [], ◌∷◌, arith, ltb, leb, ◌==◌, ◌||◌, length, drop, ok,
  ltb-eq_false,
}
use tsedge.Point.{add64}
use tsedge.Bitstream.{read_u64_le, zigzag_decode}
use tsedge.Compress.{
  decode_timestamps_loop, decode_timestamps_rest, decompress_timestamps, decode_significant,
  decode_value, decode_values_loop, decompress_values,
}
use tsedge.Compress.Streams.{
  IsValue, repeated, some_bytes, all_bytes, ValuesTo, ValuesStream, TimestampsTo, TimestampsStream,
}

decode_value_accepts :
    (prev : ℕ) (cursor : List ℕ) (current : ℕ) (end : List ℕ)
    → IsValue prev cursor current end
    → decode_value prev cursor ≡ ok (current, end)
unfolding decode_value decode_significant
decode_value_accepts prev cursor current end (repeated shape same) = rw (shape, same) refl
decode_value_accepts prev cursor current end
      (some_bytes leading significant rest shape some_byte fit there last word) =
    let good : (leb 8 leading
          || (significant == 0 || (ltb 8 significant || ltb 8 (leading + significant))))
        ≡ false =
      ground arith in
    rw (shape, last, word, good, ltb-eq_false (length rest) significant there) refl
decode_value_accepts prev cursor current end (all_bytes rest shape there last word) =
    rw (shape, last, word, ltb-eq_false (length rest) 8 there) refl

decode_values_loop_accepts :
    (cursor : List ℕ) (prev : ℕ) (out end : List ℕ)
    → ValuesTo prev cursor out end
    → decode_values_loop (length out) cursor prev ≡ ok (out, end)
unfolding decode_values_loop
decode_values_loop_accepts cursor prev [] end last = rw last refl
decode_values_loop_accepts cursor prev (current ∷ out) end (cursor', value, later) =
    rw
      (
        decode_value_accepts prev cursor current cursor' value,
        decode_values_loop_accepts cursor' current out end later,
      )
      refl

decompress_values_accepts :
    (bytes out : List ℕ) → ValuesStream bytes out → decompress_values bytes (length out) ≡ ok out
unfolding decompress_values
decompress_values_accepts bytes [] stream = refl
decompress_values_accepts bytes (first ∷ out) (there, same, later) =
    rw
      (
        ltb-eq_false (length bytes) 8 there,
        sym same,
        decode_values_loop_accepts (drop 8 bytes) first out [] later,
      )
      refl

decode_timestamps_loop_accepts :
    (cursor : List ℕ) (prev prev_delta : ℕ) (out end : List ℕ)
    → TimestampsTo prev prev_delta cursor out end
    → decode_timestamps_loop (length out) cursor prev prev_delta ≡ ok (out, end)
unfolding decode_timestamps_loop
decode_timestamps_loop_accepts cursor prev prev_delta [] end last = rw last refl
decode_timestamps_loop_accepts cursor prev prev_delta (current ∷ out) end
      (encoded, cursor', read, same, later) =
    let delta = add64 prev_delta (zigzag_decode encoded) in
    rw (read, sym same, decode_timestamps_loop_accepts cursor' current delta out end later) refl

decompress_timestamps_accepts :
    (bytes out : List ℕ)
    → TimestampsStream bytes out
    → decompress_timestamps bytes (length out) ≡ ok out
unfolding decompress_timestamps decode_timestamps_rest
decompress_timestamps_accepts bytes [] stream = refl
decompress_timestamps_accepts bytes (first ∷ []) (there, same, last) =
    rw (ltb-eq_false (length bytes) 8 there, sym same, sym last) refl
decompress_timestamps_accepts bytes (first ∷ second ∷ out) (there, same, (there', same', later)) =
    let loop =
      decode_timestamps_loop_accepts (drop 8 (drop 8 bytes)) second (read_u64_le (drop 8 bytes)) out
        [] later in
    rw
      (
        ltb-eq_false (length bytes) 8 there,
        ltb-eq_false (length (drop 8 bytes)) 8 there',
        sym same,
        sym same',
        loop,
      )
      refl

-- No stream is refused, whoever wrote it: of the bytes of a stream of timestamps, as Compress/Streams
-- describes it, `tsedge_decompress_timestamps` makes these timestamps, and of those of a stream of
-- values `tsedge_decompress_values` makes these values, when asked for as many as there are.
pub decompress_streams :
    (timestamp_bytes timestamps value_bytes values : List ℕ)
    → TimestampsStream timestamp_bytes timestamps
    → ValuesStream value_bytes values
    → (decompress_timestamps timestamp_bytes (length timestamps) ≡ ok timestamps)
      × (decompress_values value_bytes (length values) ≡ ok values)
decompress_streams timestamp_bytes timestamps value_bytes values ts vs = (
  decompress_timestamps_accepts timestamp_bytes timestamps ts,
  decompress_values_accepts value_bytes values vs,
)
