-- ===== src/Segment/Stored.antt =====
-- The block that `tsedge_segment_append_block` builds from its points, and how it reads back.
use tsedge.Common.{
  ℕ, ◌+◌, ◌*◌, ◌≤◌, ◌≡◌, refl, ap, ◌∙◌, sym, Bool, true, some, List, [], ◌∷◌, ◌++◌, arith, length,
  length-append, All, ok,
}
use tsedge.Point.{Point, IsPoint}
use tsedge.Double.{Doubles, IsDoubles}
use tsedge.Compress.{Stream, decompress_timestamps, decompress_values}
use tsedge.Compress.Timestamps.{timestamps, decompress-compress_timestamps}
use tsedge.Compress.Values.{values, decompress-compress_values}
use tsedge.Compress.Sizes.{compress_timestamps_total, compress_values_total}
use tsedge.Block.{
  BlockHeader, IsHeader, block_max_points, block_max_payload_bytes, block_header_size,
  write_payload, read_header,
}
use tsedge.Block.Header.{read-write_header}
use tsedge.Block.Payload.{read-write_payload}
use tsedge.Segment.{bounds_loop, first_bounds, make_header, filled_header, prepare_block}
use tsedge.Segment.Reader.{zip_points, decode_points}
use tsedge.Segment.TimeBounds.{
  Within, bounds_loop-Within, bounds_loop-BoundsFit, first_bounds-BoundsFit,
}

-- malloc gives whatever a block needs.
abbrev pub Gives : (ℕ → Bool) → Type 0
Gives alloc = (k : ℕ) → k ≤ block_max_payload_bytes → alloc k ≡ true

-- Points that fill at most one block.
pub record FillBlock (points : List Point) : Type 0 where
  pub some_point : 1 ≤ length points
  pub fit : length points ≤ block_max_points
  pub all : All IsPoint points

-- What `make_header` computes for such points and for streams of these sizes.
record HeaderOf (points : List Point) (timestamp_size value_size : ℕ) (h : BlockHeader)
    : Type 0 where
  is_header : IsHeader h
  count : h.point_count ≡ length points
  timestamp_size_eq : h.timestamp_size ≡ timestamp_size
  value_size_eq : h.value_size ≡ value_size
  within : All (Within h.min_timestamp h.max_timestamp) points

make_header-HeaderOf :
    (d : Doubles) (points : List Point) (timestamp_size value_size : ℕ)
    → IsDoubles d
    → FillBlock points
    → 1 ≤ timestamp_size
    → 1 ≤ value_size
    → timestamp_size + value_size ≤ block_max_payload_bytes
    → (h : BlockHeader) × (make_header d points timestamp_size value_size ≡ ok h)
      × HeaderOf points timestamp_size value_size h
unfolding make_header filled_header first_bounds
make_header-HeaderOf d [] ts vs id f ht hv hs = absurd (omega (arith, f.some_point))
make_header-HeaderOf d (p ∷ points) ts vs id f ht hv hs =
    let b = bounds_loop d (first_bounds d p) points in
    let count = length (p ∷ points) in
    let within = bounds_loop-Within d (first_bounds d p) points in
    let fit =
      bounds_loop-BoundsFit d id (first_bounds d p) points f.all.1
        (first_bounds-BoundsFit d p f.all.0) in
    (
      filled_header d count ts vs b,
      ground arith,
      record {
        is_header = record {
          points = omega (arith, f.fit);
          points_fit = omega (arith, f.fit);
          min_fits = fit.min_ts_fits;
          max_fits = fit.max_ts_fits;
          ordered = fit.ordered;
          compression = refl;
          timestamps = omega arith;
          values = omega arith;
          payload = omega arith;
          payload_fits = omega arith;
          min_value_fits = fit.min_value_fits;
          max_value_fits = fit.max_value_fits;
          sum_value_fits = fit.sum_value_fits;
        };
        count = omega (arith, f.fit);
        timestamp_size_eq = omega arith;
        value_size_eq = omega arith;
        within = (within.0, within.1);
      },
    )

-- What the two parts of one stored block hold: a header that describes the points and reads back,
-- and a payload of the size that it states that decodes to them.
pub record IsStored (points : List Point) (h : BlockHeader) (buf payload : List ℕ) : Type 0 where
  pub is_header : IsHeader h
  pub count : h.point_count ≡ length points
  pub within : All (Within h.min_timestamp h.max_timestamp) points
  pub header_length : length buf ≡ block_header_size
  pub payload_length : length payload ≡ h.payload_size
  pub reads_header : (rest : List ℕ) → read_header (buf ++ rest) ≡ ok (some (h, rest))
  pub decodes :
      (alloc : ℕ → Bool) (rest : List ℕ)
      → Gives alloc
      → decode_points alloc (payload ++ rest) h ≡ ok (points, rest)

zip_points_lem : (points : List Point) → zip_points (timestamps points) (values points) ≡ points
unfolding zip_points timestamps values
zip_points_lem [] = refl
zip_points_lem (p ∷ points) = ap (◌∷◌ p) (zip_points_lem points)

module _ (points : List Point) (h : BlockHeader) (t v : Stream)
    (of : HeaderOf points t.size v.size h)
    (timestamps_back : (length t.bytes ≡ t.size)
      × (decompress_timestamps t.bytes (length points) ≡ ok (timestamps points)))
    (values_back : (length v.bytes ≡ v.size)
      × (decompress_values v.bytes (length points) ≡ ok (values points))) where
  payload_decodes :
      (alloc : ℕ → Bool) (rest : List ℕ)
      → Gives alloc
      → decode_points alloc (write_payload t.bytes v.bytes ++ rest) h ≡ ok (points, rest)
  unfolding decode_points
  payload_decodes alloc rest gives = rw (
    gives (h.point_count * 8) (omega (arith, of.is_header.points_fit)),
    (read-write_payload alloc h t.bytes v.bytes rest of.is_header
        (timestamps_back.0 ∙ sym of.timestamp_size_eq) (values_back.0 ∙ sym of.value_size_eq)
        (gives _ (omega (arith, of.is_header.payload, of.is_header.payload_fits)))
        (gives _ (omega (arith, of.is_header.payload, of.is_header.payload_fits)))).0,
    of.count,
    timestamps_back.1,
    values_back.1,
    zip_points_lem points,
  )

  payload_size : length (write_payload t.bytes v.bytes) ≡ h.payload_size
  unfolding write_payload
  payload_size = omega (
    arith,
    length-append t.bytes v.bytes,
    of.is_header.payload,
    of.timestamp_size_eq,
    of.value_size_eq,
    timestamps_back.0,
    values_back.0,
  )

-- For 1 to 16384 points, if malloc gives it the memory, `tsedge_segment_append_block` builds a header
-- and a payload. The header describes the points and reads back, whatever follows, and the payload
-- has the size that the header states and decodes to exactly these points.
pub prepare_block-IsStored :
    (d : Doubles) (alloc : ℕ → Bool) (points : List Point)
    → IsDoubles d
    → Gives alloc
    → FillBlock points
    → (h : BlockHeader) × (buf : List ℕ) × (payload : List ℕ) × (prepare_block d alloc points
        ≡ ok (h, buf ++ payload))
      × IsStored points h buf payload
unfolding prepare_block
prepare_block-IsStored d alloc points id gives f =
    let (t, t_ok, t_high, t_low) =
      compress_timestamps_total alloc points (λ k hk. gives k (omega (arith, f.fit))) in
    let (v, v_ok, v_high, v_low) =
      compress_values_total alloc points (λ k hk. gives k (omega (arith, f.fit))) in
    let (h, h_ok, of) =
      make_header-HeaderOf d points t.size v.size id f (omega (arith, t_low f.some_point))
        (omega (arith, v_low f.some_point)) (omega (arith, f.fit)) in
    let (buf, buf_ok, full, back) = read-write_header h of.is_header in
    let t_back = decompress-compress_timestamps alloc points f.all t_ok in
    let v_back = decompress-compress_values alloc points f.all v_ok in
    (
      h,
      buf,
      write_payload t.bytes v.bytes,
      rw (t_ok, v_ok, h_ok, buf_ok),
      record {
        is_header = of.is_header;
        count = of.count;
        within = of.within;
        header_length = full;
        payload_length = payload_size points h t v of t_back v_back;
        reads_header = back;
        decodes = payload_decodes points h t v of t_back v_back;
      },
    )
