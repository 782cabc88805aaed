-- ===== src/Block/Payload.antt =====
-- `tsedge_block_write_payload`, `tsedge_block_read_payload` and `tsedge_block_skip_payload`.
use tsedge.Common.{
  ℕ, ◌≡◌, Bool, true, List, ◌++◌, append_assoc, arith, ltb-eq_false, length, length-append,
  take-append, drop-append, ok,
}
use tsedge.Block.{BlockHeader, IsHeader, read_exact, read_payload, skip_payload, write_payload}
use tsedge.Block.Header.{validate_payload_sizes_ok}

-- `read_exact` takes a stored stream and stops behind it.
pub read_exact-append :
    (front rest : List ℕ) (size : ℕ)
    → length front ≡ size
    → read_exact (front ++ rest) size ≡ ok (front, rest)
unfolding read_exact
read_exact-append front rest size h = rw (
  ltb-eq_false (length (front ++ rest)) size (omega (arith, length-append front rest)),
  take-append size front rest h,
  drop-append size front rest h,
)

-- A payload of two streams of the sizes that its valid header gives is read back as these streams if
-- malloc gives both buffers, and skipping it leaves the cursor at the same place: behind it.
pub read-write_payload :
    (alloc : ℕ → Bool) (h : BlockHeader) (timestamp_data value_data rest : List ℕ)
    → IsHeader h
    → length timestamp_data ≡ h.timestamp_size
    → length value_data ≡ h.value_size
    → alloc h.timestamp_size ≡ true
    → alloc h.value_size ≡ true
    → (read_payload alloc (write_payload timestamp_data value_data ++ rest) h
        ≡ ok (timestamp_data, value_data, rest))
      × (skip_payload (write_payload timestamp_data value_data ++ rest) h ≡ ok rest)
unfolding read_payload skip_payload write_payload
read-write_payload alloc h timestamp_data value_data rest v ht hv at av = (
  rw (
    validate_payload_sizes_ok h v,
    at,
    av,
    append_assoc timestamp_data value_data rest,
    read_exact-append timestamp_data (value_data ++ rest) h.timestamp_size ht,
    read_exact-append value_data rest h.value_size hv,
  ),
  rw (
    validate_payload_sizes_ok h v,
    drop-append h.payload_size (timestamp_data ++ value_data) rest
        (omega (arith, length-append timestamp_data value_data, v.payload)),
  ),
)
