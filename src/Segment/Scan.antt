-- ===== src/Segment/Scan.antt =====
-- `tsedge_segment_scan_index`: the index that is rebuilt from the bytes of a segment file.
use native.Mathlib.Nat.{add-zero, zero-add}
use tsedge.Common.{
  ℕ, Bool, Bool-cases, inl, inr, ◌*◌, ◌==◌, if◌then◌else◌, zero, suc, ◌+◌, ◌-◌, ◌≤◌, ◌≡◌, refl, ap,
  ◌∙◌, true, some, List, [], ◌∷◌, ◌++◌, append_assoc, append-nil, arith, length, length-append,
  length-take, drop, drop_past, drop-append, take, ok,
}
use tsedge.Point.{Point}
use tsedge.Block.{BlockHeader, IsHeader, block_header_size, read_header, skip_payload}
use tsedge.Block.Header.{validate_payload_sizes_ok}
use tsedge.Double.{Doubles, IsDoubles}
use tsedge.Segment.{
  Stdio, IndexEntry, fill_index_entry, append_block, index_capacity, scan_loop, scan_index,
}
use tsedge.Segment.Stored.{FillBlock}
use tsedge.Segment.Append.{Works, append_block-IsStored}
use tsedge.Segment.Layout.{
  StoredBlock, block_bytes, file_bytes, file_bytes-append, entries_from, entries_from-append,
  length-block_bytes,
}

pub skip_payload-IsHeader :
    (h : BlockHeader) (cursor : List ℕ)
    → IsHeader h
    → skip_payload cursor h ≡ ok (drop h.payload_size cursor)
unfolding skip_payload
skip_payload-IsHeader h cursor v = rw (validate_payload_sizes_ok h v) refl

-- malloc and realloc never fail.
abbrev pub Plenty : (ℕ → Bool) → Type 0
Plenty alloc = (k : ℕ) → alloc k ≡ true

index_capacity-Plenty :
    (alloc : ℕ → Bool) (count capacity : ℕ)
    → Plenty alloc
    → (grown : ℕ) × (index_capacity alloc count capacity ≡ ok grown)
unfolding index_capacity
index_capacity-Plenty alloc count capacity plenty =
    let next = if capacity == 0 then 16 else capacity * 2 in
    elim (Bool-cases (count == capacity)) [
      | inl full ↦ (next, rw (full, plenty (next * 40)) refl)
      | inr room ↦ (capacity, rw room refl)
    ]

module _ (stdio : Stdio) (alloc : ℕ → Bool) (segment_id : ℕ) (works : Works stdio)
    (plenty : Plenty alloc) where
  -- The scan from `offset` on succeeds with `entries`, whatever the array's size.
  abbrev Scans : ℕ → ℕ → List ℕ → List IndexEntry → Type 0
  Scans rounds offset cursor entries =
      (count capacity : ℕ)
      → scan_loop stdio alloc segment_id rounds count capacity offset cursor ≡ ok entries

  -- One round on a stored header: the entry, and the scan goes on behind the payload.
  scan_loop_step :
      (rounds offset : ℕ) (b : StoredBlock) (rest : List ℕ) (entries : List IndexEntry)
      → Scans rounds
          (offset + block_header_size + b.header.payload_size)
          (drop b.header.payload_size rest)
          entries
      → Scans
          (suc rounds)
          offset
          (b.buf ++ rest)
          (fill_index_entry segment_id offset b.header ∷ entries)
  unfolding scan_loop
  scan_loop_step rounds offset b rest entries e count capacity =
      let (opens, seeks, tells, writes, closes) = works in
      let (grown, room) = index_capacity-Plenty alloc count capacity plenty in
      rw
        (
          tells,
          b.stored.reads_header rest,
          room,
          skip_payload-IsHeader b.header rest b.stored.is_header,
          e (count + 1) grown,
          seeks,
        )
        refl

  -- The scan of whole blocks gives their entries, then those of what follows.
  scan_loop-file_bytes :
      (all_rounds rounds offset : ℕ) (blocks : List StoredBlock) (tail : List ℕ)
      (entries : List IndexEntry)
      → all_rounds ≡ length blocks + rounds
      → Scans rounds (offset + length (file_bytes blocks)) tail entries
      → Scans all_rounds offset
          (file_bytes blocks ++ tail)
          (entries_from segment_id offset blocks ++ entries)
  unfolding file_bytes entries_from
  scan_loop-file_bytes all_rounds rounds offset [] tail entries enough e =
      let here : all_rounds ≡ rounds = omega (arith, enough) in
      rw (here) (rw (add-zero offset) at e)
  scan_loop-file_bytes zero rounds offset (b ∷ blocks) tail entries enough e =
      absurd (omega (arith, enough))
  scan_loop-file_bytes (suc all_rounds) rounds offset (b ∷ blocks) tail entries enough e =
      let rest = file_bytes blocks ++ tail in
      let size : offset + length (block_bytes b ++ file_bytes blocks)
          ≡ offset + length (block_bytes b) + length (file_bytes blocks) =
        omega (arith, length-append (block_bytes b) (file_bytes blocks)) in
      let next : offset + length (block_bytes b)
          ≡ offset + block_header_size + b.header.payload_size =
        omega (arith, length-block_bytes b) in
      let more =
        scan_loop-file_bytes all_rounds rounds (offset + length (block_bytes b)) blocks tail entries
          (omega (arith, enough)) (rw size at e) in
      let behind = drop-append b.header.payload_size b.payload rest b.stored.payload_length in
      rw
        (
          append_assoc (block_bytes b) (file_bytes blocks) tail,
          append_assoc b.buf b.payload rest,
          next,
        )
        (scan_loop_step all_rounds offset b (b.payload ++ rest) _ (rw (behind, ← next) more))

  -- One round for each block and one more suffice.
  rounds_suffice :
      (blocks : List StoredBlock) (tail : List ℕ)
      → length blocks + length tail ≤ length (file_bytes blocks ++ tail)
  unfolding file_bytes
  rounds_suffice [] tail = omega arith
  rounds_suffice (b ∷ blocks) tail = omega (
    arith,
    rounds_suffice blocks tail,
    length-append (block_bytes b) (file_bytes blocks),
    length-append (file_bytes blocks) tail,
    length-append (block_bytes b ++ file_bytes blocks) tail,
    length-block_bytes b,
  )

  scan_loop_end : (rounds offset : ℕ) → Scans (suc rounds) offset [] []
  unfolding scan_loop read_header
  scan_loop_end rounds offset count capacity =
      let (opens, seeks, tells, writes, closes) = works in rw tells refl

  -- Whole blocks, with a tail whose scan gives `entries` for as many rounds as it has bytes.
  scan_index_with_tail :
      (blocks : List StoredBlock) (tail : List ℕ) (entries : List IndexEntry)
      → ((rounds : ℕ)
          → length tail ≤ rounds
          → Scans (suc rounds) (0 + length (file_bytes blocks)) tail entries)
      → scan_index stdio alloc segment_id (some (file_bytes blocks ++ tail))
        ≡ ok (entries_from segment_id 0 blocks ++ entries)
  unfolding scan_index
  scan_index_with_tail blocks tail entries e =
      let (opens, seeks, tells, writes, closes) = works in
      let bytes = file_bytes blocks ++ tail in
      let rounds = length bytes - length blocks in
      let many = rounds_suffice blocks tail in
      let scanned =
        scan_loop-file_bytes (suc (length bytes)) (suc rounds) 0 blocks tail entries
          (omega (arith, many)) (e rounds (omega (arith, many))) in
      rw (scanned 0 0, opens, closes) refl

  -- A header with a front part of its payload, at the end of the file.
  scan_loop_torn :
      (rounds offset : ℕ) (b : StoredBlock) (kept : ℕ)
      → length (b.buf ++ take kept b.payload) ≤ rounds
      → Scans
          (suc rounds)
          offset
          (b.buf ++ take kept b.payload)
          (fill_index_entry segment_id offset b.header ∷ [])
  scan_loop_torn zero offset b kept many =
      absurd
        (omega (arith, many, length-append b.buf (take kept b.payload), b.stored.header_length))
  scan_loop_torn (suc rounds) offset b kept many =
      let next = offset + block_header_size + b.header.payload_size in
      let past =
        drop_past b.header.payload_size (take kept b.payload)
          (omega (arith, length-take kept b.payload, b.stored.payload_length)) in
      scan_loop_step (suc rounds) offset b (take kept b.payload) []
        (rw past (scan_loop_end rounds next))

-- The scan of a file of whole blocks, if every call on the FILE succeeds and malloc never fails,
-- gives the entry of each block in order. Behind the blocks may stand the whole header of one more
-- block with only a front part of its payload: that block is listed too.
pub scan_index-file_bytes :
    (stdio : Stdio) (alloc : ℕ → Bool) (segment_id : ℕ) (blocks : List StoredBlock)
    → Works stdio
    → Plenty alloc
    → (scan_index stdio alloc segment_id (some (file_bytes blocks))
        ≡ ok (entries_from segment_id 0 blocks))
      × ((b : StoredBlock) (kept : ℕ)
          → scan_index stdio alloc segment_id
              (some (file_bytes blocks ++ (b.buf ++ take kept b.payload)))
            ≡ ok (entries_from segment_id 0 (blocks ++ (b ∷ []))))
scan_index-file_bytes stdio alloc segment_id blocks works plenty = (
  rw (append-nil (file_bytes blocks), append-nil (entries_from segment_id 0 blocks)) at
      (scan_index_with_tail stdio alloc segment_id works plenty blocks [] []
        (λ rounds many. scan_loop_end stdio alloc segment_id works plenty rounds _)),
  λ b kept. rw (entries_from-append segment_id 0 blocks (b ∷ [])) (
      unfold entries_from in
      scan_index_with_tail stdio alloc segment_id works plenty blocks (b.buf ++ take kept b.payload)
        _ (λ rounds many. scan_loop_torn stdio alloc segment_id works plenty rounds _ b kept many)),
)

-- If malloc never fails and every call on the FILE succeeds, appending 1 to 16384 points to a file of whole
-- blocks leaves a file of whole blocks with one more, which stands for these points. The index that
-- a later scan rebuilds is the old one with the reported entry at its end.
pub scan_index-append_block :
    (d : Doubles) (alloc : ℕ → Bool) (stdio : Stdio) (segment_id : ℕ) (blocks : List StoredBlock)
    (points : List Point)
    → IsDoubles d
    → Plenty alloc
    → Works stdio
    → FillBlock points
    → (b : StoredBlock) × (entry : IndexEntry) × (b.points ≡ points)
      × (append_block d alloc stdio (some (file_bytes blocks)) segment_id points
          ≡ record { result = ok (some entry); file = some (file_bytes (blocks ++ (b ∷ []))) })
      × (scan_index stdio alloc segment_id (some (file_bytes (blocks ++ (b ∷ []))))
          ≡ ok (entries_from segment_id 0 blocks ++ (entry ∷ [])))
scan_index-append_block d alloc stdio segment_id blocks points id plenty works f =
    let file = some (file_bytes blocks) in
    let (h, buf, payload, stored, done) =
      append_block-IsStored d alloc stdio file segment_id points id (λ k hk. plenty k) works f in
    let b : StoredBlock = record {
      points = points;
      header = h;
      buf = buf;
      payload = payload;
      stored = stored;
    } in
    let more : file_bytes (blocks ++ (b ∷ [])) ≡ file_bytes blocks ++ (buf ++ payload) =
      file_bytes-append blocks (b ∷ [])
      ∙ ap (λ x. file_bytes blocks ++ x) (unfold file_bytes in append-nil (buf ++ payload)) in
    let index : entries_from segment_id 0 (blocks ++ (b ∷ []))
        ≡ entries_from segment_id 0 blocks
          ++ (fill_index_entry segment_id (0 + length (file_bytes blocks)) h ∷ []) =
      unfold entries_from in entries_from-append segment_id 0 blocks (b ∷ []) in
    (
      b,
      fill_index_entry segment_id (length (file_bytes blocks)) h,
      refl,
      rw more done,
      (scan_index-file_bytes stdio alloc segment_id (blocks ++ (b ∷ [])) works plenty).0
          ∙ ap ok (rw (zero-add (length (file_bytes blocks))) at index),
    )
