-- ===== src/Series/Append/Ready.antt =====
-- The parts of a flush of src/core/series.c succeed where malloc does.
use tsedge.Common.{
  ℕ, ◌+◌, ◌*◌, ◌^◌, ◌≤◌, ◌<◌, ◌≡◌, refl, Bool, Bool-cases, false, List, [], ◌∷◌, inl, inr, arith,
  u32, u64, leb, ltb, ◌==◌, if◌then◌else◌, length, ok,
}
use tsedge.Point.{Point}
use tsedge.Compress.Sizes.{compress_timestamps_total, compress_values_total}
use tsedge.Segment.{IndexEntry, estimate_block_size}
use tsedge.Segment.Files.Names.{make_path_total}
use tsedge.Segment.Scan.{Plenty}
use tsedge.Series.{
  Series, ensure_capacity, push_segment_id, push_index_entry, segment_id_known, add_segment_id,
  add_block_index_entry, file_of, file_size_or_zero, segment_max_bytes, rotate_if_needed,
}

pub estimate_block_size_total :
    (alloc : ℕ → Bool) (points : List Point)
    → Plenty alloc
    → (size : ℕ) × (estimate_block_size alloc points ≡ ok size)
unfolding estimate_block_size
estimate_block_size_total alloc [] plenty = (0, refl)
estimate_block_size_total alloc (p ∷ points) plenty =
    let (t, t_ok, t_high, t_low) =
      compress_timestamps_total alloc (p ∷ points) (λ k fits. plenty k) in
    let (v, v_ok, v_high, v_low) = compress_values_total alloc (p ∷ points) (λ k fits. plenty k) in
    (72 + t.size + v.size, rw (t_ok, v_ok) refl)

pub ensure_capacity_total :
    (alloc : ℕ → Bool) (size first count capacity : ℕ)
    → Plenty alloc
    → (grown : ℕ) × (ensure_capacity alloc size first count capacity ≡ ok grown)
unfolding ensure_capacity
ensure_capacity_total alloc size first count capacity plenty =
    let next = if capacity == 0 then first else capacity * 2 in
    elim (Bool-cases (ltb count capacity)) [
      | inl room ↦ (capacity, rw room refl)
      | inr full ↦ (next, rw (full, plenty (next * size)) refl)
    ]

pub rotate_if_needed_total :
    (alloc : ℕ → Bool) (s : Series) (block_size : ℕ)
    → Plenty alloc
    → s.active_segment_id + 1 < 2 ^ 32
    → (id : ℕ) × (rotate_if_needed alloc s block_size ≡ ok id)
unfolding rotate_if_needed
rotate_if_needed_total alloc s block_size plenty low =
    let active_size = file_size_or_zero (file_of s.files s.active_segment_id) in
    let next = u32 (s.active_segment_id + 1) in
    let some_id : next == 0 ≡ false = ground arith in
    let (path, made) = make_path_total alloc s.dir_path next plenty (omega arith) in
    elim (Bool-cases (active_size == 0)) [
      | inl nothing ↦ (s.active_segment_id, rw nothing refl)
      | inr bytes ↦ elim (Bool-cases (leb (u64 (active_size + block_size)) segment_max_bytes)) [
        | inl room ↦ (s.active_segment_id, rw (bytes, room) refl)
        | inr full ↦ (next, rw (bytes, full, some_id, made) refl)
      ]
    ]

pub add_segment_id_done :
    (alloc : ℕ → Bool) (s : Series) (id : ℕ)
    → Plenty alloc
    → 1 ≤ id
    → (add_segment_id alloc s id).1 ≡ ok tt
unfolding add_segment_id push_segment_id
add_segment_id_done alloc s id plenty low =
    let some_id : id == 0 ≡ false = ground arith in
    let (grown, room) =
      ensure_capacity_total alloc 4 4 (length s.segment_ids) s.segment_capacity plenty in
    elim (Bool-cases (segment_id_known s.segment_ids id)) [
      | inl known ↦ rw (some_id, known) refl
      | inr fresh ↦ rw (some_id, fresh, room) refl
    ]

pub add_block_index_entry_done :
    (alloc : ℕ → Bool) (s : Series) (entry : IndexEntry)
    → Plenty alloc
    → (add_block_index_entry alloc s entry).1 ≡ ok tt
unfolding add_block_index_entry push_index_entry
add_block_index_entry_done alloc s entry plenty =
    let (grown, room) =
      ensure_capacity_total alloc 40 16 (length s.block_index) s.block_index_capacity plenty in
    rw room refl
