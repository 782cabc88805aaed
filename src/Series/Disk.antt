-- ===== src/Series/Disk.antt =====
-- The abstract view of the segments of a series: each segment is its id and its blocks, and the files,
-- the table of ids and the index of src/core/series_index.c are computed from them.
use native.Mathlib.Nat.{zero-add}
use tsedge.Common.{
  ℕ, ◌≤◌, ◌<◌, ◌≡◌, refl, ap, sym, ◌∙◌, Bool-cases, true, List, [], ◌∷◌, ◌++◌, append-nil,
  append_assoc, map, inl, inr, arith, ◌==◌, if◌then◌else◌, length, All, IsU32,
}
use tsedge.Point.{Point, IsPoint}
use tsedge.Segment.{IndexEntry, fill_index_entry, contents}
use tsedge.Segment.Layout.{
  StoredBlock, block_bytes, file_bytes, file_bytes-append, entries_from, entries_from-append,
  stored_points, stored_points-append,
}
use tsedge.Block.{block_max_points}
use tsedge.Series.{Series, Files, file_of, set_file, segment_id_known}

pub record StoredSegment : Type 0 where
  pub id : ℕ
  pub blocks : List StoredBlock

abbrev pub disk_files : List StoredSegment → Files
disk_files segments = map (λ g. (g.id, file_bytes g.blocks)) segments

abbrev pub disk_ids : List StoredSegment → List ℕ
disk_ids segments = map (λ g. g.id) segments

unfoldable pub disk_entries : List StoredSegment → List IndexEntry
disk_entries [] = []
disk_entries (g ∷ segments) = entries_from g.id 0 g.blocks ++ disk_entries segments

unfoldable pub disk_points : List StoredSegment → List Point
disk_points [] = []
disk_points (g ∷ segments) = stored_points g.blocks ++ disk_points segments

-- The ids start at 1 or later, ascend, and end at `active` or before.
abbrev pub Ordered : ℕ → List StoredSegment → Type 0
Ordered active [] = Unit {0}
Ordered active (g ∷ segments) =
    (1 ≤ g.id) × (g.id ≤ active) × All (λ h. g.id < h.id) segments × Ordered active segments

-- One more block at the end of the segment `id`, which may be new.
unfoldable pub add_block : List StoredSegment → ℕ → StoredBlock → List StoredSegment
add_block [] id b = record { id = id; blocks = b ∷ [] } ∷ []
add_block (g ∷ segments) id b =
    let rest = add_block segments id b in
    if g.id == id then record g { blocks = g.blocks ++ (b ∷ []) } ∷ segments else g ∷ rest

-- The segment with the id that the others do not exceed is the last one.
active_last :
    (active : ℕ) (g : StoredSegment) (segments : List StoredSegment)
    → Ordered active (g ∷ segments)
    → g.id == active ≡ true
    → segments ≡ []
active_last active g [] o e = refl
active_last active g (h ∷ segments) (low, high, (above, all), (low', high', more, o)) e =
    absurd (ground arith)

pub Ordered-mono :
    (old active : ℕ) (segments : List StoredSegment)
    → old ≤ active
    → Ordered old segments
    → Ordered active segments
Ordered-mono old active [] h o = tt
Ordered-mono old active (g ∷ segments) h (low, high, above, o) =
    (low, omega arith, above, Ordered-mono old active segments h o)

module _ (active : ℕ) (b : StoredBlock) where
  add_block-above :
      (k : ℕ) (segments : List StoredSegment)
      → k < active
      → All (λ h. k < h.id) segments
      → All (λ h. k < h.id) (add_block segments active b)
  unfolding add_block
  add_block-above k [] h all = (h, tt)
  add_block-above k (g ∷ segments) h (here, all) = elim (Bool-cases (g.id == active)) [
    | inl e ↦ rw e (here, all)
    | inr e ↦ rw e (here, add_block-above k segments h all)
  ]

  pub add_block-Ordered :
      (segments : List StoredSegment)
      → 1 ≤ active
      → Ordered active segments
      → Ordered active (add_block segments active b)
  unfolding add_block
  add_block-Ordered [] h o = (h, omega arith, tt, tt)
  add_block-Ordered (g ∷ segments) h (low, high, above, o) = elim (Bool-cases (g.id == active)) [
    | inl e ↦ rw e (low, high, above, o)
    | inr e ↦ rw e (
      low,
      high,
      add_block-above g.id segments (ground arith) above,
      add_block-Ordered segments h o,
    )
  ]

  -- The file of the segment gets the bytes of the block at its end.
  pub add_block-files :
      (segments : List StoredSegment)
      → disk_files (add_block segments active b)
        ≡ set_file
            (disk_files segments)
            active
            (contents (file_of (disk_files segments) active) ++ block_bytes b)
  unfolding add_block set_file file_of file_bytes
  add_block-files [] = ap (λ (t : List ℕ). (active, t) ∷ []) (append-nil (block_bytes b))
  add_block-files (g ∷ segments) = elim (Bool-cases (g.id == active)) [
    | inl e ↦ rw (e, file_bytes-append g.blocks (b ∷ []), append-nil (block_bytes b)) refl
    | inr e ↦ rw e (ap (λ (t : Files). (g.id, file_bytes g.blocks) ∷ t) (add_block-files segments))
  ]

  pub add_block-ids :
      (segments : List StoredSegment)
      → disk_ids (add_block segments active b) ≡ (
          if segment_id_known (disk_ids segments) active
          then disk_ids segments
          else disk_ids segments ++ (active ∷ []))
  unfolding add_block segment_id_known
  add_block-ids [] = refl
  add_block-ids (g ∷ segments) = elim (Bool-cases (g.id == active)) [
    | inl e ↦ rw e refl
    | inr e ↦ rw (e, add_block-ids segments) (ground arith)
  ]

  -- Where `active` is the last id, the new entry and the new points are the last ones.
  pub add_block-entries :
      (segments : List StoredSegment)
      → Ordered active segments
      → disk_entries (add_block segments active b)
        ≡ disk_entries segments
          ++ (fill_index_entry active
                (length (contents (file_of (disk_files segments) active)))
                b.header
              ∷ [])
  unfolding add_block disk_entries file_of entries_from
  add_block-entries [] o = refl
  add_block-entries (g ∷ segments) (low, high, above, o) = elim (Bool-cases (g.id == active)) [
    | inl e ↦
        let same : g.id ≡ active = ground arith in
        rw
          (
            e,
            active_last active g segments (low, high, above, o) e,
            ← same,
            entries_from-append g.id 0 g.blocks (b ∷ []),
            zero-add (length (file_bytes g.blocks)),
            append-nil (entries_from g.id 0 g.blocks),
          )
          (append-nil _)
    | inr e ↦
        rw (e, add_block-entries segments o)
          (sym (append_assoc (entries_from g.id 0 g.blocks) (disk_entries segments) _))
  ]

  pub add_block-points :
      (segments : List StoredSegment)
      → Ordered active segments
      → disk_points (add_block segments active b) ≡ disk_points segments ++ b.points
  unfolding add_block disk_points stored_points
  add_block-points [] o = append-nil _ ∙ append-nil b.points
  add_block-points (g ∷ segments) (low, high, above, o) = elim (Bool-cases (g.id == active)) [
    | inl e ↦
        rw
          (
            e,
            active_last active g segments (low, high, above, o) e,
            stored_points-append g.blocks (b ∷ []),
            append-nil b.points,
            append-nil (stored_points g.blocks),
          )
          (append-nil (stored_points g.blocks ++ b.points))
    | inr e ↦
        rw (e, add_block-points segments o)
          (sym (append_assoc (stored_points g.blocks) (disk_points segments) b.points))
  ]

-- A series in memory that agrees with its directory, of which the segments are the abstract view.
pub record Stores (s : Series) (segments : List StoredSegment) : Type 0 where
  pub files_eq : s.files ≡ disk_files segments
  pub ids_eq : s.segment_ids ≡ disk_ids segments
  pub index_eq : s.block_index ≡ disk_entries segments
  pub ordered : Ordered s.active_segment_id segments
  pub active_low : 1 ≤ s.active_segment_id
  pub active_fits : IsU32 s.active_segment_id
  pub buffer_fits : length s.buffer ≤ block_max_points
  pub all : All IsPoint s.buffer

-- What a reader sees: the points on disk, then those in memory.
abbrev pub visible : Series → List StoredSegment → List Point
visible s segments = disk_points segments ++ s.buffer
