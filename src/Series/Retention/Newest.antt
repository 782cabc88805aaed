-- ===== src/Series/Retention/Newest.antt =====
-- The bounds of segments that src/core/series_retention.c takes from the index.
use mathlib.Core.Bool.{not}
use tsedge.Common.{
  ℕ, ◌≡◌, refl, sym, ◌∙◌, ap, Bool, true, false, List, [], ◌∷◌, ◌++◌, ◌==◌, arith, if◌then◌else◌,
  ok, Result-cases, Bool-cases, inl, inr, ok-injective, ok-pair_injective,
}
use tsedge.Point.{le64}
use tsedge.Segment.{IndexEntry}
use tsedge.Series.Retention.{
  SegmentBounds, bounds_known, widen, widen_first, single_bounds, add_segment_bounds, and_bounds,
  collect_bounds,
}

-- An entry added to the bounds of its segment, in one pass.
add_bounds : List SegmentBounds → IndexEntry → List SegmentBounds
add_bounds [] e = single_bounds e ∷ []
add_bounds (b ∷ bounds) e =
    let rest = add_bounds bounds e in
    if b.segment_id == e.segment_id then widen b e ∷ bounds else b ∷ rest

add_bounds_known :
    (bounds : List SegmentBounds) (e : IndexEntry)
    → bounds_known bounds e.segment_id ≡ true
    → widen_first bounds e ≡ add_bounds bounds e
unfolding bounds_known widen_first add_bounds
add_bounds_known [] e h = cc
add_bounds_known (b ∷ bounds) e h = elim (Bool-cases (b.segment_id == e.segment_id)) [
  | inl same ↦ (ground arith)
  | inr other ↦ let rest = add_bounds_known bounds e (ground arith) in rw other (ap (◌∷◌ b) rest)
]

add_bounds_unknown :
    (bounds : List SegmentBounds) (e : IndexEntry)
    → bounds_known bounds e.segment_id ≡ false
    → bounds ++ (single_bounds e ∷ []) ≡ add_bounds bounds e
unfolding bounds_known add_bounds
add_bounds_unknown [] e h = refl
add_bounds_unknown (b ∷ bounds) e h = elim (Bool-cases (b.segment_id == e.segment_id)) [
  | inl same ↦ absurd (ground arith)
  | inr other ↦ let rest = add_bounds_unknown bounds e (ground arith) in rw other (ap (◌∷◌ b) rest)
]

-- No two bounds of this segment.
unfoldable pub once : ℕ → List SegmentBounds → Bool
once id [] = true
once id (b ∷ bounds) =
    let rest = once id bounds in if b.segment_id == id then not (bounds_known bounds id) else rest

-- The bounds of this segment are not all too old.
unfoldable pub spared : ℕ → ℕ → List SegmentBounds → Bool
spared older id [] = false
spared older id (b ∷ bounds) =
    let rest = spared older id bounds in
    if b.segment_id == id then le64 older b.max_timestamp else rest

bounds_known-add_bounds_other :
    (bounds : List SegmentBounds) (e : IndexEntry) (id : ℕ)
    → (e.segment_id == id) ≡ false
    → bounds_known (add_bounds bounds e) id ≡ bounds_known bounds id
unfolding bounds_known add_bounds widen
bounds_known-add_bounds_other [] e id h = ground arith
bounds_known-add_bounds_other (b ∷ bounds) e id h =
    let rest = bounds_known-add_bounds_other bounds e id h in
    elim (Bool-cases (b.segment_id == e.segment_id)) [
      | inl same ↦ rw same refl
      | inr other ↦ rw other (rw rest refl)
    ]

once-add_bounds :
    (bounds : List SegmentBounds) (e : IndexEntry) (id : ℕ)
    → once id bounds ≡ true
    → once id (add_bounds bounds e) ≡ true
unfolding bounds_known add_bounds once widen
once-add_bounds [] e id h = ground arith
once-add_bounds (b ∷ bounds) e id h = elim (Bool-cases (b.segment_id == e.segment_id)) [
  | inl same ↦ rw same h
  | inr other ↦ elim (Bool-cases (b.segment_id == id)) [
    | inl mine ↦
        let rest = bounds_known-add_bounds_other bounds e id (ground arith) in
        rw other (rw mine (rw rest (ground arith)))
    | inr theirs ↦ rw other (rw theirs (once-add_bounds bounds e id (ground arith)))
  ]
]

spared-add_bounds :
    (bounds : List SegmentBounds) (e : IndexEntry) (older id : ℕ)
    → spared older id bounds ≡ true
    → spared older id (add_bounds bounds e) ≡ true
unfolding add_bounds spared widen
spared-add_bounds [] e older id h = cc
spared-add_bounds (b ∷ bounds) e older id h =
    let rest = spared-add_bounds bounds e older id in ground arith

spared-add_bounds_new :
    (bounds : List SegmentBounds) (e : IndexEntry) (older : ℕ)
    → le64 older e.max_timestamp ≡ true
    → spared older e.segment_id (add_bounds bounds e) ≡ true
unfolding add_bounds spared widen
spared-add_bounds_new [] e older h = ground arith
spared-add_bounds_new (b ∷ bounds) e older h =
    let rest = spared-add_bounds_new bounds e older h in ground arith

add_segment_bounds-add_bounds :
    (alloc : ℕ → Bool) (bounds bounds' : List SegmentBounds) (capacity capacity' : ℕ)
    (e : IndexEntry)
    → add_segment_bounds alloc bounds capacity e ≡ ok (bounds', capacity')
    → bounds' ≡ add_bounds bounds e
unfolding add_segment_bounds
add_segment_bounds-add_bounds alloc bounds bounds' capacity capacity' e h =
    elim (Bool-cases (bounds_known bounds e.segment_id)) [
      | inl known ↦
          let same = add_bounds_known bounds e known in
          (ok-pair_injective bounds' (widen_first bounds e) capacity' capacity
            (rw known at (sym h))).0
          ∙ same
      | inr unknown ↦ let same = add_bounds_unknown bounds e unknown in ground arith
    ]

pub all_bounds : List SegmentBounds → List IndexEntry → List SegmentBounds
all_bounds bounds [] = bounds
all_bounds bounds (e ∷ entries) = all_bounds (add_bounds bounds e) entries

pub collect_bounds-all_bounds :
    (alloc : ℕ → Bool) (bounds final : List SegmentBounds) (capacity : ℕ)
    (entries : List IndexEntry)
    → collect_bounds alloc bounds capacity entries ≡ ok final
    → final ≡ all_bounds bounds entries
unfolding collect_bounds and_bounds all_bounds
collect_bounds-all_bounds alloc bounds final capacity [] h = ok-injective (sym h)
collect_bounds-all_bounds alloc bounds final capacity (e ∷ entries) h =
    elim (Result-cases (add_segment_bounds alloc bounds capacity e)) [
      | inl ((bounds', capacity'), added) ↦
          let rest = rw added at h in
          let same =
            add_segment_bounds-add_bounds alloc bounds bounds' capacity capacity' e added in
          collect_bounds-all_bounds alloc bounds' final capacity' entries rest
          ∙ ap (λ (bs : List SegmentBounds). all_bounds bs entries) same
      | inr (x, failed) ↦ absurd (cc (rw failed at h))
    ]

pub once-all_bounds :
    (bounds : List SegmentBounds) (entries : List IndexEntry) (id : ℕ)
    → once id bounds ≡ true
    → once id (all_bounds bounds entries) ≡ true
unfolding all_bounds
once-all_bounds bounds [] id h = h
once-all_bounds bounds (e ∷ entries) id h =
    once-all_bounds (add_bounds bounds e) entries id (once-add_bounds bounds e id h)

spared-all_bounds :
    (bounds : List SegmentBounds) (entries : List IndexEntry) (older id : ℕ)
    → spared older id bounds ≡ true
    → spared older id (all_bounds bounds entries) ≡ true
unfolding all_bounds
spared-all_bounds bounds [] older id h = h
spared-all_bounds bounds (e ∷ entries) older id h =
    spared-all_bounds (add_bounds bounds e) entries older id (spared-add_bounds bounds e older id h)

pub spared-all_bounds_new :
    (bounds : List SegmentBounds) (front : List IndexEntry) (e : IndexEntry)
    (back : List IndexEntry) (older : ℕ)
    → le64 older e.max_timestamp ≡ true
    → spared older e.segment_id (all_bounds bounds (front ++ (e ∷ back))) ≡ true
unfolding all_bounds
spared-all_bounds_new bounds [] e back older h =
    spared-all_bounds (add_bounds bounds e) back older e.segment_id
      (spared-add_bounds_new bounds e older h)
spared-all_bounds_new bounds (f ∷ front) e back older h =
    spared-all_bounds_new (add_bounds bounds f) front e back older h
