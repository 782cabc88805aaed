-- ===== src/Segment/Reader/Aggregate/Ranks.antt =====
-- The statistics that `tsedge_segment_aggregate` takes from headers against those of the points.
use Prim.Native.Nat.{min, max}
use mathlib.Core.List.{map-append}
use tsedge.Common.{
  ℕ, ◌+◌, ◌^◌, ◌≤◌, ◌<◌, ◌≡◌, refl, ◌∙◌, Bool, true, Option, none, some, map, List, [], ◌∷◌, ◌++◌,
  arith, ltb, ◌==◌, if◌then◌else◌, length, length-append, All,
}
use tsedge.Point.{Point}
use tsedge.Double.{Doubles}
use tsedge.Block.{BlockHeader}
use tsedge.Segment.{Bounds, bounds_step, bounds_loop, first_bounds}
use tsedge.Segment.Reader.Aggregate.{AggregateState, aggregate_state_add, aggregate_state_add_block}
use tsedge.Segment.Layout.{StoredBlock}
use tsedge.Segment.Reader.Aggregate.Join.{
  join_all, join_onto, join_onto-join_all, join_onto-append, min_assoc, max_assoc,
}

-- Doubles that are numbers, which leaves out the NaNs, are compared by their rank; 0 and -0 have the
-- same one.
pub record Ranks (d : Doubles) : Type 0 where
  pub number : ℕ → Bool
  pub rank : ℕ → ℕ
  pub lt_lem : (a b : ℕ) → number a ≡ true → number b ≡ true → d.lt a b ≡ ltb (rank a) (rank b)

-- What the header of a block says of the values of its points.
abbrev pub Describes : Doubles → List Point → BlockHeader → Type 0
Describes d [] h = Unit {0}
Describes d (p ∷ points) h =
    (h.min_value ≡ (bounds_loop d (first_bounds d p) points).min_value)
    × (h.max_value ≡ (bounds_loop d (first_bounds d p) points).max_value)

module _ (d : Doubles) (r : Ranks d) where
  abbrev pub Number : ℕ → Type 0
  Number a = r.number a ≡ true

  abbrev pub Numbers : AggregateState → Type 0
  Numbers s = Number s.min_value × Number s.max_value

  -- The ranks of the extrema, which a state without points does not have.
  abbrev pub lowest : AggregateState → Option ℕ
  lowest s = if s.count == 0 then none else some (r.rank s.min_value)

  abbrev pub highest : AggregateState → Option ℕ
  highest s = if s.count == 0 then none else some (r.rank s.max_value)

  abbrev pub ranks : List Point → List ℕ
  ranks points = map (λ p. r.rank p.value) points

  -- `s'` is `s` and these points.
  pub record Adds (s : AggregateState) (points : List Point) (s' : AggregateState) : Type 0 where
    pub count : s'.count ≡ s.count + length points
    pub low : lowest s' ≡ join_onto min (lowest s) (ranks points)
    pub high : highest s' ≡ join_onto max (highest s) (ranks points)
    pub numbers : Numbers s'

  -- A block of a file whose header describes its points, none of them a NaN.
  abbrev pub Readable : StoredBlock → Type 0
  Readable b = Describes d b.points b.header × All (λ q. Number q.value) b.points

  pub Adds-nil : (s : AggregateState) → Numbers s → Adds s [] s
  unfolding join_onto join_all
  Adds-nil s hs = record {
    count = omega arith;
    low = ground arith;
    high = ground arith;
    numbers = hs;
  }

  pub Adds-append :
      (s t u : AggregateState) (xs ys : List Point)
      → Adds s xs t
      → Adds t ys u
      → Adds s (xs ++ ys) u
  Adds-append s t u xs ys f g = record {
    count = omega (arith, length-append xs ys, f.count, g.count);
    low =
        rw
          (
            map-append (λ (p : Point). r.rank p.value) xs ys,
            join_onto-append min min_assoc (lowest s) (ranks xs) (ranks ys),
            ← f.low,
          )
          g.low;
    high =
        rw
          (
            map-append (λ (p : Point). r.rank p.value) xs ys,
            join_onto-append max max_assoc (highest s) (ranks xs) (ranks ys),
            ← f.high,
          )
          g.high;
    numbers = g.numbers;
  }

  -- One value moves the extrema by its rank.
  pub aggregate_state_add-Adds :
      (s : AggregateState) (p : Point)
      → Number p.value
      → Numbers s
      → s.count + 1 < 2 ^ 64
      → Adds s (p ∷ []) (aggregate_state_add d s p.value)
  unfolding aggregate_state_add join_onto join_all
  aggregate_state_add-Adds s p hp hs fits = record {
    count = omega arith;
    low = ground (arith, r.lt_lem p.value s.min_value, r.lt_lem p.value p.value);
    high = ground (arith, r.lt_lem s.max_value p.value, r.lt_lem p.value p.value);
    numbers = ground arith;
  }

  -- The statistics of a block that begins with `p` stand for its points.
  bounds_step_rank :
      (b : Bounds) (p : Point)
      → Number p.value
      → Number b.min_value
      → Number b.max_value
      → let b' = bounds_step d b p in
        (r.rank b'.min_value ≡ min (r.rank b.min_value) (r.rank p.value))
        × (r.rank b'.max_value ≡ max (r.rank b.max_value) (r.rank p.value))
        × Number b'.min_value
        × Number b'.max_value
  unfolding bounds_step
  bounds_step_rank b p hp low high =
      ground (arith, r.lt_lem p.value b.min_value, r.lt_lem b.max_value p.value)

  bounds_loop_rank :
      (b : Bounds) (points : List Point)
      → All (λ q. Number q.value) points
      → Number b.min_value
      → Number b.max_value
      → let b' = bounds_loop d b points in
        (r.rank b'.min_value ≡ join_all min (r.rank b.min_value) (ranks points))
        × (r.rank b'.max_value ≡ join_all max (r.rank b.max_value) (ranks points))
        × Number b'.min_value
        × Number b'.max_value
  unfolding bounds_loop join_all
  bounds_loop_rank b [] hs low high = (refl, refl, low, high)
  bounds_loop_rank b (p ∷ points) (hp, hs) low high =
      let (low_eq, high_eq, low', high') = bounds_step_rank b p hp low high in
      rw (low_eq, high_eq) at (bounds_loop_rank (bounds_step d b p) points hs low' high')

  -- A block whose header describes its points counts as those points.
  aggregate_state_add_block_rank :
      (s : AggregateState) (h : BlockHeader)
      → Number h.min_value
      → Number h.max_value
      → Numbers s
      → 1 ≤ h.point_count
      → s.count + h.point_count < 2 ^ 64
      → let s' = aggregate_state_add_block d s h in
        (s'.count ≡ s.count + h.point_count)
        × (lowest s' ≡ join_onto min (lowest s) (r.rank h.min_value ∷ []))
        × (highest s' ≡ join_onto max (highest s) (r.rank h.max_value ∷ []))
        × Numbers s'
  unfolding aggregate_state_add_block join_onto join_all
  aggregate_state_add_block_rank s h low high hs some_point fits = (
    omega arith,
    ground (arith, r.lt_lem h.min_value s.min_value, r.lt_lem h.min_value h.min_value),
    ground (arith, r.lt_lem s.max_value h.max_value, r.lt_lem h.max_value h.max_value),
    ground arith,
  )

  pub aggregate_state_add_block-Adds :
      (s : AggregateState) (points : List Point) (h : BlockHeader)
      → Describes d points h
      → All (λ q. Number q.value) points
      → Numbers s
      → 1 ≤ h.point_count
      → h.point_count ≡ length points
      → s.count + length points < 2 ^ 64
      → Adds s points (aggregate_state_add_block d s h)
  unfolding first_bounds
  aggregate_state_add_block-Adds s [] h described hs numbers some_point count fits =
      absurd (omega arith)
  aggregate_state_add_block-Adds s (p ∷ points) h (low_is, high_is) (hp, hs) numbers some_point
        count fits =
      let (low, high, low_number, high_number) =
        bounds_loop_rank (first_bounds d p) points hs hp hp in
      let (counted, low', high', numbers') =
        aggregate_state_add_block_rank s h (rw low_is low_number) (rw high_is high_number) numbers
          some_point (omega arith) in
      record {
        count = omega arith;
        low =
            low'
            ∙ rw (low_is, low)
                (join_onto-join_all min min_assoc (lowest s) (r.rank p.value) (ranks points));
        high =
            high'
            ∙ rw (high_is, high)
                (join_onto-join_all max max_assoc (highest s) (r.rank p.value) (ranks points));
        numbers = numbers';
      }
