-- ===== src/Segment/TimeBounds.antt =====
-- What `make_header` stores as bounds: no point of the block lies outside.
use tsedge.Common.{ℕ, ◌≤◌, List, [], ◌∷◌, arith, All, IsU64}
use tsedge.Point.{Point, IsPoint, sign_flip}
use tsedge.Double.{Doubles, IsDoubles}
use tsedge.Segment.{Bounds, bounds_step, bounds_loop, first_bounds}

-- The timestamp of `p` lies between `lo` and `hi`, both included.
abbrev pub Within : ℕ → ℕ → Point → Type 0
Within lo hi p = (sign_flip lo ≤ sign_flip p.timestamp) × (sign_flip p.timestamp ≤ sign_flip hi)

-- `c` covers at least the times of `b`.
abbrev pub Widens : Bounds → Bounds → Type 0
Widens b c = (sign_flip c.min_ts ≤ sign_flip b.min_ts) × (sign_flip b.max_ts ≤ sign_flip c.max_ts)

pub record BoundsFit (b : Bounds) : Type 0 where
  pub min_ts_fits : IsU64 b.min_ts
  pub max_ts_fits : IsU64 b.max_ts
  pub ordered : sign_flip b.min_ts ≤ sign_flip b.max_ts
  pub min_value_fits : IsU64 b.min_value
  pub max_value_fits : IsU64 b.max_value
  pub sum_value_fits : IsU64 b.sum_value

module _ (d : Doubles) where
  bounds_step-Within :
      (b : Bounds) (p : Point)
      → Widens b (bounds_step d b p)
        × Within (bounds_step d b p).min_ts (bounds_step d b p).max_ts p
  unfolding bounds_step
  bounds_step-Within b p = ground arith

  -- The loop of `make_header` never narrows the bounds that it starts from, and the timestamps of
  -- all points that it passes lie between the bounds that it ends with.
  pub bounds_loop-Within :
      (b : Bounds) (points : List Point)
      → Widens b (bounds_loop d b points)
        × All (Within (bounds_loop d b points).min_ts (bounds_loop d b points).max_ts) points
  unfolding bounds_loop
  bounds_loop-Within b [] = omega arith
  bounds_loop-Within b (p ∷ points) =
      let (wider, all) = bounds_loop-Within (bounds_step d b p) points in
      let (step, here) = bounds_step-Within b p in (omega arith, (omega arith, all))

  bounds_step-BoundsFit :
      IsDoubles d
      → (b : Bounds) (p : Point) → IsPoint p
      → BoundsFit b
      → BoundsFit (bounds_step d b p)
  unfolding bounds_step
  bounds_step-BoundsFit id b p hp hb = ground (arith, id.add_fits b.sum_value p.value)

  pub bounds_loop-BoundsFit :
      IsDoubles d
      → (b : Bounds) (points : List Point) → All IsPoint points
      → BoundsFit b
      → BoundsFit (bounds_loop d b points)
  unfolding bounds_loop
  bounds_loop-BoundsFit id b [] hs hb = hb
  bounds_loop-BoundsFit id b (p ∷ points) hs hb =
      bounds_loop-BoundsFit id (bounds_step d b p) points hs.1
        (bounds_step-BoundsFit id b p hs.0 hb)

  pub first_bounds-BoundsFit : (p : Point) → IsPoint p → BoundsFit (first_bounds d p)
  unfolding first_bounds
  first_bounds-BoundsFit p hp = ground arith
