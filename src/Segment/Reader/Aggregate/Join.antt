-- ===== src/Segment/Reader/Aggregate/Join.antt =====
-- Values of a list joined from the left, for the extrema of src/storage/segment_reader.c.
use Prim.Native.Nat.{min, max}
use tsedge.Common.{ℕ, ◌≡◌, refl, sym, ap, Option, none, some, List, [], ◌∷◌, ◌++◌, arith}

-- A value joined with those of a list, from the left.
unfoldable pub join_all : (ℕ → ℕ → ℕ) → ℕ → List ℕ → ℕ
join_all join m [] = m
join_all join m (x ∷ xs) = join_all join (join m x) xs

-- The same from a value that may be missing.
unfoldable pub join_onto : (ℕ → ℕ → ℕ) → Option ℕ → List ℕ → Option ℕ
join_onto join none [] = none
join_onto join none (x ∷ xs) = some (join_all join x xs)
join_onto join (some m) xs = some (join_all join m xs)

module _ (join : ℕ → ℕ → ℕ) (assoc : (a b c : ℕ) → join (join a b) c ≡ join a (join b c)) where
  join_all-join :
      (m x : ℕ) (xs : List ℕ) → join_all join (join m x) xs ≡ join m (join_all join x xs)
  unfolding join_all
  join_all-join m x [] = refl
  join_all-join m x (y ∷ xs) = rw (assoc m x y) (join_all-join m (join x y) xs)

  -- The values of one block may be joined first.
  pub join_onto-join_all :
      (o : Option ℕ) (x : ℕ) (xs : List ℕ)
      → join_onto join o (join_all join x xs ∷ []) ≡ join_onto join o (x ∷ xs)
  unfolding join_all join_onto
  join_onto-join_all none x xs = refl
  join_onto-join_all (some m) x xs = ap some (sym (join_all-join m x xs))

  join_all-append :
      (m : ℕ) (xs ys : List ℕ) → join_all join m (xs ++ ys) ≡ join_all join (join_all join m xs) ys
  unfolding join_all
  join_all-append m [] ys = refl
  join_all-append m (x ∷ xs) ys = join_all-append (join m x) xs ys

  pub join_onto-append :
      (o : Option ℕ) (xs ys : List ℕ)
      → join_onto join o (xs ++ ys) ≡ join_onto join (join_onto join o xs) ys
  unfolding join_onto
  join_onto-append none [] ys = refl
  join_onto-append none (x ∷ xs) ys = ap some (join_all-append x xs ys)
  join_onto-append (some m) xs ys = ap some (join_all-append m xs ys)

pub min_assoc : (a b c : ℕ) → min (min a b) c ≡ min a (min b c)
min_assoc a b c = omega arith

pub max_assoc : (a b c : ℕ) → max (max a b) c ≡ max a (max b c)
max_assoc a b c = omega arith
