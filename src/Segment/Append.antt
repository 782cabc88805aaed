-- ===== src/Segment/Append.antt =====
-- `tsedge_segment_append_block`: what it leaves in the file on each way out.
use tsedge.Common.{
  ℕ, ◌≡◌, refl, sym, Bool, Bool-cases, true, Option, none, some, List, [], ◌∷◌, ◌++◌, inl, inr,
  arith, append-nil, Result-cases, Error, ◌⊎◌, ◌&&◌, length, take, ok, err, io,
}
use tsedge.Point.{Point}
use tsedge.Double.{Doubles, IsDoubles}
use tsedge.Block.{BlockHeader}
use tsedge.Segment.{
  Stdio, fill_index_entry, Appended, contents, store_block, store_prepared, prepare_block,
  append_block,
}
use tsedge.Segment.Stored.{Gives, FillBlock, IsStored, prepare_block-IsStored}

-- Every call on the FILE succeeds.
abbrev pub Works : Stdio → Type 0
Works stdio =
    (stdio.opens ≡ true)
    × (stdio.seeks ≡ true)
    × (stdio.tells ≡ true)
    × (stdio.writes ≡ true)
    × (stdio.closes ≡ true)

-- The block behind the old bytes, and its entry, with the old length as offset.
abbrev pub appended : Option (List ℕ) → ℕ → BlockHeader → List ℕ → Appended
appended file segment_id h block = record {
  result = ok (some (fill_index_entry segment_id (length (contents file)) h));
  file = some (contents file ++ block);
}

store_prepared-Works :
    (stdio : Stdio) (file : Option (List ℕ)) (segment_id : ℕ) (h : BlockHeader) (block : List ℕ)
    → Works stdio
    → store_prepared stdio file segment_id (ok (h, block)) ≡ appended file segment_id h block
unfolding store_prepared store_block
store_prepared-Works stdio file segment_id h block (opens, seeks, tells, writes, closes) =
    rw (opens, seeks, tells, writes, closes)

-- If malloc and every call on the FILE succeed, appending 1 to 16384 points puts one block behind
-- what the file holds and reports the entry of that block: its offset is the file's old length.
-- The block reads back as these points.
pub append_block-IsStored :
    (d : Doubles) (alloc : ℕ → Bool) (stdio : Stdio) (file : Option (List ℕ)) (segment_id : ℕ)
    (points : List Point)
    → IsDoubles d
    → Gives alloc
    → Works stdio
    → FillBlock points
    → (h : BlockHeader) × (buf : List ℕ) × (payload : List ℕ) × IsStored points h buf payload
      × (append_block d alloc stdio file segment_id points
          ≡ appended file segment_id h (buf ++ payload))
unfolding append_block
append_block-IsStored d alloc stdio file segment_id [] id gives works f =
    absurd (omega (arith, f.some_point))
append_block-IsStored d alloc stdio file segment_id (p ∷ points) id gives works f =
    let (h, buf, payload, ready, stored) = prepare_block-IsStored d alloc (p ∷ points) id gives f in
    let (opens, seeks, tells, writes, closes) = works in
    (
      h,
      buf,
      payload,
      stored,
      rw ready (store_prepared-Works stdio file segment_id h (buf ++ payload) works),
    )

store_block_cases :
    (stdio : Stdio) (file : Option (List ℕ)) (segment_id : ℕ) (h : BlockHeader) (block : List ℕ)
    → let r =
        store_block stdio file block (fill_index_entry segment_id (length (contents file)) h) in
      (r ≡ appended file segment_id h block)
      ⊎ ((e : Error) × (added : List ℕ) × (r.result ≡ err e)
          × (contents r.file ≡ contents file ++ added)
          × (stdio.writes && stdio.closes ≡ true → added ≡ []))
unfolding store_block
store_block_cases stdio file segment_id h block =
    let whole = append-nil (contents file) in
    elim (Bool-cases stdio.opens) [
      | inr shut ↦ inr (rw shut (io, [], refl, sym whole, λ _. refl))
      | inl opens ↦ elim (Bool-cases (stdio.seeks && stdio.tells)) [
        | inr lost ↦ inr (rw (opens, lost) (io, [], refl, sym whole, λ _. refl))
        | inl at_end ↦ elim (Bool-cases (stdio.writes && stdio.closes)) [
          | inl stored ↦ inl (rw (opens, at_end, stored) refl)
          | inr torn ↦ inr (
              rw (opens, at_end, torn)
                (io, take stdio.persisted block, refl, refl, λ e. absurd (cc)))
        ]
      ]
    ]

-- How `tsedge_segment_append_block` can end.
-- * There was no point, nothing happened, and no entry is reported.
-- * The whole block is behind the old bytes, and its entry is reported with the old length as
--   offset.
-- * An error, with the old bytes in place. Behind them is nothing, unless a write or the close
--   failed.
pub append_block_cases :
    (d : Doubles) (alloc : ℕ → Bool) (stdio : Stdio) (file : Option (List ℕ)) (segment_id : ℕ)
    (points : List Point)
    → let r = append_block d alloc stdio file segment_id points in
      ((points ≡ []) × (r ≡ record { result = ok none; file = file }))
      ⊎ (((h : BlockHeader) × (block : List ℕ) × (prepare_block d alloc points ≡ ok (h, block))
            × (r ≡ appended file segment_id h block))
          ⊎ ((e : Error) × (added : List ℕ) × (r.result ≡ err e)
              × (contents r.file ≡ contents file ++ added)
              × (stdio.writes && stdio.closes ≡ true → added ≡ [])))
unfolding append_block store_prepared store_block
append_block_cases d alloc stdio file segment_id [] = inl (refl, refl)
append_block_cases d alloc stdio file segment_id (p ∷ points) =
    elim (Result-cases (prepare_block d alloc (p ∷ points))) [
      | inl ((h, block), e) ↦ rw e (elim (store_block_cases stdio file segment_id h block) [
        | inl done ↦ inr (inl (h, block, refl, done))
        | inr failed ↦ inr (inr failed)
      ])
      | inr (x, e) ↦ inr (inr (x, [], rw e refl, rw (e, append-nil (contents file)), λ _. refl))
    ]
