-- ===== src/Series/Retention/Kept.antt =====
-- What `tsedge_series_delete_before` of src/core/series_retention.c keeps.
use tsedge.Common.{
  ℕ, ◌≡◌, refl, ◌∙◌, ap, Bool, true, false, List, [], ◌∷◌, ◌++◌, ◌==◌, arith, length, Result, ok,
  err, Result-cases, Bool-cases, inl, inr,
}
use tsedge.Point.{le64}
use tsedge.Segment.{Stdio, IndexEntry}
use tsedge.Series.{Files, Series, file_of}
use tsedge.Series.Append.{Env, Db, DbStep, then_do, on_series, flush}
use tsedge.Series.Retention.Unlinked.{
  rebuild_index-files, delete_segment-other, delete_segment-young, then_delete-file,
}
use tsedge.Series.Retention.{
  SegmentBounds, bounds_known, collect_bounds, Deletion, delete_segment, delete_loop, rebuild_after,
  delete_old, delete_before,
}
use tsedge.Series.Retention.Newest.{
  once, spared, collect_bounds-all_bounds, once-all_bounds, spared-all_bounds_new,
}

-- The file of a segment whose bounds, if there are any, are not too old.
module _ (unlinks : ℕ → Bool) (alloc : ℕ → Bool) (older id : ℕ) where
  delete_loop-other :
      (s : Series) (deleted_any : Bool) (bounds : List SegmentBounds)
      → bounds_known bounds id ≡ false
      → file_of (delete_loop unlinks alloc older s deleted_any bounds).0.0.files id
        ≡ file_of s.files id
  unfolding bounds_known delete_loop
  delete_loop-other s deleted_any [] none_known = refl
  delete_loop-other s deleted_any (b ∷ bounds) none_known = elim (Bool-cases (b.segment_id == id)) [
    | inl mine ↦ absurd (ground arith)
    | inr theirs ↦
        let rest : bounds_known bounds id ≡ false = ground arith in
        then_delete-file unlinks alloc older (delete_segment unlinks alloc older s deleted_any b)
          (λ s' deleted'. delete_loop unlinks alloc older s' deleted' bounds) id
          (file_of s.files id) (delete_segment-other unlinks alloc older s deleted_any b id theirs)
          (λ s' deleted' same. delete_loop-other s' deleted' bounds rest ∙ same)
  ]

  delete_loop-spared :
      (s : Series) (deleted_any : Bool) (bounds : List SegmentBounds)
      → once id bounds ≡ true
      → spared older id bounds ≡ true
      → file_of (delete_loop unlinks alloc older s deleted_any bounds).0.0.files id
        ≡ file_of s.files id
  unfolding delete_loop once spared
  delete_loop-spared s deleted_any [] single young = refl
  delete_loop-spared s deleted_any (b ∷ bounds) single young =
      let next =
        λ (s' : Series) (deleted' : Bool). delete_loop unlinks alloc older s' deleted' bounds in
      let deletion = delete_segment unlinks alloc older s deleted_any b in
      let then_file = then_delete-file unlinks alloc older deletion next id (file_of s.files id) in
      elim (Bool-cases (b.segment_id == id)) [
        | inl mine ↦
            let new_enough : le64 older b.max_timestamp ≡ true = ground arith in
            let rest : bounds_known bounds id ≡ false = ground arith in
            then_file (delete_segment-young unlinks alloc older s deleted_any b id new_enough)
              (λ s' deleted' same. delete_loop-other s' deleted' bounds rest ∙ same)
        | inr theirs ↦
            let single' : once id bounds ≡ true = ground arith in
            let young' : spared older id bounds ≡ true = ground arith in
            then_file (delete_segment-other unlinks alloc older s deleted_any b id theirs)
              (λ s' deleted' same. delete_loop-spared s' deleted' bounds single' young' ∙ same)
      ]

rebuild_after-file :
    (scans : ℕ → Stdio) (alloc : ℕ → Bool) (discovered : Files → Result (List ℕ)) (d : Deletion)
    (id : ℕ)
    → file_of (rebuild_after scans alloc discovered d).0.files id ≡ file_of d.0.0.files id
unfolding rebuild_after
rebuild_after-file scans alloc discovered ((s, deleted_any), err e) id =
    ap (λ files. file_of files id)
      (rebuild_index-files scans alloc s.files (discovered s.files) s refl)
rebuild_after-file scans alloc discovered ((s, true), ok done) id =
    ap (λ files. file_of files id)
      (rebuild_index-files scans alloc s.files (discovered s.files) s refl)
rebuild_after-file scans alloc discovered ((s, false), ok done) id = refl

-- The deletion behind the flush.
delete_old-file :
    (scans : ℕ → Stdio) (alloc : ℕ → Bool) (discovered : Files → Result (List ℕ))
    (unlinks : ℕ → Bool) (older : ℕ) (s : Series) (front : List IndexEntry) (e : IndexEntry)
    (back : List IndexEntry)
    → s.block_index ≡ front ++ (e ∷ back)
    → le64 older e.max_timestamp ≡ true
    → file_of
        (delete_old scans alloc discovered unlinks older s
          (collect_bounds alloc [] 0 s.block_index)).0.files
        e.segment_id
      ≡ file_of s.files e.segment_id
unfolding delete_old once
delete_old-file scans alloc discovered unlinks older s front e back listed young =
    elim (Result-cases (collect_bounds alloc [] 0 s.block_index)) [
      | inl (bounds, collected) ↦
          let all = collect_bounds-all_bounds alloc [] bounds 0 s.block_index collected in
          let once_none : once e.segment_id [] ≡ true = refl in
          let single : once e.segment_id bounds ≡ true =
            rw all (once-all_bounds [] s.block_index e.segment_id once_none) in
          let spared' : spared older e.segment_id bounds ≡ true =
            rw (all, listed) (spared-all_bounds_new [] front e back older young) in
          rw collected (
            rebuild_after-file scans alloc discovered
              (delete_loop unlinks alloc older s false bounds) e.segment_id
            ∙ delete_loop-spared unlinks alloc older e.segment_id s false bounds single spared')
      | inr (x, failed) ↦ rw failed refl
    ]

-- After `tsedge_series_delete_before`, whatever it returns and whichever calls fail in it, the file
-- of a segment is what the flush at its start left, if after that flush the index has an entry of the
-- segment whose max_timestamp is not before the cut-off.
pub delete_before-file_of :
    (env : Env) (quota : Db → DbStep) (scans : ℕ → Stdio) (discovered : Files → Result (List ℕ))
    (unlinks : ℕ → Bool) (db : Db) (older : ℕ) (front : List IndexEntry) (e : IndexEntry)
    (back : List IndexEntry)
    → (flush env quota db true).0.series.block_index ≡ front ++ (e ∷ back)
    → le64 older e.max_timestamp ≡ true
    → file_of
        (delete_before env quota scans discovered unlinks db older).0.series.files
        e.segment_id
      ≡ file_of (flush env quota db true).0.series.files e.segment_id
unfolding delete_before then_do on_series
delete_before-file_of env quota scans discovered unlinks db older front e back listed young =
    let flushed = flush env quota db true in
    elim (Result-cases flushed.1) [
      | inl (done, returned) ↦
          let old =
            delete_old-file scans env.alloc discovered unlinks older flushed.0.series front e back
              listed young in
          elim (Bool-cases (length flushed.0.series.block_index == 0)) [
            | inl empty ↦ rw (returned, empty) refl
            | inr some_entry ↦ rw (returned, some_entry) old
          ]
      | inr (x, failed) ↦ rw failed refl
    ]
