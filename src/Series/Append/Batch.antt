-- ===== src/Series/Append/Batch.antt =====
-- `tsedge_series_append_batch` of src/core/series.c: what it accepts is what a reader sees next.
use tsedge.Common.{
  ℕ, zero, suc, ◌-◌, ◌≤◌, ◌<◌, ◌≡◌, ap, sym, subst, ◌∙◌, true, List, [], ◌∷◌, ◌++◌, inl, inr, arith,
  Error, err, length, length-take, length-drop, Result-cases, take, drop, take-append-drop, All, ok,
}
use tsedge.Point.{Point, IsPoint}
use tsedge.Double.{IsDoubles}
use tsedge.Block.{block_max_points}
use tsedge.Segment.Stored.{Gives}
use tsedge.Wal.Buffer.{wal_append_batch}
use tsedge.Wal.Buffer.Batches.{All-take, All-drop}
use tsedge.Series.Disk.{StoredSegment, Stores}
use tsedge.Series.Append.{
  Env, Db, DbStep, on_log, with_buffer, flush_if_full, batch_loop, append_batch,
}
use tsedge.Series.Append.Grows.{
  then_do-eq-ok, then_do_ok, then_do_err, Grows, Grows-trans, Grows-after_log, Grows-refl,
}
use tsedge.Series.Append.Points.{extend_Grows, flush_if_full-Grows}

module _ (env : Env) (quota : Db → DbStep) where
  -- One round of the loop of a batch, behind the flush.
  abbrev pub round_log : Db → List Point → DbStep
  round_log db points =
      let chunk = take (block_max_points - length db.series.buffer) points in
      on_log db (wal_append_batch env.log_calls env.alloc db.log db.series.name chunk)

  abbrev pub round_end : Db → List Point → Db
  round_end db points =
      let chunk = take (block_max_points - length db.series.buffer) points in
      with_buffer (round_log db points).0 ((round_log db points).0.series.buffer ++ chunk)

  abbrev pub round_left : Db → List Point → List Point
  round_left db points = drop (block_max_points - length db.series.buffer) points

  -- How `tsedge_series_append_batch` ends, without a count of rounds: with all points taken, with the
  -- status of a flush or of the log that fails, or behind a round that takes at least one point.
  pub data BatchEnds : Db → List Point → DbStep → Type 0 where
    all_taken : (db : Db) → BatchEnds db [] (db, ok tt)
    flush_fails :
        (db : Db) (p : Point) (points : List Point) (x : Error)
        → (flush_if_full env quota db true).1 ≡ err x
        → BatchEnds db (p ∷ points) (flush_if_full env quota db true)
    log_fails :
        (db : Db) (p : Point) (points : List Point) (x : Error)
        → (flush_if_full env quota db true).1 ≡ ok tt
        → (round_log (flush_if_full env quota db true).0 (p ∷ points)).1 ≡ err x
        → BatchEnds db (p ∷ points) (round_log (flush_if_full env quota db true).0 (p ∷ points))
    one_round :
        (db : Db) (p : Point) (points : List Point) (r : DbStep)
        → (flush_if_full env quota db true).1 ≡ ok tt
        → (round_log (flush_if_full env quota db true).0 (p ∷ points)).1 ≡ ok tt
        → length (flush_if_full env quota db true).0.series.buffer < block_max_points
        → BatchEnds
            (round_end (flush_if_full env quota db true).0 (p ∷ points))
            (round_left (flush_if_full env quota db true).0 (p ∷ points))
            r
        → BatchEnds db (p ∷ points) r

module _ (env : Env) (quota : Db → DbStep) (d : IsDoubles env.doubles)
    (gives : Gives env.alloc) where
  round_Grows :
      (db : Db) (segments : List StoredSegment) (points : List Point)
      → Stores db.series segments
      → All IsPoint points
      → length db.series.buffer < block_max_points
      → Grows db segments
          (take (block_max_points - length db.series.buffer) points)
          (round_end env quota db points)
  unfolding on_log
  round_Grows db segments points st hs room =
      let available = block_max_points - length db.series.buffer in
      let chunk = take available points in
      let db2 = (round_log env quota db points).0 in
      let fits = length-take available points in
      Grows-after_log db segments chunk
        (wal_append_batch env.log_calls env.alloc db.log db.series.name chunk) _
        (extend_Grows db2 segments chunk st (omega (arith, room, fits))
          (All-take IsPoint available points hs))

  batch_loop-Grows :
      (rounds : ℕ) (db : Db) (segments : List StoredSegment) (points : List Point)
      → db.disk_quota_bytes ≡ 0
      → Stores db.series segments
      → All IsPoint points
      → (batch_loop env quota rounds db points).1 ≡ ok tt
      → Grows db segments points (batch_loop env quota rounds db points).0
  unfolding batch_loop
  batch_loop-Grows rounds db segments [] none_set st hs e = Grows-refl db segments st
  batch_loop-Grows zero db segments (p ∷ points) none_set st hs e = absurd (cc e)
  batch_loop-Grows (suc rounds) db segments (p ∷ points) none_set st hs e =
      let all = p ∷ points in
      let (flushed, same) = then_do-eq-ok (flush_if_full env quota db true) _ e in
      let (grows, room) =
        flush_if_full-Grows env quota d gives db segments true none_set st flushed in
      let db1 = (flush_if_full env quota db true).0 in
      let available = block_max_points - length db1.series.buffer in
      let e1 = sym (ap (λ (t : DbStep). t.1) same) ∙ e in
      let (log_ok, same') = then_do-eq-ok (round_log env quota db1 all) _ e1 in
      let extended = round_Grows db1 grows.segments' all grows.stores hs room in
      let db3 = round_end env quota db1 all in
      let rest =
        batch_loop-Grows rounds db3 extended.segments' (drop available all)
          (extended.quota_eq ∙ grows.quota_eq ∙ none_set) extended.stores
          (All-drop IsPoint available all hs) (sym (ap (λ (t : DbStep). t.1) same') ∙ e1) in
      rw (same, same')
        (subst
          (λ (t : List Point).
            Grows db segments t (batch_loop env quota rounds db3 (drop available all)).0)
          (take-append-drop available all)
          (Grows-trans db db1 _ segments [] (take available all ++ drop available all) grows (
            Grows-trans db1 db3 _ grows.segments' (take available all) (drop available all) extended
              rest)))

  -- As many rounds as points are enough.
  batch_loop-BatchEnds :
      (rounds : ℕ) (db : Db) (segments : List StoredSegment) (points : List Point)
      → db.disk_quota_bytes ≡ 0
      → Stores db.series segments
      → All IsPoint points
      → length points ≤ rounds
      → BatchEnds env quota db points (batch_loop env quota rounds db points)
  unfolding batch_loop
  batch_loop-BatchEnds rounds db segments [] none_set st hs low = all_taken db
  batch_loop-BatchEnds zero db segments (p ∷ points) none_set st hs low = absurd (omega arith)
  batch_loop-BatchEnds (suc rounds) db segments (p ∷ points) none_set st hs low =
      let all = p ∷ points in
      let s = flush_if_full env quota db true in
      let logged = round_log env quota s.0 all in
      let Ends : DbStep → Type 0 = λ r. BatchEnds env quota db all r in
      elim (Result-cases s.1) [
        | inr (x, failed) ↦
            subst Ends (sym (then_do_err s _ x failed)) (flush_fails db p points x failed)
        | inl (done, flushed) ↦
            subst Ends (sym (then_do_ok s _ flushed)) (elim (Result-cases logged.1) [
              | inr (x, failed) ↦
                  subst Ends (sym (then_do_err logged _ x failed))
                    (log_fails db p points x flushed failed)
              | inl (done', written) ↦
                  let (grows, room) =
                    flush_if_full-Grows env quota d gives db segments true none_set st flushed in
                  let available = block_max_points - length s.0.series.buffer in
                  let extended = round_Grows s.0 grows.segments' all grows.stores hs room in
                  subst Ends (sym (then_do_ok logged _ written)) (
                    one_round db p points _ flushed written room (
                      batch_loop-BatchEnds rounds (round_end env quota s.0 all) extended.segments'
                        (drop available all) (extended.quota_eq ∙ grows.quota_eq ∙ none_set)
                        extended.stores (All-drop IsPoint available all hs)
                        (omega (arith, low, room, length-drop available all))))
            ])
      ]

  -- In a database without a quota, and with a malloc that gives every buffer that a block needs,
  -- `tsedge_series_append_batch` of valid points to a series that agrees with its directory ends,
  -- whichever other calls fail: every round finds room for at least one point, and the result is that
  -- of the loop without a bound on its rounds, with all points taken or with the status of the flush
  -- or of the write to the log that failed.
  pub append_batch-BatchEnds :
      (db : Db) (segments : List StoredSegment) (points : List Point)
      → db.disk_quota_bytes ≡ 0
      → Stores db.series segments
      → All IsPoint points
      → BatchEnds env quota db points (append_batch env quota db points)
  unfolding append_batch
  append_batch-BatchEnds db segments points none_set st hs =
      batch_loop-BatchEnds (length points) db segments points none_set st hs (omega arith)

  -- A batch that `tsedge_series_append_batch` accepts is what a reader sees behind the points of
  -- before.
  pub append_batch-Grows :
      (db : Db) (segments : List StoredSegment) (points : List Point)
      → db.disk_quota_bytes ≡ 0
      → Stores db.series segments
      → All IsPoint points
      → (append_batch env quota db points).1 ≡ ok tt
      → Grows db segments points (append_batch env quota db points).0
  unfolding append_batch
  append_batch-Grows db segments points none_set st hs e =
      batch_loop-Grows (length points) db segments points none_set st hs e
