-- ===== src/Series/Append/Flush.antt =====
-- `tsedge_series_flush` of src/core/series.c moves the buffer to disk and changes nothing else that a
-- reader sees.
use tsedge.Common.{
  ◌==◌, Bool, Bool-cases, true, false, ℕ, ◌≤◌, ◌≡◌, refl, ap, sym, ◌∙◌, Bool, Bool-cases, true,
  false, List, [], ◌∷◌, ◌++◌, append-nil, inl, inr, arith, IsU32, ◌==◌, length, Result, ok, err,
  Result-cases,
}
use tsedge.Point.{Point}
use tsedge.Double.{IsDoubles}
use tsedge.Segment.{estimate_block_size}
use tsedge.Segment.Stored.{Gives, FillBlock}
use tsedge.Wal.Buffer.{wal_flush}
use tsedge.Wal.Buffer.Truncate.{truncate_to_buffers}
use tsedge.Series.{Series, rotate_if_needed}
use tsedge.Series.Disk.{
  StoredSegment, disk_points, Ordered-mono, add_block, add_block-points, Stores, visible,
}
use tsedge.Series.Append.{
  Env, Db, DbStep, on_log, named_buffers, enforce_disk_quota, after_rotation, after_estimate,
  flush_block, finish_flush, flush,
}
use tsedge.Series.Append.Grows.{
  then_do-eq-ok, Grows, Grows-trans, Grows-log, Grows-after_log, Grows-refl,
}
use tsedge.Series.Append.Block.{rotate_if_needed_ok, after_rotation_ok, with_block-Stores}

nothing_left : (buffer : List Point) → length buffer == 0 ≡ true → buffer ≡ []
nothing_left [] e = refl
nothing_left (p ∷ buffer) e = absurd (ground (arith, e))

module _ (env : Env) (quota : Db → DbStep) where
  after_rotation-Grows :
      (db : Db) (segments : List StoredSegment) (id : ℕ)
      → IsDoubles env.doubles
      → Gives env.alloc
      → FillBlock db.series.buffer
      → Stores db.series segments
      → (db.series.active_segment_id ≤ id) × IsU32 id
      → (after_rotation env quota db (ok id)).1 ≡ ok tt
      → Grows db segments [] (after_rotation env quota db (ok id)).0
        × ((after_rotation env quota db (ok id)).0.series.buffer ≡ [])
  after_rotation-Grows db segments id d gives f st next e =
      let (b, same, id_capacity, entry_capacity, final) =
        after_rotation_ok env quota db id d gives f e in
      let o = Ordered-mono db.series.active_segment_id id segments next.0 st.ordered in
      rw final (
        record {
          segments' = add_block segments id b;
          stores = with_block-Stores db.series segments id b id_capacity entry_capacity st next;
          shown =
              append-nil (disk_points (add_block segments id b))
              ∙ add_block-points id b segments o
              ∙ ap (λ (t : List Point). disk_points segments ++ t) same
              ∙ sym (append-nil (visible db.series segments));
          name_eq = refl;
          quota_eq = refl;
          before_eq = refl;
          after_eq = refl;
        },
        refl,
      )

  -- What a flush that succeeds has been through: the log, a size, a segment, and the block.
  after_estimate-Grows :
      (db : Db) (segments : List StoredSegment) (r : Result ℕ)
      → IsDoubles env.doubles
      → Gives env.alloc
      → FillBlock db.series.buffer
      → Stores db.series segments
      → (after_estimate env quota db r).1 ≡ ok tt
      → Grows db segments [] (after_estimate env quota db r).0
        × ((after_estimate env quota db r).0.series.buffer ≡ [])
  unfolding after_estimate after_rotation
  after_estimate-Grows db segments (err x) d gives f st e = absurd (cc e)
  after_estimate-Grows db segments (ok block_size) d gives f st e =
      elim (Result-cases (rotate_if_needed env.alloc db.series block_size)) [
        | inr (x, failed) ↦ absurd (cc (rw failed at e))
        | inl (id, chosen) ↦ rw chosen (
            after_rotation-Grows db segments id d gives f st
              (rotate_if_needed_ok env.alloc db.series block_size id st.active_low st.active_fits
                chosen)
              (rw chosen at e))
      ]

  pub flush_block-Grows :
      (db : Db) (segments : List StoredSegment)
      → IsDoubles env.doubles
      → Gives env.alloc
      → Stores db.series segments
      → length db.series.buffer == 0 ≡ false
      → (flush_block env quota db).1 ≡ ok tt
      → Grows db segments [] (flush_block env quota db).0
        × ((flush_block env quota db).0.series.buffer ≡ [])
  unfolding flush_block on_log
  flush_block-Grows db segments d gives st filled e =
      let logged = on_log db (wal_flush env.log_calls env.alloc db.log) in
      let f : FillBlock db.series.buffer = record {
        some_point = ground arith;
        fit = st.buffer_fits;
        all = st.all;
      } in
      let (log_ok, same) = then_do-eq-ok logged _ e in
      let (grows, emptied) =
        after_estimate-Grows logged.0 segments (estimate_block_size env.alloc db.series.buffer) d
          gives f st (sym (ap (λ (t : DbStep). t.1) same) ∙ e) in
      rw same
        (Grows-after_log db segments [] (wal_flush env.log_calls env.alloc db.log) _ grows, emptied)

  finish_flush-Grows :
      (db : Db) (segments : List StoredSegment)
      → Stores db.series segments
      → db.disk_quota_bytes ≡ 0
      → (finish_flush env quota db).1 ≡ ok tt
      → Grows db segments [] (finish_flush env quota db).0
        × ((finish_flush env quota db).0.series ≡ db.series)
  unfolding finish_flush enforce_disk_quota on_log
  finish_flush-Grows db segments st none_set e =
      let r = truncate_to_buffers env.log_calls env.alloc db.log (named_buffers db) in
      let (log_ok, same) = then_do-eq-ok (on_log db r) (enforce_disk_quota env quota) e in
      let unlimited : db.disk_quota_bytes == 0 ≡ true = ground arith in
      rw (same, unlimited) (Grows-log db segments r st, refl)

  -- Without a quota, a flush that succeeds moves the buffer to disk: the series agrees with its
  -- directory again, a reader sees the same points, and nothing is left in memory.
  pub flush-Grows :
      (db : Db) (segments : List StoredSegment) (update_wal : Bool)
      → IsDoubles env.doubles
      → Gives env.alloc
      → db.disk_quota_bytes ≡ 0
      → Stores db.series segments
      → (flush env quota db update_wal).1 ≡ ok tt
      → Grows db segments [] (flush env quota db update_wal).0
        × ((flush env quota db update_wal).0.series.buffer ≡ [])
  unfolding flush
  flush-Grows db segments update_wal d gives none_set st e =
      elim (Bool-cases (length db.series.buffer == 0)) [
        | inl nothing ↦
            rw nothing (Grows-refl db segments st, nothing_left db.series.buffer nothing)
        | inr filled ↦ elim (Bool-cases update_wal) [
          | inr keep ↦
              rw (filled, keep)
                (flush_block-Grows db segments d gives st filled (rw (filled, keep) at e))
          | inl update ↦
              let e' = rw (filled, update) at e in
              let (stored, same) =
                then_do-eq-ok (flush_block env quota db) (finish_flush env quota) e' in
              let (grows, emptied) = flush_block-Grows db segments d gives st filled stored in
              let db2 = (flush_block env quota db).0 in
              let (more, series_eq) =
                finish_flush-Grows db2 grows.segments' grows.stores (grows.quota_eq ∙ none_set)
                  (sym (ap (λ (t : DbStep). t.1) same) ∙ e') in
              rw (filled, update, same)
                (
                  Grows-trans db db2 _ segments [] [] grows more,
                  ap (λ (s : Series). s.buffer) series_eq ∙ emptied,
                )
        ]
      ]
