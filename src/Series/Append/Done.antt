-- ===== src/Series/Append/Done.antt =====
-- `tsedge_series_flush` of src/core/series.c succeeds where the calls that it makes do.
use tsedge.Common.{
  ℕ, ◌+◌, ◌^◌, ◌≤◌, ◌<◌, ◌≡◌, refl, ap, ◌∙◌, Bool, Bool-cases, true, false, some, List, [], ◌∷◌,
  ◌++◌, append-nil, map, inl, inr, arith, All, ◌==◌, length, ok,
}
use tsedge.Point.{Point}
use tsedge.Double.{IsDoubles}
use tsedge.Segment.{IndexEntry}
use tsedge.Segment.Scan.{Plenty}
use tsedge.Segment.Stored.{FillBlock}
use tsedge.Segment.Append.{Works, append_block-IsStored}
use tsedge.Wal.Replay.Recovery.{IsName}
use tsedge.Wal.Buffer.{wal_flush}
use tsedge.Wal.Buffer.Truncate.{truncate_to_buffers}
use tsedge.Wal.Buffer.Truncate.Kept.{IsSeries}
use tsedge.Wal.Buffer.Truncate.Done.{LogWorks, flush_with_done, truncate_to_buffers_done}
use tsedge.Series.{Series, add_segment_id, add_block_index_entry, file_of}
use tsedge.Series.Disk.{StoredSegment, Stores}
use tsedge.Series.Append.{
  Env, Db, DbStep, on_log, on_series, named_buffer, named_buffers, enforce_disk_quota, after_append,
  put_file, after_rotation, after_estimate, flush_block, finish_flush, flush,
}
use tsedge.Series.Append.Ready.{
  estimate_block_size_total, rotate_if_needed_total, add_segment_id_done,
  add_block_index_entry_done,
}
use tsedge.Series.Append.Grows.{then_do_ok, Grows}
use tsedge.Series.Append.Flush.{flush_block-Grows, flush-Grows}
use tsedge.Series.Append.Block.{rotate_if_needed_ok}

-- malloc and every call on a FILE succeed.
pub record Healthy (env : Env) : Type 0 where
  pub doubles : IsDoubles env.doubles
  pub plenty : Plenty env.alloc
  pub log_works : (n : ℕ) → LogWorks (env.log_calls n)
  pub segment_works : (n : ℕ) → Works (env.segment_calls n)

-- The names of the series, and the points that are still in memory, are valid.
pub record Named (db : Db) : Type 0 where
  pub before : All (λ s. IsSeries (named_buffer s)) db.before
  pub name : IsName db.series.name
  pub after : All (λ s. IsSeries (named_buffer s)) db.after

module _ (env : Env) (quota : Db → DbStep) (healthy : Healthy env) where
  after_append_done :
      (db : Db) (entry : IndexEntry)
      → 1 ≤ db.series.active_segment_id
      → (after_append env quota db (ok (some entry))).1 ≡ ok tt
  unfolding after_append on_series
  after_append_done db entry low =
      let ids = add_segment_id env.alloc db.series db.series.active_segment_id in
      let plenty = healthy.plenty in
      ap (λ (t : DbStep). t.1)
        (then_do_ok (on_series db ids) _
          (add_segment_id_done env.alloc db.series db.series.active_segment_id plenty low))
      ∙ ap (λ (t : DbStep). t.1)
          (then_do_ok (on_series (on_series db ids).0 (add_block_index_entry env.alloc ids.0 entry))
            _ (add_block_index_entry_done env.alloc ids.0 entry plenty))

  block_done :
      (db : Db) (segments : List StoredSegment)
      → Stores db.series segments
      → FillBlock db.series.buffer
      → db.series.active_segment_id + 1 < 2 ^ 32
      → (size : ℕ) → (after_estimate env quota db (ok size)).1 ≡ ok tt
  unfolding after_estimate after_rotation put_file
  block_done db segments st f low size =
      let s = db.series in
      let (id, chosen) = rotate_if_needed_total env.alloc s size healthy.plenty low in
      let (later, fits) =
        rotate_if_needed_ok env.alloc s size id st.active_low st.active_fits chosen in
      let (h, buf, payload, stored, done) =
        append_block-IsStored env.doubles env.alloc (env.segment_calls db.opened)
          (file_of s.files id) id s.buffer healthy.doubles (λ k small. healthy.plenty k)
          (healthy.segment_works db.opened) f in
      rw (chosen, done) (after_append_done _ _ (omega (arith, later, st.active_low)))

  flush_block_done :
      (db : Db) (segments : List StoredSegment)
      → Stores db.series segments
      → length db.series.buffer == 0 ≡ false
      → db.series.active_segment_id + 1 < 2 ^ 32
      → (flush_block env quota db).1 ≡ ok tt
  unfolding flush_block on_log wal_flush
  flush_block_done db segments st filled low =
      let logged = on_log db (wal_flush env.log_calls env.alloc db.log) in
      let f : FillBlock db.series.buffer = record {
        some_point = ground arith;
        fit = st.buffer_fits;
        all = st.all;
      } in
      let (size, sized) = estimate_block_size_total env.alloc db.series.buffer healthy.plenty in
      ap (λ (t : DbStep). t.1)
        (then_do_ok logged _
          (flush_with_done (env.log_calls db.log.opened) db.log (healthy.log_works db.log.opened)))
      ∙ rw sized (block_done logged.0 segments st f low size)

  named_buffer-All :
      (series : List Series) (rest : List (List ℕ × List Point))
      → All (λ s. IsSeries (named_buffer s)) series
      → All IsSeries rest
      → All IsSeries (map named_buffer series ++ rest)
  named_buffer-All [] rest hs ks = ks
  named_buffer-All (s ∷ series) rest (h, hs) ks = (h, named_buffer-All series rest hs ks)

  finish_flush_done :
      (db : Db) (segments : List StoredSegment)
      → Stores db.series segments
      → Named db
      → db.disk_quota_bytes ≡ 0
      → (finish_flush env quota db).1 ≡ ok tt
  unfolding finish_flush named_buffers on_log enforce_disk_quota
  finish_flush_done db segments st named none_set =
      let after =
        rw (append-nil (map named_buffer db.after)) at
          (named_buffer-All db.after [] named.after tt) in
      let all =
        named_buffer-All db.before (named_buffer db.series ∷ map named_buffer db.after) named.before
          ((named.name, st.all), after) in
      let unlimited : db.disk_quota_bytes == 0 ≡ true = ground arith in
      ap (λ (t : DbStep). t.1)
        (then_do_ok
          (on_log db (truncate_to_buffers env.log_calls env.alloc db.log (named_buffers db)))
          (enforce_disk_quota env quota)
          (truncate_to_buffers_done env.log_calls env.alloc db.log (named_buffers db)
            healthy.log_works healthy.plenty all))
      ∙ rw unlimited refl

  flush_returns :
      (db : Db) (segments : List StoredSegment) (update_wal : Bool)
      → Stores db.series segments
      → Named db
      → db.disk_quota_bytes ≡ 0
      → db.series.active_segment_id + 1 < 2 ^ 32
      → (flush env quota db update_wal).1 ≡ ok tt
  unfolding flush
  flush_returns db segments update_wal st named none_set low =
      elim (Bool-cases (length db.series.buffer == 0)) [
        | inl nothing ↦ rw nothing refl
        | inr filled ↦
            let stored = flush_block_done db segments st filled low in
            elim (Bool-cases update_wal) [
              | inr keep ↦ rw (filled, keep) stored
              | inl update ↦
                  let (grows, emptied) =
                    flush_block-Grows env quota db segments healthy.doubles
                      (λ k small. healthy.plenty k) st filled stored in
                  let db2 = (flush_block env quota db).0 in
                  let named2 : Named db2 = record {
                    before = rw grows.before_eq named.before;
                    name = rw grows.name_eq named.name;
                    after = rw grows.after_eq named.after;
                  } in
                  rw (filled, update)
                    (ap (λ (t : DbStep). t.1)
                        (then_do_ok (flush_block env quota db) (finish_flush env quota) stored)
                      ∙ finish_flush_done db2 grows.segments' grows.stores named2
                          (grows.quota_eq ∙ none_set))
            ]
      ]

  -- If malloc and every call on a FILE succeed, no quota is set, and the active segment is not the
  -- last of the 2 ^ 32 - 1 possible ones, then `tsedge_series_flush` of a series that agrees with its
  -- directory returns TSEDGE_OK, whether or not it also replaces the log. Behind it the series
  -- agrees with its directory again, a reader sees the same points in the same order, and none of
  -- them is in memory. Names and points are valid.
  pub flush_done :
      (db : Db) (segments : List StoredSegment) (update_wal : Bool)
      → Stores db.series segments
      → Named db
      → db.disk_quota_bytes ≡ 0
      → db.series.active_segment_id + 1 < 2 ^ 32
      → let r = flush env quota db update_wal in
        (r.1 ≡ ok tt) × Grows db segments [] r.0 × (r.0.series.buffer ≡ [])
  flush_done db segments update_wal st named none_set low =
      let returned = flush_returns db segments update_wal st named none_set low in
      let (grows, emptied) =
        flush-Grows env quota db segments update_wal healthy.doubles (λ k small. healthy.plenty k)
          none_set st returned in
      (returned, grows, emptied)
