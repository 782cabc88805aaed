-- ===== src/Series/Append/Points.antt =====
-- `tsedge_series_append` of src/core/series.c: the point that it accepts is what a reader sees next.
use tsedge.Common.{
  ◌+◌, ◌≤◌, ◌<◌, ◌≡◌, refl, ap, sym, ◌∙◌, Bool, Bool-cases, true, false, List, [], ◌∷◌, ◌++◌,
  append_assoc, inl, inr, arith, leb, if◌then◌else◌, length, length-append, All, ok,
}
use tsedge.Point.{Point, IsPoint}
use tsedge.Double.{IsDoubles}
use tsedge.Block.{block_max_points}
use tsedge.Segment.Stored.{Gives}
use tsedge.Wal.Buffer.{wal_append}
use tsedge.Series.Disk.{StoredSegment, Stores, disk_points}
use tsedge.Series.Append.{
  Env, Db, DbStep, on_log, with_buffer, flush_if_full, add_point_to_buffer, append_point_internal,
  append, add_recovered_point,
}
use tsedge.Series.Append.Grows.{then_do-eq-ok, Grows, Grows-trans, Grows-log, Grows-refl}
use tsedge.Series.Append.Flush.{flush-Grows}

All-append : (P : Point → Type 0) (xs ys : List Point) → All P xs → All P ys → All P (xs ++ ys)
All-append P [] ys hs ks = ks
All-append P (x ∷ xs) ys (h, hs) ks = (h, All-append P xs ys hs ks)

-- Points copied behind those in memory, where there is room.
pub extend_Grows :
    (db : Db) (segments : List StoredSegment) (points : List Point)
    → Stores db.series segments
    → length db.series.buffer + length points ≤ block_max_points
    → All IsPoint points
    → Grows db segments points (with_buffer db (db.series.buffer ++ points))
extend_Grows db segments points st room hs = record {
  segments' = segments;
  stores = record {
    files_eq = st.files_eq;
    ids_eq = st.ids_eq;
    index_eq = st.index_eq;
    ordered = st.ordered;
    active_low = st.active_low;
    active_fits = st.active_fits;
    buffer_fits = omega (arith, length-append db.series.buffer points);
    all = All-append IsPoint db.series.buffer points st.all hs;
  };
  shown = sym (append_assoc (disk_points segments) db.series.buffer points);
  name_eq = refl;
  quota_eq = refl;
  before_eq = refl;
  after_eq = refl;
}

module _ (env : Env) (quota : Db → DbStep) (d : IsDoubles env.doubles)
    (gives : Gives env.alloc) where
  pub flush_if_full-Grows :
      (db : Db) (segments : List StoredSegment) (update_wal : Bool)
      → db.disk_quota_bytes ≡ 0
      → Stores db.series segments
      → (flush_if_full env quota db update_wal).1 ≡ ok tt
      → Grows db segments [] (flush_if_full env quota db update_wal).0
        × (length (flush_if_full env quota db update_wal).0.series.buffer < block_max_points)
  unfolding flush_if_full
  flush_if_full-Grows db segments update_wal none_set st e =
      elim (Bool-cases (leb block_max_points (length db.series.buffer))) [
        | inr room ↦ rw room (Grows-refl db segments st, ground arith)
        | inl full ↦
            let (grows, emptied) =
              flush-Grows env quota db segments update_wal d gives none_set st (rw full at e) in
            rw full (grows, omega (arith, ap length emptied))
      ]

  add_point_to_buffer-Grows :
      (db : Db) (segments : List StoredSegment) (p : Point) (update_wal : Bool)
      → db.disk_quota_bytes ≡ 0
      → Stores db.series segments
      → IsPoint p
      → (add_point_to_buffer env quota db p update_wal).1 ≡ ok tt
      → Grows db segments (p ∷ []) (add_point_to_buffer env quota db p update_wal).0
  unfolding add_point_to_buffer
  add_point_to_buffer-Grows db segments p update_wal none_set st hp e =
      let (flushed, same) = then_do-eq-ok (flush_if_full env quota db update_wal) _ e in
      let (grows, room) = flush_if_full-Grows db segments update_wal none_set st flushed in
      let db1 = (flush_if_full env quota db update_wal).0 in
      rw same (
        Grows-trans db db1 _ segments [] (p ∷ []) grows
          (extend_Grows db1 grows.segments' (p ∷ []) grows.stores (omega (arith, room)) (hp, tt)))

  -- The write to the log, where there is one.
  logged_Grows :
      (db : Db) (segments : List StoredSegment) (p : Point) (write_wal : Bool)
      → Stores db.series segments
      → Grows db segments []
          (if write_wal
            then on_log db (wal_append env.log_calls env.alloc db.log db.series.name p)
            else (db, ok tt)).0
  logged_Grows db segments p true st = Grows-log db segments _ st
  logged_Grows db segments p false st = Grows-refl db segments st

  append_point_internal-Grows :
      (db : Db) (segments : List StoredSegment) (p : Point) (write_wal update_wal : Bool)
      → db.disk_quota_bytes ≡ 0
      → Stores db.series segments
      → IsPoint p
      → (append_point_internal env quota db p write_wal update_wal).1 ≡ ok tt
      → Grows db segments (p ∷ []) (append_point_internal env quota db p write_wal update_wal).0
  unfolding append_point_internal
  append_point_internal-Grows db segments p write_wal update_wal none_set st hp e =
      let (flushed, same) = then_do-eq-ok (flush_if_full env quota db update_wal) _ e in
      let (grows, room) = flush_if_full-Grows db segments update_wal none_set st flushed in
      let db1 = (flush_if_full env quota db update_wal).0 in
      let logged =
        if write_wal
        then on_log db1 (wal_append env.log_calls env.alloc db1.log db1.series.name p)
        else (db1, ok tt) in
      let e1 = sym (ap (λ (t : DbStep). t.1) same) ∙ e in
      let (log_ok, same') =
        then_do-eq-ok logged (λ db2. add_point_to_buffer env quota db2 p update_wal) e1 in
      let grows' = logged_Grows db1 grows.segments' p write_wal grows.stores in
      let added =
        add_point_to_buffer-Grows logged.0 grows'.segments' p update_wal
          (grows'.quota_eq ∙ grows.quota_eq ∙ none_set) grows'.stores hp
          (sym (ap (λ (t : DbStep). t.1) same') ∙ e1) in
      rw (same, same')
        (Grows-trans db db1 _ segments [] (p ∷ []) grows
          (Grows-trans db1 logged.0 _ grows.segments' [] (p ∷ []) grows' added))

  pub append-Grows :
      (db : Db) (segments : List StoredSegment) (p : Point)
      → db.disk_quota_bytes ≡ 0
      → Stores db.series segments
      → IsPoint p
      → (append env quota db p).1 ≡ ok tt
      → Grows db segments (p ∷ []) (append env quota db p).0
  unfolding append
  append-Grows db segments p none_set st hp e =
      append_point_internal-Grows db segments p true true none_set st hp e

  pub add_recovered_point-Grows :
      (db : Db) (segments : List StoredSegment) (p : Point)
      → db.disk_quota_bytes ≡ 0
      → Stores db.series segments
      → IsPoint p
      → (add_recovered_point env quota db p).1 ≡ ok tt
      → Grows db segments (p ∷ []) (add_recovered_point env quota db p).0
  unfolding add_recovered_point
  add_recovered_point-Grows db segments p none_set st hp e =
      append_point_internal-Grows db segments p false false none_set st hp e
