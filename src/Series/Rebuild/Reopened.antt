-- ===== src/Series/Rebuild/Reopened.antt =====
-- A series that is flushed and opened again, src/core/series.c, series_index.c and series_query.c.
use tsedge.Common.{
  ℕ, ◌+◌, ◌^◌, ◌<◌, ◌≡◌, ap, sym, subst, ◌∙◌, Bool, true, false, List, [], ◌++◌, append-nil, arith,
  select, ok, length, All,
}
use tsedge.Point.{Point, IsPoint, lt64}
use tsedge.Segment.{Stdio, IndexEntry}
use tsedge.Segment.Append.{Works}
use tsedge.Segment.Reader.{in_range}
use tsedge.Segment.Reader.Range.{visit}
use tsedge.Series.{Series}
use tsedge.Series.Disk.{StoredSegment, Stores, visible, disk_points}
use tsedge.Series.Append.{Env, Db, DbStep, flush}
use tsedge.Series.Append.Done.{Healthy, Named, flush_done}
use tsedge.Series.Append.Run.{Run, Run-Grows}
use tsedge.Series.Query.{ReadStats, read_range}
use tsedge.Series.Query.Range.{read_range-visit}
use tsedge.Series.Rebuild.{rebuild_index}
use tsedge.Series.Rebuild.Same.{rebuild_index-Stores}

-- A series object on a directory with these files, with nothing in memory.
pub record Opens (from reopened : Series) : Type 0 where
  pub files_eq : reopened.files ≡ from.files
  pub buffer_eq : reopened.buffer ≡ []

-- What another object of the same series sees after its index is rebuilt.
rebuild_index-visible :
    (calls : ℕ → Stdio) (alloc : ℕ → Bool) (s reopened : Series) (segments : List StoredSegment)
    → ((id : ℕ) → Works (calls id))
    → ((k : ℕ) → alloc k ≡ true)
    → Stores s segments
    → s.buffer ≡ []
    → Opens s reopened
    → let r = rebuild_index calls alloc (ok s.segment_ids) reopened in
      (r.1 ≡ ok tt) × Stores r.0 segments × (visible r.0 segments ≡ visible s segments)
rebuild_index-visible calls alloc s reopened segments works plenty st emptied opens =
    let none_left = opens.buffer_eq in
    let (done, stores, active, buffer_eq) =
      rebuild_index-Stores calls alloc reopened s.active_segment_id segments works plenty
        st.active_low st.active_fits st.ordered (opens.files_eq ∙ st.files_eq)
        (omega (arith, ap length none_left))
        (subst (λ (t : List Point). All IsPoint t) (sym none_left) tt) in
    rw st.ids_eq (
      done,
      stores,
      ap (λ (t : List Point). disk_points segments ++ t) (buffer_eq ∙ none_left ∙ sym emptied),
    )

-- Take a series that agrees with its directory, in a database without a quota, and any sequence of
-- appends, batches, recovered points and flushes that succeed; names and points are valid, malloc and
-- every call on a FILE succeed, in these calls and in all later ones, and behind them the active
-- segment is not the last of the 2 ^ 32 - 1 possible ones. Then a last flush returns TSEDGE_OK. Let
-- another object of the series be opened on the files that it leaves, with any index and with nothing
-- in memory, and the scan of the directory find the segments that the flushed series knew. Then
-- rebuilding the index returns TSEDGE_OK, and a read of a range that is not empty the wrong way round
-- returns TSEDGE_OK and hands to the callback exactly the points in the range among the old points and
-- all accepted ones, in order, up to the first one on which the callback asks to stop.
pub read_range-rebuild_index :
    (env : Env) (quota : Db → DbStep) (a b : Db) (segments : List StoredSegment)
    (points : List Point) (update_wal : Bool) (reopened : Series) (scans : ℕ → Stdio)
    (calls : IndexEntry → Stdio) (callback : List Point → Bool) (from_timestamp to_timestamp : ℕ)
    (stats : ReadStats) (seen : List Point)
    → Healthy env
    → a.disk_quota_bytes ≡ 0
    → Stores a.series segments
    → Run env quota a points b
    → Named b
    → b.series.active_segment_id + 1 < 2 ^ 32
    → Opens (flush env quota b update_wal).0.series reopened
    → ((id : ℕ) → Works (scans id))
    → ((e : IndexEntry) → Works (calls e))
    → lt64 to_timestamp from_timestamp ≡ false
    → let flushed = flush env quota b update_wal in
      let r = rebuild_index scans env.alloc (ok flushed.0.series.segment_ids) reopened in
      let pass = read_range calls env.alloc r.0 callback from_timestamp to_timestamp stats seen in
      (flushed.1 ≡ ok tt)
      × (r.1 ≡ ok tt)
      × (pass.result ≡ ok tt)
      × (pass.state
          ≡ (visit callback
              (select (in_range from_timestamp to_timestamp) (visible a.series segments ++ points))
              seen).0)
read_range-rebuild_index env quota a b segments points update_wal reopened scans calls callback
      from_timestamp to_timestamp stats seen healthy none_set st run named low opens scans_work
      works order =
    let plenty = healthy.plenty in
    let grown = Run-Grows env quota healthy.doubles (λ k fits. plenty k) segments none_set st run in
    let (flushed, kept, emptied) =
      flush_done env quota healthy b grown.segments' update_wal grown.stores named
        (grown.quota_eq ∙ none_set) low in
    let db = (flush env quota b update_wal).0 in
    let (rebuilt, stores, same) =
      rebuild_index-visible scans env.alloc db.series reopened kept.segments' scans_work plenty
        kept.stores emptied opens in
    let s = (rebuild_index scans env.alloc (ok db.series.segment_ids) reopened).0 in
    let (status, read) =
      read_range-visit calls env.alloc s kept.segments' callback from_timestamp to_timestamp stats
        seen works plenty stores order in
    let shown : visible s kept.segments' ≡ visible a.series segments ++ points =
      same ∙ kept.shown ∙ append-nil (visible b.series grown.segments') ∙ grown.shown in
    (flushed, rebuilt, status, rw shown at read)
