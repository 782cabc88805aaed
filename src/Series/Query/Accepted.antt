-- ===== src/Series/Query/Accepted.antt =====
-- Appends and reads together, src/core/series.c and series_query.c.
use tsedge.Common.{ℕ, ◌≡◌, Bool, false, List, ◌++◌, select, ok}
use tsedge.Point.{Point, lt64}
use tsedge.Double.{IsDoubles}
use tsedge.Segment.{Stdio, IndexEntry}
use tsedge.Segment.Append.{Works}
use tsedge.Segment.Scan.{Plenty}
use tsedge.Segment.Reader.{in_range}
use tsedge.Segment.Reader.Range.{visit}
use tsedge.Series.Disk.{StoredSegment, Stores, visible}
use tsedge.Series.Append.{Env, Db, DbStep}
use tsedge.Series.Append.Run.{Run, Run-Grows}
use tsedge.Series.Query.{ReadStats, read_range}
use tsedge.Series.Query.Range.{read_range-visit}

-- Take a series that agrees with its directory, in a database without a quota, and any sequence of
-- appends, batches, recovered points and flushes that succeed; malloc never fails. A read behind
-- them, of a range that is not empty the wrong way round and with every call on a FILE succeeding,
-- returns TSEDGE_OK and hands to the callback exactly the points in the range among those that the
-- series had and behind them all points that were accepted, in order, up to the first one on which
-- the callback asks to stop: no flush, rotation or full buffer on the way loses, repeats or moves a
-- point.
pub read_range-Run :
    (env : Env) (quota : Db → DbStep) (a b : Db) (segments : List StoredSegment)
    (points : List Point) (calls : IndexEntry → Stdio) (callback : List Point → Bool)
    (from_timestamp to_timestamp : ℕ) (stats : ReadStats) (seen : List Point)
    → IsDoubles env.doubles
    → Plenty env.alloc
    → a.disk_quota_bytes ≡ 0
    → Stores a.series segments
    → Run env quota a points b
    → ((e : IndexEntry) → Works (calls e))
    → lt64 to_timestamp from_timestamp ≡ false
    → let pass =
        read_range calls env.alloc b.series callback from_timestamp to_timestamp stats seen in
      (pass.result ≡ ok tt)
      × (pass.state
          ≡ (visit callback
              (select (in_range from_timestamp to_timestamp) (visible a.series segments ++ points))
              seen).0)
read_range-Run env quota a b segments points calls callback from_timestamp to_timestamp stats seen d
      plenty none_set st run works order =
    let grows = Run-Grows env quota d (λ k fits. plenty k) segments none_set st run in
    rw grows.shown at (
      read_range-visit calls env.alloc b.series grows.segments' callback from_timestamp to_timestamp
        stats seen works plenty grows.stores order)
