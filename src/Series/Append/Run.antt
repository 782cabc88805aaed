-- ===== src/Series/Append/Run.antt =====
-- Any sequence of appends, batches and flushes of a series that succeed, src/core/series.c.
use tsedge.Common.{◌≡◌, ap, subst, Bool, List, [], ◌∷◌, ◌++◌, All, ok, ◌∙◌}
use tsedge.Point.{Point, IsPoint}
use tsedge.Double.{IsDoubles}
use tsedge.Segment.Stored.{Gives}
use tsedge.Series.Disk.{StoredSegment, Stores}
use tsedge.Series.Append.{Env, Db, DbStep, flush, append, add_recovered_point, append_batch}
use tsedge.Series.Append.Grows.{Grows, Grows-trans, Grows-refl}
use tsedge.Series.Append.Flush.{flush-Grows}
use tsedge.Series.Append.Points.{append-Grows, add_recovered_point-Grows}
use tsedge.Series.Append.Batch.{append_batch-Grows}

module _ (env : Env) (quota : Db → DbStep) where
  -- One call that succeeds, and the points that it accepts.
  pub data Call : Db → List Point → Db → Type 0 where
    flushes :
        {a b : Db} (update_wal : Bool) → flush env quota a update_wal ≡ (b, ok tt) → Call a [] b
    appends :
        {a b : Db} {points : List Point} (p : Point)
        → IsPoint p
        → append env quota a p ≡ (b, ok tt)
        → points ≡ p ∷ []
        → Call a points b
    recovers :
        {a b : Db} {points : List Point} (p : Point)
        → IsPoint p
        → add_recovered_point env quota a p ≡ (b, ok tt)
        → points ≡ p ∷ []
        → Call a points b
    batches :
        {a b : Db} {points : List Point}
        → All IsPoint points
        → append_batch env quota a points ≡ (b, ok tt)
        → Call a points b

  -- A sequence of such calls, with all points that they accept.
  pub data Run : Db → List Point → Db → Type 0 where
    start : {a : Db} → Run a [] a
    then_call :
        {a b c : Db} {points more all : List Point}
        → Run a points b
        → Call b more c
        → all ≡ points ++ more
        → Run a all c

  module _ (d : IsDoubles env.doubles) (gives : Gives env.alloc) where
    Call-Grows :
        {a b : Db} {points : List Point} (segments : List StoredSegment)
        → a.disk_quota_bytes ≡ 0
        → Stores a.series segments
        → Call a points b
        → Grows a segments points b
    Call-Grows {a} {b} segments none_set st (flushes update_wal e) =
        subst (λ (t : Db). Grows a segments [] t) (ap (λ (t : DbStep). t.0) e)
          (flush-Grows env quota a segments update_wal d gives none_set st
            (ap (λ (t : DbStep). t.1) e)).0
    Call-Grows {a} {b} segments none_set st (appends p hp e same) = rw same (
        subst (λ (t : Db). Grows a segments (p ∷ []) t) (ap (λ (t : DbStep). t.0) e)
          (append-Grows env quota d gives a segments p none_set st hp (ap (λ (t : DbStep). t.1) e)))
    Call-Grows {a} {b} segments none_set st (recovers p hp e same) = rw same (
        subst (λ (t : Db). Grows a segments (p ∷ []) t) (ap (λ (t : DbStep). t.0) e)
          (add_recovered_point-Grows env quota d gives a segments p none_set st hp
            (ap (λ (t : DbStep). t.1) e)))
    Call-Grows {a} {b} {points} segments none_set st (batches hs e) =
        subst (λ (t : Db). Grows a segments points t) (ap (λ (t : DbStep). t.0) e)
          (append_batch-Grows env quota d gives a segments points none_set st hs
            (ap (λ (t : DbStep). t.1) e))

    -- Without a quota, and with a malloc that gives every buffer that a block needs: take a series
    -- that agrees with its directory. Behind any sequence of appends, batches, recovered points and
    -- flushes that all succeed, the points being valid, the series agrees with its directory again,
    -- and a reader sees the old points and behind them all points that the calls accepted, in order.
    pub Run-Grows :
        {a b : Db} {points : List Point} (segments : List StoredSegment)
        → a.disk_quota_bytes ≡ 0
        → Stores a.series segments
        → Run a points b
        → Grows a segments points b
    Run-Grows {a} {b} segments none_set st start = Grows-refl a segments st
    Run-Grows {a} {b} segments none_set st
          (then_call {b = m} {points = points} {more = more} run call same) =
        let first = Run-Grows segments none_set st run in
        rw same (
          Grows-trans a m b segments points more first
            (Call-Grows first.segments' (first.quota_eq ∙ none_set) first.stores call))
