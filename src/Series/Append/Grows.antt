-- ===== src/Series/Append/Grows.antt =====
-- What the appends of src/core/series.c do to a series, as a reader sees it.
use tsedge.Common.{
  Error, ◌≡◌, refl, ap, sym, ◌∙◌, List, [], ◌++◌, append-nil, append_assoc, ok, err,
}
use tsedge.Point.{Point}
use tsedge.Wal.Buffer.{Step}
use tsedge.Series.Disk.{StoredSegment, Stores, visible}
use tsedge.Series.Append.{Db, DbStep, then_do, on_log}

pub then_do-eq-ok :
    (s : DbStep) (next : Db → DbStep)
    → (then_do s next).1 ≡ ok tt
    → (s.1 ≡ ok tt) × (then_do s next ≡ next s.0)
unfolding then_do
then_do-eq-ok (db, ok done) next e = (refl, refl)
then_do-eq-ok (db, err x) next e = absurd (cc e)

pub then_do_ok : (s : DbStep) (next : Db → DbStep) → s.1 ≡ ok tt → then_do s next ≡ next s.0
unfolding then_do
then_do_ok (db, ok done) next e = refl
then_do_ok (db, err x) next e = absurd (cc e)

pub then_do_err : (s : DbStep) (next : Db → DbStep) (x : Error) → s.1 ≡ err x → then_do s next ≡ s
unfolding then_do
then_do_err (db, ok done) next x e = absurd (cc e)
then_do_err (db, err y) next x e = refl

-- What changes when `points` have come to a series of `db`, with these segments.
pub record Grows (db : Db) (segments : List StoredSegment) (points : List Point) (db' : Db)
    : Type 0 where
  pub segments' : List StoredSegment
  pub stores : Stores db'.series segments'
  pub shown : visible db'.series segments' ≡ visible db.series segments ++ points
  pub name_eq : db'.series.name ≡ db.series.name
  pub quota_eq : db'.disk_quota_bytes ≡ db.disk_quota_bytes
  pub before_eq : db'.before ≡ db.before
  pub after_eq : db'.after ≡ db.after

pub Grows-trans :
    (a b c : Db) (segments : List StoredSegment) (xs ys : List Point)
    → (first : Grows a segments xs b) → Grows b first.segments' ys c
    → Grows a segments (xs ++ ys) c
Grows-trans a b c segments xs ys first second = record {
  segments' = second.segments';
  stores = second.stores;
  shown =
      second.shown
      ∙ ap (λ (t : List Point). t ++ ys) first.shown
      ∙ append_assoc (visible a.series segments) xs ys;
  name_eq = second.name_eq ∙ first.name_eq;
  quota_eq = second.quota_eq ∙ first.quota_eq;
  before_eq = second.before_eq ∙ first.before_eq;
  after_eq = second.after_eq ∙ first.after_eq;
}

-- The log is no part of what a reader sees.
pub Grows-log :
    (db : Db) (segments : List StoredSegment) (s : Step)
    → Stores db.series segments
    → Grows db segments [] (on_log db s).0
unfolding on_log
Grows-log db segments s stores = record {
  segments' = segments;
  stores = stores;
  shown = sym (append-nil (visible db.series segments));
  name_eq = refl;
  quota_eq = refl;
  before_eq = refl;
  after_eq = refl;
}

pub Grows-after_log :
    (db : Db) (segments : List StoredSegment) (points : List Point) (s : Step) (db' : Db)
    → Grows (on_log db s).0 segments points db'
    → Grows db segments points db'
unfolding on_log
Grows-after_log db segments points s db' g = record {
  segments' = g.segments';
  stores = g.stores;
  shown = g.shown;
  name_eq = g.name_eq;
  quota_eq = g.quota_eq;
  before_eq = g.before_eq;
  after_eq = g.after_eq;
}

pub Grows-refl :
    (db : Db) (segments : List StoredSegment) → Stores db.series segments → Grows db segments [] db
Grows-refl db segments stores = record {
  segments' = segments;
  stores = stores;
  shown = sym (append-nil (visible db.series segments));
  name_eq = refl;
  quota_eq = refl;
  before_eq = refl;
  after_eq = refl;
}
