-- ===== src/Series/Append.antt =====
-- Appending to a series and flushing its buffer, src/core/series.c.
pub mod Grows
pub mod Block
pub mod Flush
pub mod Ready
pub mod Done
pub mod Points
pub mod Batch
pub mod Run
use tsedge.Common.{
  ℕ, zero, suc, ◌+◌, ◌-◌, Bool, true, false, Option, none, some, List, [], ◌∷◌, ◌++◌, map, leb, ltb,
  ◌==◌, if◌then◌else◌, length, take, drop, Result, ok, err, internal,
}
use tsedge.Point.{Point}
use tsedge.Double.{Doubles}
use tsedge.Block.{block_max_points}
use tsedge.Segment.{Stdio, IndexEntry, Appended, contents, estimate_block_size, append_block}
use tsedge.Wal.Buffer.{LogIo, Log, Step, wal_flush, wal_append, wal_append_batch}
use tsedge.Wal.Buffer.Truncate.{truncate_to_buffers}
use tsedge.Series.{
  Series, SeriesStep, file_of, set_file, add_segment_id, add_block_index_entry, rotate_if_needed,
}

-- The processor, malloc, and which calls on the FILEs of the log and of the segments succeed, by how
-- often such a FILE has been opened.
pub record Env : Type 0 where
  pub doubles : Doubles
  pub alloc : ℕ → Bool
  pub log_calls : ℕ → LogIo
  pub segment_calls : ℕ → Stdio

-- `tsedge_db` with one of its series, and its table of series in front of that one and behind it.
-- `opened` counts the appends to segment files.
pub record Db : Type 0 where
  pub log : Log
  pub before : List Series
  pub series : Series
  pub after : List Series
  pub disk_quota_bytes : ℕ
  pub opened : ℕ

abbrev pub DbStep : Type 0
DbStep = Db × Result (Unit {0})

-- `if (rc != TSEDGE_OK) return rc;` between two calls.
unfoldable pub then_do : DbStep → (Db → DbStep) → DbStep
then_do (db, err e) next = (db, err e)
then_do (db, ok done) next = next db

-- Calls on a part of the database.
unfoldable pub on_log : Db → Step → DbStep
on_log db (log, status) = (record db { log = log }, status)

unfoldable pub on_series : Db → SeriesStep → DbStep
on_series db (series, status) = (record db { series = series }, status)

-- The names and buffers that `tsedge_wal_truncate_to_buffers` writes.
abbrev pub named_buffer : Series → List ℕ × List Point
named_buffer s = (s.name, s.buffer)

unfoldable pub named_buffers : Db → List (List ℕ × List Point)
named_buffers db =
    map named_buffer db.before ++ (named_buffer db.series ∷ map named_buffer db.after)

abbrev pub with_buffer : Db → List Point → Db
with_buffer db points = record db { series = record db.series { buffer = points } }

-- `quota` is what `tsedge_db_enforce_disk_quota` does where a quota is set.
module _ (env : Env) (quota : Db → DbStep) where
  unfoldable pub enforce_disk_quota : Db → DbStep
  enforce_disk_quota db = if db.disk_quota_bytes == 0 then (db, ok tt) else quota db

  -- The end of a flush, with the block on disk: the index, and the buffer. An append of a buffer that
  -- is not empty always reports an entry.
  unfoldable pub after_append : Db → Result (Option IndexEntry) → DbStep
  after_append db (err e) = (db, err e)
  after_append db (ok none) = (db, err internal)
  after_append db (ok (some entry)) =
      then_do (on_series db (add_segment_id env.alloc db.series db.series.active_segment_id)) λ db1.
        then_do (on_series db1 (add_block_index_entry env.alloc db1.series entry))
          λ db2. (with_buffer db2 [], ok tt)

  -- The directory behind `tsedge_segment_append_block`, which may have left no file.
  unfoldable pub put_file : Db → ℕ → Option (List ℕ) → Db
  put_file db segment_id none = record db {
    series = record db.series { active_segment_id = segment_id };
    opened = db.opened + 1;
  }
  put_file db segment_id (some bytes) = record db {
    series = record db.series {
      active_segment_id = segment_id;
      files = set_file db.series.files segment_id bytes;
    };
    opened = db.opened + 1;
  }

  unfoldable pub after_rotation : Db → Result ℕ → DbStep
  after_rotation db (err e) = (db, err e)
  after_rotation db (ok segment_id) =
      let r =
        append_block env.doubles env.alloc (env.segment_calls db.opened)
          (file_of db.series.files segment_id) segment_id db.series.buffer in
      after_append (put_file db segment_id r.file) r.result

  unfoldable pub after_estimate : Db → Result ℕ → DbStep
  after_estimate db (err e) = (db, err e)
  after_estimate db (ok block_size) =
      after_rotation db (rotate_if_needed env.alloc db.series block_size)

  -- A flush up to the emptied buffer.
  unfoldable pub flush_block : Db → DbStep
  flush_block db =
      then_do (on_log db (wal_flush env.log_calls env.alloc db.log))
        λ db1. after_estimate db1 (estimate_block_size env.alloc db1.series.buffer)

  -- The rest, with the log of what is still in memory.
  unfoldable pub finish_flush : Db → DbStep
  finish_flush db =
      then_do (on_log db (truncate_to_buffers env.log_calls env.alloc db.log (named_buffers db)))
        enforce_disk_quota

  -- `tsedge_series_flush`.
  unfoldable pub flush : Db → Bool → DbStep
  flush db update_wal =
      if length db.series.buffer == 0
      then (db, ok tt)
      else if update_wal
      then then_do (flush_block db) finish_flush
      else flush_block db

  -- `if (series->buffer_count >= series->buffer_capacity)` and the flush under it.
  unfoldable pub flush_if_full : Db → Bool → DbStep
  flush_if_full db update_wal =
      if leb block_max_points (length db.series.buffer) then flush db update_wal else (db, ok tt)

  unfoldable pub add_point_to_buffer : Db → Point → Bool → DbStep
  add_point_to_buffer db point update_wal =
      then_do (flush_if_full db update_wal)
        λ db1. (with_buffer db1 (db1.series.buffer ++ (point ∷ [])), ok tt)

  unfoldable pub append_point_internal : Db → Point → Bool → Bool → DbStep
  append_point_internal db point write_wal update_wal_on_flush =
      then_do (flush_if_full db update_wal_on_flush) λ db1.
        then_do
          (if write_wal
            then on_log db1 (wal_append env.log_calls env.alloc db1.log db1.series.name point)
            else (db1, ok tt))
          λ db2. add_point_to_buffer db2 point update_wal_on_flush

  -- `tsedge_series_append`.
  unfoldable pub append : Db → Point → DbStep
  append db point = append_point_internal db point true true

  -- `tsedge_series_add_recovered_point`.
  unfoldable pub add_recovered_point : Db → Point → DbStep
  add_recovered_point db point = append_point_internal db point false false

  -- The loop of `tsedge_series_append_batch` over the points that are left. Every round takes at
  -- least one, so that as many rounds as points are enough; a loop without rounds answers
  -- TSEDGE_ERR_INTERNAL, which the code never does.
  unfoldable pub batch_loop : ℕ → Db → List Point → DbStep
  batch_loop rounds db [] = (db, ok tt)
  batch_loop zero db (p ∷ points) = (db, err internal)
  batch_loop (suc rounds) db (p ∷ points) = then_do (flush_if_full db true) λ db1.
      let available = block_max_points - length db1.series.buffer in
      let chunk = take available (p ∷ points) in
      then_do (on_log db1 (wal_append_batch env.log_calls env.alloc db1.log db1.series.name chunk))
        λ db2.
          batch_loop rounds (with_buffer db2 (db2.series.buffer ++ chunk))
            (drop available (p ∷ points))

  -- `tsedge_series_append_batch`.
  unfoldable pub append_batch : Db → List Point → DbStep
  append_batch db points = batch_loop (length points) db points
