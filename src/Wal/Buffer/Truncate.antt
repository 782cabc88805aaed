-- ===== src/Wal/Buffer/Truncate.antt =====
-- `tsedge_wal_truncate_to_buffers` of src/storage/wal.c: the log of only what is still in memory.
pub mod Kept
pub mod Done
use mathlib.Core.Bool.{not}
use tsedge.Common.{
  ℕ, zero, suc, ◌+◌, Bool, ◌&&◌, some, List, [], ◌∷◌, ◌++◌, if◌then◌else◌, length, take, drop,
  Result, ok, err, io, internal, no_memory, fail_if, ◌>>=◌, ◌>>◌,
}
use tsedge.Point.{Point}
use tsedge.Wal.{wal_max_batch_points, batch_entry_size, encode_batch}
use tsedge.Wal.Buffer.{LogIo, Log, Step}

-- What has been handed to the FILE: the bytes, the number of fwrites, and the status.
pub record Written : Type 0 where
  pub bytes : List ℕ
  pub writes : ℕ
  pub status : Result (Unit {0})

module _ (f : LogIo) (alloc : ℕ → Bool) where
  -- The entry that `wal_write_batch_record` builds.
  unfoldable pub record_bytes : List ℕ → List Point → Result (List ℕ)
  record_bytes name points = do
    entry_size ← batch_entry_size (length name) (length points)
    fail_if (not (alloc entry_size)) no_memory
    encode_batch name points entry_size

  unfoldable pub write_record : List ℕ → ℕ → Result (List ℕ) → Written
  write_record bytes writes (err e) = record { bytes = bytes; writes = writes; status = err e }
  write_record bytes writes (ok entry) = record {
    bytes = bytes ++ entry;
    writes = writes + 1;
    status = if f.writes writes then ok tt else err io;
  }

  -- `if (rc != TSEDGE_OK) { fclose(f); return rc; }`.
  unfoldable pub written_then : Written → (List ℕ → ℕ → Written) → Written
  written_then w next = go w.status
    where
      go : Result (Unit {0}) → Written
      go (ok done) = next w.bytes w.writes
      go (err e) = w

  -- The inner loop: every round takes a chunk of at most 65536 points of one buffer, so that as many
  -- rounds as points are enough.
  unfoldable pub write_chunks : ℕ → List ℕ → ℕ → List ℕ → List Point → Written
  write_chunks rounds bytes writes name [] = record {
    bytes = bytes;
    writes = writes;
    status = ok tt;
  }
  write_chunks zero bytes writes name (p ∷ points) = record {
    bytes = bytes;
    writes = writes;
    status = err internal;
  }
  write_chunks (suc rounds) bytes writes name (p ∷ points) =
      written_then
        (write_record bytes writes (record_bytes name (take wal_max_batch_points (p ∷ points))))
        (λ bytes' writes'.
          write_chunks rounds bytes' writes' name (drop wal_max_batch_points (p ∷ points)))

  -- The loop over the series, each its name and its buffer.
  unfoldable pub write_buffers : List ℕ → ℕ → List (List ℕ × List Point) → Written
  write_buffers bytes writes [] = record { bytes = bytes; writes = writes; status = ok tt }
  write_buffers bytes writes ((name, buffer) ∷ series) =
      written_then (write_chunks (length buffer) bytes writes name buffer)
        (λ bytes' writes'. write_buffers bytes' writes' series)

  -- The end of the function: without an error the log is synced and closed.
  unfoldable pub finish_truncate : Log → Written → Step
  finish_truncate log w = go w.status
    where
      torn : Log
      torn = record log { file = some (take f.persisted w.bytes) }

      go : Result (Unit {0}) → Step
      go (err e) = (torn, err e)
      go (ok done) =
          if f.syncs && f.closes
          then (record log { file = some w.bytes }, ok tt)
          else (torn, err io)

  unfoldable pub truncate_with : Log → List (List ℕ × List Point) → Step
  truncate_with log series =
      let emptied : Log = record log { buffer = []; opened = log.opened + 1 } in
      if f.opens then finish_truncate emptied (write_buffers [] 0 series) else (emptied, err io)

-- `calls` gives the calls on the FILE by how often the log has been opened.
unfoldable pub truncate_to_buffers :
    (ℕ → LogIo) → (ℕ → Bool) → Log → List (List ℕ × List Point) → Step
truncate_to_buffers calls alloc log series = truncate_with (calls log.opened) alloc log series
