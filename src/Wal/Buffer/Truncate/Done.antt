-- ===== src/Wal/Buffer/Truncate/Done.antt =====
-- `tsedge_wal_truncate_to_buffers` and `tsedge_wal_flush` succeed where every call on the FILE does.
use tsedge.Common.{
  ℕ, zero, suc, ◌≤◌, ◌≡◌, refl, ap, ◌∙◌, Bool, Bool-cases, true, List, [], ◌∷◌, ◌==◌, inl, inr,
  arith, All, length, length-take, length-drop, take, drop, ok,
}
use tsedge.Point.{Point, IsPoint}
use tsedge.Wal.{wal_max_batch_points}
use tsedge.Wal.Entry.{batch_size, batch_entry_size_fits, encode_batch_fits}
use tsedge.Wal.Replay.Recovery.{IsName}
use tsedge.Wal.Replay.Log.{Batch}
use tsedge.Wal.Buffer.{LogIo, Log, flush_with}
use tsedge.Wal.Buffer.Batches.{All-take, All-drop}
use tsedge.Wal.Buffer.Truncate.{
  Written, record_bytes, write_record, written_then, write_chunks, write_buffers, finish_truncate,
  truncate_with, truncate_to_buffers,
}
use tsedge.Wal.Buffer.Truncate.Kept.{IsSeries}

-- Every call on a FILE of the log succeeds.
abbrev pub LogWorks : LogIo → Type 0
LogWorks f = (f.opens ≡ true) × ((n : ℕ) → f.writes n ≡ true) × (f.syncs ≡ true) × (f.closes ≡ true)

pub flush_with_done : (f : LogIo) (log : Log) → LogWorks f → (flush_with f log).1 ≡ ok tt
unfolding flush_with
flush_with_done f log (opens, writes, syncs, closes) = elim (Bool-cases (length log.buffer == 0)) [
  | inl nothing ↦ rw nothing refl
  | inr filled ↦ rw (filled, opens, writes 0, syncs, closes) refl
]

module _ (f : LogIo) (works : LogWorks f) (alloc : ℕ → Bool)
    (plenty : (k : ℕ) → alloc k ≡ true) where
  write_record_done :
      (bytes : List ℕ) (writes : ℕ) (b : Batch)
      → (write_record f alloc bytes writes (record_bytes f alloc b.name b.points)).status ≡ ok tt
  unfolding write_record record_bytes
  write_record_done bytes writes b =
      let size = batch_size b.name b.points b.is_name.fits in
      let sized = batch_entry_size_fits b.name b.points b.is_name.fits b.some_point b.fit in
      let encoded =
        encode_batch_fits b.name b.points b.is_name.fits b.some_point b.fit size (omega arith) in
      rw (sized, plenty size, encoded, works.1 writes) refl

  written_then_ok :
      (w : Written) (next : List ℕ → ℕ → Written)
      → w.status ≡ ok tt
      → written_then f alloc w next ≡ next w.bytes w.writes
  unfolding written_then
  written_then_ok w next e = rw e refl

  write_chunks_done :
      (rounds : ℕ) (bytes : List ℕ) (writes : ℕ) (name : List ℕ) (points : List Point)
      → IsName name
      → All IsPoint points
      → length points ≤ rounds
      → (write_chunks f alloc rounds bytes writes name points).status ≡ ok tt
  unfolding write_chunks
  write_chunks_done rounds bytes writes name [] n hs low = refl
  write_chunks_done zero bytes writes name (p ∷ points) n hs low = absurd (omega arith)
  write_chunks_done (suc rounds) bytes writes name (p ∷ points) n hs low =
      let all = p ∷ points in
      let chunk = take wal_max_batch_points all in
      let b : Batch = record {
        name = name;
        points = chunk;
        is_name = n;
        some_point = omega (arith, length-take wal_max_batch_points all);
        fit = omega (arith, length-take wal_max_batch_points all);
        all = All-take IsPoint wal_max_batch_points all hs;
      } in
      let w = write_record f alloc bytes writes (record_bytes f alloc name chunk) in
      ap (λ (t : Written). t.status) (written_then_ok w _ (write_record_done bytes writes b))
      ∙ write_chunks_done rounds w.bytes w.writes name (drop wal_max_batch_points all) n
          (All-drop IsPoint wal_max_batch_points all hs)
          (omega (arith, low, length-drop wal_max_batch_points all))

  write_buffers_done :
      (bytes : List ℕ) (writes : ℕ) (series : List (List ℕ × List Point))
      → All IsSeries series
      → (write_buffers f alloc bytes writes series).status ≡ ok tt
  unfolding write_buffers
  write_buffers_done bytes writes [] all = refl
  write_buffers_done bytes writes ((name, buffer) ∷ series) ((n, hs), all) =
      let w = write_chunks f alloc (length buffer) bytes writes name buffer in
      ap (λ (t : Written). t.status)
        (written_then_ok w _
          (write_chunks_done (length buffer) bytes writes name buffer n hs (omega arith)))
      ∙ write_buffers_done w.bytes w.writes series all

  truncate_with_done :
      (log : Log) (series : List (List ℕ × List Point))
      → All IsSeries series
      → (truncate_with f alloc log series).1 ≡ ok tt
  unfolding truncate_with finish_truncate
  truncate_with_done log series all =
      let (opens, writes, syncs, closes) = works in
      rw (write_buffers_done [] 0 series all, syncs, closes, opens) refl

-- The replacement of the log is not refused for valid names and points.
pub truncate_to_buffers_done :
    (calls : ℕ → LogIo) (alloc : ℕ → Bool) (log : Log) (series : List (List ℕ × List Point))
    → ((n : ℕ) → LogWorks (calls n))
    → ((k : ℕ) → alloc k ≡ true)
    → All IsSeries series
    → (truncate_to_buffers calls alloc log series).1 ≡ ok tt
unfolding truncate_to_buffers
truncate_to_buffers_done calls alloc log series works plenty all =
    truncate_with_done (calls log.opened) (works log.opened) alloc plenty log series all
