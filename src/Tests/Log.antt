-- ===== src/Tests/Log.antt =====
-- src/storage/wal.c on concrete logs.
use tsedge.Common.{ℕ, ◌≤◌, ◌≡◌, refl, true, some, List, [], ◌∷◌, ◌++◌, arith, take, All, ok}
use tsedge.Point.{Point, IsPoint}
use tsedge.Bitstream.{write_u32_le, write_u64_le}
use tsedge.Wal.{batch_entry_size, encode_batch, with_checksum, batch_body, point_words}
use tsedge.Wal.Replay.{Database, name_bytes_ok, wal_replay, wal_verify_file}
use tsedge.Wal.Replay.Recovery.{IsName}
use tsedge.Wal.Replay.Log.{
  Batch, entry_bytes, log_bytes, apply_log, wal_replay-log_bytes, wal_verify_file-log_bytes,
}
use tsedge.Wal.Buffer.{
  fast, and_then, append_sized, append_encoded, grow_buffer, flush_if_strict, LogIo, Log,
  capacity_loop, wal_buffer_bytes, append_bytes, append_chunks, wal_append_batch,
  ensure_buffer_capacity, append_batch_record,
}
use tsedge.Wal.Buffer.Truncate.{
  truncate_to_buffers, truncate_with, write_buffers, write_chunks, written_then, write_record,
  record_bytes, finish_truncate,
}
use tsedge.Wal.Buffer.Truncate.Kept.{Kept, truncate_to_buffers-Kept}
use tsedge.Wal.Buffer.Append.{log_stream, append_bytes_keeps, capacity_loop_total}
use tsedge.Wal.Buffer.Batches.{Logs, wal_append_batch-Logs}

-- "cpu".
abbrev cpu : List ℕ
cpu = 0x63 ∷ 0x70 ∷ 0x75 ∷ []

cpu-IsName : IsName cpu
unfolding name_bytes_ok
cpu-IsName = record {
  fits = record { some_byte = omega arith; fit = omega arith };
  no_nul = (
    λ e. absurd (omega (arith, e)),
    (λ e. absurd (omega (arith, e)), (λ e. absurd (omega (arith, e)), tt)),
  );
  bytes_ok = refl;
}

abbrev logged : List Point
logged = record { timestamp = 1000; value = 7 } ∷ record { timestamp = 2000; value = 8 } ∷ []

logged-IsPoint : All IsPoint logged
logged-IsPoint = ground arith

abbrev one_batch : Batch
one_batch = record {
  name = cpu;
  points = logged;
  is_name = cpu-IsName;
  some_point = omega arith;
  fit = omega arith;
  all = logged-IsPoint;
}

-- A database that keeps the points of all series in one list.
abbrev collected : Database (List Point)
collected = record { add_series = λ db name. ok db; add_point = λ db name p. ok (db ++ (p ∷ [])) }

wal_replay-log_bytes_example :
    wal_replay collected
      (λ k. true)
      true
      true
      []
      (some (log_bytes (one_batch ∷ []) ++ take 20 (entry_bytes one_batch)))
    ≡ apply_log collected (λ k. true) [] (one_batch ∷ [])
wal_replay-log_bytes_example =
    wal_replay-log_bytes collected (λ k. true) [] (one_batch ∷ []) one_batch 20 (λ k. refl)
      (omega arith)

wal_verify_file-log_bytes_example :
    wal_verify_file (λ k. true) true true (some (log_bytes (one_batch ∷ one_batch ∷ []))) ≡ ok 2
wal_verify_file-log_bytes_example =
    wal_verify_file-log_bytes (λ k. true) (one_batch ∷ one_batch ∷ []) (λ k. refl)

abbrev healthy_log : ℕ → LogIo
healthy_log n = record {
  opens = true;
  writes = λ k. true;
  syncs = true;
  closes = true;
  persisted = 0;
}

abbrev empty_log : Log
empty_log = record {
  durability = fast;
  buffer = [];
  capacity = 0;
  file = some (1 ∷ 2 ∷ []);
  opened = 0;
}

append_three_bytes : (append_bytes healthy_log (λ k. true) empty_log (3 ∷ 4 ∷ 5 ∷ [])).1 ≡ ok tt
unfolding append_bytes and_then ensure_buffer_capacity grow_buffer capacity_loop
append_three_bytes = refl

append_bytes_keeps_example :
    log_stream (append_bytes healthy_log (λ k. true) empty_log (3 ∷ 4 ∷ 5 ∷ [])).0
    ≡ log_stream empty_log ++ (3 ∷ 4 ∷ 5 ∷ [])
append_bytes_keeps_example =
    append_bytes_keeps healthy_log (λ k. true) empty_log (3 ∷ 4 ∷ 5 ∷ []) append_three_bytes

append_two_points : (wal_append_batch healthy_log (λ k. true) empty_log cpu logged).1 ≡ ok tt
unfolding wal_append_batch append_chunks and_then append_batch_record append_sized batch_entry_size
    append_encoded encode_batch append_bytes ensure_buffer_capacity grow_buffer capacity_loop
    with_checksum batch_body write_u32_le point_words write_u64_le flush_if_strict
append_two_points = refl

wal_append_batch-Logs_example :
    Logs cpu logged
      (log_stream empty_log)
      (log_stream (wal_append_batch healthy_log (λ k. true) empty_log cpu logged).0)
wal_append_batch-Logs_example =
    wal_append_batch-Logs healthy_log (λ k. true) empty_log cpu logged cpu-IsName logged-IsPoint
      append_two_points

capacity_loop_total_example :
    (capacity : ℕ) × (capacity_loop 64 wal_buffer_bytes 300000 ≡ ok capacity) × (300000 ≤ capacity)
capacity_loop_total_example = capacity_loop_total 300000 (omega arith)

-- "m".
abbrev memory : List ℕ
memory = 0x6d ∷ []

memory-IsName : IsName memory
unfolding name_bytes_ok
memory-IsName = record {
  fits = record { some_byte = omega arith; fit = omega arith };
  no_nul = (λ e. absurd (omega (arith, e)), tt);
  bytes_ok = refl;
}

abbrev measured : List Point
measured = record { timestamp = 3000; value = 9 } ∷ []

measured-IsPoint : All IsPoint measured
measured-IsPoint = ground arith

abbrev two_series : List (List ℕ × List Point)
two_series = (cpu, logged) ∷ (memory, measured) ∷ []

truncate_two_series : (truncate_to_buffers healthy_log (λ k. true) empty_log two_series).1 ≡ ok tt
unfolding truncate_to_buffers truncate_with write_buffers write_chunks written_then write_record
    record_bytes finish_truncate batch_entry_size encode_batch
truncate_two_series = refl

truncate_to_buffers-Kept_example :
    (bytes : List ℕ) × ((truncate_to_buffers healthy_log (λ k. true) empty_log two_series).0
      ≡ record empty_log { buffer = []; opened = 1; file = some bytes })
    × Kept two_series [] bytes
truncate_to_buffers-Kept_example =
    truncate_to_buffers-Kept healthy_log (λ k. true) empty_log two_series
      ((cpu-IsName, logged-IsPoint), ((memory-IsName, measured-IsPoint), tt)) truncate_two_series
