-- ===== src/Tests/Series.antt =====
-- src/core on a concrete series.
use tsedge.Common.{
  ◌+◌, ◌%◌, ◌^◌, ◌≡◌, refl, Bool, true, none, List, [], ◌∷◌, ◌++◌, arith, select, length, ltb, ok,
  err, not_found,
}
use tsedge.Point.{Point}
use tsedge.Double.{Doubles, IsDoubles}
use tsedge.Segment.{Stdio}
use tsedge.Segment.Append.{Works}
use tsedge.Segment.Reader.{in_range}
use tsedge.Segment.Reader.Range.{visit}
use tsedge.Bitstream.{write_u32_le, write_u64_le}
use tsedge.Wal.{
  point_body, batch_body, point_words, encode_point, encode_batch, batch_entry_size, with_checksum,
}
use tsedge.Wal.Buffer.{
  fast, wal_append, append_point_record, append_encoded, append_bytes, ensure_buffer_capacity,
  grow_buffer, capacity_loop, and_then, flush_if_strict, wal_append_batch, append_chunks,
  append_batch_record, append_sized, flush_threshold,
}
use tsedge.Series.{Series}
use tsedge.Series.Disk.{Stores, visible, disk_entries}
use tsedge.Series.Append.{
  Env, Db, DbStep, flush, append, append_batch, batch_loop, append_point_internal, then_do,
  flush_if_full, on_log, add_point_to_buffer,
}
use tsedge.Series.Append.Grows.{Grows}
use tsedge.Wal.Replay.{name_bytes_ok}
use tsedge.Wal.Replay.Recovery.{IsName}
use tsedge.Series.Append.Done.{Healthy, Named, flush_done}
use tsedge.Series.Append.Batch.{BatchEnds, append_batch-BatchEnds}
use tsedge.Series.Append.Run.{Run, start, then_call, appends, batches, Run-Grows}
use tsedge.Series.Query.{ReadStats, read_range}
use tsedge.Series.Query.Accepted.{read_range-Run}

-- Word arithmetic in the place of the processor's.
abbrev words : Doubles
words = record {
  lt = λ a b. ltb a b;
  add = λ a b. (a + b) % 2 ^ 64;
  div = λ a b. a;
  of_u64 = λ n. n;
}

pub words-IsDoubles : IsDoubles words
words-IsDoubles = record { add_fits = λ a b ha hb. omega arith }

abbrev pub healthy : Stdio
healthy = record {
  opens = true;
  seeks = true;
  tells = true;
  writes = true;
  closes = true;
  persisted = 0;
}

pub healthy-Works : Works healthy
healthy-Works = (refl, refl, refl, refl, refl)

abbrev pub env : Env
env = record {
  doubles = words;
  alloc = λ k. true;
  log_calls =
      λ n. record { opens = true; writes = λ k. true; syncs = true; closes = true; persisted = 0 };
  segment_calls = λ n. healthy;
}

-- No quota is set, so that this is never called.
abbrev pub no_quota : Db → DbStep
no_quota db = (db, err not_found)

abbrev pub fresh : Series
fresh = record {
  name = 0x63 ∷ 0x70 ∷ 0x75 ∷ [];
  dir_path = 0x64 ∷ [];
  active_segment_id = 1;
  segment_ids = [];
  segment_capacity = 0;
  buffer = [];
  block_index = [];
  block_index_capacity = 0;
  files = [];
}

abbrev fresh_db : Db
fresh_db = record {
  log = record { durability = fast; buffer = []; capacity = 0; file = none; opened = 0 };
  before = [];
  series = fresh;
  after = [];
  disk_quota_bytes = 0;
  opened = 0;
}

fresh-Stores : Stores fresh []
unfolding disk_entries
fresh-Stores = record {
  files_eq = refl;
  ids_eq = refl;
  index_eq = refl;
  ordered = tt;
  active_low = omega arith;
  active_fits = omega arith;
  buffer_fits = omega arith;
  all = tt;
}

abbrev p1 : Point
p1 = record { timestamp = 1000; value = 7 }

abbrev pub two : List Point
two = record { timestamp = 2000; value = 8 } ∷ record { timestamp = 3000; value = 9 } ∷ []

abbrev db1 : Db
db1 = (append env no_quota fresh_db p1).0

append_ok : append env no_quota fresh_db p1 ≡ (db1, ok tt)
unfolding append append_point_internal then_do flush_if_full on_log wal_append append_point_record
    append_encoded encode_point append_bytes ensure_buffer_capacity grow_buffer capacity_loop
    and_then flush_if_strict add_point_to_buffer with_checksum point_body write_u32_le write_u64_le
append_ok = refl

abbrev db2 : Db
db2 = (append_batch env no_quota db1 two).0

batch_ok : append_batch env no_quota db1 two ≡ (db2, ok tt)
unfolding append append_point_internal then_do flush_if_full on_log wal_append append_point_record
    append_encoded encode_point append_bytes ensure_buffer_capacity grow_buffer capacity_loop
    and_then flush_if_strict add_point_to_buffer append_batch batch_loop wal_append_batch
    append_chunks append_batch_record append_sized batch_entry_size encode_batch with_checksum
    point_body write_u32_le write_u64_le batch_body point_words flush_threshold
batch_ok = refl

-- Three points that are in memory.
abbrev pub full_db : Db
full_db = record fresh_db { series = record fresh { buffer = p1 ∷ two } }

pub full-Stores : Stores full_db.series []
unfolding disk_entries
full-Stores = record {
  files_eq = refl;
  ids_eq = refl;
  index_eq = refl;
  ordered = tt;
  active_low = omega arith;
  active_fits = omega arith;
  buffer_fits = omega arith;
  all = ground arith;
}

pub env-Healthy : Healthy env
env-Healthy = record {
  doubles = words-IsDoubles;
  plenty = λ k. refl;
  log_works = λ n. (refl, (λ k. refl), refl, refl);
  segment_works = λ n. healthy-Works;
}

pub cpu-IsName : IsName fresh.name
unfolding name_bytes_ok
cpu-IsName = record {
  fits = record { some_byte = omega arith; fit = omega arith };
  no_nul = (
    λ e. absurd (omega (arith, e)),
    (λ e. absurd (omega (arith, e)), (λ e. absurd (omega (arith, e)), tt)),
  );
  bytes_ok = refl;
}

full_db-Named : Named full_db
full_db-Named = record { before = tt; name = cpu-IsName; after = tt }

flush_done_example :
    let r = flush env no_quota full_db true in
    (r.1 ≡ ok tt) × Grows full_db [] [] r.0 × (r.0.series.buffer ≡ [])
flush_done_example =
    flush_done env no_quota env-Healthy full_db [] true full-Stores full_db-Named refl (omega arith)

abbrev accepted : List Point
accepted = p1 ∷ two

accepting : Run env no_quota fresh_db accepted db2
accepting =
    then_call
      (then_call (start {a = fresh_db})
        (appends {a = fresh_db} {b = db1} {points = p1 ∷ []} p1 (ground arith) append_ok refl) refl)
      (batches {a = db1} {b = db2} {points = two} (ground arith) batch_ok) refl

Run-Grows_example : Grows fresh_db [] accepted db2
Run-Grows_example =
    Run-Grows env no_quota words-IsDoubles (λ k small. refl) {a = fresh_db} {b = db2}
      {points = accepted} [] refl fresh-Stores accepting

append_batch-BatchEnds_example :
    BatchEnds env no_quota full_db two (append_batch env no_quota full_db two)
append_batch-BatchEnds_example =
    append_batch-BatchEnds env no_quota words-IsDoubles (λ k small. refl) full_db [] two refl
      full-Stores (ground arith)

abbrev pub no_stats : ReadStats
no_stats = record {
  blocks_total = 0;
  blocks_scanned = 0;
  blocks_skipped = 0;
  blocks_decoded = 0;
  points_decoded = 0;
}

-- A callback that stops at its second point.
abbrev pub two_seen : List Point → Bool
two_seen seen = ltb 1 (length seen)

read_range-Run_example :
    let pass = read_range (λ e. healthy) env.alloc db2.series two_seen 1000 2500 no_stats [] in
    (pass.result ≡ ok tt)
    × (pass.state
        ≡ (visit two_seen (select (in_range 1000 2500) (visible fresh [] ++ accepted)) []).0)
read_range-Run_example =
    read_range-Run env no_quota fresh_db db2 [] accepted (λ e. healthy) two_seen 1000 2500 no_stats
      [] words-IsDoubles (λ k. refl) refl fresh-Stores accepting (λ e. healthy-Works) refl
