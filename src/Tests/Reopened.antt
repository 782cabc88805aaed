-- ===== src/Tests/Reopened.antt =====
-- A series of src/core that is flushed and opened again.
use tsedge.Common.{◌+◌, ◌^◌, ◌<◌, ◌≡◌, refl, true, [], ◌++◌, arith, select, ok}
use tsedge.Segment.Reader.{in_range}
use tsedge.Segment.Reader.Range.{visit}
use tsedge.Bitstream.{write_u32_le, write_u64_le}
use tsedge.Wal.{
  point_body, batch_body, point_words, encode_point, encode_batch, batch_entry_size, with_checksum,
}
use tsedge.Wal.Buffer.{
  wal_append, append_point_record, append_encoded, append_bytes, ensure_buffer_capacity,
  grow_buffer, capacity_loop, and_then, flush_if_strict, wal_append_batch, append_chunks,
  append_batch_record, append_sized, flush_threshold,
}
use tsedge.Series.{Series}
use tsedge.Series.Disk.{visible}
use tsedge.Series.Append.{
  Db, flush, append, append_batch, batch_loop, append_point_internal, then_do, flush_if_full,
  on_log, add_point_to_buffer,
}
use tsedge.Series.Append.Done.{Named}
use tsedge.Series.Append.Run.{Run, start, then_call, batches}
use tsedge.Series.Rebuild.{rebuild_index}
use tsedge.Series.Rebuild.Reopened.{read_range-rebuild_index}
use tsedge.Series.Query.{read_range}
use tsedge.Tests.Series.{
  healthy, healthy-Works, env, no_quota, fresh, two, full_db, full-Stores, env-Healthy, cpu-IsName,
  no_stats, two_seen,
}

-- Five points in memory.
abbrev extended : Db
extended = (append_batch env no_quota full_db two).0

extending :
    Run env no_quota full_db two extended
    × Named extended
    × (extended.series.active_segment_id + 1 < 2 ^ 32)
unfolding append append_point_internal then_do flush_if_full on_log wal_append append_point_record
    append_encoded encode_point append_bytes ensure_buffer_capacity grow_buffer capacity_loop
    and_then flush_if_strict add_point_to_buffer append_batch batch_loop wal_append_batch
    append_chunks append_batch_record append_sized batch_entry_size encode_batch with_checksum
    point_body write_u32_le write_u64_le batch_body point_words flush_threshold
extending = (
  then_call (start {a = full_db})
      (batches {a = full_db} {b = extended} {points = two} (ground arith) refl) refl,
  record { before = tt; name = cpu-IsName; after = tt },
  omega arith,
)

abbrev reopened : Series
reopened = record fresh { files = (flush env no_quota extended true).0.series.files }

read_range-rebuild_index_example :
    let flushed = flush env no_quota extended true in
    let r = rebuild_index (λ id. healthy) env.alloc (ok flushed.0.series.segment_ids) reopened in
    let pass = read_range (λ e. healthy) env.alloc r.0 two_seen 1000 2500 no_stats [] in
    (flushed.1 ≡ ok tt)
    × (r.1 ≡ ok tt)
    × (pass.result ≡ ok tt)
    × (pass.state
        ≡ (visit two_seen (select (in_range 1000 2500) (visible full_db.series [] ++ two)) []).0)
read_range-rebuild_index_example =
    let (run, named, low) = extending in
    read_range-rebuild_index env no_quota full_db extended [] two true reopened (λ id. healthy)
      (λ e. healthy) two_seen 1000 2500 no_stats [] env-Healthy refl full-Stores run named low
      (record { files_eq = refl; buffer_eq = refl }) (λ id. healthy-Works) (λ e. healthy-Works) refl
