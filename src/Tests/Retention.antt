-- ===== src/Tests/Retention.antt =====
-- src/core/series_retention.c on a series with two segments.
use tsedge.Common.{ℕ, ◌≡◌, refl, true, none, List, [], ◌∷◌, ok, Result}
use tsedge.Block.{read_header}
use tsedge.Segment.{IndexEntry, scan_index, scan_loop}
use tsedge.Series.{Files, file_of}
use tsedge.Segment.Files.{
  make_path, named_path, format_filename, print_six, decimal_loop, zeros, path_join,
  ends_with_slash,
}
use tsedge.Series.Append.{Db, flush, then_do, on_series}
use tsedge.Series.Rebuild.{rebuild_index, clear_index, with_output, scan_segments}
use tsedge.Series.Retention.{
  delete_before, delete_old, rebuild_after, collect_bounds, and_bounds, add_segment_bounds,
  bounds_known, delete_loop, delete_segment, then_delete, unlink_path, remove_file,
}
use tsedge.Series.Retention.Kept.{delete_before-file_of}
use tsedge.Tests.Series.{healthy, env, no_quota, fresh, full_db}

-- The newest point of the block that is indexed.
abbrev entry_up_to : ℕ → ℕ → IndexEntry
entry_up_to segment_id newest = record {
  segment_id = segment_id;
  offset = 0;
  min_timestamp = 0;
  max_timestamp = newest;
  point_count = 2;
  payload_size = 2;
}

abbrev two_segments : Db
two_segments = record full_db {
  series = record fresh {
    active_segment_id = 2;
    segment_ids = 1 ∷ 2 ∷ [];
    segment_capacity = 4;
    block_index = entry_up_to 1 1000 ∷ entry_up_to 2 3000 ∷ [];
    block_index_capacity = 16;
    files = (1, 0x41 ∷ []) ∷ (2, 0x42 ∷ []) ∷ [];
  };
}

abbrev second_only : Files → Result (List ℕ)
second_only files = ok (2 ∷ [])

delete_before-file_of_example :
    file_of
      (delete_before env no_quota
        (λ id. healthy)
        second_only
        (λ id. true)
        two_segments
        2000).0.series.files
      2
    ≡ file_of (flush env no_quota two_segments true).0.series.files 2
unfolding flush
delete_before-file_of_example =
    delete_before-file_of env no_quota (λ id. healthy) second_only (λ id. true) two_segments 2000
      (entry_up_to 1 1000 ∷ []) (entry_up_to 2 3000) [] refl refl

-- The first segment is gone.
first_deleted :
    file_of
      (delete_before env no_quota
        (λ id. healthy)
        second_only
        (λ id. true)
        two_segments
        2000).0.series.files
      1
    ≡ none
unfolding flush delete_before then_do on_series delete_old rebuild_after collect_bounds and_bounds
    add_segment_bounds bounds_known delete_loop delete_segment then_delete unlink_path make_path
    named_path format_filename print_six decimal_loop zeros path_join ends_with_slash remove_file
    rebuild_index clear_index with_output scan_segments scan_index file_of scan_loop read_header
first_deleted = refl
