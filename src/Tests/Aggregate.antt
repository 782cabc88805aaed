-- ===== src/Tests/Aggregate.antt =====
-- The aggregates of src/storage/segment_reader.c and src/core/series_query.c on a concrete series.
use Prim.Native.Nat.{min, max}
use tsedge.Common.{
  ℕ, ◌+◌, ◌%◌, ◌^◌, ◌<◌, ◌≡◌, refl, Bool, true, false, some, List, [], ◌∷◌, ◌++◌, arith, select,
  length, ltb, ok, err, not_found,
}
use tsedge.Point.{Point}
use tsedge.Double.{Doubles, IsDoubles}
use tsedge.Segment.{Stdio}
use tsedge.Segment.Append.{Works}
use tsedge.Segment.Stored.{FillBlock, prepare_block-IsStored}
use tsedge.Segment.Layout.{StoredBlock, file_bytes, entries_from, stored_points}
use tsedge.Segment.Reader.{in_range}
use tsedge.Segment.Reader.Range.{visit}
use tsedge.Segment.Reader.Aggregate.{aggregate}
use tsedge.Segment.Reader.Aggregate.Join.{join_all}
use tsedge.Segment.Reader.Aggregate.Ranks.{Ranks, Adds, ranks, Readable}
use tsedge.Segment.Reader.Aggregate.Range.{aggregate-Adds, prepare_block-Describes}
use tsedge.Series.{Series}
use tsedge.Series.Disk.{StoredSegment, Stores, visible, disk_entries, disk_points, disk_files}
use tsedge.Series.Query.{ReadStats, read_range}
use tsedge.Series.Query.Range.{read_range-visit}
use tsedge.Series.Query.Found.{disk_blocks}
use tsedge.Series.Query.Aggregate.{
  empty_state, series_aggregate, series_aggregate_min_max, agg_count,
}
use tsedge.Series.Query.Aggregate.Exact.{Sound}
use tsedge.Series.Query.Aggregate.Answers.{series_aggregate_min_max-Adds, series_aggregate_count}

abbrev words : Doubles
words = record {
  lt = λ a b. ltb a b;
  add = λ a b. (a + b) % 2 ^ 64;
  div = λ a b. a;
  of_u64 = λ n. n;
}

words-IsDoubles : IsDoubles words
words-IsDoubles = record { add_fits = λ a b ha hb. omega arith }

abbrev word_ranks : Ranks words
word_ranks = record { number = λ a. true; rank = λ a. a; lt_lem = λ a b ha hb. refl }

abbrev healthy : Stdio
healthy = record {
  opens = true;
  seeks = true;
  tells = true;
  writes = true;
  closes = true;
  persisted = 0;
}

healthy-Works : Works healthy
healthy-Works = (refl, refl, refl, refl, refl)

abbrev plenty : ℕ → Bool
plenty k = true

abbrev two_points : List Point
two_points = record { timestamp = 1000; value = 7 } ∷ record { timestamp = 2000; value = 5 } ∷ []

two_points-FillBlock : FillBlock two_points
two_points-FillBlock = record { some_point = omega arith; fit = omega arith; all = ground arith }

abbrev one_block : StoredBlock
one_block =
    let (h, buf, payload, _, stored) =
      prepare_block-IsStored words plenty two_points words-IsDoubles (λ k hk. refl)
        two_points-FillBlock in
    record { points = two_points; header = h; buf = buf; payload = payload; stored = stored }

one_block-Readable : Readable words word_ranks one_block
one_block-Readable =
    let (h, buf, payload, ready, stored) =
      prepare_block-IsStored words plenty two_points words-IsDoubles (λ k hk. refl)
        two_points-FillBlock in
    (prepare_block-Describes words plenty two_points h (buf ++ payload) ready, (refl, (refl, tt)))

few_points : 0 + length (stored_points (one_block ∷ [])) < 2 ^ 64
unfolding stored_points
few_points = omega arith

aggregate-Adds_example :
    let (state', status) =
      aggregate words healthy plenty
        (some (file_bytes (one_block ∷ [])))
        (entries_from 1 0 (one_block ∷ []))
        1500
        2500
        empty_state in
    (status ≡ ok tt)
    × Adds words word_ranks empty_state
        (select (in_range 1500 2500) (stored_points (one_block ∷ [])))
        state'
aggregate-Adds_example =
    aggregate-Adds words word_ranks healthy plenty 1 (one_block ∷ []) 1500 2500 empty_state
      healthy-Works (λ k hk. refl) refl (one_block-Readable, tt) (refl, refl) few_points

abbrev segments : List StoredSegment
segments = record { id = 1; blocks = one_block ∷ [] } ∷ []

-- A series with one block on disk and two points in memory.
abbrev stored : Series
stored = record {
  name = 0x63 ∷ 0x70 ∷ 0x75 ∷ [];
  dir_path = 0x64 ∷ [];
  active_segment_id = 1;
  segment_ids = 1 ∷ [];
  segment_capacity = 4;
  buffer = record { timestamp = 2100; value = 9 } ∷ record { timestamp = 3000; value = 1 } ∷ [];
  block_index = disk_entries segments;
  block_index_capacity = 16;
  files = disk_files segments;
}

stored-Stores : Stores stored segments
stored-Stores = record {
  files_eq = refl;
  ids_eq = refl;
  index_eq = refl;
  ordered = (omega arith, omega arith, tt, tt);
  active_low = omega arith;
  active_fits = omega arith;
  buffer_fits = omega arith;
  all = ground arith;
}

stored-Sound : Sound word_ranks stored segments
unfolding disk_blocks disk_points stored_points
stored-Sound = record {
  blocks = (one_block-Readable, tt);
  buffer = (refl, (refl, tt));
  zero_number = refl;
  fewer = omega arith;
}

abbrev no_stats : ReadStats
no_stats = record {
  blocks_total = 0;
  blocks_scanned = 0;
  blocks_skipped = 0;
  blocks_decoded = 0;
  points_decoded = 0;
}

read_range-visit_example :
    let pass = read_range (λ e. healthy) plenty stored (λ seen. false) 1500 2500 no_stats [] in
    (pass.result ≡ ok tt)
    × (pass.state
        ≡ (visit (λ seen. false) (select (in_range 1500 2500) (visible stored segments)) []).0)
read_range-visit_example =
    read_range-visit (λ e. healthy) plenty stored segments (λ seen. false) 1500 2500 no_stats []
      (λ e. healthy-Works) (λ k. refl) stored-Stores refl

series_aggregate_min_max-Adds_example :
    let hits = select (in_range 1500 2500) (visible stored segments) in
    let answered =
      (series_aggregate_min_max words (λ e. healthy) plenty stored no_stats 1500 2500).1 in
    (hits ≡ [] → answered ≡ err not_found)
    × ((p : Point) (points : List Point)
        → hits ≡ p ∷ points
        → (low : ℕ) × (high : ℕ) × (answered ≡ ok (low, high))
          × (low ≡ join_all min p.value (ranks words word_ranks points))
          × (high ≡ join_all max p.value (ranks words word_ranks points)))
series_aggregate_min_max-Adds_example =
    series_aggregate_min_max-Adds words word_ranks (λ e. healthy) plenty stored segments 1500 2500
      no_stats (λ e. healthy-Works) (λ k. refl) stored-Stores stored-Sound refl

series_aggregate_count_example :
    (series_aggregate words (λ e. healthy) plenty stored no_stats 1500 2500 agg_count).1
    ≡ ok (length (select (in_range 1500 2500) (visible stored segments)))
series_aggregate_count_example =
    series_aggregate_count words word_ranks (λ e. healthy) plenty stored segments 1500 2500 no_stats
      (λ e. healthy-Works) (λ k. refl) stored-Stores stored-Sound refl
