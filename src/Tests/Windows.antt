-- ===== src/Tests/Windows.antt =====
-- The windows of src/core/series_query.c and the rebuilt index of series_index.c on concrete inputs.
use tsedge.Common.{
  ℕ, ◌+◌, ◌%◌, ◌^◌, ◌-◌, ◌<◌, ◌≡◌, refl, true, List, [], ◌∷◌, arith, select, length, get_or, ltb,
  ok, corrupt,
}
use tsedge.Point.{Point, le64, lt64}
use tsedge.Double.{Doubles}
use tsedge.Segment.{Stdio}
use tsedge.Segment.Reader.Aggregate.{AggregateState}
use tsedge.Series.{Series}
use tsedge.Series.Disk.{StoredSegment, Stores, disk_ids, disk_files}
use tsedge.Series.Query.Aggregate.{empty_state}
use tsedge.Series.Query.Windows.{
  validate_window_range, window_index, window_start, window_end, add_to_windows,
}
use tsedge.Series.Query.Windows.Bounds.{window_index-Holds}
use tsedge.Series.Query.Windows.Sums.{add_all, in_window, add_to_windows-add_all}
use tsedge.Series.Rebuild.{rebuild_index, last_id}
use tsedge.Series.Rebuild.Same.{rebuild_index-Stores}

abbrev words : Doubles
words = record {
  lt = λ a b. ltb a b;
  add = λ a b. (a + b) % 2 ^ 64;
  div = λ a b. a;
  of_u64 = λ n. n;
}

-- From -5 to 20 there are three windows of 10.
abbrev minus_five : ℕ
minus_five = 2 ^ 64 - 5

three_windows : validate_window_range minus_five 20 10 ≡ ok 3
unfolding validate_window_range
three_windows = refl

window_index-Holds_example :
    let index = window_index 17 minus_five 10 in
    (index < 3)
    × (le64 (window_start minus_five 10 index) 17 ≡ true)
    × (lt64 17 (window_end minus_five 20 10 index) ≡ true)
    × (le64 (window_end minus_five 20 10 index) 20 ≡ true)
window_index-Holds_example =
    window_index-Holds minus_five 20 10 3 17 (omega arith) (omega arith) (omega arith) (omega arith)
      three_windows refl

abbrev samples : List Point
samples =
    record { timestamp = 4; value = 1 }
    ∷ record { timestamp = 5; value = 2 }
    ∷ record { timestamp = 20; value = 3 }
    ∷ []

abbrev three_empty : List AggregateState
three_empty = empty_state ∷ empty_state ∷ empty_state ∷ []

add_to_windows-add_all_example :
    (windows' : List AggregateState) × (add_to_windows words minus_five 20 10 corrupt three_empty
        samples
      ≡ ok windows')
    × (length windows' ≡ 3)
    × ((k : ℕ)
        → get_or windows' k empty_state
          ≡ add_all words
              (get_or three_empty k empty_state)
              (select (in_window words minus_five 20 10 k) samples))
add_to_windows-add_all_example =
    add_to_windows-add_all words minus_five 20 10 3 corrupt three_empty samples (omega arith)
      (omega arith) (omega arith) three_windows refl (ground arith)

abbrev healthy : Stdio
healthy = record {
  opens = true;
  seeks = true;
  tells = true;
  writes = true;
  closes = true;
  persisted = 0;
}

-- Two segments, the first of them empty, and an index that knows of neither.
abbrev gaps : List StoredSegment
gaps = record { id = 3; blocks = [] } ∷ record { id = 7; blocks = [] } ∷ []

abbrev unknown : Series
unknown = record {
  name = 0x63 ∷ [];
  dir_path = 0x64 ∷ [];
  active_segment_id = 1;
  segment_ids = 9 ∷ [];
  segment_capacity = 4;
  buffer = [];
  block_index = [];
  block_index_capacity = 0;
  files = disk_files gaps;
}

rebuild_index-Stores_example :
    let r = rebuild_index (λ id. healthy) (λ k. true) (ok (disk_ids gaps)) unknown in
    (r.1 ≡ ok tt)
    × Stores r.0 gaps
    × (r.0.active_segment_id ≡ last_id (disk_ids gaps))
    × (r.0.buffer ≡ [])
rebuild_index-Stores_example =
    rebuild_index-Stores (λ id. healthy) (λ k. true) unknown 7 gaps
      (λ id. (refl, refl, refl, refl, refl)) (λ k. refl) (omega arith) (omega arith)
      (omega arith, omega arith, (omega arith, tt), (omega arith, omega arith, tt, tt)) refl
      (omega arith) tt
