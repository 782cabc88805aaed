-- ===== src/Series/Query.antt =====
-- Reading a series: `tsedge_series_read_range` and the aggregates over a range, src/core/series_query.c.
pub mod Found
pub mod Range
pub mod Accepted
pub mod Aggregate
pub mod Windows
use tsedge.Common.{
  ℕ, ◌+◌, Bool, true, false, ◌&&◌, ◌||◌, Option, none, some, List, [], ◌∷◌, u64, ◌==◌,
  if◌then◌else◌, length, Result, ok, err, not_found, invalid_argument,
}
use tsedge.Point.{Point, lt64, le64}
use tsedge.Double.{Doubles}
use tsedge.Segment.{Stdio, IndexEntry}
use tsedge.Segment.Files.{make_path}
use tsedge.Segment.Reader.{in_range, deliver, read_range_indexed}
use tsedge.Segment.Reader.Aggregate.{AggregateState, aggregate_state_add, add_in_range, aggregate}
use tsedge.Series.{Series, file_of}

-- `tsedge_read_debug_stats`.
pub record ReadStats : Type 0 where
  pub blocks_total : ℕ
  pub blocks_scanned : ℕ
  pub blocks_skipped : ℕ
  pub blocks_decoded : ℕ
  pub points_decoded : ℕ

-- `++stats.f`.
abbrev pub count_up : ℕ → ℕ
count_up n = u64 (n + 1)

-- The test of the queries before a segment is opened.
unfoldable pub outside : IndexEntry → ℕ → ℕ → Bool
outside e from_timestamp to_timestamp =
    lt64 e.max_timestamp from_timestamp || lt64 to_timestamp e.min_timestamp

unfoldable pub count_skipped : ReadStats → ReadStats
count_skipped stats = record stats {
  blocks_scanned = count_up stats.blocks_scanned;
  blocks_skipped = count_up stats.blocks_skipped;
}

unfoldable pub count_decoded : ReadStats → IndexEntry → ReadStats
count_decoded stats e = record stats {
  blocks_scanned = count_up stats.blocks_scanned;
  blocks_decoded = count_up stats.blocks_decoded;
  points_decoded = u64 (stats.points_decoded + e.point_count);
}

unfoldable pub count_total : ReadStats → Series → ReadStats
count_total stats s = record stats {
  blocks_total = u64 (stats.blocks_total + length s.block_index);
}

-- What a loop over the index leaves: its state (the callback's points, or the aggregate), the
-- counters, and the status with the output of the last call.
pub record Pass {ℓ κ} (S : Type ℓ) (Output : Type κ) : Type (ℓ ⊔ κ) where
  pub state : S
  pub stats : ReadStats
  pub result : Result Output

-- A path that could not be made is TSEDGE_ERR_NO_MEMORY.
unfoldable pub with_path {ℓ κ} :
    {S : Type ℓ} {Output : Type κ} → Result (List ℕ) → S → S × Result Output → S × Result Output
with_path (err e) state call = (state, err e)
with_path (ok path) state call = call

-- `if (rc != TSEDGE_OK) return rc;`, and the return where the callback has stopped.
unfoldable pub next_read :
    List Point × Result Bool
    → ReadStats
    → (List Point → Pass (List Point) Bool)
    → Pass (List Point) Bool
next_read (seen, ok false) stats more = more seen
next_read (seen, ok true) stats more = record { state = seen; stats = stats; result = ok true }
next_read (seen, err e) stats more = record { state = seen; stats = stats; result = err e }

-- `calls` says for an entry which calls on the FILE succeed that is opened for it.
module _ (calls : IndexEntry → Stdio) (alloc : ℕ → Bool) (s : Series) where
  module _ (callback : List Point → Bool) (from_timestamp to_timestamp : ℕ) where
    unfoldable pub read_entry : IndexEntry → List Point → List Point × Result Bool
    read_entry e seen = with_path (make_path alloc s.dir_path e.segment_id) seen (
        read_range_indexed (calls e) alloc callback (file_of s.files e.segment_id) (e ∷ [])
          from_timestamp to_timestamp seen)

    unfoldable pub read_entries : List IndexEntry → ReadStats → List Point → Pass (List Point) Bool
    read_entries [] stats seen = record { state = seen; stats = stats; result = ok false }
    read_entries (e ∷ entries) stats seen =
        let more = read_entries entries in
        if outside e from_timestamp to_timestamp
        then more (count_skipped stats) seen
        else next_read (read_entry e seen) (count_decoded stats e) (more (count_decoded stats e))

    -- The buffer, which is read unless the callback has stopped.
    unfoldable pub read_buffer : Pass (List Point) Bool → Pass (List Point) (Unit {0})
    read_buffer pass = go pass.result
      where
        go : Result Bool → Pass (List Point) (Unit {0})
        go (err e) = record { state = pass.state; stats = pass.stats; result = err e }
        go (ok true) = record { state = pass.state; stats = pass.stats; result = ok tt }
        go (ok false) = record {
          state = (deliver callback from_timestamp to_timestamp s.buffer pass.state).0;
          stats = pass.stats;
          result = ok tt;
        }

    -- `tsedge_series_read_range`.
    unfoldable pub read_range : ReadStats → List Point → Pass (List Point) (Unit {0})
    read_range stats seen =
        if lt64 to_timestamp from_timestamp
        then record { state = seen; stats = stats; result = err invalid_argument }
        else read_buffer (read_entries s.block_index (count_total stats s) seen)
