-- ===== src/Wal/Buffer.antt =====
-- The buffer of the write-ahead log in memory, and what goes to wal.log (src/storage/wal.c).
pub mod Append
pub mod Batches
pub mod Truncate
use mathlib.Core.Bool.{not}
use tsedge.Common.{
  ℕ, zero, suc, ◌+◌, ◌-◌, ◌*◌, ◌^◌, Bool, true, false, ◌&&◌, ◌||◌, Option, none, some, List, [],
  ◌∷◌, ◌++◌, ltb, leb, ◌==◌, if◌then◌else◌, length, take, drop, Result, ok, err, io, internal,
  invalid_argument, no_memory,
}
use tsedge.Point.{Point}
use tsedge.Wal.{max_series_name, wal_max_batch_points, batch_entry_size, encode_point, encode_batch}

-- `tsedge_durability_mode`.
pub data Durability : Type 0 where
  fast balanced strict : Durability

-- Which of the calls on one FILE of the log succeed: `writes n` is the fwrite number `n`. If any of
-- them fails, `persisted` is how many of the bytes that were handed over are in the file.
pub record LogIo : Type 0 where
  pub opens : Bool
  pub writes : ℕ → Bool
  pub syncs : Bool
  pub closes : Bool
  pub persisted : ℕ

-- The fields of `tsedge_db` that the log uses, wal.log itself (`none` where there is no file), and
-- how often the log has been opened so far.
pub record Log : Type 0 where
  pub durability : Durability
  pub buffer : List ℕ
  pub capacity : ℕ
  pub file : Option (List ℕ)
  pub opened : ℕ

abbrev pub file_bytes : Log → List ℕ
file_bytes log = elim log.file [ none ↦ [] | some bytes ↦ bytes ]

abbrev pub wal_buffer_bytes : ℕ
wal_buffer_bytes = 256 * 1024

unfoldable pub flush_threshold : Durability → ℕ
flush_threshold fast = wal_buffer_bytes
flush_threshold balanced = 64 * 1024
flush_threshold strict = wal_buffer_bytes

-- A call that changes the log, and its status.
abbrev pub Step : Type 0
Step = Log × Result (Unit {0})

-- `if (rc != TSEDGE_OK) return rc;` between two such calls.
unfoldable pub and_then : Step → (Log → Step) → Step
and_then (log, err e) next = (log, err e)
and_then (log, ok done) next = next log

-- The loop of `wal_ensure_buffer_capacity`. It doubles 2 ^ 18 and gives up above 2 ^ 63, so that 64
-- rounds are enough. A loop without rounds answers TSEDGE_ERR_INTERNAL, which the code never does.
unfoldable pub capacity_loop : ℕ → ℕ → ℕ → Result ℕ
capacity_loop zero capacity required = err internal
capacity_loop (suc rounds) capacity required =
    let more = capacity_loop rounds (capacity * 2) required in
    if ltb capacity required
    then (if ltb (2 ^ 63 - 1) capacity then err invalid_argument else more)
    else ok capacity

unfoldable pub grow_buffer : (ℕ → Bool) → Log → Result ℕ → Step
grow_buffer alloc log (err e) = (log, err e)
grow_buffer alloc log (ok capacity) =
    if leb capacity log.capacity
    then (log, ok tt)
    else if alloc capacity
    then (record log { capacity = capacity }, ok tt)
    else (log, err no_memory)

unfoldable pub ensure_buffer_capacity : (ℕ → Bool) → Log → ℕ → Step
ensure_buffer_capacity alloc log required =
    grow_buffer alloc log (capacity_loop 64 wal_buffer_bytes required)

-- `tsedge_wal_flush`, with the calls on the FILE that it opens.
unfoldable pub flush_with : LogIo → Log → Step
flush_with f log =
    let next = log.opened + 1 in
    if length log.buffer == 0
    then (log, ok tt)
    else if not f.opens
    then (record log { opened = next }, err io)
    else if f.writes 0 && (f.syncs && f.closes)
    then (
      record log { buffer = []; file = some (file_bytes log ++ log.buffer); opened = next },
      ok tt,
    )
    else (
      record log { file = some (file_bytes log ++ take f.persisted log.buffer); opened = next },
      err io,
    )

module _ (calls : ℕ → LogIo) (alloc : ℕ → Bool) where
  unfoldable pub wal_flush : Log → Step
  wal_flush log = flush_with (calls log.opened) log

  -- `wal_append_bytes`. The buffer is never longer than its capacity, so that the difference is
  -- that of size_t.
  unfoldable pub append_bytes : Log → List ℕ → Step
  append_bytes log entry =
      let size = length entry in
      and_then (ensure_buffer_capacity alloc log size) λ log'.
        and_then
          (if ltb 0 (length log'.buffer)
              && ltb (flush_threshold log'.durability) (length log'.buffer + size)
            then wal_flush log'
            else (log', ok tt))
          λ log''.
            and_then
              (if ltb (log''.capacity - length log''.buffer) size
                then ensure_buffer_capacity alloc log'' (length log''.buffer + size)
                else (log'', ok tt))
              λ log'''. (record log''' { buffer = log'''.buffer ++ entry }, ok tt)

  unfoldable pub append_encoded : Log → Result (List ℕ) → Step
  append_encoded log (err e) = (log, err e)
  append_encoded log (ok entry) = append_bytes log entry

  -- `entry` has TSEDGE_WAL_MAX_POINT_ENTRY_SIZE bytes.
  unfoldable pub append_point_record : Log → List ℕ → Point → Step
  append_point_record log name point =
      append_encoded log (encode_point name point (36 + max_series_name + 4))

  unfoldable pub append_sized : Log → List ℕ → List Point → Result ℕ → Step
  append_sized log name points (err e) = (log, err e)
  append_sized log name points (ok entry_size) =
      if alloc entry_size
      then append_encoded log (encode_batch name points entry_size)
      else (log, err no_memory)

  unfoldable pub append_batch_record : Log → List ℕ → List Point → Step
  append_batch_record log name points =
      append_sized log name points (batch_entry_size (length name) (length points))

  -- STRICT flushes at once.
  unfoldable pub flush_if_strict : Durability → Log → Step
  flush_if_strict strict log = wal_flush log
  flush_if_strict fast log = (log, ok tt)
  flush_if_strict balanced log = (log, ok tt)

  unfoldable pub wal_append : Log → List ℕ → Point → Step
  wal_append log name point =
      and_then (append_point_record log name point) λ log'. flush_if_strict log'.durability log'

  -- The loop of `tsedge_wal_append_batch`: every round takes a chunk of at most 65536 points, so that
  -- as many rounds as points are enough.
  unfoldable pub append_chunks : ℕ → Log → List ℕ → List Point → Step
  append_chunks rounds log name [] = (log, ok tt)
  append_chunks zero log name (p ∷ points) = (log, err internal)
  append_chunks (suc rounds) log name (p ∷ points) =
      and_then (append_batch_record log name (take wal_max_batch_points (p ∷ points)))
        λ log'. append_chunks rounds log' name (drop wal_max_batch_points (p ∷ points))

  unfoldable pub wal_append_batch : Log → List ℕ → List Point → Step
  wal_append_batch log name [] = (log, ok tt)
  wal_append_batch log name (p ∷ points) =
      and_then (append_chunks (length (p ∷ points)) log name (p ∷ points))
        λ log'. flush_if_strict log'.durability log'
