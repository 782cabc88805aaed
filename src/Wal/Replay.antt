-- ===== src/Wal/Replay.antt =====
-- `tsedge_wal_replay` and `tsedge_wal_verify_file` of src/storage/wal.c.
pub mod Recovery
pub mod Log
use mathlib.Core.Bool.{not}
use tsedge.Common.{
  ℕ, zero, suc, ◌+◌, ◌-◌, ◌*◌, Bool, true, false, ◌||◌, Option, none, some, List, [], ◌∷◌, ltb,
  ◌==◌, if◌then◌else◌, length, take, drop, Result, ok, err, Error, corrupt, io, internal,
  invalid_argument, no_memory, fail_if, ◌>>=◌, ◌>>◌,
}
use tsedge.Point.{Point}
use tsedge.Bitstream.{read_u32_le, read_u64_le}
use tsedge.Wal.{
  max_series_name, wal_v2_min_entry_size, wal_max_entry_size, Layout, v2_point, v3_point, v3_batch,
  entry_layout, check_entry, validate_entry,
}

-- A copy of bytes with a NUL behind them, as a C string: it ends at the first NUL.
unfoldable pub c_string : List ℕ → List ℕ
c_string [] = []
c_string (byte ∷ bytes) = let rest = c_string bytes in if byte == 0 then [] else byte ∷ rest

-- The loop of `tsedge_series_validate_name` (src/core/series.c): no '/' and no '\'.
unfoldable pub name_bytes_ok : List ℕ → Bool
name_bytes_ok [] = true
name_bytes_ok (byte ∷ name) =
    let rest = name_bytes_ok name in if (byte == 0x2f) || (byte == 0x5c) then false else rest

unfoldable pub validate_name : List ℕ → Result (Unit {0})
validate_name name = do
  fail_if (length name == 0 || ltb max_series_name (length name)) invalid_argument
  fail_if (not (name_bytes_ok name)) invalid_argument

-- A name in the log that no series may have is corruption.
unfoldable pub accept_name : List ℕ → Result (Unit {0}) → Result (List ℕ)
accept_name name (ok done) = ok name
accept_name name (err e) = err corrupt

-- `wal_copy_series_name`.
unfoldable pub copy_series_name : (ℕ → Bool) → List ℕ → ℕ → Result (List ℕ)
copy_series_name alloc cursor name_len = do
  fail_if (not (alloc (name_len + 1))) no_memory
  let name = c_string (take name_len cursor)
  accept_name name (validate_name name)

-- The point whose two words stand at the cursor.
unfoldable pub read_point : List ℕ → Point
read_point cursor = record { timestamp = read_u64_le cursor; value = read_u64_le (drop 8 cursor) }

-- The database that is rebuilt: `add_series` is `tsedge_db_add_series_object` on a name, and
-- `add_point` is `tsedge_series_add_recovered_point` on the series of a name.
pub record Database (State : Type 0) : Type 0 where
  pub add_series : State → List ℕ → Result State
  pub add_point : State → List ℕ → Point → Result State

module _ {State : Type 0} (database : Database State) (alloc : ℕ → Bool) where
  -- Points in the order in which they were logged.
  unfoldable pub add_points : State → List ℕ → List Point → Result State
  add_points db name [] = ok db
  add_points db name (p ∷ points) = do
    db' ← database.add_point db name p
    add_points db' name points

  -- The loop over a batch, with `left` points left.
  unfoldable pub replay_points : ℕ → State → List ℕ → List ℕ → Result State
  replay_points zero db name cursor = ok db
  replay_points (suc left) db name cursor = do
    db' ← database.add_point db name (read_point cursor)
    replay_points left db' name (drop 16 cursor)

  -- What `replay_entry_v2_point`, `replay_entry_v3_point` and `replay_entry_v3_batch` do behind
  -- their checks.
  unfoldable pub replay_layout : Layout → State → List ℕ → Result State
  replay_layout v2_point db entry = do
    name ← copy_series_name alloc (drop 32 entry) (read_u32_le (drop 12 entry))
    db' ← database.add_series db name
    database.add_point db' name (read_point (drop 16 entry))
  replay_layout v3_point db entry = do
    name ← copy_series_name alloc (drop 36 entry) (read_u32_le (drop 16 entry))
    db' ← database.add_series db name
    database.add_point db' name (read_point (drop 20 entry))
  replay_layout v3_batch db entry = do
    let name_len = read_u32_le (drop 16 entry)
    name ← copy_series_name alloc (drop 24 entry) name_len
    db' ← database.add_series db name
    replay_points (read_u32_le (drop 20 entry)) db' name (drop (24 + name_len) entry)

  unfoldable pub replay_entry : State → List ℕ → ℕ → Result State
  replay_entry db entry entry_size = do
    layout ← entry_layout entry entry_size
    check_entry layout entry entry_size
    replay_layout layout db entry

  -- The loop of `tsedge_wal_replay`. Every round takes an entry, so that more rounds than bytes are
  -- enough; a loop without rounds answers TSEDGE_ERR_INTERNAL, which the code never does.
  unfoldable pub replay_loop : ℕ → State → List ℕ → Result State
  replay_loop zero db cursor = err internal
  replay_loop (suc rounds) db cursor =
      let entry_size = read_u32_le (drop 8 cursor) in
      let replayed : Result State = (do
        fail_if (ltb entry_size wal_v2_min_entry_size || ltb wal_max_entry_size entry_size) corrupt
        fail_if (not (alloc entry_size)) no_memory
        let entry : Result State = (do
          db' ← replay_entry db (take entry_size cursor) entry_size
          replay_loop rounds db' (drop entry_size cursor))
        (if ltb (length cursor) entry_size then ok db else entry)) in
      if ltb (length cursor) 12 then ok db else replayed

  -- `tsedge_wal_replay` on the bytes of the log, or without a log. `opens` and `closes` say whether
  -- fopen and fclose succeed.
  unfoldable pub wal_replay : Bool → Bool → State → Option (List ℕ) → Result State
  wal_replay opens closes db none = ok db
  wal_replay opens closes db (some bytes) = do
    fail_if (not opens) io
    db' ← replay_loop (suc (length bytes)) db bytes
    fail_if (not closes) io
    ok db'

-- Every failure of `wal_validate_entry` counts as corruption.
unfoldable pub verify_status : Result (Unit {0}) → Result (Unit {0})
verify_status (ok done) = ok done
verify_status (err e) = err corrupt

module _ (alloc : ℕ → Bool) where
  -- The loop of `tsedge_wal_verify_file`: the number of entries.
  unfoldable pub verify_loop : ℕ → List ℕ → Result ℕ
  verify_loop zero cursor = err internal
  verify_loop (suc rounds) cursor =
      let entry_size = read_u32_le (drop 8 cursor) in
      let verified : Result ℕ = (do
        fail_if (ltb (length cursor) 12) corrupt
        fail_if (ltb entry_size wal_v2_min_entry_size || ltb wal_max_entry_size entry_size) corrupt
        fail_if (not (alloc entry_size)) no_memory
        fail_if (ltb (length cursor) entry_size) corrupt
        verify_status (validate_entry (take entry_size cursor) entry_size)
        count ← verify_loop rounds (drop entry_size cursor)
        ok (1 + count)) in
      if length cursor == 0 then ok 0 else verified

  unfoldable pub wal_verify_file : Bool → Bool → Option (List ℕ) → Result ℕ
  wal_verify_file opens closes none = ok 0
  wal_verify_file opens closes (some bytes) = do
    fail_if (not opens) io
    count ← verify_loop (suc (length bytes)) bytes
    fail_if (not closes) io
    ok count
