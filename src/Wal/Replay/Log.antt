-- ===== src/Wal/Replay/Log.antt =====
-- Whole logs: `tsedge_wal_replay` and `tsedge_wal_verify_file` on a sequence of entries.
use tsedge.Common.{
  ℕ, zero, suc, ◌≤◌, ◌<◌, ◌≡◌, refl, ap, sym, ◌∙◌, Bool, Bool-cases, true, false, some, List, [],
  ◌∷◌, ◌++◌, append-nil, append_assoc, inl, inr, arith, length, length-append, length-take,
  length-drop, take, drop, take-append, drop-append, drop_front, take-append-drop, All, Result, ok,
  >>=-ok, ltb, ltb-eq_true, ltb-eq_false, ltb_false→le, ◌==◌, ◌>>=◌,
}
use tsedge.Point.{Point, IsPoint}
use tsedge.Bitstream.{read_u32_le}
use tsedge.Bitstream.LittleEndian.{read_u32_le-append}
use tsedge.Wal.{wal_max_batch_points, wal_v2_min_entry_size, wal_max_entry_size}
use tsedge.Wal.Entry.{
  batch_size, batch_entry, length-batch_entry, batch_states_size, validate_entry-batch,
}
use tsedge.Wal.Replay.{
  Database, add_points, replay_loop, wal_replay, verify_loop, verify_status, wal_verify_file,
}
use tsedge.Wal.Replay.Recovery.{IsName, replay_entry-batch}

-- One call of `wal_append_batch_record`.
pub record Batch : Type 0 where
  pub name : List ℕ
  pub points : List Point
  pub is_name : IsName name
  pub some_point : 1 ≤ length points
  pub fit : length points ≤ wal_max_batch_points
  pub all : All IsPoint points

abbrev pub entry_bytes : Batch → List ℕ
entry_bytes b = batch_entry b.name b.points b.is_name.fits

abbrev pub entry_length : Batch → ℕ
entry_length b = batch_size b.name b.points b.is_name.fits

unfoldable pub log_bytes : List Batch → List ℕ
log_bytes [] = []
log_bytes (b ∷ batches) = entry_bytes b ++ log_bytes batches

length-entry_bytes : (b : Batch) → length (entry_bytes b) ≡ entry_length b
length-entry_bytes b = length-batch_entry b.name b.points b.is_name.fits b.some_point b.fit

entry_states_size :
    (b : Batch) (rest : List ℕ) → read_u32_le (drop 8 (entry_bytes b ++ rest)) ≡ entry_length b
entry_states_size b rest = batch_states_size b.name b.points b.is_name.fits b.some_point b.fit rest

-- The sizes that the two loops accept.
entry_length_fits : (b : Batch) → (45 ≤ entry_length b) × (entry_length b ≤ wal_max_entry_size)
entry_length_fits b =
    omega (arith, b.some_point, b.fit, b.is_name.fits.some_byte, b.is_name.fits.fit)

-- A front part of an entry that has its 12 first bytes states the size of the whole entry.
torn_states_size :
    (b : Batch) (kept : ℕ)
    → 12 ≤ kept
    → kept ≤ entry_length b
    → read_u32_le (drop 8 (take kept (entry_bytes b))) ≡ entry_length b
torn_states_size b kept low high =
    let front = take kept (entry_bytes b) in
    let back = drop kept (entry_bytes b) in
    let size = length-entry_bytes b in
    let many : 12 ≤ length front =
      omega (arith, length-take kept (entry_bytes b), size, low, high) in
    let whole : entry_bytes b ++ [] ≡ front ++ back =
      append-nil (entry_bytes b) ∙ sym (take-append-drop kept (entry_bytes b)) in
    sym (read_u32_le-append (drop 8 front) back (omega (arith, length-drop 8 front, many)))
    ∙ ap read_u32_le (sym (drop_front 8 front back (omega (arith, many))))
    ∙ ap (λ (bytes : List ℕ). read_u32_le (drop 8 bytes)) (sym whole)
    ∙ entry_states_size b []

module _ {State : Type 0} (database : Database State) (alloc : ℕ → Bool) where
  -- What the log stands for: for each batch the series, then its points.
  unfoldable pub apply_log : State → List Batch → Result State
  apply_log db [] = ok db
  apply_log db (b ∷ batches) =
      (database.add_series db b.name >>= λ db'. add_points database alloc db' b.name b.points)
      >>= λ db'. apply_log db' batches

module _ {State : Type 0} (database : Database State) (alloc : ℕ → Bool)
    (plenty : (k : ℕ) → alloc k ≡ true) where
  replay_loop_step :
      (rounds : ℕ) (db : State) (b : Batch) (rest : List ℕ)
      → replay_loop database alloc (suc rounds) db (entry_bytes b ++ rest) ≡ (
          (database.add_series db b.name >>= λ db'. add_points database alloc db' b.name b.points)
          >>= λ db'. replay_loop database alloc rounds db' rest)
  unfolding replay_loop
  replay_loop_step rounds db b rest =
      let size = entry_length b in
      let full = length-entry_bytes b in
      let (low, high) = entry_length_fits b in
      let present = length-append (entry_bytes b) rest in
      rw
        (
          entry_states_size b rest,
          plenty size,
          ltb-eq_false (length (entry_bytes b ++ rest)) 12 (omega (arith, present, full, low)),
          ltb-eq_false (length (entry_bytes b ++ rest)) size (omega (arith, present, full)),
          ltb-eq_false size wal_v2_min_entry_size (omega (arith, low)),
          ltb-eq_false wal_max_entry_size size (omega (arith, high)),
          take-append size (entry_bytes b) rest full,
          drop-append size (entry_bytes b) rest full,
          replay_entry-batch database alloc b.name b.points b.is_name b.some_point b.fit b.all
              plenty db,
        )
        refl

  -- A torn entry ends the loop without an error.
  replay_loop_torn :
      (rounds : ℕ) (db : State) (b : Batch) (kept : ℕ)
      → kept < entry_length b
      → replay_loop database alloc (suc rounds) db (take kept (entry_bytes b)) ≡ ok db
  unfolding replay_loop
  replay_loop_torn rounds db b kept torn =
      let front = take kept (entry_bytes b) in
      let full = length-entry_bytes b in
      let (low, high) = entry_length_fits b in
      let here : length front ≡ kept =
        omega (arith, length-take kept (entry_bytes b), full, torn) in
      elim (Bool-cases (ltb (length front) 12)) [
        | inl short ↦ rw short refl
        | inr long ↦
            let many : 12 ≤ kept = omega (arith, ltb_false→le (length front) 12 long, here) in
            rw
              (
                long,
                torn_states_size b kept many (omega (arith, torn)),
                plenty (entry_length b),
                ltb-eq_false (entry_length b) wal_v2_min_entry_size (omega (arith, low)),
                ltb-eq_false wal_max_entry_size (entry_length b) (omega (arith, high)),
                ltb-eq_true (length front) (entry_length b) (omega (arith, here, torn)),
              )
              refl
      ]

  replay_loop-log_bytes :
      (rounds : ℕ) (db : State) (batches : List Batch) (torn : Batch) (kept : ℕ)
      → length batches < rounds
      → kept < entry_length torn
      → replay_loop database alloc rounds db (log_bytes batches ++ take kept (entry_bytes torn))
        ≡ apply_log database alloc db batches
  unfolding log_bytes apply_log
  replay_loop-log_bytes zero db batches torn kept enough cut = absurd (omega (arith, enough))
  replay_loop-log_bytes (suc rounds) db [] torn kept enough cut =
      replay_loop_torn rounds db torn kept cut
  replay_loop-log_bytes (suc rounds) db (b ∷ batches) torn kept enough cut =
      let tail = take kept (entry_bytes torn) in
      rw
        (
          append_assoc (entry_bytes b) (log_bytes batches) tail,
          replay_loop_step rounds db b (log_bytes batches ++ tail),
        )
        (ap
          (λ (k : State → Result State).
            (database.add_series db b.name >>= λ db'. add_points database alloc db' b.name b.points)
            >>= k)
          (λ i db'.
            replay_loop-log_bytes rounds db' batches torn kept (omega (arith, enough)) cut i))

length-log_bytes : (batches : List Batch) → length batches ≤ length (log_bytes batches)
unfolding log_bytes
length-log_bytes [] = omega arith
length-log_bytes (b ∷ batches) = omega (
  arith,
  length-append (entry_bytes b) (log_bytes batches),
  length-entry_bytes b,
  length-log_bytes batches,
)

-- Recovery: a log of batch entries, possibly with one more entry behind them that is cut off
-- anywhere, is replayed as its whole entries, in order: for each the series is added, then its
-- points. The torn entry changes nothing, and an error comes only from adding. fopen and fclose
-- succeed and malloc never fails.
pub wal_replay-log_bytes :
    {State : Type 0} (database : Database State) (alloc : ℕ → Bool) (db : State)
    (batches : List Batch) (torn : Batch) (kept : ℕ)
    → ((k : ℕ) → alloc k ≡ true)
    → kept < entry_length torn
    → wal_replay database alloc true true db
        (some (log_bytes batches ++ take kept (entry_bytes torn)))
      ≡ apply_log database alloc db batches
unfolding wal_replay
wal_replay-log_bytes database alloc db batches torn kept plenty cut =
    let tail = take kept (entry_bytes torn) in
    let enough : length batches < suc (length (log_bytes batches ++ tail)) =
      omega (arith, length-log_bytes batches, length-append (log_bytes batches) tail) in
    rw
      (replay_loop-log_bytes database alloc plenty (suc (length (log_bytes batches ++ tail))) db
        batches torn kept enough cut)
      (>>=-ok (apply_log database alloc db batches))

verify_loop-log_bytes :
    (alloc : ℕ → Bool) (rounds : ℕ) (batches : List Batch)
    → ((k : ℕ) → alloc k ≡ true)
    → length batches < rounds
    → verify_loop alloc rounds (log_bytes batches) ≡ ok (length batches)
unfolding log_bytes verify_loop verify_status
verify_loop-log_bytes alloc zero batches plenty enough = absurd (omega (arith, enough))
verify_loop-log_bytes alloc (suc rounds) [] plenty enough = refl
verify_loop-log_bytes alloc (suc rounds) (b ∷ batches) plenty enough =
    let size = entry_length b in
    let full = length-entry_bytes b in
    let (low, high) = entry_length_fits b in
    let rest = log_bytes batches in
    let present = length-append (entry_bytes b) rest in
    let some_bytes : (length (entry_bytes b ++ rest) == 0) ≡ false =
      ground (arith, present, full, low) in
    rw
      (
        some_bytes,
        entry_states_size b rest,
        plenty size,
        ltb-eq_false (length (entry_bytes b ++ rest)) 12 (omega (arith, present, full, low)),
        ltb-eq_false (length (entry_bytes b ++ rest)) size (omega (arith, present, full)),
        ltb-eq_false size wal_v2_min_entry_size (omega (arith, low)),
        ltb-eq_false wal_max_entry_size size (omega (arith, high)),
        take-append size (entry_bytes b) rest full,
        drop-append size (entry_bytes b) rest full,
        validate_entry-batch b.name b.points b.is_name.fits b.some_point b.fit,
        verify_loop-log_bytes alloc rounds batches plenty (omega (arith, enough)),
      )
      (ap ok (omega arith))

-- `tsedge_wal_verify_file` accepts every log of batch entries and counts them, if fopen and fclose
-- succeed and malloc never fails.
pub wal_verify_file-log_bytes :
    (alloc : ℕ → Bool) (batches : List Batch)
    → ((k : ℕ) → alloc k ≡ true)
    → wal_verify_file alloc true true (some (log_bytes batches)) ≡ ok (length batches)
unfolding wal_verify_file
wal_verify_file-log_bytes alloc batches plenty =
    rw
      (verify_loop-log_bytes alloc (suc (length (log_bytes batches))) batches plenty
        (omega (arith, length-log_bytes batches)))
      refl
