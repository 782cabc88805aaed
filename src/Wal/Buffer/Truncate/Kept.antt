-- ===== src/Wal/Buffer/Truncate/Kept.antt =====
-- What `tsedge_wal_truncate_to_buffers` leaves in wal.log.
use tsedge.Common.{
  ℕ, zero, suc, ◌+◌, ◌≡◌, refl, ap, sym, ◌∙◌, Bool, Bool-cases, true, false, ◌&&◌, some, List, [],
  ◌∷◌, ◌++◌, append-nil, append_assoc, inl, inr, arith, All, length, length-take, take, drop,
  take-append-drop, Error, ok, err, Result-cases, if◌then◌else◌,
}
use tsedge.Point.{Point, IsPoint}
use tsedge.Wal.{wal_max_batch_points}
use tsedge.Wal.Entry.{batch_size, batch_entry_size_fits, encode_batch_fits}
use tsedge.Wal.Replay.Recovery.{IsName}
use tsedge.Wal.Replay.Log.{Batch, entry_bytes, log_bytes}
use tsedge.Wal.Buffer.{LogIo, Log, Step}
use tsedge.Wal.Buffer.Batches.{All-take, All-drop, Logs, add_front-Logs, logged_points}
use tsedge.Wal.Buffer.Truncate.{
  Written, record_bytes, write_record, written_then, write_chunks, write_buffers, finish_truncate,
  truncate_with, truncate_to_buffers,
}

written_then-eq-ok :
    (f : LogIo) (alloc : ℕ → Bool) (w : Written) (next : List ℕ → ℕ → Written)
    → (written_then f alloc w next).status ≡ ok tt
    → (w.status ≡ ok tt) × (written_then f alloc w next ≡ next w.bytes w.writes)
unfolding written_then
written_then-eq-ok f alloc w next e = elim (Result-cases w.status) [
  | inl (done, r) ↦ (r, rw r refl)
  | inr (x, r) ↦ absurd (cc (rw r at e))
]

module _ (f : LogIo) (alloc : ℕ → Bool) where
  write_record_entry :
      (bytes : List ℕ) (writes : ℕ) (b : Batch)
      → (write_record f alloc bytes writes (record_bytes f alloc b.name b.points)).status ≡ ok tt
      → (write_record f alloc bytes writes (record_bytes f alloc b.name b.points)).bytes
        ≡ bytes ++ entry_bytes b
  unfolding write_record record_bytes
  write_record_entry bytes writes b e =
      let size = batch_size b.name b.points b.is_name.fits in
      let sized = batch_entry_size_fits b.name b.points b.is_name.fits b.some_point b.fit in
      let encoded =
        encode_batch_fits b.name b.points b.is_name.fits b.some_point b.fit size (omega arith) in
      elim (Bool-cases (alloc size)) [
        | inl given ↦ rw (sized, given, encoded) refl
        | inr refused ↦ absurd (cc (rw (sized, refused) at e))
      ]

write_chunks-Logs :
    (f : LogIo) (alloc : ℕ → Bool) (rounds : ℕ) (bytes : List ℕ) (writes : ℕ) (name : List ℕ)
    (points : List Point)
    → IsName name
    → All IsPoint points
    → (write_chunks f alloc rounds bytes writes name points).status ≡ ok tt
    → Logs name points bytes (write_chunks f alloc rounds bytes writes name points).bytes
unfolding write_chunks
write_chunks-Logs f alloc rounds bytes writes name [] n all e = record {
  batches = [];
  bytes = unfold log_bytes in sym (append-nil bytes);
  in_order = unfold logged_points in refl;
  named = tt;
}
write_chunks-Logs f alloc zero bytes writes name (p ∷ points) n all e = absurd (cc e)
write_chunks-Logs f alloc (suc rounds) bytes writes name (p ∷ points) n all e =
    let chunk = take wal_max_batch_points (p ∷ points) in
    let later = drop wal_max_batch_points (p ∷ points) in
    let b : Batch = record {
      name = name;
      points = chunk;
      is_name = n;
      some_point = omega (arith, length-take wal_max_batch_points (p ∷ points));
      fit = omega (arith, length-take wal_max_batch_points (p ∷ points));
      all = All-take IsPoint wal_max_batch_points (p ∷ points) all;
    } in
    let w = write_record f alloc bytes writes (record_bytes f alloc name chunk) in
    let (stored, same) =
      written_then-eq-ok f alloc w
        (λ bytes' writes'. write_chunks f alloc rounds bytes' writes' name later) e in
    let more =
      write_chunks-Logs f alloc rounds w.bytes w.writes name later n
        (All-drop IsPoint wal_max_batch_points (p ∷ points) all)
        (sym (ap (λ (t : Written). t.status) same) ∙ e) in
    add_front-Logs name chunk later b bytes w.bytes _ refl refl
      (write_record_entry f alloc bytes writes b stored) more
      (take-append-drop wal_max_batch_points (p ∷ points)) (ap (λ (t : Written). t.bytes) same)

-- Batches that stand for all buffers, series by series: those of a series have its name, and their
-- points are those of its buffer, in order.
abbrev pub BySeries : List (List ℕ × List Point) → List Batch → Type 0
BySeries [] batches = batches ≡ []
BySeries ((name, buffer) ∷ series) batches =
    (own : List Batch) × (others : List Batch) × (batches ≡ own ++ others)
    × All (λ b. b.name ≡ name) own
    × (logged_points own ≡ buffer)
    × BySeries series others

-- A series with a valid name and a buffer of points.
abbrev pub IsSeries : List ℕ × List Point → Type 0
IsSeries s = IsName s.0 × All IsPoint s.1

pub record Kept (series : List (List ℕ × List Point)) (before after : List ℕ) : Type 0 where
  pub batches : List Batch
  pub bytes : after ≡ before ++ log_bytes batches
  pub by_series : BySeries series batches

log_bytes-append : (xs ys : List Batch) → log_bytes (xs ++ ys) ≡ log_bytes xs ++ log_bytes ys
unfolding log_bytes
log_bytes-append [] ys = refl
log_bytes-append (b ∷ xs) ys =
    ap (λ (t : List ℕ). entry_bytes b ++ t) (log_bytes-append xs ys)
    ∙ sym (append_assoc (entry_bytes b) (log_bytes xs) (log_bytes ys))

write_buffers-Kept :
    (f : LogIo) (alloc : ℕ → Bool) (bytes : List ℕ) (writes : ℕ)
    (series : List (List ℕ × List Point))
    → All IsSeries series
    → (write_buffers f alloc bytes writes series).status ≡ ok tt
    → Kept series bytes (write_buffers f alloc bytes writes series).bytes
unfolding write_buffers
write_buffers-Kept f alloc bytes writes [] all e = record {
  batches = [];
  bytes = unfold log_bytes in sym (append-nil bytes);
  by_series = refl;
}
write_buffers-Kept f alloc bytes writes ((name, buffer) ∷ series) all e =
    let w = write_chunks f alloc (length buffer) bytes writes name buffer in
    let (stored, same) =
      written_then-eq-ok f alloc w (λ bytes' writes'. write_buffers f alloc bytes' writes' series)
        e in
    let here =
      write_chunks-Logs f alloc (length buffer) bytes writes name buffer all.0.0 all.0.1 stored in
    let more =
      write_buffers-Kept f alloc w.bytes w.writes series all.1
        (sym (ap (λ (t : Written). t.status) same) ∙ e) in
    record {
      batches = here.batches ++ more.batches;
      bytes =
          ap (λ (t : Written). t.bytes) same
          ∙ more.bytes
          ∙ ap (λ (t : List ℕ). t ++ log_bytes more.batches) here.bytes
          ∙ append_assoc bytes (log_bytes here.batches) (log_bytes more.batches)
          ∙ ap (λ (t : List ℕ). bytes ++ t) (sym (log_bytes-append here.batches more.batches));
      by_series = (here.batches, more.batches, refl, here.named, here.in_order, more.by_series);
    }

finish_truncate_ok :
    (f : LogIo) (alloc : ℕ → Bool) (log : Log) (w : Written)
    → (finish_truncate f alloc log w).1 ≡ ok tt
    → (w.status ≡ ok tt)
      × (finish_truncate f alloc log w ≡ (record log { file = some w.bytes }, ok tt))
unfolding finish_truncate
finish_truncate_ok f alloc log w e = elim (Result-cases w.status) [
  | inr (x, r) ↦ absurd (cc (rw r at e))
  | inl (done, r) ↦ elim (Bool-cases (f.syncs && f.closes)) [
    | inl stored ↦ (r, rw (r, stored) refl)
    | inr torn ↦ absurd (cc (rw (r, torn) at e))
  ]
]

-- A call behind a test that has to hold.
opened_ok :
    (c : Bool) (s : Step) (log : Log) (x : Error)
    → (if c then s else (log, err x)).1 ≡ ok tt
    → (s.1 ≡ ok tt) × ((if c then s else (log, err x)) ≡ s)
opened_ok true s log x e = (e, refl)
opened_ok false s log x e = absurd (cc e)

-- Where `tsedge_wal_truncate_to_buffers` succeeds, nothing is left in the log's buffer and wal.log
-- holds batch entries only: for each series in turn entries of its name, whose points are those of
-- its buffer, in order. Names and points of the series are valid.
pub truncate_to_buffers-Kept :
    (calls : ℕ → LogIo) (alloc : ℕ → Bool) (log : Log) (series : List (List ℕ × List Point))
    → All IsSeries series
    → (truncate_to_buffers calls alloc log series).1 ≡ ok tt
    → (bytes : List ℕ) × ((truncate_to_buffers calls alloc log series).0
        ≡ record log { buffer = []; opened = log.opened + 1; file = some bytes })
      × Kept series [] bytes
unfolding truncate_to_buffers truncate_with
truncate_to_buffers-Kept calls alloc log series all e =
    let f = calls log.opened in
    let emptied : Log = record log { buffer = []; opened = log.opened + 1 } in
    let w = write_buffers f alloc [] 0 series in
    let (ran, opens) = opened_ok f.opens (finish_truncate f alloc emptied w) emptied _ e in
    let (written, same) = finish_truncate_ok f alloc emptied w ran in
    (
      w.bytes,
      ap (λ (t : Step). t.0) (opens ∙ same),
      write_buffers-Kept f alloc [] 0 series all written,
    )
