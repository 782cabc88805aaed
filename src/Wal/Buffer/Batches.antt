-- ===== src/Wal/Buffer/Batches.antt =====
-- `tsedge_wal_append_batch`: what a batch of any length leaves in the log.
use tsedge.Common.{
  ℕ, zero, suc, ◌≤◌, ◌≡◌, refl, ap, ap₂, sym, ◌∙◌, Bool, Bool-cases, List, [], ◌∷◌, ◌++◌,
  append-nil, append_assoc, inl, inr, arith, All, length, length-take, length-drop, take, drop,
  take-append-drop, ok,
}
use tsedge.Point.{Point, IsPoint}
use tsedge.Wal.{wal_max_batch_points}
use tsedge.Wal.Entry.{batch_size, batch_entry_size_fits, encode_batch_fits}
use tsedge.Wal.Replay.Recovery.{IsName}
use tsedge.Wal.Replay.Log.{Batch, entry_bytes, log_bytes}
use tsedge.Wal.Buffer.{
  Durability, fast, balanced, strict, LogIo, Log, Step, and_then, append_encoded, append_sized,
  append_batch_record, append_chunks, flush_if_strict, wal_append_batch,
}
use tsedge.Wal.Buffer.Append.{log_stream, and_then-eq-ok, append_bytes_keeps, wal_flush_keeps}

-- The points of the batches, in order.
unfoldable pub logged_points : List Batch → List Point
logged_points [] = []
logged_points (b ∷ batches) = b.points ++ logged_points batches

module _ (calls : ℕ → LogIo) (alloc : ℕ → Bool) where
  append_batch_record_logs :
      (log : Log) (b : Batch)
      → (append_batch_record calls alloc log b.name b.points).1 ≡ ok tt
      → log_stream (append_batch_record calls alloc log b.name b.points).0
        ≡ log_stream log ++ entry_bytes b
  unfolding append_batch_record append_sized append_encoded
  append_batch_record_logs log b e =
      let size = batch_size b.name b.points b.is_name.fits in
      let sized = batch_entry_size_fits b.name b.points b.is_name.fits b.some_point b.fit in
      let encoded =
        encode_batch_fits b.name b.points b.is_name.fits b.some_point b.fit size (omega arith) in
      elim (Bool-cases (alloc size)) [
        | inl given ↦
            rw (sized, given, encoded)
              (append_bytes_keeps calls alloc log (entry_bytes b) (rw (sized, given, encoded) at e))
        | inr refused ↦ absurd (cc (rw (sized, refused) at e))
      ]

pub All-take :
    (P : Point → Type 0) (n : ℕ) (points : List Point) → All P points → All P (take n points)
All-take P zero points h = tt
All-take P (suc n) [] h = tt
All-take P (suc n) (p ∷ points) h = (h.0, All-take P n points h.1)

pub All-drop :
    (P : Point → Type 0) (n : ℕ) (points : List Point) → All P points → All P (drop n points)
All-drop P zero points h = h
All-drop P (suc n) [] h = tt
All-drop P (suc n) (p ∷ points) h = All-drop P n points h.1

-- The batches that stand for one call.
pub record Logs (name : List ℕ) (points : List Point) (before after : List ℕ) : Type 0 where
  pub batches : List Batch
  pub bytes : after ≡ before ++ log_bytes batches
  pub in_order : logged_points batches ≡ points
  pub named : All (λ b. b.name ≡ name) batches

-- One more batch in front.
pub add_front-Logs :
    (name : List ℕ) (chunk later : List Point) (b : Batch) (before next after : List ℕ)
    {points : List Point} {final : List ℕ}
    → b.name ≡ name
    → b.points ≡ chunk
    → next ≡ before ++ entry_bytes b
    → Logs name later next after
    → chunk ++ later ≡ points
    → final ≡ after
    → Logs name points before final
unfolding log_bytes logged_points
add_front-Logs name chunk later b before next after named_so chunked stored more split same =
    record {
      batches = b ∷ more.batches;
      bytes =
          same
          ∙ more.bytes
          ∙ ap (λ (bytes : List ℕ). bytes ++ log_bytes more.batches) stored
          ∙ append_assoc before (entry_bytes b) (log_bytes more.batches);
      in_order = ap₂ (λ (x y : List Point). x ++ y) chunked more.in_order ∙ split;
      named = (named_so, more.named);
    }

append_chunks-Logs :
    (calls : ℕ → LogIo) (alloc : ℕ → Bool) (rounds : ℕ) (log : Log) (name : List ℕ)
    (points : List Point)
    → IsName name
    → All IsPoint points
    → (append_chunks calls alloc rounds log name points).1 ≡ ok tt
    → Logs name points
        (log_stream log)
        (log_stream (append_chunks calls alloc rounds log name points).0)
unfolding append_chunks
append_chunks-Logs calls alloc rounds log name [] n all e = record {
  batches = [];
  bytes = unfold log_bytes in sym (append-nil (log_stream log));
  in_order = unfold logged_points in refl;
  named = tt;
}
append_chunks-Logs calls alloc zero log name (p ∷ points) n all e = absurd (cc e)
append_chunks-Logs calls alloc (suc rounds) log name (p ∷ points) n all e =
    let chunk = take wal_max_batch_points (p ∷ points) in
    let later = drop wal_max_batch_points (p ∷ points) in
    let b : Batch = record {
      name = name;
      points = chunk;
      is_name = n;
      some_point = omega (arith, length-take wal_max_batch_points (p ∷ points));
      fit = omega (arith, length-take wal_max_batch_points (p ∷ points));
      all = All-take IsPoint wal_max_batch_points (p ∷ points) all;
    } in
    let s = append_batch_record calls alloc log name chunk in
    let (stored, same) =
      and_then-eq-ok s (λ log'. append_chunks calls alloc rounds log' name later) e in
    let more =
      append_chunks-Logs calls alloc rounds s.0 name later n
        (All-drop IsPoint wal_max_batch_points (p ∷ points) all)
        (sym (ap (λ (t : Step). t.1) same) ∙ e) in
    add_front-Logs name chunk later b (log_stream log) (log_stream s.0) _ refl refl
      (append_batch_record_logs calls alloc log b stored) more
      (take-append-drop wal_max_batch_points (p ∷ points)) (ap (λ (t : Step). log_stream t.0) same)

flush_if_strict_keeps :
    (calls : ℕ → LogIo) (alloc : ℕ → Bool) (mode : Durability) (log : Log)
    → (flush_if_strict calls alloc mode log).1 ≡ ok tt
    → log_stream (flush_if_strict calls alloc mode log).0 ≡ log_stream log
unfolding flush_if_strict
flush_if_strict_keeps calls alloc strict log e = wal_flush_keeps calls alloc log e
flush_if_strict_keeps calls alloc fast log e = refl
flush_if_strict_keeps calls alloc balanced log e = refl

-- Where `tsedge_wal_append_batch` succeeds for a valid name, in any durability mode and with any
-- flushes on the way, the log (wal.log and behind it the buffer) holds its old bytes and then
-- entries of this series, whose points are exactly the appended ones, in order.
pub wal_append_batch-Logs :
    (calls : ℕ → LogIo) (alloc : ℕ → Bool) (log : Log) (name : List ℕ) (points : List Point)
    → IsName name
    → All IsPoint points
    → (wal_append_batch calls alloc log name points).1 ≡ ok tt
    → Logs name points
        (log_stream log)
        (log_stream (wal_append_batch calls alloc log name points).0)
unfolding wal_append_batch
wal_append_batch-Logs calls alloc log name [] n all e = record {
  batches = [];
  bytes = unfold log_bytes in sym (append-nil (log_stream log));
  in_order = unfold logged_points in refl;
  named = tt;
}
wal_append_batch-Logs calls alloc log name (p ∷ points) n all e =
    let s = append_chunks calls alloc (length (p ∷ points)) log name (p ∷ points) in
    let (stored, same) =
      and_then-eq-ok s (λ log'. flush_if_strict calls alloc log'.durability log') e in
    let chunks =
      append_chunks-Logs calls alloc (length (p ∷ points)) log name (p ∷ points) n all stored in
    let kept =
      flush_if_strict_keeps calls alloc s.0.durability s.0
        (sym (ap (λ (t : Step). t.1) same) ∙ e) in
    record {
      batches = chunks.batches;
      bytes = ap (λ (t : Step). log_stream t.0) same ∙ kept ∙ chunks.bytes;
      in_order = chunks.in_order;
      named = chunks.named;
    }

-- As many rounds as points are enough for the chunks: one more changes nothing, so that the count
-- of rounds is never what ends the loop.
pub append_chunks_enough :
    (calls : ℕ → LogIo) (alloc : ℕ → Bool) (rounds : ℕ) (log : Log) (name : List ℕ)
    (points : List Point)
    → length points ≤ rounds
    → append_chunks calls alloc (suc rounds) log name points
      ≡ append_chunks calls alloc rounds log name points
unfolding append_chunks
append_chunks_enough calls alloc rounds log name [] enough = refl
append_chunks_enough calls alloc zero log name (p ∷ points) enough = absurd (omega (arith, enough))
append_chunks_enough calls alloc (suc rounds) log name (p ∷ points) enough =
    let later = drop wal_max_batch_points (p ∷ points) in
    let fewer : length later ≤ rounds =
      omega (arith, enough, length-drop wal_max_batch_points (p ∷ points)) in
    ap
      (λ (next : Log → Step).
        and_then (append_batch_record calls alloc log name (take wal_max_batch_points (p ∷ points)))
          next)
      (λ i log'. append_chunks_enough calls alloc rounds log' name later fewer i)
