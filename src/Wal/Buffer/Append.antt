-- ===== src/Wal/Buffer/Append.antt =====
-- What the buffered log holds: the bytes of wal.log and behind them those still in memory.
use native.Mathlib.Nat.{pow-suc}
use tsedge.Common.{
  ℕ, zero, suc, ◌+◌, ◌-◌, ◌*◌, ◌^◌, ◌≤◌, ◌<◌, ◌≡◌, refl, ap, sym, ◌∙◌, Bool, Bool-cases, true,
  false, ◌&&◌, List, ◌++◌, append-nil, append_assoc, inl, inr, arith, ltb, ltb-eq_false,
  ltb_false→le, leb, ◌==◌, if◌then◌else◌, length, Result, ok, err,
}
use tsedge.Wal.Buffer.{
  LogIo, Log, file_bytes, Step, and_then, capacity_loop, grow_buffer, ensure_buffer_capacity,
  flush_with, wal_flush, append_bytes, wal_buffer_bytes,
}

abbrev pub log_stream : Log → List ℕ
log_stream log = file_bytes log ++ log.buffer

pub and_then-eq-ok :
    (s : Step) (next : Log → Step)
    → (and_then s next).1 ≡ ok tt
    → (s.1 ≡ ok tt) × (and_then s next ≡ next s.0)
unfolding and_then
and_then-eq-ok (log, ok done) next e = (refl, refl)
and_then-eq-ok (log, err x) next e = absurd (cc e)

-- Behind a call that leaves `middle` comes one that leaves `final`.
pub and_then_leaves :
    (s : Step) (next : Log → Step) (middle final : List ℕ)
    → (s.1 ≡ ok tt → log_stream s.0 ≡ middle)
    → ((log : Log)
        → log_stream log ≡ middle
        → (next log).1 ≡ ok tt
        → log_stream (next log).0 ≡ final)
    → (and_then s next).1 ≡ ok tt
    → log_stream (and_then s next).0 ≡ final
unfolding and_then
and_then_leaves (log, ok done) next middle final first second e = second log (first refl) e
and_then_leaves (log, err x) next middle final first second e = absurd (cc e)

-- Growing the buffer keeps its bytes and the file.
grow_buffer_keeps :
    (alloc : ℕ → Bool) (log : Log) (r : Result ℕ)
    → log_stream (grow_buffer alloc log r).0 ≡ log_stream log
unfolding grow_buffer
grow_buffer_keeps alloc log (err e) = refl
grow_buffer_keeps alloc log (ok capacity) = elim (Bool-cases (leb capacity log.capacity)) [
  | inl large ↦ rw large refl
  | inr small ↦ elim (Bool-cases (alloc capacity)) [
    | inl given ↦ rw (small, given) refl
    | inr refused ↦ rw (small, refused) refl
  ]
]

ensure_buffer_capacity_keeps :
    (alloc : ℕ → Bool) (log : Log) (required : ℕ)
    → log_stream (ensure_buffer_capacity alloc log required).0 ≡ log_stream log
unfolding ensure_buffer_capacity
ensure_buffer_capacity_keeps alloc log required =
    grow_buffer_keeps alloc log (capacity_loop 64 wal_buffer_bytes required)

-- A flush that succeeds only moves bytes from memory to the file.
flush_with_keeps :
    (f : LogIo) (log : Log)
    → (flush_with f log).1 ≡ ok tt
    → log_stream (flush_with f log).0 ≡ log_stream log
unfolding flush_with
flush_with_keeps f log e = elim (Bool-cases (length log.buffer == 0)) [
  | inl nothing ↦ rw nothing refl
  | inr some_bytes ↦ elim (Bool-cases f.opens) [
    | inr shut ↦ absurd (cc (rw (some_bytes, shut) at e))
    | inl opens ↦ elim (Bool-cases (f.writes 0 && (f.syncs && f.closes))) [
      | inr torn ↦ absurd (cc (rw (some_bytes, opens, torn) at e))
      | inl stored ↦ rw (some_bytes, opens, stored) (append-nil (file_bytes log ++ log.buffer))
    ]
  ]
]

module _ (calls : ℕ → LogIo) (alloc : ℕ → Bool) where
  pub wal_flush_keeps :
      (log : Log)
      → (wal_flush calls alloc log).1 ≡ ok tt
      → log_stream (wal_flush calls alloc log).0 ≡ log_stream log
  unfolding wal_flush
  wal_flush_keeps log e = flush_with_keeps (calls log.opened) log e

  -- A call under a condition.
  if_keeps :
      (c : Bool) (s : Step) (log : Log)
      → (s.1 ≡ ok tt → log_stream s.0 ≡ log_stream log)
      → (if c then s else (log, ok tt)).1 ≡ ok tt
      → log_stream (if c then s else (log, ok tt)).0 ≡ log_stream log
  if_keeps true s log keeps e = keeps e
  if_keeps false s log keeps e = refl

-- Where `wal_append_bytes` succeeds, whatever it flushed on the way, the log holds its old bytes and
-- then the entry: those of wal.log followed by those still in memory.
pub append_bytes_keeps :
    (calls : ℕ → LogIo) (alloc : ℕ → Bool) (log : Log) (entry : List ℕ)
    → (append_bytes calls alloc log entry).1 ≡ ok tt
    → log_stream (append_bytes calls alloc log entry).0 ≡ log_stream log ++ entry
unfolding append_bytes
append_bytes_keeps calls alloc log entry e =
    let old = log_stream log in
    let size = length entry in
    let grow = λ (l : Log). ensure_buffer_capacity_keeps alloc l in
    and_then_leaves (ensure_buffer_capacity alloc log size) _ old (old ++ entry)
      (λ done. grow log size)
      (λ l1 h1.
        and_then_leaves _ _ old (old ++ entry)
          (λ done.
            if_keeps calls alloc _ (wal_flush calls alloc l1) l1 (wal_flush_keeps calls alloc l1)
              done
            ∙ h1)
          (λ l2 h2.
            and_then_leaves _ _ old (old ++ entry)
              (λ done.
                if_keeps calls alloc _ (ensure_buffer_capacity alloc l2 (length l2.buffer + size))
                  l2 (λ grown. grow l2 (length l2.buffer + size)) done
                ∙ h2)
              (λ l3 h3 done.
                sym (append_assoc (file_bytes l3) l3.buffer entry)
                ∙ ap (λ (bytes : List ℕ). bytes ++ entry) h3)))
      e

capacity_loop_reaches :
    (rounds capacity required : ℕ)
    → required ≤ 2 ^ 63
    → required ≤ capacity * 2 ^ rounds
    → (grown : ℕ) × (capacity_loop (suc rounds) capacity required ≡ ok grown) × (required ≤ grown)
unfolding capacity_loop
capacity_loop_reaches zero capacity required low reach =
    let enough : required ≤ capacity = omega (arith, reach) in
    (capacity, rw (ltb-eq_false capacity required enough) refl, enough)
capacity_loop_reaches (suc rounds) capacity required low reach =
    elim (Bool-cases (ltb capacity required)) [
      | inr large ↦ (capacity, rw large refl, ltb_false→le capacity required large)
      | inl short ↦
          let below : capacity < required = ground (arith, short) in
          let further : required ≤ capacity * 2 * 2 ^ rounds =
            omega (arith, reach, ap (λ (t : ℕ). capacity * t) (pow-suc 2 rounds)) in
          let (grown, e, fits) = capacity_loop_reaches rounds (capacity * 2) required low further in
          (
            grown,
            rw (short, ltb-eq_false (2 ^ 63 - 1) capacity (omega (arith, low, below))) e,
            fits,
          )
    ]

-- The loop of `wal_ensure_buffer_capacity` ends within 64 rounds, with a capacity that is large
-- enough, for every size up to 2 ^ 63.
pub capacity_loop_total :
    (required : ℕ)
    → required ≤ 2 ^ 63
    → (capacity : ℕ) × (capacity_loop 64 wal_buffer_bytes required ≡ ok capacity)
      × (required ≤ capacity)
capacity_loop_total required low =
    capacity_loop_reaches 63 wal_buffer_bytes required low (omega (arith, low))
