-- ===== src/Series/Query/Windows/Bounds.antt =====
-- The windows of `tsedge_series_aggregate_windowed`, src/core/series_query.c: every timestamp of a
-- range that is accepted has a window, and lies in it.
use native.Mathlib.Nat.{div-lt_iff_lt-mul, div-add-mod', mod-lt, div-mul-le_self, lt-div-mul-add}
use tsedge.Common.{
  ℕ, ◌+◌, ◌-◌, ◌*◌, ◌/◌, ◌%◌, ◌^◌, ◌≤◌, ◌<◌, ◌≡◌, Bool-cases, true, ◌&&◌, ◌||◌, inl, inr, arith,
  IsU64, u64, ltb, leb, ltb-eq_true, ◌==◌, if◌then◌else◌, ok, fail_if-eq-ok, ok-injective,
  invalid_argument,
}
use tsedge.Point.{lt64, le64, add64, sub64, sign_flip}
use tsedge.Series.Query.Windows.{
  max_window_aggregates, validate_window_range, window_index, window_start, window_end,
}

-- What the tests of `validate_window_range` leave.
record Accepted (start_time end_time window_size count : ℕ) : Type 0 where
  size_low : 1 ≤ window_size
  size_high : window_size < 2 ^ 63
  ordered : sign_flip start_time ≤ sign_flip end_time
  fits : sub64 end_time start_time < 2 ^ 63
  enough : sub64 end_time start_time ≤ count * window_size

count_enough :
    (range window_size : ℕ)
    → 1 ≤ window_size
    → range ≤ (range / window_size + (if range % window_size == 0 then 0 else 1)) * window_size
count_enough range window_size low =
    let whole = div-add-mod' range window_size in
    let part = mod-lt range {m = window_size} low in
    elim (Bool-cases (range % window_size == 0)) [
      | inl none_left ↦
          let same : range % window_size ≡ 0 = ground arith in
          rw none_left (omega (arith, whole, same))
      | inr some_left ↦ rw some_left (omega (arith, whole, part))
    ]

validate_window_range-Accepted :
    (start_time end_time window_size count : ℕ)
    → IsU64 start_time
    → IsU64 end_time
    → IsU64 window_size
    → validate_window_range start_time end_time window_size ≡ ok count
    → Accepted start_time end_time window_size count
unfolding validate_window_range
validate_window_range-Accepted start_time end_time window_size count hs he hw e =
    let range = sub64 end_time start_time in
    let windows = range / window_size + (if range % window_size == 0 then 0 else 1) in
    elim (Bool-cases (le64 window_size 0 || lt64 end_time start_time)) [
      | inl refused ↦ absurd (cc (rw refused at e))
      | inr good ↦
          let low : 1 ≤ window_size = ground arith in
          let high : window_size < 2 ^ 63 = ground arith in
          let ordered : sign_flip start_time ≤ sign_flip end_time = ground arith in
          elim (Bool-cases (start_time == end_time)) [
            | inl empty ↦
                let same : start_time ≡ end_time = ground arith in
                record {
                  size_low = low;
                  size_high = high;
                  ordered = ordered;
                  fits = omega (arith, same);
                  enough = omega (arith, same);
                }
            | inr filled ↦
                let (no_overflow, e1) =
                  fail_if-eq-ok (lt64 start_time 0 && lt64 (add64 (2 ^ 63 - 1) start_time) end_time)
                    invalid_argument _ (rw (good, filled) at e) in
                let (few, e2) =
                  fail_if-eq-ok (ltb max_window_aggregates windows) invalid_argument _ e1 in
                record {
                  size_low = low;
                  size_high = high;
                  ordered = ordered;
                  fits = ground arith;
                  enough = rw (← ok-injective e2) (count_enough range window_size low);
                }
          ]
    ]

le_true : (a b : ℕ) → a ≤ b → leb a b ≡ true
le_true a b h = ground arith

-- A window that begins `offset` behind the start.
window_holds :
    (start_time end_time window_size timestamp offset : ℕ)
    → IsU64 start_time
    → IsU64 end_time
    → IsU64 timestamp
    → 1 ≤ window_size
    → window_size < 2 ^ 63
    → sign_flip start_time ≤ sign_flip timestamp
    → sign_flip timestamp < sign_flip end_time
    → sub64 end_time start_time < 2 ^ 63
    → offset ≤ sub64 timestamp start_time
    → sub64 timestamp start_time < offset + window_size
    → let start = add64 start_time (u64 offset) in
      let end =
        if lt64 (sub64 end_time start) window_size then end_time else add64 start window_size in
      (le64 start timestamp ≡ true) × (lt64 timestamp end ≡ true) × (le64 end end_time ≡ true)
window_holds start_time end_time window_size timestamp offset hs he ht low high after before fits
      from to =
    let start = add64 start_time (u64 offset) in
    let begins : sign_flip start ≡ sign_flip start_time + offset = omega arith in
    let left : sub64 end_time start + sign_flip start ≡ sign_flip end_time = omega arith in
    let passed : sign_flip timestamp ≡ sign_flip start_time + sub64 timestamp start_time =
      omega arith in
    let remaining : sub64 end_time start < 2 ^ 63 = omega (arith, left, begins, passed, fits) in
    let first =
      le_true (sign_flip start) (sign_flip timestamp) (omega (arith, begins, passed, from)) in
    elim (Bool-cases (lt64 (sub64 end_time start) window_size)) [
      | inl last ↦ rw last (
        first,
        ltb-eq_true (sign_flip timestamp) (sign_flip end_time) before,
        le_true (sign_flip end_time) (sign_flip end_time) (omega arith),
      )
      | inr whole ↦
          let room : window_size ≤ sub64 end_time start = ground (arith, whole, remaining, high) in
          let ends : sign_flip (add64 start window_size) ≡ sign_flip start + window_size =
            omega (arith, room, left) in
          rw whole (
            first,
            ltb-eq_true (sign_flip timestamp) (sign_flip (add64 start window_size))
                (omega (arith, ends, begins, passed, to)),
            le_true (sign_flip (add64 start window_size)) (sign_flip end_time)
                (omega (arith, ends, left, room)),
          )
    ]

-- Where a range is accepted, each timestamp from its start on and before its end has an index below
-- the number of windows, and the window of that index holds it: the window begins at or before the
-- timestamp and ends behind it, and not behind the end of the range.
pub window_index-Holds :
    (start_time end_time window_size count timestamp : ℕ)
    → IsU64 start_time
    → IsU64 end_time
    → IsU64 window_size
    → IsU64 timestamp
    → validate_window_range start_time end_time window_size ≡ ok count
    → le64 start_time timestamp && lt64 timestamp end_time ≡ true
    → let index = window_index timestamp start_time window_size in
      (index < count)
      × (le64 (window_start start_time window_size index) timestamp ≡ true)
      × (lt64 timestamp (window_end start_time end_time window_size index) ≡ true)
      × (le64 (window_end start_time end_time window_size index) end_time ≡ true)
unfolding window_index window_start window_end
window_index-Holds start_time end_time window_size count timestamp hs he hw ht e inside =
    let ac = validate_window_range-Accepted start_time end_time window_size count hs he hw e in
    let after : sign_flip start_time ≤ sign_flip timestamp = ground (arith, inside) in
    let before : sign_flip timestamp < sign_flip end_time = ground (arith, inside) in
    let passed = sub64 timestamp start_time in
    let index = passed / window_size in
    let short : passed < sub64 end_time start_time = omega (arith, after, before, hs, he, ht) in
    let low = div-mul-le_self passed window_size in
    let high = lt-div-mul-add {a = passed} {b = window_size} ac.size_low in
    let below : index < count =
      (div-lt_iff_lt-mul {k = window_size} {x = passed} {y = count} ac.size_low).1
        (omega (arith, short, ac.enough)) in
    let (starts, ends, within) =
      window_holds start_time end_time window_size timestamp (index * window_size) hs he ht
        ac.size_low ac.size_high after before ac.fits low high in
    (below, starts, ends, within)
