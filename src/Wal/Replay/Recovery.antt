-- ===== src/Wal/Replay/Recovery.antt =====
-- Replay of what src/storage/wal.c has logged.
use tsedge.Common.{
  ℕ, ◌+◌, ◌≤◌, ◌≡◌, ◌≢◌, refl, ap, Bool, true, false, List, [], ◌∷◌, ◌++◌, append_assoc, arith,
  length, drop, take-append, drop-append, drop-add, All, Result, ok, ltb, ltb-eq_false, ◌==◌, ◌>>=◌,
}
use tsedge.Point.{Point, IsPoint}
use tsedge.Bitstream.{write_u32_le, write_u64_le}
use tsedge.Bitstream.LittleEndian.{read-write_u64_le}
use tsedge.Wal.{
  max_series_name, wal_max_batch_points, fnv1a32, with_checksum, batch_body, point_words,
}
use tsedge.Wal.Entry.{
  NameFits, batch_size, batch_entry, batch_layout, batch_name_len, batch_count, batch_check,
}
use tsedge.Wal.Replay.{
  c_string, name_bytes_ok, validate_name, accept_name, copy_series_name, read_point, Database,
  add_points, replay_points, replay_layout, replay_entry,
}

-- A name that `tsedge_series_validate_name` accepts, as a C string.
pub record IsName (name : List ℕ) : Type 0 where
  pub fits : NameFits name
  pub no_nul : All (λ byte. byte ≢ 0) name
  pub bytes_ok : name_bytes_ok name ≡ true

c_string-name : (name : List ℕ) → All (λ byte. byte ≢ 0) name → c_string name ≡ name
unfolding c_string
c_string-name [] h = refl
c_string-name (byte ∷ name) h =
    let e : (byte == 0) ≡ false = ground (arith, h.0) in rw (e, c_string-name name h.1) refl

copy_series_name-IsName :
    (alloc : ℕ → Bool) (name rest : List ℕ)
    → ((k : ℕ) → alloc k ≡ true)
    → IsName name
    → copy_series_name alloc (name ++ rest) (length name) ≡ ok name
unfolding copy_series_name validate_name accept_name
copy_series_name-IsName alloc name rest plenty n =
    let small : ltb max_series_name (length name) ≡ false = ltb-eq_false _ _ n.fits.fit in
    let some_byte : (length name == 0) ≡ false = ground (arith, n.fits.some_byte) in
    rw
      (
        plenty (length name + 1),
        take-append (length name) name rest refl,
        c_string-name name n.no_nul,
        small,
        some_byte,
        n.bytes_ok,
      )
      refl

read_point-words :
    (p : Point) (more rest : List ℕ)
    → IsPoint p
    → read_point ((write_u64_le p.timestamp ++ (write_u64_le p.value ++ more)) ++ rest) ≡ p
unfolding read_point write_u64_le
read_point-words p more rest h = λ i. record {
  timestamp =
      read-write_u64_le p.timestamp ((write_u64_le p.value ++ more) ++ rest) h.timestamp_fits i;
  value = read-write_u64_le p.value (more ++ rest) h.value_fits i;
}

drop_point :
    (p : Point) (points : List Point) (rest : List ℕ)
    → drop 16 (point_words (p ∷ points) ++ rest) ≡ point_words points ++ rest
unfolding point_words write_u64_le
drop_point p points rest = refl

-- Behind the fixed part of a batch entry stand the name, the points and the checksum.
behind_fixed :
    (name : List ℕ) (points : List Point) (n : NameFits name)
    → drop 24 (batch_entry name points n)
      ≡ name
        ++ (point_words points
            ++ write_u32_le (fnv1a32 (batch_body name points (batch_size name points n))))
unfolding with_checksum batch_body write_u32_le
behind_fixed name points n =
    append_assoc name (point_words points)
      (write_u32_le (fnv1a32 (batch_body name points (batch_size name points n))))

module _ {State : Type 0} (database : Database State) (alloc : ℕ → Bool) where
  replay_points-point_words :
      (points : List Point) (db : State) (name rest : List ℕ)
      → All IsPoint points
      → replay_points database alloc (length points) db name (point_words points ++ rest)
        ≡ add_points database alloc db name points
  unfolding replay_points add_points point_words
  replay_points-point_words [] db name rest h = refl
  replay_points-point_words (p ∷ points) db name rest h =
      rw (read_point-words p (point_words points) rest h.0, drop_point p points rest)
        (ap (λ (k : State → Result State). database.add_point db name p >>= k)
          (λ i db'. replay_points-point_words points db' name rest h.1 i))

  -- The replay of one batch entry adds the series and then its points, in their order.
  module _ (name : List ℕ) (points : List Point) (n : IsName name) (some_point : 1 ≤ length points)
      (fit : length points ≤ wal_max_batch_points) (all : All IsPoint points)
      (plenty : (k : ℕ) → alloc k ≡ true) where
    pub replay_entry-batch :
        (db : State)
        → replay_entry database alloc db
            (batch_entry name points n.fits)
            (batch_size name points n.fits)
          ≡ (database.add_series db name >>= λ db'. add_points database alloc db' name points)
    unfolding replay_entry replay_layout
    replay_entry-batch db =
        let entry = batch_entry name points n.fits in
        let sum = write_u32_le (fnv1a32 (batch_body name points (batch_size name points n.fits))) in
        let behind : drop 24 entry ≡ name ++ (point_words points ++ sum) =
          behind_fixed name points n.fits in
        rw
          (
            batch_layout name points n.fits some_point fit,
            batch_check name points n.fits some_point fit,
            batch_name_len name points n.fits some_point fit,
            batch_count name points n.fits some_point fit,
            behind,
            copy_series_name-IsName alloc name (point_words points ++ sum) plenty n,
            drop-add 24 (length name) entry,
            behind,
            drop-append (length name) name (point_words points ++ sum) refl,
          )
          (ap (λ (k : State → Result State). database.add_series db name >>= k)
            (λ i db'. replay_points-point_words points db' name sum all i))
