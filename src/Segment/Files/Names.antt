-- ===== src/Segment/Files/Names.antt =====
-- `tsedge_segment_make_path` of src/storage/segment_files.c gives a path for every id but 0.
use tsedge.Common.{
  ℕ, zero, suc, ◌+◌, ◌-◌, ◌/◌, ◌%◌, ◌≤◌, ◌≡◌, refl, Bool, true, false, List, [], ◌∷◌, ◌++◌, arith,
  leb, ◌==◌, if◌then◌else◌, length, length-append, ok,
}
use tsedge.Segment.Files.{
  decimal_loop, zeros, print_six, segment_prefix, segment_suffix, format_filename, path_join,
  named_path, make_path, ends_with_slash,
}

length-decimal_loop :
    (rounds n : ℕ) (digits : List ℕ)
    → length (decimal_loop rounds n digits) ≤ rounds + length digits
unfolding decimal_loop
length-decimal_loop zero n digits = omega arith
length-decimal_loop (suc rounds) n digits =
    ground (arith, length-decimal_loop rounds (n / 10) ((0x30 + n % 10) ∷ digits))

length-zeros : (n : ℕ) → length (zeros n) ≡ n
unfolding zeros
length-zeros zero = refl
length-zeros (suc n) = omega (arith, length-zeros n)

length-print_six : (n : ℕ) → length (print_six n) ≤ 16
unfolding print_six
length-print_six n =
    let digits = decimal_loop 10 n [] in
    omega (
      arith,
      length-append (zeros (6 - length digits)) digits,
      length-zeros (6 - length digits),
      length-decimal_loop 10 n [],
    )

format_filename_total :
    (segment_id : ℕ)
    → 1 ≤ segment_id
    → format_filename segment_id 32
      ≡ ok (segment_prefix ++ (print_six segment_id ++ segment_suffix))
unfolding format_filename
format_filename_total segment_id low =
    let short : leb 32 (length (segment_prefix ++ (print_six segment_id ++ segment_suffix)))
        ≡ false =
      ground
        (arith, length-append (print_six segment_id) segment_suffix, length-print_six segment_id) in
    let some_id : segment_id == 0 ≡ false = ground arith in rw (some_id, short) refl

pub make_path_total :
    (alloc : ℕ → Bool) (series_dir_path : List ℕ) (segment_id : ℕ)
    → ((k : ℕ) → alloc k ≡ true)
    → 1 ≤ segment_id
    → (path : List ℕ) × (make_path alloc series_dir_path segment_id ≡ ok path)
unfolding make_path named_path path_join
make_path_total alloc series_dir_path segment_id plenty low =
    let name = segment_prefix ++ (print_six segment_id ++ segment_suffix) in
    let path =
      if ends_with_slash series_dir_path
      then series_dir_path ++ name
      else series_dir_path ++ (0x2f ∷ name) in
    (path, rw (format_filename_total segment_id low, plenty (length path + 1)) refl)
