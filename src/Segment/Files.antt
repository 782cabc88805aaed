-- ===== src/Segment/Files.antt =====
-- The names of segment files, src/storage/segment_files.c, and `tsedge_path_join` of src/core/db.c. A
-- path is the list of its bytes without the 0 at its end.
pub mod Names
use mathlib.Core.Bool.{not}
use tsedge.Common.{
  ℕ, zero, suc, ◌+◌, ◌-◌, ◌/◌, ◌%◌, Bool, true, false, List, [], ◌∷◌, ◌++◌, leb, ◌==◌,
  if◌then◌else◌, length, Result, ok, err, internal, invalid_argument, no_memory, fail_if, ◌>>=◌,
  ◌>>◌,
}

-- The decimal digits of `n` in front of `digits`, none for 0. A uint32_t has at most 10.
unfoldable pub decimal_loop : ℕ → ℕ → List ℕ → List ℕ
decimal_loop zero n digits = digits
decimal_loop (suc rounds) n digits =
    let more = decimal_loop rounds (n / 10) ((0x30 + n % 10) ∷ digits) in
    if n == 0 then digits else more

unfoldable pub zeros : ℕ → List ℕ
zeros zero = []
zeros (suc n) = 0x30 ∷ zeros n

-- What "%06u" prints for a number other than 0.
unfoldable pub print_six : ℕ → List ℕ
print_six n = let digits = decimal_loop 10 n [] in zeros (6 - length digits) ++ digits

-- "segment_" and ".tse".
abbrev pub segment_prefix : List ℕ
segment_prefix = 0x73 ∷ 0x65 ∷ 0x67 ∷ 0x6d ∷ 0x65 ∷ 0x6e ∷ 0x74 ∷ 0x5f ∷ []

abbrev pub segment_suffix : List ℕ
segment_suffix = 0x2e ∷ 0x74 ∷ 0x73 ∷ 0x65 ∷ []

-- `tsedge_segment_format_filename` into an array of `out_size` bytes.
unfoldable pub format_filename : ℕ → ℕ → Result (List ℕ)
format_filename segment_id out_size = do
  fail_if (out_size == 0) invalid_argument
  fail_if (segment_id == 0) invalid_argument
  let name = segment_prefix ++ (print_six segment_id ++ segment_suffix)
  fail_if (leb out_size (length name)) internal
  ok name

-- `alen > 0 && a[alen - 1] == '/'`.
unfoldable pub ends_with_slash : List ℕ → Bool
ends_with_slash [] = false
ends_with_slash (c ∷ []) = c == 0x2f
ends_with_slash (c ∷ (e ∷ rest)) = ends_with_slash (e ∷ rest)

-- `tsedge_path_join`; NULL is TSEDGE_ERR_NO_MEMORY, which its callers answer.
unfoldable pub path_join : (ℕ → Bool) → List ℕ → List ℕ → Result (List ℕ)
path_join alloc a b =
    let joined = if ends_with_slash a then a ++ b else a ++ (0x2f ∷ b) in
    if alloc (length joined + 1) then ok joined else err no_memory

unfoldable pub named_path : (ℕ → Bool) → List ℕ → Result (List ℕ) → Result (List ℕ)
named_path alloc series_dir_path (err e) = err no_memory
named_path alloc series_dir_path (ok filename) = path_join alloc series_dir_path filename

-- `tsedge_segment_make_path`, whose array has 32 bytes.
unfoldable pub make_path : (ℕ → Bool) → List ℕ → ℕ → Result (List ℕ)
make_path alloc series_dir_path segment_id =
    named_path alloc series_dir_path (format_filename segment_id 32)
