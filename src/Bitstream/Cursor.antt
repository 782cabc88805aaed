-- ===== src/Bitstream/Cursor.antt =====
-- `tsedge_read_varint` on any bytes, well formed or not.
use mathlib.Core.List.{append-nil}
use tsedge.Common.{
  ℕ, ◌+◌, ◌*◌, ◌^◌, ◌≤◌, ◌<◌, ◌≡◌, List, [], ◌∷◌, ◌++◌, inl, inr, arith, length, length-append,
  IsU64, u64, bit_and, bit_or, ok, err, Error, corrupt, Result-cases,
}
use tsedge.Common.Bits.{or-lt}
use tsedge.Bitstream.{read_varint_loop, read_varint, write_varint}
use tsedge.Bitstream.Varint.{read-write_varint}

-- After `j` bytes the shift is 7 * j; a byte is read only while that is at most 63.
read_varint_loop_takes :
    (src : List ℕ) (acc shift j v : ℕ) (rest : List ℕ)
    → shift ≡ 7 * j
    → acc < 2 ^ 64
    → read_varint_loop src acc shift ≡ ok (v, rest)
    → IsU64 v × (length rest < length src) × (length src + j ≤ length rest + 10)
unfolding read_varint_loop
read_varint_loop_takes [] acc shift j v rest hs ha e = cc
read_varint_loop_takes (b ∷ bs) acc shift j v rest hs ha e =
    let acc' = bit_or acc (u64 (bit_and b 0x7f * 2 ^ shift)) in
    let small : acc' < 2 ^ 64 = or-lt 64 acc _ ha (omega arith) in
    ground (arith, read_varint_loop_takes bs acc' (shift + 7) (j + 1) v rest)

-- What `read_varint` accepts is a uint64_t, and the cursor moves by 1 to 10 bytes, never past `end`.
pub read_varint_takes :
    (src : List ℕ) (v : ℕ) (rest : List ℕ)
    → read_varint src ≡ ok (v, rest)
    → IsU64 v × (length rest < length src) × (length src ≤ length rest + 10)
unfolding read_varint
read_varint_takes src v rest e = ground (arith, read_varint_loop_takes src 0 0 0 v rest)

-- The only error is TSEDGE_ERR_CORRUPT.
read_varint_loop_error :
    (src : List ℕ) (acc shift : ℕ) (x : Error)
    → read_varint_loop src acc shift ≡ err x
    → x ≡ corrupt
unfolding read_varint_loop
read_varint_loop_error [] acc shift x e = cc
read_varint_loop_error (b ∷ bs) acc shift x e =
    ground (
      arith,
      read_varint_loop_error bs (bit_or acc (u64 (bit_and b 0x7f * 2 ^ shift))) (shift + 7) x,
    )

pub read_varint_error : (src : List ℕ) (x : Error) → read_varint src ≡ err x → x ≡ corrupt
unfolding read_varint
read_varint_error src x e = read_varint_loop_error src 0 0 x e

-- The reader does not look past the number.
read_varint_loop-append :
    (src more : List ℕ) (acc shift v : ℕ) (rest : List ℕ)
    → read_varint_loop src acc shift ≡ ok (v, rest)
    → read_varint_loop (src ++ more) acc shift ≡ ok (v, rest ++ more)
unfolding read_varint_loop
read_varint_loop-append [] more acc shift v rest e = cc
read_varint_loop-append (b ∷ bs) more acc shift v rest e = ground (
  arith,
  read_varint_loop-append bs more (bit_or acc (u64 (bit_and b 0x7f * 2 ^ shift))) (shift + 7) v
      rest,
)

pub read_varint-append :
    (src more : List ℕ) (v : ℕ) (rest : List ℕ)
    → read_varint src ≡ ok (v, rest)
    → read_varint (src ++ more) ≡ ok (v, rest ++ more)
unfolding read_varint
read_varint-append src more v rest e = read_varint_loop-append src more 0 0 v rest e

-- `read_varint` answers TSEDGE_ERR_CORRUPT on every proper prefix of what `write_varint` stored.
pub read_varint_cut :
    (v x : ℕ) (front back : List ℕ)
    → IsU64 v
    → write_varint v ≡ front ++ (x ∷ back)
    → read_varint front ≡ err corrupt
read_varint_cut v x front back h e = elim (Result-cases (read_varint front)) [
  | inl ((u, rest), r) ↦
      ground
        (arith, whole, read_varint-append front (x ∷ back) u rest r, length-append rest (x ∷ back))
  | inr (y, r) ↦ cc (r, read_varint_error front y r)
]
  where
    whole : read_varint (front ++ (x ∷ back)) ≡ ok (v, [])
    whole = rw (append-nil, e) at (read-write_varint v [] h)
