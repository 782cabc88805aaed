-- ===== src/Bitstream/Varint.antt =====
-- `tsedge_varint_size`, `tsedge_write_varint` and `tsedge_read_varint`.
use mathlib.Core.WellFounded.{Acc}
use mathlib.Core.Logic.{dif_pos, dif_neg}
use native.Mathlib.Nat.{pow-suc, mod-eq_of_lt, div-add-mod, pow-le-pow_right}
use native.Mathlib.Bridge.{le_prop}
use native.Mathlib.Decide.{dec_lt, dec_le}
use native.Mathlib.Numerals.{towards_suc}
use tsedge.Common.{
  ℕ, zero, suc, ◌+◌, ◌*◌, ◌/◌, ◌%◌, ◌^◌, ◌≤◌, ◌<◌, ◌≡◌, ap, ◌∙◌, List, [], ◌∷◌, ◌++◌, arith, length,
  All, IsByte, IsU64, u8, bit_and, bit_or, ok, lt_wf,
}
use tsedge.Common.Bits.{or_fields, and_mask, and_bit}
use tsedge.Bitstream.{
  shift_shrinks, varint_size_loop, varint_size, write_varint_loop, write_varint, read_varint_loop,
  read_varint,
}

-- The masks of one byte of a varint.
low_group : (v : ℕ) → bit_and v 0x7f ≡ v % 128
low_group v = and_mask 7 v

top_bit : (b : ℕ) → b < 256 → bit_and b 0x80 ≡ b / 128 * 128
top_bit b h = omega (arith, and_bit 7 b)

with_top_bit : (v : ℕ) → u8 (bit_or (bit_and v 0x7f) 0x80) ≡ v % 128 + 128
with_top_bit v = rw low_group (omega (arith, or_fields 7 1 (v % 128)))

two_pow-add_seven : (s : ℕ) → 2 ^ (s + 7) ≡ 128 * 2 ^ s
two_pow-add_seven s = simp towards_suc (omega arith)

-- `v`, shifted by `s`, is its lowest group and the rest.
split_group : (v s : ℕ) → v * 2 ^ s ≡ v % 128 * 2 ^ s + v / 128 * 2 ^ (s + 7)
split_group v s =
    rw (two_pow-add_seven s) (omega (arith, ap (λ (t : ℕ). t * 2 ^ s) (div-add-mod v 128)))

-- A group of seven bits and more above it fit 64 bits only up to a shift of 56.
shift_bound : (v s : ℕ) → 127 < v → v * 2 ^ s < 2 ^ 64 → s + 7 ≤ 63
shift_bound v s h fits = elim (dec_le (s + 7) 63) [
  | yes p ↦ p
  | no p ↦ absurd (
      omega (
        arith,
        grows,
        pow-le-pow_right {n = 2} (omega arith) {i = 64} {j = s + 7} (omega arith),
        two_pow-add_seven s,
      ))
]
  where
    grows : 128 * 2 ^ s ≤ v * 2 ^ s
    grows = grind arith

-- The last byte of a varint ends the loop.
last_byte :
    (v acc s : ℕ) (rest : List ℕ)
    → v < 128
    → s ≤ 63
    → acc < 2 ^ s
    → acc + v * 2 ^ s < 2 ^ 64
    → read_varint_loop (v ∷ rest) acc s ≡ ok (acc + v * 2 ^ s, rest)
unfolding read_varint_loop
last_byte v acc s rest hv hs ha fits = ground (arith, low_group v, top_bit v, or_fields s v acc)

-- Any other byte adds its group and goes on.
inner_byte :
    (g acc s : ℕ) (rest : List ℕ)
    → g < 128
    → s ≤ 63
    → acc < 2 ^ s
    → acc + g * 2 ^ s < 2 ^ 64
    → read_varint_loop ((g + 128) ∷ rest) acc s ≡ read_varint_loop rest (acc + g * 2 ^ s) (s + 7)
unfolding read_varint_loop
inner_byte g acc s rest hg hs ha fits =
    ground (arith, low_group (g + 128), top_bit (g + 128), or_fields s g acc)

-- One round of the writer and of the size loop, by the size of the value.
write_more :
    (v : ℕ) (w : Acc ◌<◌ v)
    → 127 < v
    → (w' : Acc ◌<◌ (v / 128)) × (write_varint_loop v w
        ≡ (v % 128 + 128) ∷ write_varint_loop (v / 128) w')
      × ((n : ℕ) → varint_size_loop v w n ≡ varint_size_loop (v / 128) w' (n + 1))
unfolding write_varint_loop varint_size_loop
write_more v (Acc.intro _ smaller) h = (
  smaller _ (shift_shrinks v h),
  rw (dif_pos (dec_lt 127 v) le_prop h, with_top_bit v),
  λ n. rw (dif_pos (dec_lt 127 v) le_prop h),
)

write_last :
    (v : ℕ) (w : Acc ◌<◌ v)
    → ¬ (127 < v)
    → (write_varint_loop v w ≡ v ∷ []) × ((n : ℕ) → varint_size_loop v w n ≡ n)
unfolding write_varint_loop varint_size_loop
write_last v (Acc.intro _ smaller) h = (
  rw (dif_neg (dec_lt 127 v) h, mod-eq_of_lt {n = v} {m = 2 ^ 8} (omega arith)),
  λ n. rw (dif_neg (dec_lt 127 v) h),
)

-- The reader takes back what the writer stored for `v`, shifted by `s`, into the value so far.
read-write_varint_loop :
    (n v acc s : ℕ) (w : Acc ◌<◌ v) (rest : List ℕ)
    → v ≤ n
    → s ≤ 63
    → acc < 2 ^ s
    → acc + v * 2 ^ s < 2 ^ 64
    → read_varint_loop (write_varint_loop v w ++ rest) acc s ≡ ok (acc + v * 2 ^ s, rest)
read-write_varint_loop zero v acc s w rest hn hs ha fits =
    rw ((write_last v w (omega arith)).0) (last_byte v acc s rest (omega arith) hs ha fits)
read-write_varint_loop (suc n) v acc s w rest hn hs ha fits = elim (dec_lt 127 v) [
  | yes more ↦
      let (w', e, _) = write_more v w more in
      let g = v % 128 in
      let below : g * 2 ^ s ≤ 127 * 2 ^ s = grind arith in
      rw
        (
          e,
          inner_byte g acc s (write_varint_loop (v / 128) w' ++ rest) (omega arith) hs ha
              (omega (arith, split_group v s)),
        )
        (read-write_varint_loop n (v / 128) (acc + g * 2 ^ s) (s + 7) w' rest (omega arith)
            (shift_bound v s more (omega arith)) (omega (arith, below, two_pow-add_seven s))
            (omega (arith, split_group v s))
          ∙ ap (λ (t : ℕ). ok (t, rest)) (omega (arith, split_group v s)))
  | no last ↦ rw ((write_last v w last).0) (last_byte v acc s rest (omega arith) hs ha fits)
]

-- `read_varint` gives back the uint64_t that `write_varint` stored, and leaves what follows it.
pub read-write_varint :
    (v : ℕ) (rest : List ℕ) → IsU64 v → read_varint (write_varint v ++ rest) ≡ ok (v, rest)
unfolding read_varint write_varint
read-write_varint v rest h =
    read-write_varint_loop v v 0 0 (lt_wf.apply v) rest (omega arith) (omega arith) (omega arith)
      (omega arith)
    ∙ ap (λ (t : ℕ). ok (t, rest)) (omega arith)

varint_size_loop-length :
    (n v size : ℕ) (w : Acc ◌<◌ v)
    → v ≤ n
    → varint_size_loop v w size + 1 ≡ size + length (write_varint_loop v w)
varint_size_loop-length zero v size w hn =
    let (e, e') = write_last v w (omega arith) in rw (e, e' size) (omega arith)
varint_size_loop-length (suc n) v size w hn = elim (dec_lt 127 v) [
  | yes more ↦
      let (w', e, e') = write_more v w more in
      rw (e, e' size)
        (omega (arith, varint_size_loop-length n (v / 128) (size + 1) w' (omega arith)))
  | no last ↦ let (e, e') = write_last v w last in rw (e, e' size) (omega arith)
]

-- `varint_size` is the number of bytes that `write_varint` stores.
pub varint_size-length : (v : ℕ) → varint_size v ≡ length (write_varint v)
unfolding varint_size write_varint
varint_size-length v = omega (arith, varint_size_loop-length v v 1 (lt_wf.apply v) (omega arith))

-- A value of `k` groups of seven bits takes at most `k` bytes, and each is a byte.
write_varint_loop_shape :
    (k v : ℕ) (w : Acc ◌<◌ v)
    → v < 128 ^ suc k
    → All IsByte (write_varint_loop v w)
      × (1 ≤ length (write_varint_loop v w))
      × (length (write_varint_loop v w) ≤ suc k)
write_varint_loop_shape zero v w h = rw ((write_last v w (omega arith)).0) (omega arith)
write_varint_loop_shape (suc k) v w h = elim (dec_lt 127 v) [
  | yes more ↦
      let (w', e, _) = write_more v w more in
      let (bytes, _, at_most) =
        write_varint_loop_shape k (v / 128) w' (omega (arith, pow-suc 128 (suc k))) in
      rw e ((omega arith, bytes), omega arith, omega arith)
  | no last ↦ rw ((write_last v w last).0) (omega arith)
]

-- `write_varint` stores a uint64_t in 1 to 10 numbers, each of them a byte.
pub write_varint_shape :
    (v : ℕ)
    → IsU64 v
    → All IsByte (write_varint v) × (1 ≤ length (write_varint v)) × (length (write_varint v) ≤ 10)
unfolding write_varint
write_varint_shape v h = write_varint_loop_shape 9 v (lt_wf.apply v) (omega arith)
