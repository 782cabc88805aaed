-- ===== src/Compress/Streams.antt =====
-- Which bytes the decoders of src/compression/compress.c accept, and for which words.
pub mod Accepted
use tsedge.Common.{
  ℕ, zero, suc, ◌+◌, ◌≤◌, ◌≡◌, refl, sym, ap, subst, List, [], ◌∷◌, arith, bit_xor, ltb, leb, ◌==◌,
  ◌||◌, if◌then◌else◌, length, drop, ok, err, corrupt, ok-pair_injective, ok-injective,
  fail_if-eq-ok, fail_if, ◌>>◌, Result, >>=-eq-ok, ltb_false→le,
}
use tsedge.Point.{add64, sub64}
use tsedge.Bitstream.{read_u64_le, read_varint, zigzag_decode}
use tsedge.Compress.{
  decode_timestamps_loop, decode_timestamps_rest, decompress_timestamps, read_significant,
  decode_significant, decode_value, decode_values_loop, decompress_values,
}

-- One value behind `prev`, from the cursor to `end`: a marker and what it announces, all of it there.
pub data IsValue (prev : ℕ) (cursor : List ℕ) (current : ℕ) (end : List ℕ) : Type 0 where
  repeated : cursor ≡ 0 ∷ end → current ≡ prev → IsValue prev cursor current end
  some_bytes :
      (leading significant : ℕ) (rest : List ℕ)
      → cursor ≡ 1 ∷ leading ∷ significant ∷ rest
      → 1 ≤ significant
      → leading + significant ≤ 8
      → significant ≤ length rest
      → end ≡ drop significant rest
      → current ≡ bit_xor prev (read_significant significant leading rest 0)
      → IsValue prev cursor current end
  all_bytes :
      (rest : List ℕ)
      → cursor ≡ 2 ∷ rest
      → 8 ≤ length rest
      → end ≡ drop 8 rest
      → current ≡ bit_xor prev (read_u64_le rest)
      → IsValue prev cursor current end

-- Values behind `prev`, from the cursor to `end`.
abbrev pub ValuesTo : ℕ → List ℕ → List ℕ → List ℕ → Type 0
ValuesTo prev cursor [] end = end ≡ cursor
ValuesTo prev cursor (current ∷ out) end =
    (cursor' : List ℕ) × IsValue prev cursor current cursor' × ValuesTo current cursor' out end

-- A stream of values is 8 bytes for the first one, the others behind it, and nothing more. Of a
-- stream of no values the decoder does not look at the bytes.
abbrev pub ValuesStream : List ℕ → List ℕ → Type 0
ValuesStream bytes [] = Unit {0}
ValuesStream bytes (first ∷ out) =
    (8 ≤ length bytes) × (first ≡ read_u64_le bytes) × ValuesTo first (drop 8 bytes) out []

-- Varints behind `prev` and the delta in front of it, from the cursor to `end`: each one is how much
-- the delta changes.
abbrev pub TimestampsTo : ℕ → ℕ → List ℕ → List ℕ → List ℕ → Type 0
TimestampsTo prev prev_delta cursor [] end = end ≡ cursor
TimestampsTo prev prev_delta cursor (current ∷ out) end =
    (encoded : ℕ) × (cursor' : List ℕ) × (read_varint cursor ≡ ok (encoded, cursor'))
    × (current ≡ add64 prev (add64 prev_delta (zigzag_decode encoded)))
    × TimestampsTo current (add64 prev_delta (zigzag_decode encoded)) cursor' out end

-- What follows the first timestamp: 8 bytes for the first delta, and the varints.
abbrev pub DeltasTo : ℕ → List ℕ → List ℕ → List ℕ → Type 0
DeltasTo first cursor [] end = end ≡ cursor
DeltasTo first cursor (second ∷ out) end =
    (8 ≤ length cursor)
    × (second ≡ add64 first (read_u64_le cursor))
    × TimestampsTo second (read_u64_le cursor) (drop 8 cursor) out end

-- A stream of timestamps likewise.
abbrev pub TimestampsStream : List ℕ → List ℕ → Type 0
TimestampsStream bytes [] = Unit {0}
TimestampsStream bytes (first ∷ out) =
    (8 ≤ length bytes) × (first ≡ read_u64_le bytes) × DeltasTo first (drop 8 bytes) out []

decode_timestamps_loop-TimestampsTo :
    (left : ℕ) (cursor : List ℕ) (prev prev_delta : ℕ) (out end : List ℕ)
    → decode_timestamps_loop left cursor prev prev_delta ≡ ok (out, end)
    → TimestampsTo prev prev_delta cursor out end
unfolding decode_timestamps_loop
decode_timestamps_loop-TimestampsTo zero cursor prev prev_delta out end e =
    let (none, last) = ok-pair_injective [] out cursor end e in rw (sym none) (sym last)
decode_timestamps_loop-TimestampsTo (suc left) cursor prev prev_delta out end e =
    let ((encoded, cursor'), read, e1) = >>=-eq-ok (read_varint cursor) _ e in
    let delta = add64 prev_delta (zigzag_decode encoded) in
    let current = add64 prev delta in
    let ((later, end'), rest, e2) =
      >>=-eq-ok (decode_timestamps_loop left cursor' current delta) _ e1 in
    let (same, last) = ok-pair_injective (current ∷ later) out end' end e2 in
    rw (sym same) (
      encoded,
      cursor',
      read,
      refl,
      subst (λ (t : List ℕ). TimestampsTo current delta cursor' later t) last
          (decode_timestamps_loop-TimestampsTo left cursor' current delta later end' rest),
    )

decode_timestamps_rest-DeltasTo :
    (first left : ℕ) (cursor out end : List ℕ)
    → decode_timestamps_rest first left cursor ≡ ok (out, end)
    → DeltasTo first cursor out end
unfolding decode_timestamps_rest
decode_timestamps_rest-DeltasTo first zero cursor out end e =
    let (none, last) = ok-pair_injective [] out cursor end e in rw (sym none) (sym last)
decode_timestamps_rest-DeltasTo first (suc left) cursor out end e =
    let (long, e1) = fail_if-eq-ok (ltb (length cursor) 8) _ _ e in
    let delta = read_u64_le cursor in
    let second = add64 first delta in
    let ((later, end'), rest, e2) =
      >>=-eq-ok (decode_timestamps_loop left (drop 8 cursor) second delta) _ e1 in
    let (same, last) = ok-pair_injective (second ∷ later) out end' end e2 in
    rw (sym same) (
      ltb_false→le (length cursor) 8 long,
      refl,
      subst (λ (t : List ℕ). TimestampsTo second delta (drop 8 cursor) later t) last
          (decode_timestamps_loop-TimestampsTo left (drop 8 cursor) second delta later end' rest),
    )

-- The test of the cursor against the end, behind the last word.
at_end :
    (first : ℕ) (later end out : List ℕ)
    → (if length end == 0 then ok (first ∷ later) else err corrupt) ≡ ok out
    → (end ≡ []) × (first ∷ later ≡ out)
at_end first later [] out e = (refl, ok-injective e)
at_end first later (b ∷ end) out e = absurd (ground arith)

pub decompress_timestamps-TimestampsStream :
    (bytes : List ℕ) (count : ℕ) (out : List ℕ)
    → decompress_timestamps bytes count ≡ ok out
    → TimestampsStream bytes out
unfolding decompress_timestamps
decompress_timestamps-TimestampsStream bytes zero out e = rw (sym (ok-injective e)) tt
decompress_timestamps-TimestampsStream bytes (suc left) out e =
    let (long, e1) = fail_if-eq-ok (ltb (length bytes) 8) _ _ e in
    let first = read_u64_le bytes in
    let ((later, end), rest, e2) =
      >>=-eq-ok (decode_timestamps_rest first left (drop 8 bytes)) _ e1 in
    let (finished, same) = at_end first later end out e2 in
    rw (sym same) (
      ltb_false→le (length bytes) 8 long,
      refl,
      subst (λ (t : List ℕ). DeltasTo first (drop 8 bytes) later t) finished
          (decode_timestamps_rest-DeltasTo first left (drop 8 bytes) later end rest),
    )

decode_significant-IsValue :
    (prev : ℕ) (cursor : List ℕ) (word : ℕ) (end : List ℕ)
    → decode_significant cursor ≡ ok (word, end)
    → IsValue prev (1 ∷ cursor) (bit_xor prev word) end
unfolding decode_significant
decode_significant-IsValue prev [] word end e = absurd (cc e)
decode_significant-IsValue prev (leading ∷ []) word end e = absurd (cc e)
decode_significant-IsValue prev (leading ∷ significant ∷ rest) word end e =
    let bad =
      leb 8 leading || (significant == 0 || (ltb 8 significant || ltb 8 (leading + significant))) in
    let value = read_significant significant leading rest 0 in
    let read : Result (ℕ × List ℕ) = ok (value, drop significant rest) in
    let (shape, e1) =
      fail_if-eq-ok bad corrupt (fail_if (ltb (length rest) significant) corrupt >> read) e in
    let (long, e2) = fail_if-eq-ok (ltb (length rest) significant) corrupt read e1 in
    let (same, last) = ok-pair_injective value word (drop significant rest) end e2 in
    some_bytes leading significant rest refl (ground arith) (ground arith)
      (ltb_false→le (length rest) significant long) (sym last)
      (ap (λ (w : ℕ). bit_xor prev w) (sym same))

decode_value-IsValue :
    (prev : ℕ) (cursor : List ℕ) (current : ℕ) (end : List ℕ)
    → decode_value prev cursor ≡ ok (current, end)
    → IsValue prev cursor current end
unfolding decode_value
decode_value-IsValue prev [] current end e = absurd (cc e)
decode_value-IsValue prev (zero ∷ cursor) current end e =
    let (value, last) = ok-pair_injective prev current cursor end e in
    repeated (ap (λ (t : List ℕ). 0 ∷ t) last) (sym value)
decode_value-IsValue prev (suc zero ∷ cursor) current end e =
    let ((word, end'), read, e1) = >>=-eq-ok (decode_significant cursor) _ e in
    let (value, last) = ok-pair_injective (bit_xor prev word) current end' end e1 in
    subst (λ (t : List ℕ). IsValue prev (1 ∷ cursor) current t) last
      (subst (λ (w : ℕ). IsValue prev (1 ∷ cursor) w end') value
        (decode_significant-IsValue prev cursor word end' read))
decode_value-IsValue prev (suc (suc zero) ∷ cursor) current end e =
    let (long, e1) = fail_if-eq-ok (ltb (length cursor) 8) _ _ e in
    let (value, last) = ok-pair_injective _ _ _ _ e1 in
    all_bytes cursor refl (ltb_false→le (length cursor) 8 long) (sym last) (sym value)
decode_value-IsValue prev (suc (suc (suc marker)) ∷ cursor) current end e = absurd (ground arith)

decode_values_loop-ValuesTo :
    (left : ℕ) (cursor : List ℕ) (prev : ℕ) (out end : List ℕ)
    → decode_values_loop left cursor prev ≡ ok (out, end)
    → ValuesTo prev cursor out end
unfolding decode_values_loop
decode_values_loop-ValuesTo zero cursor prev out end e =
    let (none, last) = ok-pair_injective [] out cursor end e in rw (sym none) (sym last)
decode_values_loop-ValuesTo (suc left) cursor prev out end e =
    let ((current, cursor'), read, e1) = >>=-eq-ok (decode_value prev cursor) _ e in
    let ((later, end'), rest, e2) = >>=-eq-ok (decode_values_loop left cursor' current) _ e1 in
    let (same, last) = ok-pair_injective (current ∷ later) out end' end e2 in
    rw (sym same) (
      cursor',
      decode_value-IsValue prev cursor current cursor' read,
      subst (λ (t : List ℕ). ValuesTo current cursor' later t) last
          (decode_values_loop-ValuesTo left cursor' current later end' rest),
    )

pub decompress_values-ValuesStream :
    (bytes : List ℕ) (count : ℕ) (out : List ℕ)
    → decompress_values bytes count ≡ ok out
    → ValuesStream bytes out
unfolding decompress_values
decompress_values-ValuesStream bytes zero out e = rw (sym (ok-injective e)) tt
decompress_values-ValuesStream bytes (suc left) out e =
    let (long, e1) = fail_if-eq-ok (ltb (length bytes) 8) _ _ e in
    let first = read_u64_le bytes in
    let ((later, end), rest, e2) = >>=-eq-ok (decode_values_loop left (drop 8 bytes) first) _ e1 in
    let (finished, same) = at_end first later end out e2 in
    rw (sym same) (
      ltb_false→le (length bytes) 8 long,
      refl,
      subst (λ (t : List ℕ). ValuesTo first (drop 8 bytes) later t) finished
          (decode_values_loop-ValuesTo left (drop 8 bytes) first later end rest),
    )
