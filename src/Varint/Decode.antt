-- ===== src/Varint/Decode.antt =====
-- `decode_slice` on any input: what the masks and shifts compute, and the bounds of its result.
use skimasque.Prelude.{ℕ, suc, ◌+◌, ◌-◌, ◌*◌, ◌/◌, ◌%◌, ◌^◌, ◌≤◌, ◌<◌, bit_and, bit_or}
use skimasque.Prelude.{List, [], ◌∷◌, length, take, drop, ltb}
use skimasque.Prelude.{◌≡◌, refl, ap, ◌∙◌, inl, inr, Bool-cases, arith}
use skimasque.Prelude.{ok, err, length-take, All-take}
use skimasque.Prelude.{ltb→lt, le→ltb, lt→ltb}
use skimasque.Prelude.Bits.{or_high_low, and_low_ones}
use skimasque.Prelude.Bytes.{IsByte, AreBytes, from_be, from_be-lt}
use skimasque.Varint.{max, Error, unexpected_end, shift_in, decode_slice, take_slice}
use native.Mathlib.Nat.{one-le-pow, pow-suc, pow-le-pow_right, mul-le-mul_right}

-- One byte shifted in, as long as nothing is shifted out of the 64 bits.
shift_step :
    (value byte : ℕ)
    → value < 2 ^ 56
    → byte < 256
    → bit_or (value * 2 ^ 8 % 2 ^ 64) byte ≡ value * 256 + byte
shift_step value byte hv hb =
    let fits : value * 2 ^ 8 % 2 ^ 64 ≡ value * 2 ^ 8 = omega arith in
    rw fits (or_high_low 8 value byte hb)

-- After `j` bytes the value is below 64 * 256 ^ j, and at most seven bytes are shifted in.
pub shift_in-from_be :
    (bytes : List ℕ) (value j : ℕ)
    → value < 64 * 256 ^ j
    → length bytes + j ≤ 7
    → AreBytes bytes
    → shift_in value bytes ≡ from_be value bytes
unfolding shift_in
shift_in-from_be [] value j hv hl h = refl
shift_in-from_be (byte ∷ rest) value j hv hl (hb, h) =
    let small : 256 ^ j ≤ 256 ^ 6 = pow-le-pow_right (omega arith) {i = j} {j = 6} (omega arith) in
    let room : value < 2 ^ 56 = omega arith in
    let next : value * 256 + byte < 64 * 256 ^ suc j = omega (arith, pow-suc 256 j) in
    rw (shift_step value byte room hb)
      (shift_in-from_be rest (value * 256 + byte) (suc j) next (omega arith) h)

-- The length that the two top bits of the first byte announce.
abbrev pub len_of : ℕ → ℕ
len_of first = 1 * 2 ^ (first / 2 ^ 6)

pub len_of_bounds : (first : ℕ) → first < 256 → (1 ≤ len_of first) × (len_of first ≤ 8)
len_of_bounds first h =
    let least : 2 ^ 0 ≤ 2 ^ (first / 2 ^ 6) =
      pow-le-pow_right (omega arith) {i = 0} {j = first / 2 ^ 6} (omega arith) in
    let most : 2 ^ (first / 2 ^ 6) ≤ 2 ^ 3 =
      pow-le-pow_right (omega arith) {i = first / 2 ^ 6} {j = 3} (omega arith) in
    omega arith

module _ (first : ℕ) (rest : List ℕ) where
  -- Too few bytes for the announced length.
  pub decode_slice_short :
      suc (length rest) < len_of first → decode_slice (first ∷ rest) ≡ err unexpected_end
  unfolding decode_slice
  decode_slice_short h = rw (lt→ltb _ _ h)

  -- Enough bytes: those behind the first are shifted in, and what follows them is not looked at.
  pub decode_slice_long :
      len_of first ≤ suc (length rest)
      → decode_slice (first ∷ rest)
        ≡ ok (shift_in (bit_and first 0x3f) (take (len_of first - 1) rest), len_of first)
  unfolding decode_slice
  decode_slice_long enough = rw (le→ltb _ _ enough)

  -- Enough bytes: a big-endian number under the two top bits.
  pub decode_slice-from_be :
      AreBytes (first ∷ rest)
      → len_of first ≤ suc (length rest)
      → decode_slice (first ∷ rest)
        ≡ ok (from_be (first % 64) (take (len_of first - 1) rest), len_of first)
  decode_slice-from_be (hf, h) enough =
      let (least, most) = len_of_bounds first hf in
      let cut : length (take (len_of first - 1) rest) ≡ len_of first - 1 =
        length-take (len_of first - 1) rest (omega arith) in
      let value : shift_in (first % 64) (take (len_of first - 1) rest)
          ≡ from_be (first % 64) (take (len_of first - 1) rest) =
        shift_in-from_be (take (len_of first - 1) rest) (first % 64) 0 (omega arith) (omega arith)
          (All-take IsByte (len_of first - 1) rest h) in
      decode_slice_long enough ∙ rw (and_low_ones 6 first, value)

pub decode_slice_enough :
    (first : ℕ) (rest : List ℕ) (p : ℕ × ℕ)
    → decode_slice (first ∷ rest) ≡ ok p
    → len_of first ≤ suc (length rest)
unfolding decode_slice
decode_slice_enough first rest p e = elim (Bool-cases (ltb (suc (length rest)) (len_of first))) [
  | inl short ↦ absurd (cc (e, decode_slice_short first rest (ltb→lt _ _ short)))
  | inr long ↦ ground arith
]

-- Whatever the elements of the input are, the length is the announced one, and is there.
pub decode_slice_len :
    (input : List ℕ) (v len : ℕ)
    → decode_slice input ≡ ok (v, len)
    → (1 ≤ len) × (len ≤ length input)
decode_slice_len [] v len e = absurd (unfold decode_slice in cc e)
decode_slice_len (first ∷ rest) v len e =
    let enough : len_of first ≤ suc (length rest) = decode_slice_enough first rest (v, len) e in
    let same : len ≡ len_of first = cc (e, decode_slice_long first rest enough) in
    let some_bytes : 1 ≤ len_of first = omega (arith, one-le-pow (first / 2 ^ 6) 2 (omega arith)) in
    (omega arith, omega arith)

pub decode_slice_class :
    (input : List ℕ) (v len : ℕ)
    → AreBytes input
    → decode_slice input ≡ ok (v, len)
    → (t : ℕ) × (t ≤ 3) × (len ≡ 2 ^ t)
decode_slice_class [] v len h e = absurd (unfold decode_slice in cc e)
decode_slice_class (first ∷ rest) v len (hf, h) e =
    let enough : len_of first ≤ suc (length rest) = decode_slice_enough first rest (v, len) e in
    let same : len ≡ len_of first = cc (e, decode_slice_long first rest enough) in
    (first / 2 ^ 6, omega arith, omega arith)

-- The parts of a decoded varint.
decode_slice_parts :
    (first : ℕ) (rest : List ℕ) (v len : ℕ)
    → AreBytes (first ∷ rest)
    → decode_slice (first ∷ rest) ≡ ok (v, len)
    → (v ≡ from_be (first % 64) (take (len_of first - 1) rest))
      × (len ≡ len_of first)
      × (len_of first ≤ suc (length rest))
decode_slice_parts first rest v len h e =
    let enough : len_of first ≤ suc (length rest) = decode_slice_enough first rest (v, len) e in
    let run = decode_slice-from_be first rest h enough in (cc (e, run), cc (e, run), enough)

-- When `decode_slice` returns a value from bytes, its length is from 1 to 8 and within the input,
-- and the value is up to the varint maximum and fits the bits that a varint of that length has.
pub decode_slice_bounds :
    (input : List ℕ) (v len : ℕ)
    → AreBytes input
    → decode_slice input ≡ ok (v, len)
    → (v < 64 * 256 ^ (len - 1)) × (v ≤ max) × (1 ≤ len) × (len ≤ 8) × (len ≤ length input)
decode_slice_bounds [] v len h e = absurd (unfold decode_slice in cc e)
decode_slice_bounds (first ∷ rest) v len (hf, h) e =
    let (value, size, enough) = decode_slice_parts first rest v len (hf, h) e in
    let (least, most) = len_of_bounds first hf in
    let front : List ℕ = take (len_of first - 1) rest in
    let cut : length front ≡ len - 1 =
      length-take (len_of first - 1) rest (omega arith) ∙ omega arith in
    let fits : from_be (first % 64) front < (first % 64 + 1) * 256 ^ length front =
      from_be-lt front (first % 64) (All-take IsByte (len_of first - 1) rest h) in
    let digits : 256 ^ length front ≡ 256 ^ (len - 1) = ap (λ (t : ℕ). 256 ^ t) cut in
    let top : (first % 64 + 1) * 256 ^ (len - 1) ≤ 64 * 256 ^ (len - 1) =
      mul-le-mul_right (256 ^ (len - 1)) (omega arith) in
    let seven : 256 ^ (len - 1) ≤ 256 ^ 7 =
      pow-le-pow_right (omega arith) {i = len - 1} {j = 7} (omega arith) in
    let bound : v < 64 * 256 ^ (len - 1) =
      omega (arith, ap (λ (t : ℕ). (first % 64 + 1) * t) digits) in
    (bound, omega arith, omega arith, omega arith, omega arith)

-- `take_slice` follows `decode_slice`, and on an error leaves the cursor where it is.
pub take_slice_ok :
    (input : List ℕ) {v len : ℕ}
    → decode_slice input ≡ ok (v, len)
    → take_slice input ≡ (ok v, drop len input)
unfolding take_slice
take_slice_ok input e = rw (e, take_slice)

pub take_slice_err :
    (input : List ℕ) {x : Error} → decode_slice input ≡ err x → take_slice input ≡ (err x, input)
unfolding take_slice
take_slice_err input e = rw (e, take_slice)

pub decode_slice_error :
    (input : List ℕ) (x : Error) → decode_slice input ≡ err x → x ≡ unexpected_end
unfolding decode_slice
decode_slice_error [] x e = cc
decode_slice_error (first ∷ rest) x e = ground arith
