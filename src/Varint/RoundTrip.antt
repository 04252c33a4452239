-- ===== src/Varint/RoundTrip.antt =====
-- Decoding what `encode` wrote, and the shortest form.
use skimasque.Prelude.{ℕ, suc, ◌+◌, ◌-◌, ◌*◌, ◌/◌, ◌%◌, ◌^◌, ◌≤◌, ◌<◌}
use skimasque.Prelude.{List, [], ◌∷◌, ◌++◌, length, take, drop}
use skimasque.Prelude.{◌≡◌, sym, ap, ◌∙◌, arith, Result, ok, err, take_all, ap₂, drop-append_self}
use skimasque.Prelude.{length-append, append-nil, Result-cases, inl, inr}
use mathlib.Core.Path.{subst}
use skimasque.Prelude.Bytes.{
  BytesCrate, AreBytes, be_bytes, from_be, length-be_bytes, AreBytes-be_bytes, from_be-be_bytes,
}
use skimasque.Varint.{
  max, Error, unexpected_end, encoded_len, encode, decode_slice, take_slice, take_bytes,
}
use skimasque.Varint.Length.{
  size_class, tail_len, encoded_len-size_class, size_class_fits, size_class_least,
}
use skimasque.Varint.Encode.{wire_of, wire, length-wire, encode-wire}
use skimasque.Varint.Decode.{
  len_of, decode_slice-from_be, decode_slice_bounds, decode_slice_error, decode_slice_len,
  decode_slice_class, take_slice_ok,
}
use skimasque.Varint.Extend.{decode_slice-append_ok}
use native.Mathlib.Nat.{
  one-le-pow, pow-le-pow_right, add-mul-div_right, div-lt_iff_lt-mul, div-add-mod',
  add-mul-mod_self_right,
}

-- The first byte of the encoding: the prefix, and the top six bits of the value.
first_byte : (t v p : ℕ) → t ≤ 3 → 0 < p → v < 64 * p → (v + t * 64 * p) / p % 256 ≡ t * 64 + v / p
first_byte t v p ht hp fits =
    let six : v / p < 64 = (div-lt_iff_lt-mul hp).1 fits in
    omega (arith, add-mul-div_right v (t * 64) hp)

tail_mod : (t v p : ℕ) → 0 < p → (v + t * 64 * p) % p ≡ v % p
tail_mod t v p hp = add-mul-mod_self_right v (t * 64) p

-- Any class that has room for the value decodes to it, the ones that `encode` does not choose too.
module _ (t n v : ℕ) (ht : t ≤ 3) (size : 2 ^ t ≡ suc n) (fits : v < 64 * 256 ^ n) where
  tagged : ℕ
  tagged = v + t * 64 * 256 ^ n

  tagged_first : ℕ
  tagged_first = tagged / 256 ^ n % 256

  room : 0 < 256 ^ n
  room = one-le-pow n 256 (omega arith)

  first_parts : (tagged_first / 64 ≡ t) × (tagged_first % 64 ≡ v / 256 ^ n)
  unfolding tagged tagged_first
  first_parts =
      let six : v / 256 ^ n < 64 = (div-lt_iff_lt-mul room).1 fits in
      let parts : tagged_first ≡ t * 64 + v / 256 ^ n = first_byte t v (256 ^ n) ht room fits in
      (omega arith, omega arith)

  len_of-tagged_first : len_of tagged_first ≡ suc n
  len_of-tagged_first = ap (λ (k : ℕ). 1 * 2 ^ k) first_parts.0 ∙ omega arith

  tagged_value :
      from_be (tagged_first % 64) (take (len_of tagged_first - 1) (be_bytes n tagged)) ≡ v
  unfolding tagged
  tagged_value =
      let tail : List ℕ = be_bytes n tagged in
      let cut : take (len_of tagged_first - 1) tail ≡ tail =
        take_all _ tail (length-be_bytes n tagged ∙ omega (arith, len_of-tagged_first)) in
      ap₂ from_be first_parts.1 cut
      ∙ from_be-be_bytes n (v / 256 ^ n) tagged
      ∙ omega (arith, tail_mod t v (256 ^ n) room, div-add-mod' v (256 ^ n))

  decode_slice-tagged : decode_slice (be_bytes (suc n) tagged) ≡ ok (v, suc n)
  unfolding tagged_first
  decode_slice-tagged =
      decode_slice-from_be tagged_first (be_bytes n tagged) (AreBytes-be_bytes (suc n) tagged)
        (omega (arith, len_of-tagged_first, length-be_bytes n tagged))
      ∙ ap₂ (λ (x y : ℕ). (let r : Result Error (ℕ × ℕ) = ok (x, y) in r)) tagged_value
          len_of-tagged_first

-- In each of the four forms of RFC 9000, of 1, 2, 4 and 8 bytes, every value that fits the form is
-- decoded to that value with the form's length, also when a shorter form would do, whatever
-- follows it.
pub decode_slice-wire_of :
    (t v : ℕ) (rest : List ℕ)
    → t ≤ 3
    → v < 64 * 256 ^ tail_len t
    → decode_slice (wire_of t v ++ rest) ≡ ok (v, 2 ^ t)
unfolding tagged
decode_slice-wire_of t v rest ht fits =
    let size : 2 ^ t ≡ suc (tail_len t) = omega (arith, one-le-pow t 2) in
    subst (λ n. decode_slice (be_bytes n (v + t * 64 * 256 ^ tail_len t) ++ rest) ≡ ok (v, n))
      (sym size)
      (decode_slice-append_ok _ rest _ (decode_slice-tagged t (tail_len t) v ht size fits))

pub decode_slice-wire :
    (v : ℕ) (rest : List ℕ) → v ≤ max → decode_slice (wire v ++ rest) ≡ ok (v, encoded_len v)
unfolding wire
decode_slice-wire v rest h =
    let (ht, fits) = size_class_fits v h in
    decode_slice-wire_of (size_class v) v rest ht fits
    ∙ ap (λ (n : ℕ). ok (v, n)) (sym (encoded_len-size_class v))

module _ ⦃b : BytesCrate⦄ where
  -- For every value up to the varint maximum, `encode` appends to the buffer as many bytes as
  -- `encoded_len` says, and whatever follows those bytes, `decode_slice` returns the value with
  -- that length.
  pub decode_slice-encode :
      (v : ℕ) (out : List ℕ)
      → v ≤ max
      → (sent : List ℕ) × (encode v out ≡ ok (out ++ sent))
        × (length sent ≡ encoded_len v)
        × ((rest : List ℕ) → decode_slice (sent ++ rest) ≡ ok (v, encoded_len v))
  decode_slice-encode v out h =
      (wire v, encode-wire v out h, length-wire v, λ rest. decode_slice-wire v rest h)

-- The cursor of `take_slice` stands behind the varint that was written.
pub take_slice-wire : (v : ℕ) (rest : List ℕ) → v ≤ max → take_slice (wire v ++ rest) ≡ (ok v, rest)
take_slice-wire v rest h =
    take_slice_ok (wire v ++ rest) (decode_slice-wire v rest h)
    ∙ ap (λ (r : List ℕ). (ok v, r)) (behind v rest)
  where
    behind : (v : ℕ) (rest : List ℕ) → drop (encoded_len v) (wire v ++ rest) ≡ rest
    behind v rest = rw (← length-wire v) (drop-append_self (wire v) rest)

module _ ⦃b : BytesCrate⦄ where
  pub take_bytes-wire :
      (v : ℕ) (rest : List ℕ) → v ≤ max → take_bytes (wire v ++ rest) ≡ (ok v, rest)
  unfolding take_bytes
  take_bytes-wire v rest h =
      let sent = decode_slice-wire v rest h in
      let (_, enough) = decode_slice_len (wire v ++ rest) v (encoded_len v) sent in
      rw (sent, take_bytes, b.advance-eq (wire v ++ rest) (encoded_len v) enough)
        (ap (λ (r : List ℕ). (ok v, r)) (rw (← length-wire v) (drop-append_self (wire v) rest)))

-- When `decode_slice` returns a value from bytes, the length that it read is no shorter than
-- `encoded_len` of the value.
pub encoded_len-le :
    (input : List ℕ) (v len : ℕ)
    → AreBytes input
    → decode_slice input ≡ ok (v, len)
    → encoded_len v ≤ len
encoded_len-le input v len h e =
    let (t, ht, size) = decode_slice_class input v len h e in
    let (fits, _, _, _, _) = decode_slice_bounds input v len h e in
    let room : v < 64 * 256 ^ tail_len t = subst (λ n. v < 64 * 256 ^ (n - 1)) size fits in
    let least : size_class v ≤ t = size_class_least v t room ht in
    omega (
      arith,
      encoded_len-size_class v,
      pow-le-pow_right {n = 2} (omega arith) {i = size_class v} {j = t} least,
    )

-- Of the encoding of a value up to the varint maximum, `decode_slice` refuses every proper prefix
-- with `UnexpectedEnd`.
pub decode_slice_truncated :
    (v x : ℕ) (front back : List ℕ)
    → v ≤ max
    → wire v ≡ front ++ x ∷ back
    → decode_slice front ≡ err unexpected_end
decode_slice_truncated v x front back h e = elim (Result-cases (decode_slice front)) [
  | inl ((w, len), run) ↦ absurd (too_long w len run)
  | inr (u, run) ↦ run ∙ ap err (decode_slice_error front u run)
]
  where
    too_long : (w len : ℕ) → decode_slice front ≡ ok (w, len) → ⊥
    too_long w len run =
        let whole : decode_slice (wire v) ≡ ok (w, len) =
          rw e (decode_slice-append_ok front (x ∷ back) (w, len) run) in
        let sent : decode_slice (wire v) ≡ ok (v, encoded_len v) =
          rw (append-nil (wire v)) at (decode_slice-wire v [] h) in
        let size : len ≡ encoded_len v = cc (whole, sent) in
        omega (
          arith,
          decode_slice_len front w len run,
          length-wire v,
          ap length e,
          length-append front (x ∷ back),
        )
