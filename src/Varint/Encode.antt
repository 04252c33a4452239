-- ===== src/Varint/Encode.antt =====
-- `encode` against the layout of RFC 9000, section 16: a two-bit prefix above a big-endian number.
use skimasque.Prelude.{ℕ, zero, suc, ◌+◌, ◌*◌, ◌%◌, ◌^◌, ◌≤◌, ◌<◌, bit_or}
use skimasque.Prelude.{List, ◌++◌, length}
use skimasque.Prelude.{◌≡◌, refl, sym, ap, ◌∙◌, arith, ok, err, lt→ltb, le→ltb}
use skimasque.Prelude.Bits.{or_low_high}
use skimasque.Prelude.Bytes.{BytesCrate, AreBytes, be_bytes, length-be_bytes, AreBytes-be_bytes}
use skimasque.Varint.{max, overflow, encoded_len, put_tagged, encode}
use skimasque.Varint.Length.{size_class, tail_len, encoded_len-size_class, size_class_fits}

-- The encoding of `v` in class `t`: `2 ^ t` bytes, of which the two top bits hold `t`.
abbrev pub wire_of : ℕ → ℕ → List ℕ
wire_of t v = be_bytes (2 ^ t) (v + t * 64 * 256 ^ tail_len t)

unfoldable pub wire : ℕ → List ℕ
wire v = wire_of (size_class v) v

pub length-wire : (v : ℕ) → length (wire v) ≡ encoded_len v
unfolding wire
length-wire v =
    length-be_bytes (2 ^ size_class v) (v + size_class v * 64 * 256 ^ tail_len (size_class v))
    ∙ sym (encoded_len-size_class v)

pub AreBytes-wire : (v : ℕ) → AreBytes (wire v)
unfolding wire
AreBytes-wire v =
    AreBytes-be_bytes (2 ^ size_class v) (v + size_class v * 64 * 256 ^ tail_len (size_class v))

-- The prefix is set by an `or` on bits that the value leaves free.
set_prefix : (k t v w : ℕ) → v < 2 ^ k → w ≡ v → bit_or w (t * 2 ^ k) ≡ v + t * 2 ^ k
set_prefix k t v w h e = ap (λ (x : ℕ). bit_or x (t * 2 ^ k)) e ∙ or_low_high k t v h ∙ omega arith

module _ ⦃b : BytesCrate⦄ where
  put_one : (v : ℕ) (out : List ℕ) → v < 2 ^ 6 → put_tagged 1 v out ≡ out ++ wire_of 0 v
  unfolding put_tagged
  put_one v out h = b.put_u8-eq out (v % 2 ^ 8) ∙ ap (λ (w : ℕ). out ++ be_bytes 1 w) (omega arith)

  put_two : (v : ℕ) (out : List ℕ) → v < 2 ^ 14 → put_tagged 2 v out ≡ out ++ wire_of 1 v
  unfolding put_tagged
  put_two v out h =
      b.put_u16-eq out (bit_or (v % 2 ^ 16) (1 * 2 ^ 14))
      ∙ ap (λ (w : ℕ). out ++ be_bytes 2 w) (set_prefix 14 1 v (v % 2 ^ 16) h (omega arith))

  put_four : (v : ℕ) (out : List ℕ) → v < 2 ^ 30 → put_tagged 4 v out ≡ out ++ wire_of 2 v
  unfolding put_tagged
  put_four v out h =
      b.put_u32-eq out (bit_or (v % 2 ^ 32) (2 * 2 ^ 30))
      ∙ ap (λ (w : ℕ). out ++ be_bytes 4 w) (set_prefix 30 2 v (v % 2 ^ 32) h (omega arith))

  put_eight : (v : ℕ) (out : List ℕ) → v ≤ max → put_tagged 8 v out ≡ out ++ wire_of 3 v
  unfolding put_tagged
  put_eight v out h =
      b.put_u64-eq out (bit_or v (3 * 2 ^ 62))
      ∙ ap (λ (w : ℕ). out ++ be_bytes 8 w) (set_prefix 62 3 v v (omega arith) refl)

  put_class :
      (t v : ℕ) (out : List ℕ)
      → t ≤ 3
      → v < 64 * 256 ^ tail_len t
      → put_tagged (2 ^ t) v out ≡ out ++ wire_of t v
  put_class zero v out ht h = put_one v out h
  put_class (suc zero) v out ht h = put_two v out h
  put_class (suc (suc zero)) v out ht h = put_four v out h
  put_class (suc (suc (suc zero))) v out ht h = put_eight v out (omega arith)
  put_class (suc (suc (suc (suc t)))) v out ht h = absurd (omega arith)

  -- A value that a varint can hold is appended in the layout of the RFC, in its own size class.
  pub encode-wire : (v : ℕ) (out : List ℕ) → v ≤ max → encode v out ≡ ok (out ++ wire v)
  unfolding encode wire
  encode-wire v out h =
      let (small, fits) = size_class_fits v h in
      rw (le→ltb max v h, encoded_len-size_class v)
        (ap (λ (w : List ℕ). ok w) (put_class (size_class v) v out small fits))

  pub encode_overflow : (v : ℕ) (out : List ℕ) → max < v → encode v out ≡ err (overflow v)
  unfolding encode
  encode_overflow v out h = rw (lt→ltb max v h)
