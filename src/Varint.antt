-- ===== src/Varint.antt =====
-- crates/skimasque-core/src/varint.rs: QUIC variable-length integers.
pub mod Length
pub mod Encode
pub mod Decode
pub mod Extend
pub mod RoundTrip
use skimasque.Prelude.{ℕ, zero, suc, ◌+◌, ◌-◌, ◌*◌, ◌/◌, ◌%◌, ◌^◌, bit_and, bit_or}
use skimasque.Prelude.{List, [], ◌∷◌, length, take, drop, ltb, ◌==◌, if◌then◌else◌}
use skimasque.Prelude.{Result, ok, err, ◌>>=◌}
use skimasque.Prelude.Bytes.{BytesCrate}

-- `MAX`
abbrev pub max : ℕ
max = 2 ^ 62 - 1

pub data Error : Type 0 where
  overflow : ℕ → Error
  unexpected_end : Error

-- The debug assertion is not a test in release builds, and every caller in the source keeps it.
unfoldable pub encoded_len : ℕ → ℕ
encoded_len value =
    if ltb value (2 ^ 6)
    then 1
    else if ltb value (2 ^ 14)
    then 2
    else if ltb value (2 ^ 30)
    then 4
    else 8

module _ ⦃b : BytesCrate⦄ where
  -- The `match` on the encoded length.
  put_tagged : ℕ → ℕ → List ℕ → List ℕ
  put_tagged len value out =
      if len == 1
      then b.put_u8 out (value % 2 ^ 8)
      else if len == 2
      then b.put_u16 out (bit_or (value % 2 ^ 16) (1 * 2 ^ 14))
      else if len == 4
      then b.put_u32 out (bit_or (value % 2 ^ 32) (2 * 2 ^ 30))
      else b.put_u64 out (bit_or value (3 * 2 ^ 62))

  -- The buffer after the call; on an error nothing was appended.
  pub encode : ℕ → List ℕ → Result Error (List ℕ)
  unfolding put_tagged
  encode value out =
      if ltb max value then err (overflow value) else ok (put_tagged (encoded_len value) value out)

-- `value = (value << 8) | u64::from(byte)` for each byte
pub shift_in : ℕ → List ℕ → ℕ
shift_in value [] = value
shift_in value (byte ∷ rest) = shift_in (bit_or (value * 2 ^ 8 % 2 ^ 64) byte) rest

-- The value with the length of its encoding.
unfoldable pub decode_slice : List ℕ → Result Error (ℕ × ℕ)
unfolding shift_in
decode_slice [] = err unexpected_end
decode_slice (first ∷ rest) =
    let len = 1 * 2 ^ (first / 2 ^ 6) in
    if ltb (length (first ∷ rest)) len
    then err unexpected_end
    else ok (shift_in (bit_and first 0x3f) (take (len - 1) rest), len)

-- `take_slice` moves the cursor: the value, and the slice that the cursor then stands at.
unfoldable pub take_slice : List ℕ → Result Error ℕ × List ℕ
take_slice input = elim (decode_slice input) [
  | ok (value, len) ↦ (ok value, drop len input)
  | err e ↦ (err e, input)
]

module _ ⦃b : BytesCrate⦄ where
  -- The same on an owned buffer.
  pub take_bytes : List ℕ → Result Error ℕ × List ℕ
  take_bytes buf = elim (decode_slice buf) [
    | ok (value, len) ↦ (ok value, b.advance buf len)
    | err e ↦ (err e, buf)
  ]
