-- ===== src/Capsule/Encode.antt =====
-- The bytes of an encoded capsule, and the header's panic on a type code that is no varint.
use skimasque.Prelude.{ℕ, ◌≤◌, ◌<◌, List, ◌++◌, length, ◌≡◌, ap, arith}
use skimasque.Prelude.{some, none, append_assoc, length-append}
use skimasque.Prelude.Bytes.{BytesCrate}
use skimasque.Varint
use skimasque.Varint.Encode.{encode-wire, encode_overflow}
use skimasque.Capsule.{Capsule, encoded_len, write_header, encode_into}

-- Both fields of the header fit a varint.
pub record IsEncodable (c : Capsule) : Type 0 where
  pub kind_fits : c.kind ≤ Varint.max
  pub value_fits : length c.value ≤ Varint.max

unfoldable pub header : ℕ → ℕ → List ℕ
header kind value_len = Varint.Encode.wire kind ++ Varint.Encode.wire value_len

unfoldable pub wire : Capsule → List ℕ
wire c = header c.kind (length c.value) ++ c.value

pub length-wire : (c : Capsule) → length (wire c) ≡ encoded_len c.kind (length c.value)
unfolding wire header encoded_len
length-wire c = omega (
  arith,
  length-append (Varint.Encode.wire c.kind ++ Varint.Encode.wire (length c.value)) c.value,
  length-append (Varint.Encode.wire c.kind) (Varint.Encode.wire (length c.value)),
  Varint.Encode.length-wire c.kind,
  Varint.Encode.length-wire (length c.value),
)

module _ ⦃b : BytesCrate⦄ where
  pub write_header-eq :
      (kind value_len : ℕ) (out : List ℕ)
      → kind ≤ Varint.max
      → value_len ≤ Varint.max
      → write_header kind value_len out ≡ some (out ++ header kind value_len)
  unfolding write_header header
  write_header-eq kind value_len out hk hv =
      rw
        (
          encode-wire kind out hk,
          write_header,
          encode-wire value_len (out ++ Varint.Encode.wire kind) hv,
        )
        (ap some (append_assoc out (Varint.Encode.wire kind) (Varint.Encode.wire value_len)))

  -- `write_header` panics for every type code above the varint maximum.
  pub write_header_panics :
      (kind value_len : ℕ) (out : List ℕ)
      → Varint.max < kind
      → write_header kind value_len out ≡ none
  unfolding write_header
  write_header_panics kind value_len out h = rw (encode_overflow kind out h, write_header)

  -- Encoding appends type, length and value, as many bytes as `encoded_len` says.
  pub encode_into-wire :
      (c : Capsule) (out : List ℕ) → IsEncodable c → encode_into c out ≡ some (out ++ wire c)
  unfolding encode_into wire
  encode_into-wire c out h =
      let n : ℕ = length c.value in
      rw (write_header-eq c.kind n out h.kind_fits h.value_fits, encode_into, b.put_slice-eq)
        (ap some (append_assoc out (header c.kind n) c.value))
