-- ===== src/Capsule/RoundTrip.antt =====
-- Decoding the capsules that `encode_into` wrote.
use skimasque.Prelude.{ℕ, ◌+◌, ◌≤◌, List, ◌++◌, length, take, drop, ◌≡◌, ◌∙◌, sym, refl, arith}
use skimasque.Prelude.{some, ok, append_assoc, length-append}
use skimasque.Prelude.{drop-drop, drop-append_self, take-append_self}
use skimasque.Prelude.Bytes.{BytesCrate}
use skimasque.Varint
use skimasque.Varint.Encode.{length-wire}
use skimasque.Varint.RoundTrip.{decode_slice-wire}
use skimasque.Capsule.{Capsule, CapsuleDecoder, next_capsule}
use skimasque.Capsule.Encode.{IsEncodable, header, wire}
use skimasque.Capsule.Header.{Header}
use skimasque.Capsule.Decode.{next_capsule_cuts}

header_len : ℕ → ℕ → ℕ
header_len kind n = Varint.encoded_len kind + Varint.encoded_len n

module _ (kind n : ℕ) (tail : List ℕ) where
  sent : List ℕ
  sent = Varint.Encode.wire kind ++ (Varint.Encode.wire n ++ tail)

  behind_type : drop (Varint.encoded_len kind) sent ≡ Varint.Encode.wire n ++ tail
  unfolding sent
  behind_type = rw (← length-wire kind) (drop-append_self (Varint.Encode.wire kind) _)

  behind_header : drop (header_len kind n) sent ≡ tail
  unfolding header_len
  behind_header =
      sym (drop-drop (Varint.encoded_len kind) (Varint.encoded_len n) sent)
      ∙ rw behind_type (rw (← length-wire n) (drop-append_self (Varint.Encode.wire n) tail))

  Header-sent : kind ≤ Varint.max → n ≤ Varint.max → Header sent kind n (header_len kind n)
  unfolding sent header_len
  Header-sent hk hn = record {
    type_len = Varint.encoded_len kind;
    len_len = Varint.encoded_len n;
    type_read = decode_slice-wire kind (Varint.Encode.wire n ++ tail) hk;
    len_read = rw behind_type (decode_slice-wire n tail hn);
    total = refl;
  }

module _ ⦃b : BytesCrate⦄ where
  -- For a capsule whose type and length are varints and whose value is within the decoder's limit:
  -- with the capsule's encoding at the head of the buffer, `next_capsule` returns the capsule, and
  -- what followed the encoding is what stays in the buffer.
  pub next_capsule-wire :
      (c : Capsule) (rest : List ℕ) (limit : ℕ)
      → IsEncodable c
      → length c.value ≤ limit
      → next_capsule (record { buf = wire c ++ rest; max_value_len = limit })
        ≡ (ok (some c), record { buf = rest; max_value_len = limit })
  unfolding wire header sent header_len
  next_capsule-wire c rest limit h fits =
      let n : ℕ = length c.value in
      let k : List ℕ = Varint.Encode.wire c.kind in
      let l : List ℕ = Varint.Encode.wire n in
      let tail : List ℕ = c.value ++ rest in
      let regroup : ((k ++ l) ++ c.value) ++ rest ≡ sent c.kind n tail =
        rw (append_assoc (k ++ l) c.value rest) (append_assoc k l (c.value ++ rest)) in
      let d : CapsuleDecoder = record { buf = sent c.kind n tail; max_value_len = limit } in
      let behind : drop (header_len c.kind n) (sent c.kind n tail) ≡ tail =
        behind_header c.kind n tail in
      let value : take n (drop (header_len c.kind n) (sent c.kind n tail)) ≡ c.value =
        rw behind (take-append_self c.value rest) in
      let left : drop (header_len c.kind n + n) (sent c.kind n tail) ≡ rest =
        sym (drop-drop (header_len c.kind n) n (sent c.kind n tail))
        ∙ rw behind (drop-append_self c.value rest) in
      rw regroup (
        next_capsule_cuts d (Header-sent c.kind n tail h.kind_fits h.value_fits) fits (
          omega (
            arith,
            length-append k (l ++ tail),
            length-append l tail,
            length-append c.value rest,
            length-wire c.kind,
            length-wire n,
          ))
        ∙ ground (arith, value, left))
