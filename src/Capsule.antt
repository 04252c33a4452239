-- ===== src/Capsule.antt =====
-- crates/skimasque-core/src/capsule.rs: the capsule protocol, encoder and streaming decoder.
pub mod CapsuleType
pub mod Encode
pub mod Header
pub mod Decode
pub mod Stream
pub mod RoundTrip
use skimasque.Prelude.{ℕ, ◌+◌, ◌*◌, List, [], ◌∷◌, ◌++◌, length, drop, ltb, ◌==◌}
use skimasque.Prelude.{if◌then◌else◌, Bool, Option, none, some, Result, ok, err}
use skimasque.Prelude.Bytes.{BytesCrate}
use skimasque.Prelude.Text.{Text}
use skimasque.Varint

-- `DEFAULT_MAX_VALUE_LEN`
abbrev pub default_max_value_len : ℕ
default_max_value_len = 64 * 1024

-- `malformed` is declared by the source and made by no function of this module.
pub data Error : Type 0 where
  value_too_large : (kind len max : ℕ) → Error
  incomplete_at_end_of_stream : (buffered : ℕ) → Error
  malformed : Text → Error

pub record Capsule : Type 0 where
  pub kind : ℕ
  pub value : List ℕ

abbrev pub datagram : List ℕ → Capsule
datagram payload = record { kind = CapsuleType.datagram; value = payload }

pub encoded_len : ℕ → ℕ → ℕ
encoded_len kind value_len = Varint.encoded_len kind + Varint.encoded_len value_len + value_len

module _ ⦃b : BytesCrate⦄ where
  -- `expect` on each varint: `none` is a panic.
  expect : Result Varint.Error (List ℕ) → Option (List ℕ)
  expect (ok out) = some out
  expect (err _) = none

  unfoldable pub write_header : ℕ → ℕ → List ℕ → Option (List ℕ)
  unfolding expect
  write_header kind value_len out = elim (expect (Varint.encode kind out)) [
    | none ↦ none
    | some out' ↦ expect (Varint.encode value_len out')
  ]

  pub encode_into : Capsule → List ℕ → Option (List ℕ)
  encode_into c out = elim (write_header c.kind (length c.value) out) [
    | none ↦ none
    | some out' ↦ some (b.put_slice out' c.value)
  ]

  pub encode : Capsule → Option (List ℕ)
  encode c = encode_into c []

pub record CapsuleDecoder : Type 0 where
  pub buf : List ℕ
  pub max_value_len : ℕ

pub with_max_value_len : ℕ → CapsuleDecoder
with_max_value_len n = record { buf = []; max_value_len = n }

unfoldable pub new : CapsuleDecoder
unfolding with_max_value_len
new = with_max_value_len default_max_value_len

abbrev pub buffered : CapsuleDecoder → ℕ
buffered d = length d.buf

module _ ⦃b : BytesCrate⦄ where
  unfoldable pub push : CapsuleDecoder → List ℕ → CapsuleDecoder
  push d chunk = record d { buf = b.put_slice d.buf chunk }

  -- `next_capsule` once the header is read: the limit, the wait for the value, and the cut.
  take_value :
      CapsuleDecoder
      → (kind value_len header_len : ℕ) → Result Error (Option Capsule) × CapsuleDecoder
  take_value d kind value_len header_len =
      if ltb d.max_value_len value_len
      then (err (value_too_large kind value_len d.max_value_len), d)
      else if ltb (length d.buf) (header_len + value_len)
      then (ok none, d)
      else (let (value, rest) = b.split_to (b.advance d.buf header_len) value_len in
          (ok (some (record { kind = kind; value = value })), record d { buf = rest }))

  -- The result, and the decoder after the call.
  unfoldable pub next_capsule : CapsuleDecoder → Result Error (Option Capsule) × CapsuleDecoder
  unfolding take_value
  next_capsule d = elim (Varint.decode_slice d.buf) [
    | err _ ↦ (ok none, d)
    | ok (kind, type_len) ↦ elim (Varint.decode_slice (drop type_len d.buf)) [
      | err _ ↦ (ok none, d)
      | ok (value_len, len_len) ↦ take_value d kind value_len (type_len + len_len)
    ]
  ]

abbrev pub finish : CapsuleDecoder → Result Error (Unit {0})
finish d = elim d.buf [ [] ↦ ok tt | _ ∷ _ ↦ err (incomplete_at_end_of_stream (length d.buf)) ]
