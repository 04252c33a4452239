-- ===== src/Capsule/Decode.antt =====
-- `next_capsule` on any decoder: its cases, what more input changes, and the bound on the buffer.
use skimasque.Prelude.{
  ℕ, ◌+◌, ◌-◌, ◌≤◌, ◌<◌, [], length, take, drop, ◌≡◌, ◌∙◌, ap, sym, refl, arith,
}
use skimasque.Prelude.{some, none, Option, Result, ok, err}
use skimasque.Prelude.{Result-cases, inl, inr, lt→ltb, le→ltb, length-drop, drop-drop}
use skimasque.Prelude.Bytes.{BytesCrate}
use native.Mathlib.Decide.{dec_lt}
use skimasque.Varint
use skimasque.Capsule.{Error, value_too_large, Capsule, CapsuleDecoder, take_value, next_capsule}
use skimasque.Capsule.Header.{read_header, Header, read_header_cases}

module _ ⦃b : BytesCrate⦄ where
  -- The call on a buffer that holds no whole header, and on one that does.
  next_capsule_no_header :
      (d : CapsuleDecoder) → read_header d.buf ≡ none → next_capsule d ≡ (ok none, d)
  unfolding next_capsule read_header
  next_capsule_no_header d e = elim (Result-cases (Varint.decode_slice d.buf)) [
    | inr (x, f) ↦ rw (f, next_capsule)
    | inl ((kind, type_len), f) ↦ elim (Result-cases (Varint.decode_slice (drop type_len d.buf))) [
      | inr (x, g) ↦ rw (f, next_capsule, g)
      | inl ((value_len, len_len), g) ↦ absurd (ground (arith, e, f, g))
    ]
  ]

  next_capsule-Header :
      (d : CapsuleDecoder) {kind value_len header_len : ℕ}
      → Header d.buf kind value_len header_len
      → next_capsule d ≡ take_value d kind value_len header_len
  unfolding next_capsule
  next_capsule-Header d {kind} {value_len} h =
      rw (h.type_read, next_capsule, h.len_read) (ap (take_value d kind value_len) (sym h.total))

  module _ (d : CapsuleDecoder) (kind value_len header_len : ℕ) where
    take_value_too_large :
        d.max_value_len < value_len
        → take_value d kind value_len header_len
          ≡ (err (value_too_large kind value_len d.max_value_len), d)
    unfolding take_value
    take_value_too_large h = rw (lt→ltb _ _ h)

    take_value_waits :
        value_len ≤ d.max_value_len
        → length d.buf < header_len + value_len
        → take_value d kind value_len header_len ≡ (ok none, d)
    unfolding take_value
    take_value_waits h k = rw (le→ltb _ _ h, lt→ltb _ _ k)

    take_value_cuts :
        value_len ≤ d.max_value_len
        → header_len + value_len ≤ length d.buf
        → take_value d kind value_len header_len ≡ (
          ok (some (record { kind = kind; value = take value_len (drop header_len d.buf) })),
          record d { buf = drop (header_len + value_len) d.buf },
        )
    unfolding take_value
    take_value_cuts h k =
        let left : length (drop header_len d.buf) ≡ length d.buf - header_len =
          length-drop header_len d.buf in
        rw (
          le→ltb _ _ h,
          le→ltb _ _ k,
          b.advance-eq d.buf header_len (omega arith),
          b.split_to-eq (drop header_len d.buf) value_len (omega arith),
          drop-drop header_len value_len d.buf,
        )

-- What a call of `next_capsule` came to: the result and the decoder after it.
pub data Next (d : CapsuleDecoder) : Result Error (Option Capsule) × CapsuleDecoder → Type 0 where
  no_header : read_header d.buf ≡ none → Next d (ok none, d)
  too_large :
      {kind value_len header_len : ℕ}
      → Header d.buf kind value_len header_len
      → d.max_value_len < value_len
      → Next d (err (value_too_large kind value_len d.max_value_len), d)
  waits :
      {kind value_len header_len : ℕ}
      → Header d.buf kind value_len header_len
      → value_len ≤ d.max_value_len
      → length d.buf < header_len + value_len
      → Next d (ok none, d)
  cuts :
      {kind value_len header_len : ℕ}
      → Header d.buf kind value_len header_len
      → value_len ≤ d.max_value_len
      → header_len + value_len ≤ length d.buf
      → Next d (
        ok (some (record { kind = kind; value = take value_len (drop header_len d.buf) })),
        record d { buf = drop (header_len + value_len) d.buf },
      )

module _ ⦃b : BytesCrate⦄ (d : CapsuleDecoder) where
  Header-cases :
      (kind value_len header_len : ℕ)
      → Header d.buf kind value_len header_len
      → Next d (take_value d kind value_len header_len)
  Header-cases kind value_len header_len h = elim (dec_lt d.max_value_len value_len) [
    | yes over ↦ rw (take_value_too_large d kind value_len header_len over) (too_large h over)
    | no fits ↦ elim (dec_lt (length d.buf) (header_len + value_len)) [
      | yes short ↦
          rw (take_value_waits d kind value_len header_len (omega arith) short)
            (waits h (omega arith) short)
      | no long ↦
          rw (take_value_cuts d kind value_len header_len (omega arith) (omega arith))
            (cuts h (omega arith) (omega arith))
    ]
  ]

  pub next_capsule_cases : Next d (next_capsule d)
  next_capsule_cases = elim (read_header_cases d.buf) [
    | inr missing ↦ rw (next_capsule_no_header d missing) (no_header missing)
    | inl (kind, value_len, header_len, found, h) ↦
        rw (next_capsule-Header d h) (Header-cases kind value_len header_len h)
  ]

  -- What the header and the buffer decide.
  pub next_capsule_cuts :
      {kind value_len header_len : ℕ}
      → Header d.buf kind value_len header_len
      → value_len ≤ d.max_value_len
      → header_len + value_len ≤ length d.buf
      → next_capsule d ≡ (
        ok (some (record { kind = kind; value = take value_len (drop header_len d.buf) })),
        record d { buf = drop (header_len + value_len) d.buf },
      )
  next_capsule_cuts {kind} {value_len} {header_len} h fits enough =
      next_capsule-Header d h ∙ take_value_cuts d kind value_len header_len fits enough

  pub next_capsule_too_large :
      {kind value_len header_len : ℕ}
      → Header d.buf kind value_len header_len
      → d.max_value_len < value_len
      → next_capsule d ≡ (err (value_too_large kind value_len d.max_value_len), d)
  next_capsule_too_large {kind} {value_len} {header_len} h over =
      next_capsule-Header d h ∙ take_value_too_large d kind value_len header_len over

module _ ⦃b : BytesCrate⦄ where
  -- Nothing to decode.
  pub next_capsule_empty :
      (limit : ℕ)
      → next_capsule (record { buf = []; max_value_len = limit })
        ≡ (ok none, record { buf = []; max_value_len = limit })
  unfolding read_header Varint.decode_slice
  next_capsule_empty limit =
      next_capsule_no_header (record { buf = []; max_value_len = limit }) refl
