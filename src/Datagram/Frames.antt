-- ===== src/Datagram/Frames.antt =====
-- What is sent comes back: the HTTP/3 datagram frame and the proxying payload.
use skimasque.Prelude.{ℕ, ◌/◌, ◌%◌, ◌≤◌, ◌<◌, List, [], ◌++◌}
use skimasque.Prelude.{some, ok, err, ◌⊎◌, inl, inr, ◌≢◌, ◌≡◌, ◌∙◌, arith, le→ltb, lt→ltb}
use skimasque.Prelude.Bytes.{BytesCrate}
use native.Mathlib.Decide.{ℕ_discrete}
use skimasque.Varint
use skimasque.Varint.Encode.{encode-wire}
use skimasque.Varint.RoundTrip.{take_bytes-wire}
use skimasque.Datagram.{
  max_quarter_stream_id, not_a_request_stream, quarter_stream_id_too_large, QuarterStreamId,
  from_stream_id, from_quarter, stream_id, expect, put_prefixed, encode_http3_datagram,
  decode_http3_datagram, new, ProxyingPayload, encode, with_context, decode,
}

module _ ⦃b : BytesCrate⦄ where
  put_prefixed-wire :
      (id : ℕ) (payload out : List ℕ)
      → id ≤ Varint.max
      → put_prefixed id payload out ≡ some ((out ++ Varint.Encode.wire id) ++ payload)
  unfolding put_prefixed expect
  put_prefixed-wire id payload out h = rw (encode-wire id out h, put_prefixed, b.put_slice-eq)

  decode_http3-wire :
      (id : ℕ) (payload : List ℕ)
      → id ≤ Varint.max
      → decode_http3_datagram (Varint.Encode.wire id ++ payload)
        ≡ elim (from_quarter id) [ err e ↦ err e | ok q ↦ ok (q, payload) ]
  unfolding decode_http3_datagram
  decode_http3-wire id payload h = rw (take_bytes-wire id payload h)

  -- For a quarter stream id within its maximum, `encode_http3_datagram` does not panic, and
  -- `decode_http3_datagram` returns the id and the payload from what it made.
  pub decode_http3-encode :
      (q : QuarterStreamId) (payload : List ℕ)
      → q.get ≤ max_quarter_stream_id
      → (wire : List ℕ) × (encode_http3_datagram q payload ≡ some wire)
        × (decode_http3_datagram wire ≡ ok (q, payload))
  unfolding encode_http3_datagram from_quarter
  decode_http3-encode q payload h = (
    Varint.Encode.wire q.get ++ payload,
    put_prefixed-wire q.get payload [] (omega arith),
    decode_http3-wire q.get payload (omega arith) ∙ rw (le→ltb max_quarter_stream_id q.get h),
  )

  -- For a quarter stream id above its maximum that is still a varint, `encode_http3_datagram`
  -- makes a datagram all the same, and `decode_http3_datagram` refuses that datagram because the
  -- id is too large.
  pub decode_http3_too_large :
      (q : QuarterStreamId) (payload : List ℕ)
      → max_quarter_stream_id < q.get
      → q.get ≤ Varint.max
      → (wire : List ℕ) × (encode_http3_datagram q payload ≡ some wire)
        × (decode_http3_datagram wire ≡ err (quarter_stream_id_too_large q.get))
  unfolding encode_http3_datagram from_quarter
  decode_http3_too_large q payload h k = (
    Varint.Encode.wire q.get ++ payload,
    put_prefixed-wire q.get payload [] k,
    decode_http3-wire q.get payload k ∙ rw (lt→ltb max_quarter_stream_id q.get h),
  )

  -- For a context id up to the varint maximum, `ProxyingPayload::encode` does not panic, and
  -- `ProxyingPayload::decode` returns the same context and payload from what it made.
  pub decode-encode :
      (p : ProxyingPayload)
      → p.context.get ≤ Varint.max
      → (wire : List ℕ) × (encode p ≡ some wire) × (decode wire ≡ ok p)
  unfolding encode new decode
  decode-encode p h = (
    Varint.Encode.wire p.context.get ++ p.payload,
    put_prefixed-wire p.context.get p.payload [] h,
    rw (take_bytes-wire p.context.get p.payload h)
        (rw (with_context, new, le→ltb Varint.max p.context.get h)),
  )

-- `QuarterStreamId::from_stream_id` accepts exactly the multiples of four, and `stream_id` of the
-- result is the stream id again.
pub from_stream_id_cases :
    (id : ℕ)
    → ((id % 4 ≡ 0) × (q : QuarterStreamId) × (from_stream_id id ≡ ok q) × (stream_id q ≡ id))
      ⊎ ((id % 4 ≢ 0) × (from_stream_id id ≡ err (not_a_request_stream id)))
unfolding from_stream_id
from_stream_id_cases id = elim (ℕ_discrete (id % 4) 0) [
  | yes four ↦ inl (four, record { get = id / 4 }, ground arith, omega arith)
  | no other ↦ inr (other, ground arith)
]
