-- ===== src/ConnectUdp/Payload.antt =====
-- What comes out of `decode_payload` for what was encoded.
use skimasque.Prelude.{ℕ, ◌≤◌, List, some, ok, if◌then◌else◌, ◌==◌, ◌≡◌, arith}
use skimasque.Prelude.Bytes.{BytesCrate}
use skimasque.Varint
use skimasque.Datagram
use skimasque.Datagram.{ContextId, ProxyingPayload}
use skimasque.Datagram.Frames.{decode-encode}
use skimasque.ConnectUdp.{udp_payload, unknown_context, decode_payload}

module _ ⦃b : BytesCrate⦄ where
  -- For a context id up to the varint maximum, what `ProxyingPayload::encode` makes is reported by
  -- `decode_payload` as a UDP payload when the context is 0, an empty one included, and with its
  -- context otherwise.
  pub decode_payload-encode :
      (p : ProxyingPayload)
      → p.context.get ≤ Varint.max
      → (wire : List ℕ) × (Datagram.encode p ≡ some wire)
        × (decode_payload wire
            ≡ ok (
                if p.context.get == 0
                then udp_payload p.payload
                else unknown_context p.context p.payload))
  unfolding decode_payload Datagram.is_default
  decode_payload-encode p h =
      let (wire, sent, back) = decode-encode p h in
      (wire, sent, rw (back, decode_payload) (ground arith))
