-- ===== src/ConnectIp/Packets.antt =====
-- crates/skimasque-core/src/connect_ip.rs: packets in the datagrams of a CONNECT-IP stream.
use skimasque.Prelude.{ℕ, ◌≤◌, List, some, ok, if◌then◌else◌, ◌==◌, ◌≡◌, arith}
use skimasque.Prelude.Bytes.{BytesCrate}
use skimasque.Varint
use skimasque.Datagram
use skimasque.Datagram.{ProxyingPayload}
use skimasque.Datagram.Frames.{decode-encode}
use skimasque.ConnectIp.{packet, unknown_context, encode_packet, decode_packet}

module _ ⦃b : BytesCrate⦄ where
  decode_packet-encode :
      (p : ProxyingPayload)
      → p.context.get ≤ Varint.max
      → (sent : List ℕ) × (Datagram.encode p ≡ some sent)
        × (decode_packet sent
            ≡ ok (
                if p.context.get == 0
                then packet p.payload
                else unknown_context p.context p.payload))
  unfolding Datagram.is_default
  decode_packet-encode p h =
      let (sent, made, back) = decode-encode p h in
      (sent, made, rw (decode_packet, back) (ground arith))

  -- For every packet, an empty one included, `encode_packet` does not panic, and `decode_packet`
  -- reports from what it made the same packet.
  pub decode_packet-encode_packet :
      (bytes : List ℕ)
      → (sent : List ℕ) × (encode_packet bytes ≡ some sent)
        × (decode_packet sent ≡ ok (packet bytes))
  unfolding Datagram.default_context
  decode_packet-encode_packet bytes =
      decode_packet-encode (Datagram.default_context bytes) (omega arith)
