-- ===== src/ConnectUdp.antt =====
-- crates/skimasque-core/src/connect_udp.rs: UDP payloads as HTTP datagram payloads.
pub mod Payload
use skimasque.Prelude.{ℕ, List, Option, Result, ok, err, if◌then◌else◌}
use skimasque.Prelude.Bytes.{BytesCrate}
use skimasque.Datagram
use skimasque.Datagram.{ContextId}

pub data Incoming : Type 0 where
  udp_payload : List ℕ → Incoming
  unknown_context : ContextId → List ℕ → Incoming

module _ ⦃b : BytesCrate⦄ where
  abbrev pub encode_payload : List ℕ → Option (List ℕ)
  encode_payload udp = Datagram.encode (Datagram.default_context udp)

  pub decode_payload : List ℕ → Result Datagram.Error Incoming
  decode_payload payload = elim (Datagram.decode payload) [
    | err e ↦ err e
    | ok p ↦
        if Datagram.is_default p.context
        then ok (udp_payload p.payload)
        else ok (unknown_context p.context p.payload)
  ]
