-- ===== src/Examples/Wire.antt =====
-- Runs of the varints, the datagrams and the capsule codec on concrete bytes.
use skimasque.Prelude.{
  ℕ, ◌+◌, ◌*◌, ◌^◌, List, [], ◌∷◌, ◌++◌, none, some, ok, err, ltb, ◌==◌, if◌then◌else◌, length,
}
use skimasque.Prelude.{◌≡◌, refl, arith}
use skimasque.Prelude.Bytes.{list_bytes, AreBytes}
use skimasque.Varint
use skimasque.Varint.{decode_slice, encoded_len, unexpected_end}
use skimasque.Varint.Encode.{wire_of, wire}
use skimasque.Varint.Extend.{decode_slice_completes}
use skimasque.Varint.RoundTrip.{decode_slice-encode, decode_slice-wire_of, decode_slice_truncated}
use skimasque.Datagram
use skimasque.Datagram.{
  QuarterStreamId, ProxyingPayload, from_stream_id, stream_id, not_a_request_stream,
  quarter_stream_id_too_large, encode_http3_datagram, decode_http3_datagram, client,
}
use skimasque.Datagram.Frames.{decode_http3-encode, decode_http3_too_large}
use skimasque.Datagram.Allocation.{allocated, first, allocated_lem}
use skimasque.ConnectUdp.{udp_payload, unknown_context, decode_payload}
use skimasque.Prelude.Text.{codes}
use skimasque.Socks5
use skimasque.Socks5.{decode_udp_packet, encode_udp_packet}
use skimasque.Socks5.Packets.{decode_udp_packet-encode_udp_packet}
use skimasque.ConnectUdp.Payload.{decode_payload-encode}

abbrev two_bytes : List ℕ
two_bytes = 0x40 ∷ 0x25 ∷ []

two_bytes-decodes : decode_slice two_bytes ≡ ok (37, 2)
unfolding decode_slice
two_bytes-decodes = refl

two_bytes-AreBytes : AreBytes two_bytes
two_bytes-AreBytes = (omega arith, (omega arith, tt))

decode_slice-encode_example :
    (sent : List ℕ) × (Varint.encode 15293 [] ≡ ok ([] ++ sent))
    × (length sent ≡ encoded_len 15293)
    × ((rest : List ℕ) → decode_slice (sent ++ rest) ≡ ok (15293, encoded_len 15293))
decode_slice-encode_example = decode_slice-encode 15293 [] (omega arith)

decode_slice-wire_of_example : decode_slice (wire_of 1 37 ++ []) ≡ ok (37, 2 ^ 1)
decode_slice-wire_of_example = decode_slice-wire_of 1 37 [] (omega arith) (omega arith)

wire_15293 : wire 15293 ≡ (0x7b ∷ []) ++ 0xbd ∷ []
unfolding wire
wire_15293 = refl

decode_slice_truncated_example : decode_slice (0x7b ∷ []) ≡ err unexpected_end
decode_slice_truncated_example =
    decode_slice_truncated 15293 0xbd (0x7b ∷ []) [] (omega arith) wire_15293

abbrev eight : List ℕ
eight = 1 ∷ 2 ∷ 3 ∷ 4 ∷ 5 ∷ 6 ∷ 7 ∷ 8 ∷ []

decode_slice_completes_example : (p : ℕ × ℕ) × (decode_slice ((0xc0 ∷ []) ++ eight) ≡ ok p)
decode_slice_completes_example =
    decode_slice_completes (0xc0 ∷ []) eight (omega arith, tt)
      (
        omega arith,
        (
          omega arith,
          (
            omega arith,
            (omega arith, (omega arith, (omega arith, (omega arith, (omega arith, tt))))),
          ),
        ),
      )
      (omega arith)

abbrev five : QuarterStreamId
five = record { get = 5 }

decode_http3-encode_example :
    (sent : List ℕ) × (encode_http3_datagram five two_bytes ≡ some sent)
    × (decode_http3_datagram sent ≡ ok (five, two_bytes))
decode_http3-encode_example = decode_http3-encode five two_bytes (omega arith)

abbrev over : QuarterStreamId
over = record { get = 2 ^ 60 }

decode_http3_too_large_example :
    (sent : List ℕ) × (encode_http3_datagram over two_bytes ≡ some sent)
    × (decode_http3_datagram sent ≡ err (quarter_stream_id_too_large (2 ^ 60)))
decode_http3_too_large_example = decode_http3_too_large over two_bytes (omega arith) (omega arith)

abbrev in_context : ProxyingPayload
in_context = record { context = record { get = 300 }; payload = two_bytes }

allocated_lem_example : allocated client 3 ≡ (
    if ltb Varint.max (first client + 2 * 3)
    then none
    else some (record { get = first client + 2 * 3 }))
allocated_lem_example = allocated_lem client 3

decode_payload-encode_example :
    (sent : List ℕ) × (Datagram.encode in_context ≡ some sent)
    × (decode_payload sent
        ≡ ok (
            if 300 == 0
            then udp_payload two_bytes
            else unknown_context (record { get = 300 }) two_bytes))
decode_payload-encode_example = decode_payload-encode in_context (omega arith)

abbrev resolver : Socks5.Address
resolver = Socks5.domain (codes "dns.test") 53

decode_udp_packet-encode_udp_packet_example :
    decode_udp_packet (encode_udp_packet resolver eight) ≡ ok (0, resolver, eight)
decode_udp_packet-encode_udp_packet_example =
    decode_udp_packet-encode_udp_packet resolver eight (refl, omega arith, omega arith)
