-- ===== src/Examples/Ip.antt =====
-- Runs of the CONNECT-IP capsules on concrete addresses.
use skimasque.Prelude.{ℕ, List, [], ◌∷◌, some, ok, err, All}
use skimasque.Prelude.{◌≡◌, ◌≢◌, refl, arith}
use skimasque.Prelude.Bytes.{list_bytes}
use skimasque.Net.{IpAddr, v4}
use skimasque.Net.Ranges.{block}
use skimasque.Capsule.{Capsule}
use skimasque.ConnectIp.{
  out_of_fuel, IpAddressRange, IpCapsule, address_assign, check_route_ordering, in_order,
}
use skimasque.ConnectIp.{packet, encode_packet, decode_packet}
use skimasque.ConnectIp.Packets.{decode_packet-encode_packet}
use skimasque.ConnectIp.Encode.{to_capsule}
use skimasque.ConnectIp.Decode.{from_capsule}
use skimasque.ConnectIp.Wire.{IsRange}
use skimasque.ConnectIp.RoundTrip.{IsWellFormed, from_capsule-to_capsule}
use skimasque.ConnectIp.Total.{from_capsule-ne-out_of_fuel}
use skimasque.ConnectIp.Ordering.{Pairwise, AreApart, check_route_ordering-AreApart}

-- 10.0.0.0
abbrev ten : IpAddr
ten = v4 (block 10 0)

abbrev assigned : IpCapsule
assigned =
    address_assign (record { request_id = 1; prefix = record { addr = ten; prefix_len = 8 } } ∷ [])

assigned-IsWellFormed : IsWellFormed assigned
unfolding IsWellFormed
assigned-IsWellFormed = ((omega arith, (omega arith, omega arith, refl)), tt)

from_capsule-to_capsule_example :
    (sent : Capsule) × (to_capsule assigned ≡ ok sent) × (from_capsule sent ≡ ok (some assigned))
from_capsule-to_capsule_example = from_capsule-to_capsule assigned assigned-IsWellFormed

from_capsule-ne-out_of_fuel_example :
    from_capsule (record { kind = 1; value = 1 ∷ 4 ∷ 10 ∷ [] }) ≢ err out_of_fuel
from_capsule-ne-out_of_fuel_example =
    from_capsule-ne-out_of_fuel (record { kind = 1; value = 1 ∷ 4 ∷ 10 ∷ [] })

abbrev two_ranges : List IpAddressRange
two_ranges =
    record { start = v4 (block 10 0); end = v4 (block 10 1); protocol = 6 }
    ∷ record { start = v4 (block 10 2); end = v4 (block 11 0); protocol = 6 }
    ∷ []

two_ranges-IsRange : All IsRange two_ranges
two_ranges-IsRange =
    (((omega arith, omega arith), omega arith), (((omega arith, omega arith), omega arith), tt))

ordered : check_route_ordering two_ranges ≡ ok tt
unfolding check_route_ordering in_order
ordered = refl

check_route_ordering-AreApart_example : Pairwise AreApart two_ranges
check_route_ordering-AreApart_example =
    check_route_ordering-AreApart two_ranges two_ranges-IsRange ordered

decode_packet-encode_packet_example :
    (sent : List ℕ) × (encode_packet (69 ∷ 0 ∷ []) ≡ some sent)
    × (decode_packet sent ≡ ok (packet (69 ∷ 0 ∷ [])))
decode_packet-encode_packet_example = decode_packet-encode_packet (69 ∷ 0 ∷ [])
