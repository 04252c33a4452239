-- ===== src/ConnectIp.antt =====
-- crates/skimasque-core/src/connect_ip.rs: the types of CONNECT-IP and its datagram payloads.
-- The prefix, the capsule encoder and the capsule decoder are in the modules below.
pub mod Prefix
pub mod Encode
pub mod Decode
pub mod Wire
pub mod Put
pub mod RoundTrip
pub mod Ordering
pub mod Leaves
pub mod Total
pub mod Packets
pub mod Scope
pub mod ScopeRoundTrip
use skimasque.Prelude.Text.{Text}
use skimasque.Template
use skimasque.Prelude.{
  ℕ, zero, suc, List, [], ◌∷◌, ◌++◌, Bool, true, false, ltb, ◌==◌, if◌then◌else◌,
}
use skimasque.Prelude.{Option, none, some, Result, ok, err}
use skimasque.Prelude.Bytes.{BytesCrate}
use skimasque.Net.{IpAddr, v4, v6, is_ipv4, addr_lt}
use skimasque.Capsule.CapsuleType
use skimasque.Datagram
use skimasque.Datagram.{ContextId}

-- The texts of `Malformed`.
pub data Reason : Type 0 where
  ended_early mid_varint mid_address trailing_bytes request_id_too_large : Reason

-- `out_of_fuel` is no error of the source. The errors of the URI template are not here.
pub data Error : Type 0 where
  malformed : Reason → Error
  bad_ip_version : ℕ → Error
  prefix_too_long : (prefix_len bits : ℕ) → Error
  prefix_host_bits_set : IpAddr → (prefix_len : ℕ) → Error
  range_reversed : (start end : IpAddr) → Error
  range_family_mismatch : Error
  empty_address_request : Error
  zero_request_id : Error
  routes_out_of_order : Error
  bad_ip_protocol : Text → Error
  template_error : Template.Error → Error
  out_of_fuel : Error

pub record IpPrefix : Type 0 where
  pub addr : IpAddr
  pub prefix_len : ℕ

-- `AssignedAddress` and `RequestedAddress`, which have the same fields.
pub record AssignedAddress : Type 0 where
  pub request_id : ℕ
  pub prefix : IpPrefix

pub record RequestedAddress : Type 0 where
  pub request_id : ℕ
  pub prefix : IpPrefix

pub record IpAddressRange : Type 0 where
  pub start : IpAddr
  pub end : IpAddr
  pub protocol : ℕ

-- `IpAddressRange::new`
unfoldable pub new_range : IpAddr → IpAddr → ℕ → Result Error IpAddressRange
new_range (v4 a) (v4 b) protocol =
    if ltb b a
    then err (range_reversed (v4 a) (v4 b))
    else ok (record { start = v4 a; end = v4 b; protocol = protocol })
new_range (v6 a) (v6 b) protocol =
    if ltb b a
    then err (range_reversed (v6 a) (v6 b))
    else ok (record { start = v6 a; end = v6 b; protocol = protocol })
new_range (v4 a) (v6 b) protocol = err range_family_mismatch
new_range (v6 a) (v4 b) protocol = err range_family_mismatch

abbrev pub version : IpAddressRange → ℕ
version r = if is_ipv4 r.start then 4 else 6

pub data IpCapsule : Type 0 where
  address_assign : List AssignedAddress → IpCapsule
  address_request : List RequestedAddress → IpCapsule
  route_advertisement : List IpAddressRange → IpCapsule

abbrev pub capsule_type : IpCapsule → ℕ
capsule_type (address_assign _) = CapsuleType.address_assign
capsule_type (address_request _) = CapsuleType.address_request
capsule_type (route_advertisement _) = CapsuleType.route_advertisement

-- The test of one pair in `check_route_ordering`.
unfoldable pub in_order : IpAddressRange → IpAddressRange → Bool
in_order a b =
    if ltb (version a) (version b)
    then true
    else if ltb (version b) (version a)
    then false
    else if ltb a.protocol b.protocol
    then true
    else if ltb b.protocol a.protocol
    then false
    else addr_lt a.end b.start

-- The loop over the pairs of neighbours.
unfoldable pub check_route_ordering : List IpAddressRange → Result Error (Unit {0})
check_route_ordering [] = ok tt
check_route_ordering (a ∷ []) = ok tt
check_route_ordering (a ∷ b ∷ rest) =
    let later = check_route_ordering (b ∷ rest) in
    if in_order a b then later else err routes_out_of_order

pub data Incoming : Type 0 where
  packet : List ℕ → Incoming
  unknown_context : ContextId → List ℕ → Incoming

module _ ⦃b : BytesCrate⦄ where
  abbrev pub encode_packet : List ℕ → Option (List ℕ)
  encode_packet p = Datagram.encode (Datagram.default_context p)

  abbrev pub decode_packet : List ℕ → Result Datagram.Error Incoming
  decode_packet payload = elim (Datagram.decode payload) [
    | err e ↦ err e
    | ok p ↦
        if Datagram.is_default p.context
        then ok (packet p.payload)
        else ok (unknown_context p.context p.payload)
  ]
