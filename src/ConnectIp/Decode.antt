-- ===== src/ConnectIp/Decode.antt =====
-- crates/skimasque-core/src/connect_ip.rs: `IpCapsule::from_capsule` and what it calls. A function
-- that moves the cursor `input` returns the bytes that the cursor then stands at.
use skimasque.Prelude.{
  ℕ, zero, suc, List, [], ◌∷◌, Option, none, some, Result, ok, err, ◌>>=◌, ltb, ◌==◌, if◌then◌else◌,
  length, take, drop,
}
use skimasque.Prelude.Bytes.{from_be}
use skimasque.Net.{IpAddr, v4, v6}
use skimasque.Varint
use skimasque.Capsule.{Capsule}
use skimasque.Capsule.CapsuleType
use skimasque.ConnectIp.{
  Error, malformed, ended_early, mid_varint, mid_address, trailing_bytes, bad_ip_version,
  out_of_fuel, empty_address_request, zero_request_id, IpPrefix, AssignedAddress, RequestedAddress,
  IpAddressRange, new_range, IpCapsule, address_assign, address_request, route_advertisement,
  check_route_ordering,
}
use skimasque.ConnectIp.Prefix.{new_prefix}

abbrev pub Parser : Type 0 → Type 0
Parser A = List ℕ → Result Error (A × List ℕ)

unfoldable pub take_u8 : Parser ℕ
take_u8 [] = err (malformed ended_early)
take_u8 (first ∷ rest) = ok (first, rest)

abbrev pub as_malformed : Result Varint.Error ℕ × List ℕ → Result Error (ℕ × List ℕ)
as_malformed (ok value, rest) = ok (value, rest)
as_malformed (err _, rest) = err (malformed mid_varint)

unfoldable pub take_varint : Parser ℕ
take_varint input = as_malformed (Varint.take_slice input)

-- The cut of an address of `len` bytes.
abbrev pub take_address : (ℕ → IpAddr) → ℕ → Parser IpAddr
take_address family len input =
    if ltb (length input) len
    then err (malformed mid_address)
    else ok (family (from_be 0 (take len input)), drop len input)

unfoldable pub decode_address_of_version : ℕ → Parser IpAddr
decode_address_of_version version input =
    if version == 4
    then take_address v4 4 input
    else if version == 6
    then take_address v6 16 input
    else err (bad_ip_version version)

unfoldable pub decode_versioned_address : Parser IpAddr
decode_versioned_address input = take_u8 input >>= λ t. decode_address_of_version (t.0) (t.1)

-- `IpPrefix::decode`
unfoldable pub decode_prefix : Parser IpPrefix
decode_prefix input = decode_versioned_address input >>= λ a.
    take_u8 (a.1) >>= λ l. new_prefix (a.0) (l.0) >>= λ p. ok (p, l.1)

-- The body of each of the three loops.
unfoldable pub assigned_entry : Parser AssignedAddress
assigned_entry input = take_varint input >>= λ i.
    decode_prefix (i.1) >>= λ p. ok (record { request_id = i.0; prefix = p.0 }, p.1)

unfoldable pub requested_entry : Parser RequestedAddress
requested_entry input = take_varint input >>= λ i.
    if i.0 == 0
    then err zero_request_id
    else (decode_prefix (i.1) >>= λ p. ok (record { request_id = i.0; prefix = p.0 }, p.1))

unfoldable pub range_entry : Parser IpAddressRange
range_entry input = take_u8 input >>= λ v. decode_address_of_version (v.0) (v.1) >>= λ s.
    decode_address_of_version (v.0) (s.1) >>= λ e.
    take_u8 (e.1) >>= λ p. new_range (s.0) (e.0) (p.0) >>= λ r. ok (r, p.1)

-- `while !input.is_empty()` with a push per entry: the fuel bounds the number of entries.
unfoldable pub many : {A : Type 0} → Parser A → ℕ → Parser (List A)
many entry fuel [] = ok ([], [])
many entry zero (byte ∷ input) = err out_of_fuel
many entry (suc fuel) (byte ∷ input) =
    entry (byte ∷ input) >>= λ a. many entry fuel (a.1) >>= λ rest. ok (a.0 ∷ rest.0, rest.1)

abbrev pub some_requests : List RequestedAddress → Result Error IpCapsule
some_requests [] = err empty_address_request
some_requests (a ∷ rest) = ok (address_request (a ∷ rest))

-- The check behind the loops.
abbrev pub no_trailing : IpCapsule × List ℕ → Result Error (Option IpCapsule)
no_trailing (parsed, []) = ok (some parsed)
no_trailing (parsed, byte ∷ rest) = err (malformed trailing_bytes)

-- `IpCapsule::from_capsule`; each entry takes a byte, so the length of the value is enough fuel.
unfoldable pub from_capsule : Capsule → Result Error (Option IpCapsule)
from_capsule c =
    let input = c.value in
    if c.kind == CapsuleType.address_assign
    then (many assigned_entry (length input) input >>= λ t. no_trailing (address_assign (t.0), t.1))
    else if c.kind == CapsuleType.address_request
    then (many requested_entry (length input) input >>= λ t.
        some_requests (t.0) >>= λ parsed. no_trailing (parsed, t.1))
    else if c.kind == CapsuleType.route_advertisement
    then (many range_entry (length input) input >>= λ t.
        check_route_ordering (t.0) >>= λ _. no_trailing (route_advertisement (t.0), t.1))
    else ok none
