-- ===== src/ConnectIp/Encode.antt =====
-- crates/skimasque-core/src/connect_ip.rs: `IpCapsule::to_capsule` and what it calls.
use skimasque.Prelude.{
  ℕ, List, [], ◌∷◌, true, false, Result, ok, err, ◌>>=◌, or_err, ◌==◌, if◌then◌else◌,
}
use skimasque.Prelude.Bytes.{BytesCrate}
use skimasque.Net.{IpAddr, is_ipv4, octets}
use skimasque.Varint
use skimasque.Capsule.{Capsule}
use skimasque.ConnectIp.{
  Error, malformed, request_id_too_large, empty_address_request, zero_request_id, IpPrefix,
  AssignedAddress, RequestedAddress, IpAddressRange, version, IpCapsule, address_assign,
  address_request, route_advertisement, capsule_type, check_route_ordering,
}

module _ ⦃b : BytesCrate⦄ where
  unfoldable pub put_address : List ℕ → IpAddr → List ℕ
  put_address out addr = b.put_slice out (octets addr)

  -- `IpPrefix::encode_into`
  unfoldable pub put_prefix : IpPrefix → List ℕ → List ℕ
  put_prefix p out =
      let tagged = b.put_u8 out (if is_ipv4 p.addr then 4 else 6) in
      b.put_u8 (b.put_slice tagged (octets p.addr)) p.prefix_len

  -- A request id and a prefix, for both kinds of address entries.
  unfoldable pub put_entry : (request_id : ℕ) → IpPrefix → List ℕ → Result Error (List ℕ)
  put_entry request_id p out =
      or_err (Varint.encode request_id out) (malformed request_id_too_large) >>= λ tagged.
      ok (put_prefix p tagged)

  unfoldable pub put_assigned : List AssignedAddress → List ℕ → Result Error (List ℕ)
  put_assigned [] out = ok out
  put_assigned (a ∷ rest) out =
      put_entry a.request_id a.prefix out >>= λ more. put_assigned rest more

  unfoldable pub put_requested : List RequestedAddress → List ℕ → Result Error (List ℕ)
  put_requested [] out = ok out
  put_requested (a ∷ rest) out = elim (a.request_id == 0) [
    | true ↦ err zero_request_id
    | false ↦ put_entry a.request_id a.prefix out >>= λ more. put_requested rest more
  ]

  unfoldable pub put_range : IpAddressRange → List ℕ → List ℕ
  put_range r out =
      let tagged = b.put_u8 out (version r) in
      b.put_u8 (put_address (put_address tagged r.start) r.end) r.protocol

  unfoldable pub put_ranges : List IpAddressRange → List ℕ → List ℕ
  put_ranges [] out = out
  put_ranges (r ∷ rest) out = put_ranges rest (put_range r out)

  unfoldable pub put_value : IpCapsule → Result Error (List ℕ)
  put_value (address_assign addresses) = put_assigned addresses []
  put_value (address_request []) = err empty_address_request
  put_value (address_request (a ∷ rest)) = put_requested (a ∷ rest) []
  put_value (route_advertisement ranges) =
      check_route_ordering ranges >>= λ _. ok (put_ranges ranges [])

  -- `IpCapsule::to_capsule`
  unfoldable pub to_capsule : IpCapsule → Result Error Capsule
  to_capsule c = put_value c >>= λ value. ok (record { kind = capsule_type c; value = value })
