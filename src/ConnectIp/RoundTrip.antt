-- ===== src/ConnectIp/RoundTrip.antt =====
-- crates/skimasque-core/src/connect_ip.rs: a control capsule that is sent is read back.
use skimasque.Prelude.{
  ℕ, zero, suc, ◌≤◌, ◌<◌, List, [], ◌∷◌, ◌++◌, false, some, ok, ◌>>=◌, ◌==◌, length, All,
}
use skimasque.Prelude.{◌≡◌, ◌∙◌, refl, sym, ap, arith, length-append, append_assoc, append-nil}
use skimasque.Prelude.Bytes.{BytesCrate}
use skimasque.Varint
use skimasque.Capsule.{Capsule}
use skimasque.ConnectIp.{
  AssignedAddress, RequestedAddress, IpAddressRange, IpCapsule, address_assign, address_request,
  route_advertisement, check_route_ordering,
}
use skimasque.ConnectIp.Encode.{put_assigned, put_requested, put_ranges, put_value, to_capsule}
use skimasque.ConnectIp.Decode.{
  Parser, many, assigned_entry, requested_entry, range_entry, from_capsule,
}
use skimasque.ConnectIp.Wire.{
  IsPrefix, IsRange, wire_entry, wire_range, assigned_entry-wire, requested_entry-wire,
  range_entry-wire, wire_entry-pos, wire_range-pos,
}
use skimasque.ConnectIp.Put.{put_entry-wire, put_range-wire}

-- A loop over entries reads the concatenation of what the entries are written as.
module _ {A : Type 0} (entry : Parser A) (wire_of : A → List ℕ) where
  wires : List A → List ℕ
  wires [] = []
  wires (a ∷ rest) = wire_of a ++ wires rest

  -- The entry is not empty on the wire, and is read back whatever is behind it.
  Reads : A → Type 0
  Reads a = (0 < length (wire_of a)) × ((rest : List ℕ) → entry (wire_of a ++ rest) ≡ ok (a, rest))

  many-step :
      (a : A) (fuel : ℕ) (bytes rest : List ℕ)
      → 0 < length bytes
      → entry bytes ≡ ok (a, rest)
      → many entry (suc fuel) bytes ≡ many entry fuel rest >>= λ t. ok (a ∷ t.0, t.1)
  unfolding many
  many-step a fuel [] rest h e = absurd (omega arith)
  many-step a fuel (x ∷ bytes) rest h e = rw e refl

  many-wires :
      (items : List A) (fuel : ℕ)
      → length (wires items) ≤ fuel
      → All Reads items
      → many entry fuel (wires items) ≡ ok (items, [])
  unfolding many wires Reads
  many-wires [] fuel h k = refl
  many-wires (a ∷ items) zero h ((pos, read), k) =
      absurd (omega (arith, length-append (wire_of a) (wires items)))
  many-wires (a ∷ items) (suc fuel) h ((pos, read), k) =
      let sum = length-append (wire_of a) (wires items) in
      let later : many entry fuel (wires items) ≡ ok (items, []) =
        many-wires items fuel (omega (arith, sum)) k in
      many-step a fuel (wire_of a ++ wires items) (wires items) (omega (arith, sum))
        (read (wires items))
      ∙ rw later refl

abbrev IsAssigned : AssignedAddress → Type 0
IsAssigned a = (a.request_id ≤ Varint.max) × IsPrefix a.prefix

abbrev IsRequested : RequestedAddress → Type 0
IsRequested a = (0 < a.request_id) × (a.request_id ≤ Varint.max) × IsPrefix a.prefix

-- What the constructors of the entries and RFC 9484 ask of a capsule: request ids that are
-- varints, valid prefixes and ranges; in a request some address, and no id zero; routes in order.
unfoldable pub IsWellFormed : IpCapsule → Type 0
IsWellFormed (address_assign addresses) = All IsAssigned addresses
IsWellFormed (address_request []) = ⊥
IsWellFormed (address_request (a ∷ rest)) = All IsRequested (a ∷ rest)
IsWellFormed (route_advertisement ranges) =
    All IsRange ranges × (check_route_ordering ranges ≡ ok tt)

abbrev wire_assigned : AssignedAddress → List ℕ
wire_assigned a = wire_entry a.request_id a.prefix

abbrev wire_requested : RequestedAddress → List ℕ
wire_requested a = wire_entry a.request_id a.prefix

Reads-assigned :
    (addresses : List AssignedAddress)
    → All IsAssigned addresses
    → All (Reads assigned_entry wire_assigned) addresses
unfolding Reads
Reads-assigned [] h = tt
Reads-assigned (a ∷ rest) ((id, valid), h) = (
  (wire_entry-pos a.request_id a.prefix, λ more. assigned_entry-wire a more id valid),
  Reads-assigned rest h,
)

Reads-requested :
    (addresses : List RequestedAddress)
    → All IsRequested addresses
    → All (Reads requested_entry wire_requested) addresses
unfolding Reads
Reads-requested [] h = tt
Reads-requested (a ∷ rest) ((pos, id, valid), h) = (
  (
    wire_entry-pos a.request_id a.prefix,
    λ more. requested_entry-wire a more id (ground (arith, pos)) valid,
  ),
  Reads-requested rest h,
)

Reads-ranges :
    (ranges : List IpAddressRange) → All IsRange ranges → All (Reads range_entry wire_range) ranges
unfolding Reads
Reads-ranges [] h = tt
Reads-ranges (r ∷ rest) (valid, h) =
    ((wire_range-pos r, λ more. range_entry-wire r more valid), Reads-ranges rest h)

module _ ⦃b : BytesCrate⦄ where
  put_assigned-wires :
      (addresses : List AssignedAddress) (out : List ℕ)
      → All IsAssigned addresses
      → put_assigned addresses out ≡ ok (out ++ wires assigned_entry wire_assigned addresses)
  unfolding put_assigned wires
  put_assigned-wires [] out h = ap ok (sym (append-nil out))
  put_assigned-wires (a ∷ rest) out ((id, valid), h) =
      rw (put_entry-wire a.request_id a.prefix out id valid) (
        put_assigned-wires rest (out ++ wire_assigned a) h
        ∙ ap ok (append_assoc out (wire_assigned a) (wires assigned_entry wire_assigned rest)))

  put_requested-wires :
      (addresses : List RequestedAddress) (out : List ℕ)
      → All IsRequested addresses
      → put_requested addresses out ≡ ok (out ++ wires requested_entry wire_requested addresses)
  unfolding put_requested wires
  put_requested-wires [] out h = ap ok (sym (append-nil out))
  put_requested-wires (a ∷ rest) out ((pos, id, valid), h) =
      let some_id : (a.request_id == 0) ≡ false = ground (arith, pos) in
      rw (put_requested, some_id, put_entry-wire a.request_id a.prefix out id valid)
        (put_requested-wires rest (out ++ wire_requested a) h
          ∙ ap ok (append_assoc out (wire_requested a) (wires requested_entry wire_requested rest)))

  put_ranges-wires :
      (ranges : List IpAddressRange) (out : List ℕ)
      → All IsRange ranges
      → put_ranges ranges out ≡ out ++ wires range_entry wire_range ranges
  unfolding put_ranges wires
  put_ranges-wires [] out h = sym (append-nil out)
  put_ranges-wires (r ∷ rest) out (valid, h) = rw (put_range-wire r out valid) (
      put_ranges-wires rest (out ++ wire_range r) h
      ∙ append_assoc out (wire_range r) (wires range_entry wire_range rest))

  -- A control capsule with valid entries is encoded by `to_capsule`, and `from_capsule` reads the
  -- same control capsule back from the result. Valid are request ids that are varints, prefixes as
  -- `IpPrefix::new` makes them and ranges as `IpAddressRange::new` makes them; an address request
  -- has some entry and no id zero, and a route advertisement is in the order that
  -- `check_route_ordering` accepts.
  pub from_capsule-to_capsule :
      (c : IpCapsule)
      → IsWellFormed c
      → (sent : Capsule) × (to_capsule c ≡ ok sent) × (from_capsule sent ≡ ok (some c))
  unfolding to_capsule from_capsule put_value IsWellFormed
  from_capsule-to_capsule (address_assign addresses) h = (
    record { kind = 1; value = wires assigned_entry wire_assigned addresses },
    rw (put_assigned-wires addresses [] h) refl,
    rw
        (many-wires assigned_entry wire_assigned addresses
          (length (wires assigned_entry wire_assigned addresses)) (omega arith)
          (Reads-assigned addresses h))
        refl,
  )
  from_capsule-to_capsule (address_request []) h = absurd h
  from_capsule-to_capsule (address_request (a ∷ rest)) h = (
    record { kind = 2; value = wires requested_entry wire_requested (a ∷ rest) },
    rw (put_requested-wires (a ∷ rest) [] h) refl,
    rw
        (many-wires requested_entry wire_requested (a ∷ rest)
          (length (wires requested_entry wire_requested (a ∷ rest))) (omega arith)
          (Reads-requested (a ∷ rest) h))
        refl,
  )
  from_capsule-to_capsule (route_advertisement ranges) (h, ordered) = (
    record { kind = 3; value = wires range_entry wire_range ranges },
    rw (ordered, put_ranges-wires ranges [] h) refl,
    rw
        (
          many-wires range_entry wire_range ranges (length (wires range_entry wire_range ranges))
              (omega arith) (Reads-ranges ranges h),
          ordered,
        )
        refl,
  )
