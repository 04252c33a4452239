-- ===== src/ConnectIp/Wire.antt =====
-- The bytes of addresses, prefixes and ranges in the capsules of CONNECT-IP: what is written, and
-- that the parsers read it back.
use skimasque.Prelude.{
  ℕ, ◌+◌, ◌^◌, ◌≤◌, ◌<◌, List, [], ◌∷◌, ◌++◌, false, ok, ltb, ◌==◌, if◌then◌else◌, length, take,
  drop,
}
use skimasque.Prelude.{
  ◌≡◌, ◌∙◌, refl, ap, arith, length-append, take-append_self, drop-append_self, append_assoc,
  le→ltb,
}
use skimasque.Prelude.Bytes.{be_bytes, from_be, from_be-be_bytes, length-be_bytes}
use mathlib.Core.Path.{subst}
use native.Mathlib.Nat.{mod-eq_of_lt}
use skimasque.Net.{IpAddr, v4, v6, IsAddr, is_ipv4, octets, address_bits}
use skimasque.Varint
use skimasque.Varint.Encode.{encode-wire}
use skimasque.Varint.RoundTrip.{take_slice-wire}
use skimasque.ConnectIp.{
  IpPrefix, AssignedAddress, RequestedAddress, IpAddressRange, version, new_range,
}
use skimasque.ConnectIp.Prefix.{new_prefix, IsClear, new_prefix-ok}
use skimasque.ConnectIp.Decode.{
  take_u8, take_varint, take_address, decode_address_of_version, decode_versioned_address,
  decode_prefix, assigned_entry, requested_entry, range_entry,
}

-- A prefix as `IpPrefix::new` makes it.
abbrev pub IsPrefix : IpPrefix → Type 0
IsPrefix p = IsAddr p.addr × (p.prefix_len ≤ address_bits p.addr) × IsClear p.addr p.prefix_len

-- A range as `IpAddressRange::new` makes it.
abbrev pub AreEnds : IpAddr → IpAddr → Type 0
AreEnds (v4 a) (v4 b) = (a ≤ b) × (b < 2 ^ 32)
AreEnds (v6 a) (v6 b) = (a ≤ b) × (b < 2 ^ 128)
AreEnds _ _ = ⊥

abbrev pub IsRange : IpAddressRange → Type 0
IsRange r = AreEnds r.start r.end × (r.protocol < 256)

abbrev pub family : IpAddr → ℕ
family a = if is_ipv4 a then 4 else 6

unfoldable pub wire_prefix : IpPrefix → List ℕ
wire_prefix p = family p.addr ∷ (octets p.addr ++ (p.prefix_len ∷ []))

unfoldable pub wire_entry : ℕ → IpPrefix → List ℕ
unfolding wire_prefix
wire_entry id p = Varint.Encode.wire id ++ wire_prefix p

unfoldable pub wire_range : IpAddressRange → List ℕ
wire_range r = version r ∷ (octets r.start ++ (octets r.end ++ (r.protocol ∷ [])))

pub wire_range-pos : (r : IpAddressRange) → 0 < length (wire_range r)
unfolding wire_range
wire_range-pos r = omega arith

pub wire_entry-pos : (id : ℕ) (p : IpPrefix) → 0 < length (wire_entry id p)
unfolding wire_entry wire_prefix
wire_entry-pos id p = omega (arith, length-append (Varint.Encode.wire id) (wire_prefix p))

take_address-be_bytes :
    (f : ℕ → IpAddr) (n a : ℕ) (rest : List ℕ)
    → a < 256 ^ n
    → take_address f n (be_bytes n a ++ rest) ≡ ok (f a, rest)
take_address-be_bytes f n a rest h =
    let size : length (be_bytes n a ++ rest) ≡ n + length rest =
      length-append (be_bytes n a) rest ∙ ap (λ (t : ℕ). t + length rest) (length-be_bytes n a) in
    let enough : ltb (length (be_bytes n a ++ rest)) n ≡ false =
      le→ltb (length (be_bytes n a ++ rest)) n (omega (arith, size)) in
    let front : take n (be_bytes n a ++ rest) ≡ be_bytes n a =
      subst (λ (t : ℕ). take t (be_bytes n a ++ rest) ≡ be_bytes n a) (length-be_bytes n a)
        (take-append_self (be_bytes n a) rest) in
    let behind : drop n (be_bytes n a ++ rest) ≡ rest =
      subst (λ (t : ℕ). drop t (be_bytes n a ++ rest) ≡ rest) (length-be_bytes n a)
        (drop-append_self (be_bytes n a) rest) in
    let number : from_be 0 (be_bytes n a) ≡ a =
      omega (arith, from_be-be_bytes n 0 a, mod-eq_of_lt h) in
    rw (enough, front, behind, number) refl

decode_address-octets :
    (a : IpAddr) (rest : List ℕ)
    → IsAddr a
    → decode_address_of_version (family a) (octets a ++ rest) ≡ ok (a, rest)
unfolding decode_address_of_version
decode_address-octets (v4 a) rest h = take_address-be_bytes v4 4 a rest h
decode_address-octets (v6 a) rest h = take_address-be_bytes v6 16 a rest h

decode_prefix-wire :
    (p : IpPrefix) (rest : List ℕ)
    → IsPrefix p
    → decode_prefix (wire_prefix p ++ rest) ≡ ok (p, rest)
unfolding decode_prefix decode_versioned_address take_u8 wire_prefix
decode_prefix-wire p rest (fits, short, clear) =
    let made : new_prefix p.addr p.prefix_len ≡ ok p =
      new_prefix-ok p.addr p.prefix_len fits short clear in
    let split : (octets p.addr ++ (p.prefix_len ∷ [])) ++ rest
        ≡ octets p.addr ++ (p.prefix_len ∷ rest) =
      append_assoc (octets p.addr) (p.prefix_len ∷ []) rest in
    rw (split, decode_address-octets p.addr (p.prefix_len ∷ rest) fits, made) refl

take_varint-wire :
    (id : ℕ) (rest : List ℕ)
    → id ≤ Varint.max
    → take_varint (Varint.Encode.wire id ++ rest) ≡ ok (id, rest)
unfolding take_varint
take_varint-wire id rest h = rw (take_slice-wire id rest h) refl

pub assigned_entry-wire :
    (a : AssignedAddress) (rest : List ℕ)
    → a.request_id ≤ Varint.max
    → IsPrefix a.prefix
    → assigned_entry (wire_entry a.request_id a.prefix ++ rest) ≡ ok (a, rest)
unfolding assigned_entry wire_entry
assigned_entry-wire a rest h valid =
    rw
      (
        append_assoc (Varint.Encode.wire a.request_id) (wire_prefix a.prefix) rest,
        take_varint-wire a.request_id (wire_prefix a.prefix ++ rest) h,
        decode_prefix-wire a.prefix rest valid,
      )
      refl

pub requested_entry-wire :
    (a : RequestedAddress) (rest : List ℕ)
    → a.request_id ≤ Varint.max
    → (a.request_id == 0) ≡ false
    → IsPrefix a.prefix
    → requested_entry (wire_entry a.request_id a.prefix ++ rest) ≡ ok (a, rest)
unfolding requested_entry wire_entry
requested_entry-wire a rest h some_id valid =
    rw
      (
        append_assoc (Varint.Encode.wire a.request_id) (wire_prefix a.prefix) rest,
        take_varint-wire a.request_id (wire_prefix a.prefix ++ rest) h,
        some_id,
        decode_prefix-wire a.prefix rest valid,
      )
      refl

-- The ends of a range are of one family, fit it, and make the range again.
AreEnds-facts :
    (s e : IpAddr) (protocol : ℕ)
    → AreEnds s e
    → IsAddr s
      × IsAddr e
      × (family s ≡ family e)
      × (new_range s e protocol ≡ ok (record { start = s; end = e; protocol = protocol }))
unfolding new_range
AreEnds-facts (v4 a) (v4 b) protocol (le, fits) = (omega arith, fits, refl, rw (le→ltb b a le) refl)
AreEnds-facts (v6 a) (v6 b) protocol (le, fits) = (omega arith, fits, refl, rw (le→ltb b a le) refl)
AreEnds-facts (v4 a) (v6 b) protocol h = absurd h
AreEnds-facts (v6 a) (v4 b) protocol h = absurd h

pub range_entry-wire :
    (r : IpAddressRange) (rest : List ℕ)
    → IsRange r
    → range_entry (wire_range r ++ rest) ≡ ok (r, rest)
unfolding range_entry wire_range take_u8
range_entry-wire r rest (ends, byte) =
    let (fits, fits', same, made) = AreEnds-facts r.start r.end r.protocol ends in
    let tail : List ℕ = octets r.end ++ (r.protocol ∷ rest) in
    let split : (octets r.start ++ (octets r.end ++ (r.protocol ∷ []))) ++ rest
        ≡ octets r.start ++ (octets r.end ++ (r.protocol ∷ rest)) =
      append_assoc (octets r.start) (octets r.end ++ (r.protocol ∷ [])) rest
      ∙ ap (λ (t : List ℕ). octets r.start ++ t)
          (append_assoc (octets r.end) (r.protocol ∷ []) rest) in
    rw
      (
        split,
        decode_address-octets r.start tail fits,
        same,
        decode_address-octets r.end (r.protocol ∷ rest) fits',
        made,
      )
      refl
