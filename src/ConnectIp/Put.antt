-- ===== src/ConnectIp/Put.antt =====
-- crates/skimasque-core/src/connect_ip.rs: what the encoders of entries append to the buffer.
use skimasque.Prelude.{ℕ, ◌/◌, ◌%◌, ◌^◌, ◌≤◌, ◌<◌, List, [], ◌∷◌, ◌++◌, ok}
use skimasque.Prelude.{◌≡◌, ◌∙◌, refl, arith, append_assoc}
use skimasque.Prelude.Bytes.{BytesCrate}
use native.Mathlib.Nat.{mod-eq_of_lt}
use skimasque.Net.{IpAddr, v4, v6, octets, address_bits}
use skimasque.Varint
use skimasque.Varint.Encode.{encode-wire}
use skimasque.ConnectIp.{IpPrefix, IpAddressRange, version}
use skimasque.ConnectIp.Encode.{put_address, put_prefix, put_entry, put_range}
use skimasque.ConnectIp.Wire.{IsPrefix, IsRange, family, wire_prefix, wire_entry, wire_range}

family-lt : (a : IpAddr) → family a < 256
family-lt (v4 _) = omega arith
family-lt (v6 _) = omega arith

bits-lt : (a : IpAddr) (p : ℕ) → p ≤ address_bits a → p < 256
bits-lt (v4 _) p h = omega arith
bits-lt (v6 _) p h = omega arith

module _ ⦃b : BytesCrate⦄ where
  -- A byte is put as itself.
  put_byte : (out : List ℕ) (v : ℕ) → v < 256 → b.put_u8 out v ≡ out ++ (v ∷ [])
  put_byte out v h =
      let low : v / 256 ^ 0 % 256 ≡ v = omega (arith, mod-eq_of_lt h) in rw (b.put_u8-eq, low) refl

  put_prefix-wire :
      (p : IpPrefix) (out : List ℕ) → IsPrefix p → put_prefix p out ≡ out ++ wire_prefix p
  unfolding put_prefix wire_prefix
  put_prefix-wire p out (fits, short, clear) =
      let tag : List ℕ = out ++ (family p.addr ∷ []) in
      let byte : p.prefix_len < 256 = bits-lt p.addr p.prefix_len short in
      rw (put_prefix, put_byte out (family p.addr) (family-lt p.addr), b.put_slice-eq)
        (put_byte (tag ++ octets p.addr) p.prefix_len byte
          ∙ append_assoc tag (octets p.addr) (p.prefix_len ∷ [])
          ∙ append_assoc out (family p.addr ∷ []) (octets p.addr ++ (p.prefix_len ∷ [])))

  pub put_entry-wire :
      (id : ℕ) (p : IpPrefix) (out : List ℕ)
      → id ≤ Varint.max
      → IsPrefix p
      → put_entry id p out ≡ ok (out ++ wire_entry id p)
  unfolding put_entry wire_entry
  put_entry-wire id p out h valid =
      rw
        (
          encode-wire id out h,
          put_prefix-wire p (out ++ Varint.Encode.wire id) valid,
          append_assoc out (Varint.Encode.wire id) (wire_prefix p),
        )
        refl

  pub put_range-wire :
      (r : IpAddressRange) (out : List ℕ) → IsRange r → put_range r out ≡ out ++ wire_range r
  unfolding put_range wire_range put_address
  put_range-wire r out (ends, byte) =
      let tag : List ℕ = out ++ (version r ∷ []) in
      let tail : List ℕ = octets r.end ++ (r.protocol ∷ []) in
      rw
        (
          put_range,
          put_address,
          put_byte out (version r) (family-lt r.start),
          b.put_slice-eq,
          b.put_slice-eq,
        )
        (put_byte ((tag ++ octets r.start) ++ octets r.end) r.protocol byte
          ∙ append_assoc (tag ++ octets r.start) (octets r.end) (r.protocol ∷ [])
          ∙ append_assoc tag (octets r.start) tail
          ∙ append_assoc out (version r ∷ []) (octets r.start ++ tail))
