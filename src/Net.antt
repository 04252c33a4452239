-- ===== src/Net.antt =====
-- The standard library's IP addresses as the numbers that their octets are, big-endian.
pub mod Display
pub mod Parse
pub mod V4RoundTrip
pub mod Ranges
use skimasque.Prelude.{ℕ, ◌^◌, ◌<◌, List, Bool, true, false, ltb, ◌==◌}
use skimasque.Prelude.Bytes.{be_bytes, from_be}

pub data IpAddr : Type 0 where
  v4 : ℕ → IpAddr
  v6 : ℕ → IpAddr

-- The number fits the family's octets.
abbrev pub IsAddr : IpAddr → Type 0
IsAddr (v4 a) = a < 2 ^ 32
IsAddr (v6 a) = a < 2 ^ 128

-- The number of bits of the family.
abbrev pub address_bits : IpAddr → ℕ
address_bits (v4 _) = 32
address_bits (v6 _) = 128

abbrev pub octets : IpAddr → List ℕ
octets (v4 a) = be_bytes 4 a
octets (v6 a) = be_bytes 16 a

abbrev pub is_ipv4 : IpAddr → Bool
is_ipv4 (v4 _) = true
is_ipv4 (v6 _) = false

-- `a == b`
abbrev pub addr_eq : IpAddr → IpAddr → Bool
addr_eq (v4 a) (v4 b) = a == b
addr_eq (v6 a) (v6 b) = a == b
addr_eq _ _ = false

-- `a < b`: the derived order has every IPv4 address before the IPv6 ones.
abbrev pub addr_lt : IpAddr → IpAddr → Bool
addr_lt (v4 a) (v4 b) = ltb a b
addr_lt (v4 a) (v6 b) = true
addr_lt (v6 a) (v4 b) = false
addr_lt (v6 a) (v6 b) = ltb a b

-- `is_unspecified`
abbrev pub is_unspecified : IpAddr → Bool
is_unspecified (v4 a) = a == 0
is_unspecified (v6 a) = a == 0
