-- ===== src/Net/Ranges.antt =====
-- The standard library's tests of special addresses, and the ranges of numbers that they are.
use skimasque.Prelude.{
  ℕ, ◌+◌, ◌-◌, ◌*◌, ◌/◌, ◌%◌, ◌^◌, ◌≤◌, ◌<◌, Bool, true, ◌&&◌, ◌||◌, leb, ◌==◌, if◌then◌else◌,
}
use skimasque.Prelude.{◌≡◌, ◌↔◌, ◌⊎◌, arith, Option, none, some}

-- The first two octets of an IPv4 address.
abbrev pub octet0 : ℕ → ℕ
octet0 a = a / 2 ^ 24 % 256

abbrev pub octet1 : ℕ → ℕ
octet1 a = a / 2 ^ 16 % 256

abbrev pub is_loopback_v4 : ℕ → Bool
is_loopback_v4 a = octet0 a == 127

abbrev pub is_link_local_v4 : ℕ → Bool
is_link_local_v4 a = (octet0 a == 169) && (octet1 a == 254)

abbrev pub is_multicast_v4 : ℕ → Bool
is_multicast_v4 a = leb 224 (octet0 a) && leb (octet0 a) 239

abbrev pub is_broadcast_v4 : ℕ → Bool
is_broadcast_v4 a = a == 2 ^ 32 - 1

abbrev pub is_private_v4 : ℕ → Bool
is_private_v4 a =
    (octet0 a == 10)
    || ((octet0 a == 172) && (leb 16 (octet1 a) && leb (octet1 a) 31))
    || ((octet0 a == 192) && (octet1 a == 168))

abbrev pub is_loopback_v6 : ℕ → Bool
is_loopback_v6 a = a == 1

abbrev pub is_multicast_v6 : ℕ → Bool
is_multicast_v6 a = a / 2 ^ 120 == 255

-- `to_ipv4_mapped`: `::ffff:a.b.c.d`
unfoldable pub to_ipv4_mapped : ℕ → Option ℕ
to_ipv4_mapped a = if a / 2 ^ 32 == 65535 then some (a % 2 ^ 32) else none

-- The numbers from `lo` up to but not including `hi`.
abbrev pub InRange : (lo hi a : ℕ) → Type 0
InRange lo hi a = (lo ≤ a) × (a < hi)

-- The IPv4 address `a.b.0.0`.
abbrev pub block : (a b : ℕ) → ℕ
block a b = a * 2 ^ 24 + b * 2 ^ 16

pub is_loopback_v4_iff :
    (a : ℕ) → a < 2 ^ 32 → (is_loopback_v4 a ≡ true) ↔ InRange (block 127 0) (block 128 0) a
is_loopback_v4_iff a h = (λ t. ground arith, λ t. ground arith)

pub is_link_local_v4_iff :
    (a : ℕ) → a < 2 ^ 32 → (is_link_local_v4 a ≡ true) ↔ InRange (block 169 254) (block 169 255) a
is_link_local_v4_iff a h = (λ t. ground arith, λ t. ground arith)

pub is_multicast_v4_iff :
    (a : ℕ)
    → a < 2 ^ 32
    → ((is_multicast_v4 a || is_broadcast_v4 a) ≡ true)
      ↔ (InRange (block 224 0) (block 240 0) a ⊎ (a ≡ 2 ^ 32 - 1))
is_multicast_v4_iff a h = (λ t. ground arith, λ t. ground arith)

pub is_private_v4_iff :
    (a : ℕ)
    → a < 2 ^ 32
    → (is_private_v4 a ≡ true) ↔ (
        InRange (block 10 0) (block 11 0) a
        ⊎ InRange (block 172 16) (block 172 32) a
        ⊎ InRange (block 192 168) (block 192 169) a)
is_private_v4_iff a h = (λ t. ground arith, λ t. ground arith)
