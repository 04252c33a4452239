-- ===== src/ConnectIp/Prefix.antt =====
-- crates/skimasque-core/src/connect_ip.rs: `IpPrefix` and the mask under it.
use skimasque.Prelude.{
  ℕ, zero, suc, ◌+◌, ◌-◌, ◌*◌, ◌/◌, ◌%◌, ◌^◌, ◌≤◌, ◌<◌, Bool, true, false, not, ltb, ◌==◌,
  if◌then◌else◌, bit_and,
}
use skimasque.Prelude.{
  Result, ok, err, ◌≡◌, refl, arith, lt→ltb, le→ltb, ◌&&◌, ◌↔◌, ◌⊎◌, inl, inr, Bool-cases,
}
use native.Mathlib.Decide.{dec_lt}
use skimasque.Prelude.Bits.{and_high_mask, and_low_ones}
use skimasque.Net.{IpAddr, v4, v6, IsAddr, address_bits, addr_eq, is_unspecified}
use skimasque.ConnectIp.{Error, prefix_too_long, prefix_host_bits_set, IpPrefix}
use native.Mathlib.Nat.{one-le-pow, div-lt_iff_lt-mul, div-add-mod'}

-- `u32::MAX << (32 - prefix_len)` and `u128::MAX << (128 - prefix_len)`, at the width `w`.
abbrev pub prefix_mask : ℕ → ℕ → ℕ
prefix_mask w prefix_len = if prefix_len == 0 then 0 else (2 ^ w - 1) * 2 ^ (w - prefix_len) % 2 ^ w

unfoldable pub masked : IpAddr → ℕ → IpAddr
masked (v4 bits) prefix_len = v4 (bit_and bits (prefix_mask 32 prefix_len))
masked (v6 bits) prefix_len = v6 (bit_and bits (prefix_mask 128 prefix_len))

-- `IpPrefix::new`
unfoldable pub new_prefix : IpAddr → ℕ → Result Error IpPrefix
new_prefix addr prefix_len =
    if ltb (address_bits addr) prefix_len
    then err (prefix_too_long prefix_len (address_bits addr))
    else if not (addr_eq (masked addr prefix_len) addr)
    then err (prefix_host_bits_set addr prefix_len)
    else ok (record { addr = addr; prefix_len = prefix_len })

-- `IpPrefix::host`
abbrev pub host : IpAddr → IpPrefix
host addr = record { addr = addr; prefix_len = address_bits addr }

-- `IpPrefix::unspecified`
abbrev pub unspecified : Bool → IpPrefix
unspecified v6? = if v6? then host (v6 0) else host (v4 0)

abbrev pub is_unspecified_host : IpPrefix → Bool
is_unspecified_host p = (p.prefix_len == address_bits p.addr) && is_unspecified p.addr

-- The number that an address is.
abbrev pub bits_of : IpAddr → ℕ
bits_of (v4 a) = a
bits_of (v6 a) = a

-- The mask keeps the multiple of `2 ^ (w - prefix_len)` below the number.
mask_clears :
    (w p a : ℕ) → p ≤ w → a < 2 ^ w → bit_and a (prefix_mask w p) ≡ a / 2 ^ (w - p) * 2 ^ (w - p)
mask_clears w zero a hp ha =
    let none_left : a / 2 ^ w ≡ 0 = omega (
      arith,
      (div-lt_iff_lt-mul {x = a} {y = 1} (one-le-pow w 2 (omega arith))).1 (omega (arith, ha)),
    ) in
    ground (arith, none_left, and_low_ones 0 a)
mask_clears w (suc p) a hp ha = let h = and_high_mask w (suc p) a hp ha in ground (arith, h)

-- No bit is set below the prefix.
abbrev pub IsClear : IpAddr → ℕ → Type 0
IsClear addr p = bits_of addr % 2 ^ (address_bits addr - p) ≡ 0

-- Masking changes nothing exactly when no bit is set below the prefix.
mask_keeps_iff :
    (w p a : ℕ)
    → p ≤ w
    → a < 2 ^ w
    → ((bit_and a (prefix_mask w p) == a) ≡ true) ↔ (a % 2 ^ (w - p) ≡ 0)
mask_keeps_iff w p a hp ha =
    let split : a / 2 ^ (w - p) * 2 ^ (w - p) + a % 2 ^ (w - p) ≡ a =
      div-add-mod' a (2 ^ (w - p)) in
    rw (mask_clears w p a hp ha) (λ h. ground (arith, split, h), λ h. ground (arith, split, h))

-- An address and prefix length make a prefix exactly when no bit is set below the length.
masked_iff :
    (addr : IpAddr) (p : ℕ)
    → IsAddr addr
    → p ≤ address_bits addr
    → (addr_eq (masked addr p) addr ≡ true) ↔ IsClear addr p
unfolding masked
masked_iff (v4 a) p ha hp = mask_keeps_iff 32 p a hp ha
masked_iff (v6 a) p ha hp = mask_keeps_iff 128 p a hp ha

-- `IpPrefix::new` of an address that fits its family has exactly one of three results. It refuses
-- a length above the family's bits as too long. With a length within the bits it returns the
-- prefix of that address and length when no bit of the address is set below the length, and
-- refuses the address for its host bits otherwise.
pub new_prefix_cases :
    (addr : IpAddr) (p : ℕ)
    → IsAddr addr
    → ((address_bits addr < p) × (new_prefix addr p ≡ err (prefix_too_long p (address_bits addr))))
      ⊎ ((p ≤ address_bits addr)
          × IsClear addr p
          × (new_prefix addr p ≡ ok (record { addr = addr; prefix_len = p })))
      ⊎ ((p ≤ address_bits addr)
          × ¬ IsClear addr p
          × (new_prefix addr p ≡ err (prefix_host_bits_set addr p)))
unfolding new_prefix
new_prefix_cases addr p ha = elim (dec_lt (address_bits addr) p) [
  | yes h ↦ inl (h, rw (lt→ltb (address_bits addr) p h) refl)
  | no h ↦
      let le : p ≤ address_bits addr = omega arith in
      let within : ltb (address_bits addr) p ≡ false = le→ltb (address_bits addr) p le in
      let iff : (addr_eq (masked addr p) addr ≡ true) ↔ IsClear addr p = masked_iff addr p ha le in
      inr (elim (Bool-cases (addr_eq (masked addr p) addr)) [
        | inl e ↦ inl (le, iff.0 e, rw (within, e) refl)
        | inr e ↦ inr (le, (λ clear. cc (e, iff.1 clear)), rw (within, e) refl)
      ])
]

pub new_prefix-ok :
    (addr : IpAddr) (p : ℕ)
    → IsAddr addr
    → p ≤ address_bits addr
    → IsClear addr p
    → new_prefix addr p ≡ ok (record { addr = addr; prefix_len = p })
new_prefix-ok addr p ha hp clear = elim (new_prefix_cases addr p ha) [
  | inl (long, _) ↦ absurd (omega arith)
  | inr (inl (_, _, e)) ↦ e
  | inr (inr (_, set, _)) ↦ absurd (set clear)
]
