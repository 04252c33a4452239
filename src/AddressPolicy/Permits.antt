-- ===== src/AddressPolicy/Permits.antt =====
-- crates/skimasque/src/policy.rs: the addresses and ports that `AddressPolicy::permits` accepts.
use skimasque.Prelude.{
  ℕ, ◌-◌, ◌*◌, ◌/◌, ◌^◌, ◌<◌, Bool, true, false, not, ◌&&◌, ◌||◌, Result, ok, err, ◌==◌,
  if◌then◌else◌, any,
}
use skimasque.Prelude.{◌≡◌, ◌↔◌, ◌⊎◌, inl, inr, refl, arith, Bool-cases, ==_iff}
use skimasque.Prelude.Bits.{and_high_ones}
use skimasque.Net.{IpAddr, v4, v6, IsAddr}
use skimasque.Net.Ranges.{
  InRange, block, is_loopback_v4, is_link_local_v4, is_multicast_v4, is_broadcast_v4, is_private_v4,
  is_loopback_v6, is_multicast_v6, to_ipv4_mapped,
}
use skimasque.Net.Ranges.{is_loopback_v4_iff, is_link_local_v4_iff, is_multicast_v4_iff}
use skimasque.AddressPolicy.{
  AddressPolicy, Refusal, is_shared_v4, is_link_local_v6, is_unique_local_v6, permits_v4,
  permits_v6, port_not_listed, unwrapped, permits_ip, permits,
}

is_shared_v4_iff :
    (a : ℕ) → a < 2 ^ 32 → (is_shared_v4 a ≡ true) ↔ InRange (block 100 64) (block 100 128) a
unfolding is_shared_v4
is_shared_v4_iff a h = (λ t. ground arith, λ t. ground arith)

is_link_local_v6_iff :
    (a : ℕ)
    → a < 2 ^ 128
    → (is_link_local_v6 a ≡ true) ↔ InRange (65152 * 2 ^ 112) (65216 * 2 ^ 112) a
unfolding is_link_local_v6
is_link_local_v6_iff a h =
    let mask = and_high_ones 6 10 (a / 2 ^ 112) (omega arith) in
    (λ t. ground (arith, mask), λ t. ground (arith, mask))

is_unique_local_v6_iff :
    (a : ℕ)
    → a < 2 ^ 128
    → (is_unique_local_v6 a ≡ true) ↔ InRange (64512 * 2 ^ 112) (65024 * 2 ^ 112) a
unfolding is_unique_local_v6
is_unique_local_v6_iff a h =
    let mask = and_high_ones 9 7 (a / 2 ^ 112) (omega arith) in
    (λ t. ground (arith, mask), λ t. ground (arith, mask))

-- What each category of addresses needs of a policy: the flag, or to be outside the ranges.
abbrev pub Admits : {IpNet : Type 0} → AddressPolicy IpNet → IpAddr → Type 0
Admits p (v4 a) =
    (a ≡ 0 → p.allow_unspecified ≡ true)
    × ((InRange (block 127 0) (block 128 0) a → p.allow_loopback ≡ true)
        × ((InRange (block 169 254) (block 169 255) a → p.allow_link_local ≡ true)
            × ((InRange (block 224 0) (block 240 0) a ⊎ (a ≡ 2 ^ 32 - 1) → p.allow_multicast ≡ true)
                × ((InRange (block 10 0) (block 11 0) a
                      ⊎ InRange (block 172 16) (block 172 32) a
                      ⊎ InRange (block 192 168) (block 192 169) a
                      ⊎ InRange (block 100 64) (block 100 128) a
                    → p.allow_private ≡ true)))))
Admits p (v6 a) =
    (a ≡ 0 → p.allow_unspecified ≡ true)
    × ((a ≡ 1 → p.allow_loopback ≡ true)
        × ((InRange (65152 * 2 ^ 112) (65216 * 2 ^ 112) a → p.allow_link_local ≡ true)
            × ((InRange (65280 * 2 ^ 112) (2 ^ 128) a → p.allow_multicast ≡ true)
                × ((InRange (64512 * 2 ^ 112) (65024 * 2 ^ 112) a → p.allow_private ≡ true)))))

-- A guard lets through exactly when its test implies its flag, and the rest lets through.
guard_iff :
    (t f : Bool) (e : Refusal) (r : Result Refusal (Unit {0})) {C R : Type 0}
    → (t ≡ true) ↔ C
    → (r ≡ ok tt) ↔ R
    → ((if t && not f then err e else r) ≡ ok tt) ↔ ((C → f ≡ true) × R)
guard_iff true true e r c k = (λ h. ((λ _. refl), k.0 h), λ h. k.1 h.1)
guard_iff true false e r c k = (λ h. absurd (cc (h)), λ h. absurd (cc (h.0 (c.0 refl))))
guard_iff false f e r c k = (λ h. ((λ x. absurd (cc (c.1 x))), k.0 h), λ h. k.1 h.1)

last_guard_iff :
    (t f : Bool) (e : Refusal) {C : Type 0}
    → (t ≡ true) ↔ C
    → (Path (Result Refusal (Unit {0})) (if t && not f then err e else ok tt) (ok tt))
      ↔ (C → f ≡ true)
last_guard_iff true true e c = (λ h _. refl, λ _. refl)
last_guard_iff true false e c = (λ h. absurd (cc (h)), λ h. absurd (cc (h (c.0 refl))))
last_guard_iff false f e c = (λ h x. absurd (cc (c.1 x)), λ _. refl)

is_private_or_shared_iff :
    (a : ℕ)
    → a < 2 ^ 32
    → ((is_private_v4 a || is_shared_v4 a) ≡ true) ↔ (
        InRange (block 10 0) (block 11 0) a
        ⊎ InRange (block 172 16) (block 172 32) a
        ⊎ InRange (block 192 168) (block 192 169) a
        ⊎ InRange (block 100 64) (block 100 128) a)
unfolding is_shared_v4
is_private_or_shared_iff a h = (λ t. ground arith, λ t. ground arith)

is_multicast_v6_iff :
    (a : ℕ) → a < 2 ^ 128 → (is_multicast_v6 a ≡ true) ↔ InRange (65280 * 2 ^ 112) (2 ^ 128) a
is_multicast_v6_iff a h = (λ t. ground arith, λ t. ground arith)

permits_ip_iff :
    {IpNet : Type 0} (p : AddressPolicy IpNet) (addr : IpAddr)
    → IsAddr addr
    → (permits_ip p addr ≡ ok tt) ↔ Admits p addr
unfolding permits_ip permits_v4 permits_v6
permits_ip_iff p (v4 a) h = guard_iff (a == 0) _ _ _ (==_iff a 0) (
    guard_iff (is_loopback_v4 a) _ _ _ (is_loopback_v4_iff a h) (
      guard_iff (is_link_local_v4 a) _ _ _ (is_link_local_v4_iff a h) (
        guard_iff (is_multicast_v4 a || is_broadcast_v4 a) _ _ _ (is_multicast_v4_iff a h)
          (last_guard_iff (is_private_v4 a || is_shared_v4 a) _ _ (is_private_or_shared_iff a h)))))
permits_ip_iff p (v6 a) h = guard_iff (a == 0) _ _ _ (==_iff a 0) (
    guard_iff (is_loopback_v6 a) _ _ _ (==_iff a 1) (
      guard_iff (is_link_local_v6 a) _ _ _ (is_link_local_v6_iff a h) (
        guard_iff (is_multicast_v6 a) _ _ _ (is_multicast_v6_iff a h)
          (last_guard_iff (is_unique_local_v6 a) _ _ (is_unique_local_v6_iff a h)))))

-- An address whose 96 high bits are `::ffff` is the IPv4 address of its low bits, any other is
-- itself.
unwrapped-IsAddr : (addr : IpAddr) → IsAddr addr → IsAddr (unwrapped addr)
unfolding unwrapped to_ipv4_mapped
unwrapped-IsAddr (v4 a) h = h
unwrapped-IsAddr (v6 a) h = elim (Bool-cases (a / 2 ^ 32 == 65535)) [
  | inl e ↦ rw (IsAddr, unwrapped, e) (omega arith)
  | inr e ↦ rw (IsAddr, unwrapped, e) h
]

-- Both tests of the port are passed.
abbrev pub PortPasses : {IpNet : Type 0} → AddressPolicy IpNet → ℕ → Type 0
PortPasses p port =
    (port_not_listed p.allowed_ports port ≡ false) × (any (λ q. q == port) p.denied_ports ≡ false)

module _ {IpNet : Type 0} (contains : IpNet → IpAddr → Bool) where
  -- For an address that fits its family, `AddressPolicy::permits` accepts address and port exactly
  -- when the port passes the port sets, and the address, unwrapped when it is IPv4-mapped, is in
  -- an allow-listed network or in no refused category. The categories are ranges of numbers:
  -- unspecified, loopback, link-local, multicast with IPv4 broadcast, and private with shared and
  -- unique-local addresses, each refused unless the policy's flag for it is set.
  pub permits_iff :
      (p : AddressPolicy IpNet) (addr : IpAddr) (port : ℕ)
      → IsAddr addr
      → (permits contains p addr port ≡ ok tt) ↔ (
          PortPasses p port
          × ((any (λ net. contains net (unwrapped addr)) p.allowed_cidrs ≡ true)
              ⊎ Admits p (unwrapped addr)))
  unfolding permits
  permits_iff p addr port h =
      let own = permits_ip_iff p (unwrapped addr) (unwrapped-IsAddr addr h) in
      elim (Bool-cases (port_not_listed p.allowed_ports port)) [
        | inl e ↦ rw e (λ t. absurd (cc (t)), λ t. absurd (cc (t.0.0)))
        | inr e ↦ elim (Bool-cases (any (λ q. q == port) p.denied_ports)) [
          | inl d ↦ rw (e, d) (λ t. absurd (cc (t)), λ t. absurd (cc (t.0.1)))
          | inr d ↦ elim (Bool-cases (any (λ net. contains net (unwrapped addr)) p.allowed_cidrs)) [
            | inl c ↦ rw (e, d, c) (λ _. ((refl, refl), inl refl), λ _. refl)
            | inr c ↦
                rw (e, d, c)
                  (
                    λ t. ((refl, refl), inr (own.0 t)),
                    λ t. elim (t.1) [ inl x ↦ absurd (cc (x)) | inr x ↦ own.1 x ],
                  )
          ]
        ]
      ]
