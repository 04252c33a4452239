-- ===== src/AddressPolicy.antt =====
-- crates/skimasque/src/policy.rs: which resolved addresses the proxy connects to.
-- The networks of the `ipnet` crate and their `contains` are parameters.
pub mod Permits
use skimasque.Prelude.{
  ℕ, ◌-◌, ◌*◌, ◌/◌, ◌^◌, List, [], ◌∷◌, Bool, true, false, not, ◌&&◌, ◌||◌, Option, none, some,
  Result, ok, err, ltb, leb, ◌==◌, if◌then◌else◌, any, bit_and,
}
use skimasque.Net.{IpAddr, v4, v6}
use skimasque.Net.Ranges.{
  octet0, octet1, is_loopback_v4, is_link_local_v4, is_multicast_v4, is_broadcast_v4, is_private_v4,
  is_loopback_v6, is_multicast_v6, to_ipv4_mapped,
}

-- The texts that `permits` refuses with.
pub data Refusal : Type 0 where
  port_not_allowed port_denied unspecified_address loopback_address link_local_address : Refusal
  multicast_or_broadcast multicast_address private_address unique_local_address : Refusal

-- The port sets are the lists of their members.
pub record AddressPolicy (IpNet : Type 0) : Type 0 where
  pub allow_loopback : Bool
  pub allow_private : Bool
  pub allow_link_local : Bool
  pub allow_multicast : Bool
  pub allow_unspecified : Bool
  pub allowed_ports : Option (List ℕ)
  pub denied_ports : List ℕ
  pub allowed_cidrs : List IpNet

-- `AddressPolicy::default`
abbrev pub default : {IpNet : Type 0} → AddressPolicy IpNet
default = record {
  allow_loopback = false;
  allow_private = false;
  allow_link_local = false;
  allow_multicast = false;
  allow_unspecified = false;
  allowed_ports = none;
  denied_ports = [];
  allowed_cidrs = [];
}

abbrev pub permissive : {IpNet : Type 0} → AddressPolicy IpNet
permissive = record {
  allow_loopback = true;
  allow_private = true;
  allow_link_local = true;
  allow_multicast = true;
  allow_unspecified = true;
  allowed_ports = none;
  denied_ports = [];
  allowed_cidrs = [];
}

abbrev pub with_allowed_ports :
    {IpNet : Type 0} → AddressPolicy IpNet → List ℕ → AddressPolicy IpNet
with_allowed_ports p ports = record p { allowed_ports = some ports }

abbrev pub with_allowed_cidrs :
    {IpNet : Type 0} → AddressPolicy IpNet → List IpNet → AddressPolicy IpNet
with_allowed_cidrs p cidrs = record p { allowed_cidrs = cidrs }

unfoldable pub is_shared_v4 : ℕ → Bool
is_shared_v4 a = (octet0 a == 100) && (leb 64 (octet1 a) && ltb (octet1 a) 128)

-- `segments()[0] & 0xffc0 == 0xfe80`
unfoldable pub is_link_local_v6 : ℕ → Bool
is_link_local_v6 a = bit_and (a / 2 ^ 112) 65472 == 65152

-- `segments()[0] & 0xfe00 == 0xfc00`
unfoldable pub is_unique_local_v6 : ℕ → Bool
is_unique_local_v6 a = bit_and (a / 2 ^ 112) 65024 == 64512

unfoldable pub permits_v4 : {IpNet : Type 0} → AddressPolicy IpNet → ℕ → Result Refusal (Unit {0})
permits_v4 p a =
    if (a == 0) && not p.allow_unspecified
    then err unspecified_address
    else if is_loopback_v4 a && not p.allow_loopback
    then err loopback_address
    else if is_link_local_v4 a && not p.allow_link_local
    then err link_local_address
    else if (is_multicast_v4 a || is_broadcast_v4 a) && not p.allow_multicast
    then err multicast_or_broadcast
    else if (is_private_v4 a || is_shared_v4 a) && not p.allow_private
    then err private_address
    else ok tt

unfoldable pub permits_v6 : {IpNet : Type 0} → AddressPolicy IpNet → ℕ → Result Refusal (Unit {0})
permits_v6 p a =
    if (a == 0) && not p.allow_unspecified
    then err unspecified_address
    else if is_loopback_v6 a && not p.allow_loopback
    then err loopback_address
    else if is_link_local_v6 a && not p.allow_link_local
    then err link_local_address
    else if is_multicast_v6 a && not p.allow_multicast
    then err multicast_address
    else if is_unique_local_v6 a && not p.allow_private
    then err unique_local_address
    else ok tt

-- The two tests of the port.
unfoldable pub port_not_listed : Option (List ℕ) → ℕ → Bool
port_not_listed none port = false
port_not_listed (some allowed) port = not (any (λ p. p == port) allowed)

-- An IPv4-mapped address as the IPv4 address that it wraps.
unfoldable pub unwrapped : IpAddr → IpAddr
unwrapped (v4 a) = v4 a
unwrapped (v6 a) = elim (to_ipv4_mapped a) [ none ↦ v6 a | some m ↦ v4 m ]

unfoldable pub permits_ip :
    {IpNet : Type 0} → AddressPolicy IpNet → IpAddr → Result Refusal (Unit {0})
permits_ip p (v4 a) = permits_v4 p a
permits_ip p (v6 a) = permits_v6 p a

module _ {IpNet : Type 0} (contains : IpNet → IpAddr → Bool) where
  unfoldable pub permits : AddressPolicy IpNet → IpAddr → ℕ → Result Refusal (Unit {0})
  permits p addr port =
      if port_not_listed p.allowed_ports port
      then err port_not_allowed
      else if any (λ q. q == port) p.denied_ports
      then err port_denied
      else if any (λ net. contains net (unwrapped addr)) p.allowed_cidrs
      then ok tt
      else permits_ip p (unwrapped addr)
