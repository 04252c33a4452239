-- ===== src/Policy/Destination.antt =====
-- crates/skimasque-policy/src/destination.rs: destinations and the patterns that match them.
-- The parsers of both are not here.
pub mod LeadingBytes
pub mod Cidr
pub mod Parse
pub mod NameBytes
pub mod RoundTrip
pub mod Pattern
pub mod Bounds
pub mod PatternBounds
use skimasque.Prelude.{
  ℕ, ◌/◌, ◌%◌, ◌*◌, ◌-◌, ◌^◌, List, [], ◌∷◌, ◌++◌, Bool, true, false, not, ◌&&◌, ltb, leb, ◌==◌,
  if◌then◌else◌, bit_and, take, drop,
}
use skimasque.Prelude.Text.{Text, codes, text_eq, ends_with, show_nat}
use skimasque.Net.{IpAddr, v4, v6, addr_eq, octets}
use skimasque.Net.Display.{show_ip}

pub data Host : Type 0 where
  name : Text → Host
  ip : IpAddr → Host

pub record Destination : Type 0 where
  pub host : Host
  pub port : ℕ

-- `impl Display for Destination`
abbrev pub show : Destination → Text
show d = elim d.host [
  | name n ↦ n ++ codes ":" ++ show_nat d.port
  | ip (v4 a) ↦ show_ip (v4 a) ++ codes ":" ++ show_nat d.port
  | ip (v6 a) ↦ codes "[" ++ show_ip (v6 a) ++ codes "]:" ++ show_nat d.port
]

pub data HostPattern : Type 0 where
  any_host : HostPattern
  exact : Text → HostPattern
  suffix : Text → HostPattern
  ip_literal : IpAddr → HostPattern
  cidr : (addr : IpAddr) (len : ℕ) → HostPattern

pub data PortPattern : Type 0 where
  any_port : PortPattern
  exact_port : ℕ → PortPattern
  range : (lo hi : ℕ) → PortPattern

-- `PortPattern::matches`
unfoldable pub port_matches : PortPattern → ℕ → Bool
port_matches any_port port = true
port_matches (exact_port p) port = p == port
port_matches (range lo hi) port = leb lo port && leb port hi

pub record DestinationSpec : Type 0 where
  pub host : HostPattern
  pub port : PortPattern
  pub raw : Text

-- The byte at an index of an address that is long enough for it.
abbrev pub byte_at : List ℕ → ℕ → ℕ
byte_at bytes i = elim (drop i bytes) [ [] ↦ 0 | b ∷ _ ↦ b ]

unfoldable pub bits_match : (net got : List ℕ) (len : ℕ) → Bool
bits_match net got len =
    let whole = len / 8 in
    let remainder = len % 8 in
    let mask = 255 * 2 ^ (8 - remainder) % 2 ^ 8 in
    if not (text_eq (take whole net) (take whole got))
    then false
    else if remainder == 0
    then true
    else bit_and (byte_at net whole) mask == bit_and (byte_at got whole) mask

unfoldable pub cidr_contains : (addr : IpAddr) (len : ℕ) (candidate : IpAddr) → Bool
cidr_contains (v4 net) len (v4 got) = bits_match (octets (v4 net)) (octets (v4 got)) len
cidr_contains (v6 net) len (v6 got) = bits_match (octets (v6 net)) (octets (v6 got)) len
cidr_contains _ len _ = false

unfoldable pub host_matches : HostPattern → Host → Bool
host_matches any_host host = true
host_matches (exact want) (name got) = text_eq want got
host_matches (suffix s) (name got) = ends_with got s
host_matches (ip_literal want) (ip got) = addr_eq want got
host_matches (cidr addr len) (ip got) = cidr_contains addr len got
host_matches _ _ = false

-- `DestinationSpec::matches`
unfoldable pub spec_matches : DestinationSpec → Destination → Bool
spec_matches spec destination =
    port_matches spec.port destination.port && host_matches spec.host destination.host
