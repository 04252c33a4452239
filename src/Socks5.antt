-- ===== src/Socks5.antt =====
-- crates/skimasque-cli/src/socks5.rs: the addresses and UDP packets of SOCKS5. A function that moves
-- the cursor `input` returns the bytes that the cursor then stands at. A socket address is its
-- IP address and its port; the flow label and the scope of an IPv6 one are not on the wire.
pub mod Packets
use skimasque.Prelude.{
  ℕ, zero, suc, ◌+◌, List, [], ◌∷◌, ◌++◌, Result, ok, err, ◌>>=◌, ltb, leb, ◌==◌, if◌then◌else◌,
  length, take, drop,
}
use skimasque.Prelude.Text.{Text}
use skimasque.Prelude.Bytes.{be_bytes, from_be}
use skimasque.Net.{IpAddr, v4, v6}
use skimasque.Template.Percent.{is_utf8}
use skimasque.Target
use skimasque.Target.{Target, new_target, parse_host}

pub data ProtocolError : Type 0 where
  wrong_version : ℕ → ProtocolError
  unsupported_address_type : ℕ → ProtocolError
  truncated invalid_domain : ProtocolError

pub data Address : Type 0 where
  ip : IpAddr → ℕ → Address
  domain : Text → ℕ → Address

abbrev pub atyp_ipv4 : ℕ
atyp_ipv4 = 1

abbrev pub atyp_domain : ℕ
atyp_domain = 3

abbrev pub atyp_ipv6 : ℕ
atyp_ipv6 = 4

abbrev pub Cursor : Type 0 → Type 0
Cursor A = Result ProtocolError (A × List ℕ)

-- `take(input, len)`
unfoldable pub take_exact : List ℕ → ℕ → Cursor (List ℕ)
take_exact input len =
    if ltb (length input) len then err truncated else ok (take len input, drop len input)

unfoldable pub take_port : List ℕ → Cursor ℕ
take_port input = take_exact input 2 >>= λ (t : List ℕ × List ℕ). ok (from_be 0 (t.0), t.1)

unfoldable pub decode_ip : (family : ℕ → IpAddr) (size : ℕ) → List ℕ → Cursor Address
decode_ip family size input = take_exact input size >>= λ (t : List ℕ × List ℕ).
    take_port (t.1) >>= λ (p : ℕ × List ℕ). ok (ip (family (from_be 0 (t.0))) (p.0), p.1)

abbrev pub as_domain : Text → Result ProtocolError Text
as_domain bytes = if is_utf8 bytes then ok bytes else err invalid_domain

unfoldable pub decode_domain : List ℕ → Cursor Address
decode_domain input = take_exact input 1 >>= λ (l : List ℕ × List ℕ).
    take_exact (l.1) (from_be 0 (l.0)) >>= λ (t : List ℕ × List ℕ).
    as_domain (t.0) >>= λ (n : Text).
    take_port (t.1) >>= λ (p : ℕ × List ℕ). ok (domain n (p.0), p.1)

unfoldable pub decode : List ℕ → Cursor Address
decode [] = err truncated
decode (atyp ∷ rest) =
    if atyp == atyp_ipv4
    then decode_ip v4 4 rest
    else if atyp == atyp_ipv6
    then decode_ip v6 16 rest
    else if atyp == atyp_domain
    then decode_domain rest
    else err (unsupported_address_type atyp)

abbrev pub min : ℕ → ℕ → ℕ
min m n = if leb m n then m else n

unfoldable pub encode_into : Address → List ℕ → List ℕ
encode_into (ip (v4 a) port) out = out ++ (atyp_ipv4 ∷ (be_bytes 4 a ++ be_bytes 2 port))
encode_into (ip (v6 a) port) out = out ++ (atyp_ipv6 ∷ (be_bytes 16 a ++ be_bytes 2 port))
encode_into (domain name port) out =
    let len = min (length name) 255 in
    out ++ (atyp_domain ∷ len ∷ (take len name ++ be_bytes 2 port))

abbrev pub port_of : Address → ℕ
port_of (ip _ port) = port
port_of (domain _ port) = port

-- The target that the address names.
abbrev pub to_target : Address → Result Target.Error Target
to_target (ip a port) = new_target (Target.ip a) port
to_target (domain name port) = parse_host name >>= λ (h : Target.TargetHost). new_target h port

abbrev pub third : List ℕ → ℕ
third (a ∷ b ∷ c ∷ _) = c
third _ = 0

unfoldable pub decode_udp_packet : List ℕ → Result ProtocolError (ℕ × Address × List ℕ)
decode_udp_packet packet = take_exact packet 3 >>= λ (header : List ℕ × List ℕ).
    decode (header.1) >>= λ (d : Address × List ℕ). ok (third (header.0), d.0, d.1)

unfoldable pub encode_udp_packet : (source : Address) (payload : List ℕ) → List ℕ
encode_udp_packet source payload = encode_into source (0 ∷ 0 ∷ 0 ∷ []) ++ payload
