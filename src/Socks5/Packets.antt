-- ===== src/Socks5/Packets.antt =====
-- crates/skimasque-cli/src/socks5.rs: what `encode_udp_packet` writes, `decode_udp_packet` reads.
use skimasque.Prelude.{ℕ, ◌^◌, ◌≤◌, ◌<◌, List, [], ◌∷◌, ◌++◌, true, false, ok, ltb, leb, length}
use skimasque.Prelude.{
  ◌≡◌, refl, arith, length-append, take-append_self, drop-append_self, append_assoc, le→ltb,
  take_all,
}
use skimasque.Prelude.Text.{Text}
use skimasque.Prelude.Bytes.{be_bytes, from_be, from_be-be_bytes, length-be_bytes}
use mathlib.Core.Path.{subst}
use native.Mathlib.Nat.{mod-eq_of_lt}
use skimasque.Net.{IpAddr, v4, v6, IsAddr}
use skimasque.Template.Percent.{is_utf8}
use skimasque.Socks5.{
  Address, ip, domain, take_exact, take_port, decode_ip, decode_domain, decode, encode_into,
  decode_udp_packet, encode_udp_packet,
}

-- An address that SOCKS5 can express.
abbrev pub IsSocksAddress : Address → Type 0
IsSocksAddress (ip a port) = IsAddr a × (port < 2 ^ 16)
IsSocksAddress (domain name port) = (is_utf8 name ≡ true) × (length name ≤ 255) × (port < 2 ^ 16)

take_exact-append : (xs ys : List ℕ) → take_exact (xs ++ ys) (length xs) ≡ ok (xs, ys)
unfolding take_exact
take_exact-append xs ys =
    let enough : ltb (length (xs ++ ys)) (length xs) ≡ false =
      le→ltb (length (xs ++ ys)) (length xs) (omega (arith, length-append xs ys)) in
    rw (enough, take-append_self xs ys, drop-append_self xs ys) refl

take_exact-be_bytes :
    (n a : ℕ) (rest : List ℕ) → take_exact (be_bytes n a ++ rest) n ≡ ok (be_bytes n a, rest)
take_exact-be_bytes n a rest =
    subst (λ (t : ℕ). take_exact (be_bytes n a ++ rest) t ≡ ok (be_bytes n a, rest))
      (length-be_bytes n a) (take_exact-append (be_bytes n a) rest)

number : (n a : ℕ) → a < 256 ^ n → from_be 0 (be_bytes n a) ≡ a
number n a h = omega (arith, from_be-be_bytes n 0 a, mod-eq_of_lt h)

take_port-be_bytes :
    (p : ℕ) (rest : List ℕ) → p < 2 ^ 16 → take_port (be_bytes 2 p ++ rest) ≡ ok (p, rest)
unfolding take_port
take_port-be_bytes p rest h = rw (take_exact-be_bytes 2 p rest, number 2 p h) refl

decode_ip-be_bytes :
    (f : ℕ → IpAddr) (n a p : ℕ) (rest : List ℕ)
    → a < 256 ^ n
    → p < 2 ^ 16
    → decode_ip f n (be_bytes n a ++ (be_bytes 2 p ++ rest)) ≡ ok (ip (f a) p, rest)
unfolding decode_ip
decode_ip-be_bytes f n a p rest h k =
    rw (take_exact-be_bytes n a (be_bytes 2 p ++ rest), take_port-be_bytes p rest k, number n a h)
      refl

one_byte : (n : ℕ) → from_be 0 (n ∷ []) ≡ n
one_byte n = omega arith

decode_domain-name :
    (name : Text) (p : ℕ) (rest : List ℕ)
    → is_utf8 name ≡ true
    → p < 2 ^ 16
    → decode_domain (length name ∷ (name ++ (be_bytes 2 p ++ rest))) ≡ ok (domain name p, rest)
unfolding decode_domain
decode_domain-name name p rest u k =
    rw
      (
        take_exact-append (length name ∷ []) (name ++ (be_bytes 2 p ++ rest)),
        one_byte (length name),
        take_exact-append name (be_bytes 2 p ++ rest),
        u,
        take_port-be_bytes p rest k,
      )
      refl

-- The address that is written is read back and what follows it is left.
decode-encode_into :
    (a : Address) (rest : List ℕ)
    → IsSocksAddress a
    → decode (encode_into a [] ++ rest) ≡ ok (a, rest)
unfolding decode encode_into
decode-encode_into (ip (v4 a) p) rest (h, k) =
    rw (append_assoc (be_bytes 4 a) (be_bytes 2 p) rest) (decode_ip-be_bytes v4 4 a p rest h k)
decode-encode_into (ip (v6 a) p) rest (h, k) =
    rw (append_assoc (be_bytes 16 a) (be_bytes 2 p) rest) (decode_ip-be_bytes v6 16 a p rest h k)
decode-encode_into (domain name p) rest (u, l, k) =
    let short : leb (length name) 255 ≡ true = ground arith in
    rw (short, take_all (length name) name refl, append_assoc name (be_bytes 2 p) rest)
      (decode_domain-name name p rest u k)

encode_into_out : (a : Address) (out : List ℕ) → encode_into a out ≡ out ++ encode_into a []
unfolding encode_into
encode_into_out (ip (v4 a) p) out = refl
encode_into_out (ip (v6 a) p) out = refl
encode_into_out (domain name p) out = refl

-- For an IPv4 or IPv6 address that fits its family, or a name in UTF-8 of at most 255 bytes, with
-- a 16-bit port, and any payload: `decode_udp_packet` reads from what `encode_udp_packet` writes
-- the fragment number 0, the same address and port, and the payload.
pub decode_udp_packet-encode_udp_packet :
    (source : Address) (payload : List ℕ)
    → IsSocksAddress source
    → decode_udp_packet (encode_udp_packet source payload) ≡ ok (0, source, payload)
unfolding decode_udp_packet encode_udp_packet
decode_udp_packet-encode_udp_packet source payload h =
    rw
      (
        encode_into_out source (0 ∷ 0 ∷ 0 ∷ []),
        take_exact-append (0 ∷ 0 ∷ 0 ∷ []) (encode_into source [] ++ payload),
        decode-encode_into source payload h,
      )
      refl
