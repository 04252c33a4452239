-- ===== src/Policy/Destination/Parse.antt =====
-- crates/skimasque-policy/src/destination.rs: the parsers of destinations and of their patterns.
use skimasque.Prelude.{
  ℕ, [], ◌∷◌, ◌++◌, Bool, true, false, not, ◌||◌, Option, none, some, ltb, ◌==◌, if◌then◌else◌, any,
  Result, ok, err, ◌>>=◌, ok_or,
}
use skimasque.Prelude.Text.{Text, codes, text_eq, strip_prefix, split_once, rsplit_once}
use skimasque.Prelude.Numbers.{parse_u16}
use skimasque.Prelude.Trim.{trim, contains, strip_last, is_alphanumeric, lowercase}
use skimasque.Net.{IpAddr, address_bits, is_ipv4}
use skimasque.Net.Parse.{parse_ip, and_then}
use skimasque.Policy.Destination.{
  Host, name, ip, Destination, HostPattern, any_host, exact, suffix, ip_literal, cidr, PortPattern,
  any_port, exact_port, range, DestinationSpec,
}

pub data ParseDestinationError : Type 0 where
  empty : Text → ParseDestinationError
  missing_port : Text → ParseDestinationError
  malformed : (value reason : Text) → ParseDestinationError
  bad_port : Text → ParseDestinationError
  bad_prefix : (len : ℕ) (family : Text) → ParseDestinationError

-- `is_empty`
abbrev pub is_empty : Text → Bool
is_empty [] = true
is_empty (_ ∷ _) = false

-- Behind a bracket: the literal up to the closing one, then a colon and the port.
unfoldable pub split_bracketed : Text → Option (Text × Text)
split_bracketed rest = and_then (split_once b']' rest) (λ (r : Text × Text).
    and_then (strip_prefix r.1 (codes ":")) (λ (port : Text). some (r.0, port)))

unfoldable pub split_plain : Text → Option (Text × Text)
split_plain text =
    and_then (rsplit_once b':' text)
      (λ (r : Text × Text). if contains b':' r.0 then none else some r)

unfoldable pub split_after : (text : Text) → Option Text → Option (Text × Text)
split_after text (some rest) = split_bracketed rest
split_after text none = split_plain text

unfoldable pub split_host_port : Text → Option (Text × Text)
split_host_port text = split_after text (strip_prefix text (codes "["))

-- `.filter(|p| *p != 0)`
abbrev pub nonzero : Option ℕ → Option ℕ
nonzero none = none
nonzero (some p) = if p == 0 then none else some p

abbrev pub is_name_byte : ℕ → Bool
is_name_byte c = is_alphanumeric c || ((c == b'-') || ((c == b'.') || (c == b'_')))

abbrev pub unwrap_or {ℓ} : {A : Type ℓ} → Option A → A → A
unwrap_or none a = a
unwrap_or (some b) a = b

-- `host` without the brackets around it, when it has both.
unfoldable pub unbracketed : Text → Text
unbracketed host =
    unwrap_or (and_then (strip_prefix host (codes "[")) (λ (rest : Text). strip_last b']' rest))
      host

unfoldable pub name_or_ip : (host bare : Text) → Option IpAddr → Result ParseDestinationError Host
name_or_ip host bare (some a) = ok (ip a)
name_or_ip host bare none =
    if any (λ c. not (is_name_byte c)) bare
    then err (malformed host (codes "the host contains an illegal character"))
    else ok (name (lowercase bare))

unfoldable pub parse_host_literal : Text → Result ParseDestinationError Host
parse_host_literal host =
    if is_empty host
    then err (malformed host (codes "the host is empty"))
    else name_or_ip host (unbracketed host) (parse_ip (unbracketed host))

-- `Destination::parse`
unfoldable pub parse : Text → Result ParseDestinationError Destination
parse input =
    let text = trim input in
    if is_empty text
    then err (empty input)
    else (ok_or (split_host_port text) (missing_port input) >>= λ (parts : Text × Text).
        ok_or (nonzero (parse_u16 parts.1)) (bad_port parts.1) >>= λ (p : ℕ).
        parse_host_literal parts.0 >>= λ (h : Host). ok (record { host = h; port = p }))

unfoldable pub parse_range : (text : Text) → Text × Text → Result ParseDestinationError PortPattern
parse_range text bounds = ok_or (parse_u16 bounds.0) (bad_port text) >>= λ (lo : ℕ).
    ok_or (parse_u16 bounds.1) (bad_port text) >>= λ (hi : ℕ).
    if (lo == 0) || ((hi == 0) || ltb hi lo) then err (bad_port text) else ok (range lo hi)

-- A range when there is a hyphen, one port otherwise.
unfoldable pub port_or_range :
    (text : Text) → Option (Text × Text) → Result ParseDestinationError PortPattern
port_or_range text (some bounds) = parse_range text bounds
port_or_range text none =
    ok_or (nonzero (parse_u16 text)) (bad_port text) >>= λ (p : ℕ). ok (exact_port p)

unfoldable pub parse_port_pattern : Text → Result ParseDestinationError PortPattern
parse_port_pattern text =
    if text_eq text (codes "*") then ok any_port else port_or_range text (split_once b'-' text)

abbrev pub family : IpAddr → Text
family a = if is_ipv4 a then codes "IPv4" else codes "IPv6"

-- A block, which has no port.
unfoldable pub parse_cidr :
    (input raw : Text) → Text × Text → Result ParseDestinationError DestinationSpec
parse_cidr input raw_text parts =
    ok_or (parse_ip parts.0) (malformed input (codes "the part before / is not an IP address"))
    >>= λ (a : IpAddr).
        ok_or (parse_u16 parts.1) (malformed input (codes "the prefix length is not a number"))
        >>= λ (n : ℕ).
            if ltb (address_bits a) n
            then err (bad_prefix n (family a))
            else ok (record { host = cidr a n; port = any_port; raw = raw_text })

unfoldable pub parse_suffix : (input rest : Text) → Result ParseDestinationError HostPattern
parse_suffix input rest =
    if is_empty rest || contains b'*' rest
    then err (malformed input (codes "a wildcard host must be *.<domain>"))
    else ok (suffix (codes "." ++ lowercase rest))

unfoldable pub literal_pattern : Host → HostPattern
literal_pattern (name n) = exact n
literal_pattern (ip a) = ip_literal a

unfoldable pub address_or_literal :
    (host_part : Text) → Option IpAddr → Result ParseDestinationError HostPattern
address_or_literal host_part (some a) = ok (ip_literal a)
address_or_literal host_part none =
    parse_host_literal host_part >>= λ (h : Host). ok (literal_pattern h)

unfoldable pub wildcard_or_literal :
    (input host_part : Text) → Option Text → Result ParseDestinationError HostPattern
wildcard_or_literal input host_part (some rest) = parse_suffix input rest
wildcard_or_literal input host_part none = address_or_literal host_part (parse_ip host_part)

unfoldable pub parse_host_pattern :
    (input host_part : Text) → Result ParseDestinationError HostPattern
parse_host_pattern input host_part =
    if text_eq host_part (codes "*")
    then ok any_host
    else wildcard_or_literal input host_part (strip_prefix host_part (codes "*."))

-- A host with a port, or with none.
unfoldable pub split_spec :
    (text : Text) → Option (Text × Text) → Result ParseDestinationError (Text × PortPattern)
split_spec text (some parts) = parse_port_pattern parts.1 >>= λ (p : PortPattern). ok (parts.0, p)
split_spec text none = ok (text, any_port)

unfoldable pub parse_host_spec : (input text : Text) → Result ParseDestinationError DestinationSpec
parse_host_spec input text =
    split_spec text (split_host_port text) >>= λ (parts : Text × PortPattern).
    parse_host_pattern input parts.0 >>= λ (h : HostPattern).
    ok (record { host = h; port = parts.1; raw = text })

unfoldable pub cidr_or_host :
    (input text : Text) → Option (Text × Text) → Result ParseDestinationError DestinationSpec
cidr_or_host input text (some parts) = parse_cidr input text parts
cidr_or_host input text none = parse_host_spec input text

-- `DestinationSpec::parse`
unfoldable pub parse_spec : Text → Result ParseDestinationError DestinationSpec
parse_spec input =
    let text = trim input in
    if is_empty text
    then err (empty input)
    else if text_eq text (codes "*")
    then ok (record { host = any_host; port = any_port; raw = text })
    else cidr_or_host input text (split_once b'/' text)
