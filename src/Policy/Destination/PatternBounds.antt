-- ===== src/Policy/Destination/PatternBounds.antt =====
-- crates/skimasque-policy/src/destination.rs: what the parser of patterns lets through.
use skimasque.Prelude.{
  ℕ, ◌≤◌, [], ◌∷◌, false, ◌||◌, Option, none, some, All, ok, ok_or, ◌==◌, ltb, Post, Post-bind,
  Post-skip, Post-ok_or, Post-if, Post_returns,
}
use skimasque.Prelude.{◌≡◌, refl, or_false, arith}
use skimasque.Prelude.Text.{Text, codes, text_eq, strip_prefix, split_once}
use skimasque.Prelude.Numbers.{parse_u16, parse_number_bound}
use skimasque.Prelude.Trim.{trim, contains, lowercase}
use skimasque.Net.{IpAddr, address_bits}
use skimasque.Net.Parse.{parse_ip}
use skimasque.Policy.Destination.{
  Host, name, ip, HostPattern, exact, suffix, cidr, PortPattern, any_port, exact_port, range,
  DestinationSpec,
}
use skimasque.Policy.Destination.Parse.{
  bad_port, is_empty, split_host_port, nonzero, parse_host_literal, parse_range, port_or_range,
  parse_port_pattern, parse_cidr, parse_suffix, literal_pattern, address_or_literal,
  wildcard_or_literal, parse_host_pattern, split_spec, parse_host_spec, cidr_or_host, parse_spec,
}
use skimasque.Policy.Destination.NameBytes.{IsNameByte}
use skimasque.Policy.Destination.Bounds.{IsHost, parse_host_literal-IsHost, nonzero-IsPort}
use skimasque.Policy.Destination.RoundTrip.{IsPort}

abbrev pub IsPortPattern : PortPattern → Type 0
IsPortPattern any_port = Unit
IsPortPattern (exact_port p) = IsPort p
IsPortPattern (range lo hi) = IsPort lo × (lo ≤ hi) × IsPort hi

-- A suffix starts with the dot and holds no star.
abbrev pub IsHostPattern : HostPattern → Type 0
IsHostPattern (exact n) = All IsNameByte n
IsHostPattern (suffix t) = (s : Text) × (t ≡ b'.' ∷ s) × (is_empty s ≡ false)
IsHostPattern (cidr a len) = len ≤ address_bits a
IsHostPattern _ = Unit

abbrev pub IsSpec : (input : Text) → DestinationSpec → Type 0
IsSpec input s = IsHostPattern s.host × IsPortPattern s.port × (s.raw ≡ trim input)

range-IsPortPattern :
    (lo hi : ℕ)
    → lo ≤ 65535
    → hi ≤ 65535
    → ((lo == 0) || ((hi == 0) || ltb hi lo)) ≡ false
    → IsPortPattern (range lo hi)
range-IsPortPattern lo hi h k e =
    ((ground arith, omega (arith, h)), ground arith, (ground arith, omega (arith, k)))

parse_range-IsPortPattern :
    (text : Text) (b : Text × Text) → Post IsPortPattern (parse_range text b)
unfolding parse_range
parse_range-IsPortPattern text b =
    Post-bind (λ lo. lo ≤ 65535) IsPortPattern (ok_or (parse_u16 b.0) (bad_port text)) _
      (Post-ok_or (λ lo. lo ≤ 65535) (parse_u16 b.0) _ (parse_number_bound 65535 10 b.0))
      (λ lo h.
        Post-bind (λ hi. hi ≤ 65535) IsPortPattern (ok_or (parse_u16 b.1) (bad_port text)) _
          (Post-ok_or (λ hi. hi ≤ 65535) (parse_u16 b.1) _ (parse_number_bound 65535 10 b.1))
          (λ hi k.
            Post-if IsPortPattern ((lo == 0) || ((hi == 0) || ltb hi lo)) _ _ (λ _. tt)
              (range-IsPortPattern lo hi h k)))

port_or_range-IsPortPattern :
    (text : Text) (o : Option (Text × Text)) → Post IsPortPattern (port_or_range text o)
unfolding port_or_range
port_or_range-IsPortPattern text (some b) = parse_range-IsPortPattern text b
port_or_range-IsPortPattern text none =
    Post-bind IsPort IsPortPattern (ok_or (nonzero (parse_u16 text)) (bad_port text)) _
      (Post-ok_or IsPort (nonzero (parse_u16 text)) _ (nonzero-IsPort text)) (λ p port. port)

split_spec-IsPortPattern :
    (text : Text) (o : Option (Text × Text))
    → Post (λ (r : Text × PortPattern). IsPortPattern r.1) (split_spec text o)
unfolding split_spec parse_port_pattern
split_spec-IsPortPattern text none = tt
split_spec-IsPortPattern text (some parts) =
    Post-bind IsPortPattern (λ (r : Text × PortPattern). IsPortPattern r.1)
      (parse_port_pattern parts.1) _
      (Post-if IsPortPattern (text_eq parts.1 (codes "*")) _ _ (λ _. tt)
        (λ _. port_or_range-IsPortPattern parts.1 (split_once b'-' parts.1)))
      (λ p port. port)

literal_pattern-IsHostPattern : (h : Host) → IsHost h → IsHostPattern (literal_pattern h)
unfolding literal_pattern
literal_pattern-IsHostPattern (name n) h = h
literal_pattern-IsHostPattern (ip a) h = tt

address_or_literal-IsHostPattern :
    (host : Text) (o : Option IpAddr) → Post IsHostPattern (address_or_literal host o)
unfolding address_or_literal literal_pattern
address_or_literal-IsHostPattern host (some a) = tt
address_or_literal-IsHostPattern host none =
    Post-bind IsHost IsHostPattern (parse_host_literal host) _ (parse_host_literal-IsHost host)
      literal_pattern-IsHostPattern

is_empty-lowercase : (t : Text) → is_empty t ≡ false → is_empty (lowercase t) ≡ false
is_empty-lowercase [] h = h
is_empty-lowercase (c ∷ t) h = h

parse_suffix-IsHostPattern : (input rest : Text) → Post IsHostPattern (parse_suffix input rest)
unfolding parse_suffix
parse_suffix-IsHostPattern input rest =
    Post-if IsHostPattern (is_empty rest || contains b'*' rest) _ _ (λ _. tt)
      (λ e. (
        lowercase rest,
        refl,
        is_empty-lowercase rest (or_false (is_empty rest) (contains b'*' rest) e).0,
      ))

wildcard_or_literal-IsHostPattern :
    (input host : Text) (o : Option Text) → Post IsHostPattern (wildcard_or_literal input host o)
unfolding wildcard_or_literal
wildcard_or_literal-IsHostPattern input host (some rest) = parse_suffix-IsHostPattern input rest
wildcard_or_literal-IsHostPattern input host none =
    address_or_literal-IsHostPattern host (parse_ip host)

parse_host_pattern-IsHostPattern :
    (input host : Text) → Post IsHostPattern (parse_host_pattern input host)
unfolding parse_host_pattern
parse_host_pattern-IsHostPattern input host =
    Post-if IsHostPattern (text_eq host (codes "*")) _ _ (λ _. tt)
      (λ _. wildcard_or_literal-IsHostPattern input host (strip_prefix host (codes "*.")))

module _ (input : Text) where
  parse_host_spec-IsSpec : Post (IsSpec input) (parse_host_spec input (trim input))
  unfolding parse_host_spec
  parse_host_spec-IsSpec =
      Post-bind (λ (r : Text × PortPattern). IsPortPattern r.1) (IsSpec input)
        (split_spec (trim input) (split_host_port (trim input))) _
        (split_spec-IsPortPattern (trim input) (split_host_port (trim input)))
        (λ parts port.
          Post-bind IsHostPattern (IsSpec input) (parse_host_pattern input parts.0) _
            (parse_host_pattern-IsHostPattern input parts.0) (λ h host. (host, port, refl)))

  parse_cidr-IsSpec :
      (parts : Text × Text) → Post (IsSpec input) (parse_cidr input (trim input) parts)
  unfolding parse_cidr
  parse_cidr-IsSpec parts = Post-skip (IsSpec input) (ok_or (parse_ip parts.0) _) _ (λ a.
      Post-skip (IsSpec input) (ok_or (parse_u16 parts.1) _) _ (λ n.
        Post-if (IsSpec input) (ltb (address_bits a) n) _ _ (λ _. tt)
          (λ e. (ground arith, tt, refl))))

  cidr_or_host-IsSpec :
      (o : Option (Text × Text)) → Post (IsSpec input) (cidr_or_host input (trim input) o)
  unfolding cidr_or_host
  cidr_or_host-IsSpec (some parts) = parse_cidr-IsSpec parts
  cidr_or_host-IsSpec none = parse_host_spec-IsSpec

  parse_spec-Post : Post (IsSpec input) (parse_spec input)
  unfolding parse_spec
  parse_spec-Post =
      Post-if (IsSpec input) (is_empty (trim input)) _ _ (λ _. tt)
        (λ _.
          Post-if (IsSpec input) (text_eq (trim input) (codes "*")) _ _ (λ _. (tt, tt, refl))
            (λ _. cidr_or_host-IsSpec (split_once b'/' (trim input))))

-- Whatever text `DestinationSpec::parse` accepts, the pattern is well-formed: its text is the
-- input without the white space around it; an exact port and both ends of a range are from 1 to
-- 65535, and a range does not run backwards; the prefix length of a block is within the bits of
-- its family; an exact name has only the letters, digits and signs of names, in lowercase; and a
-- suffix is a dot with something behind it.
pub parse_spec_bounds :
    (input : Text) (s : DestinationSpec) → parse_spec input ≡ ok s → IsSpec input s
parse_spec_bounds input s e =
    Post_returns (IsSpec input) (parse_spec input) s (parse_spec-Post input) e
