-- ===== src/Policy/Destination/Bounds.antt =====
-- crates/skimasque-policy/src/destination.rs: what the parsers let through.
use skimasque.Prelude.{
  ℕ, ◌≤◌, [], ◌∷◌, true, false, not, Option, none, some, All, ok, err, ok_or, ◌==◌, any, Bool-cases,
  Option-cases, Post, Post-bind, Post-skip, Post-ok_or, Post-if, Post_returns,
}
use skimasque.Prelude.{◌≡◌, inl, inr, arith}
use skimasque.Prelude.Text.{Text, codes, lower}
use skimasque.Prelude.Numbers.{parse_u16, parse_number_bound}
use skimasque.Prelude.Trim.{trim, lowercase}
use skimasque.Net.{IpAddr}
use skimasque.Net.Parse.{parse_ip}
use skimasque.Policy.Destination.{Host, name, ip, Destination}
use skimasque.Policy.Destination.Parse.{
  missing_port, malformed, bad_port, is_empty, split_host_port, nonzero, is_name_byte, unbracketed,
  name_or_ip, parse_host_literal, parse,
}
use skimasque.Policy.Destination.NameBytes.{IsNameByte}
use skimasque.Policy.Destination.RoundTrip.{IsPort}

lower-IsNameByte : (c : ℕ) → is_name_byte c ≡ true → IsNameByte (lower c)
lower-IsNameByte c h = (ground arith, ground arith)

lowercase-IsNameByte :
    (t : Text) → any (λ c. not (is_name_byte c)) t ≡ false → All IsNameByte (lowercase t)
lowercase-IsNameByte [] h = tt
lowercase-IsNameByte (c ∷ t) h = elim (Bool-cases (is_name_byte c)) [
  | inl e ↦ (lower-IsNameByte c e, lowercase-IsNameByte t (rw e at h))
  | inr e ↦ absurd (let k = rw e at h in cc (k))
]

-- Names are of name bytes in lowercase.
abbrev pub IsHost : Host → Type 0
IsHost (name n) = All IsNameByte n
IsHost (ip _) = Unit

name_or_ip-IsHost : (host bare : Text) (o : Option IpAddr) → Post IsHost (name_or_ip host bare o)
unfolding name_or_ip
name_or_ip-IsHost host bare (some a) = tt
name_or_ip-IsHost host bare none =
    Post-if IsHost (any (λ c. not (is_name_byte c)) bare)
      (err (malformed host (codes "the host contains an illegal character")))
      (ok (name (lowercase bare))) (λ _. tt) (lowercase-IsNameByte bare)

pub parse_host_literal-IsHost : (host : Text) → Post IsHost (parse_host_literal host)
unfolding parse_host_literal
parse_host_literal-IsHost host =
    Post-if IsHost (is_empty host) (err (malformed host (codes "the host is empty")))
      (name_or_ip host (unbracketed host) (parse_ip (unbracketed host))) (λ _. tt)
      (λ _. name_or_ip-IsHost host (unbracketed host) (parse_ip (unbracketed host)))

nonzero_bound : (a p : ℕ) → a ≤ 65535 → nonzero (some a) ≡ some p → IsPort p
nonzero_bound a p h e = elim (Bool-cases (a == 0)) [
  | inl z ↦ absurd (let k = rw z at e in cc (k))
  | inr z ↦ let l = rw z at e in let k : a ≡ p = cc in ground arith
]

pub nonzero-IsPort : (t : Text) (p : ℕ) → nonzero (parse_u16 t) ≡ some p → IsPort p
nonzero-IsPort t p h = elim (Option-cases (parse_u16 t)) [
  | inl e ↦ absurd (let k = rw e at h in cc (k))
  | inr (a, e) ↦ nonzero_bound a p (parse_number_bound 65535 10 t a e) (rw e at h)
]

abbrev pub IsDestination : Destination → Type 0
IsDestination d = IsPort d.port × IsHost d.host

parse-Post : (input : Text) → Post IsDestination (parse input)
unfolding parse
parse-Post input =
    Post-if IsDestination (is_empty (trim input)) _ _ (λ _. tt)
      (λ _.
        Post-skip IsDestination (ok_or (split_host_port (trim input)) (missing_port input)) _
          (λ parts.
            Post-bind IsPort IsDestination (ok_or (nonzero (parse_u16 parts.1)) (bad_port parts.1))
              _ (Post-ok_or IsPort (nonzero (parse_u16 parts.1)) _ (nonzero-IsPort parts.1))
              (λ p port.
                Post-bind IsHost IsDestination (parse_host_literal parts.0) _
                  (parse_host_literal-IsHost parts.0) (λ h host. (port, host)))))

-- Whatever text `Destination::parse` accepts, the destination's port is from 1 to 65535, and a
-- host that is a name has only the letters, digits and signs of names, in lowercase.
pub parse_bounds : (input : Text) (d : Destination) → parse input ≡ ok d → IsDestination d
parse_bounds input d e = Post_returns IsDestination (parse input) d (parse-Post input) e
