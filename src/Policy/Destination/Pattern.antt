-- ===== src/Policy/Destination/Pattern.antt =====
-- crates/skimasque-policy/src/destination.rs: the text of a destination parsed as a pattern.
use skimasque.Prelude.{
  ℕ, suc, [], ◌∷◌, ◌++◌, Bool, true, false, none, All, ok, ==_iff, if◌then◌else◌,
}
use skimasque.Prelude.{◌≡◌, refl, and_true, ap, ap₂, sym, ◌∙◌, ◌↔◌, arith}
use mathlib.Core.Path.{subst}
use skimasque.Prelude.Text.{Text, codes, text_eq, strip_prefix, split_once, show_nat, text_eq_iff}
use skimasque.Prelude.Numbers.{digits_of_starts, digits_of-IsDigit}
use skimasque.Prelude.Split.{split_once_absent, contains-append, strip_prefix_other, text_eq_other}
use skimasque.Net.{v4, v6}
use skimasque.Net.Display.{show_v4, show_ip}
use skimasque.Net.Parse.{parse_ip}
use skimasque.Net.V4RoundTrip.{parse_ip-show_v4}
use skimasque.Policy.Destination.{
  Host, name, ip, Destination, show, DestinationSpec, any_port, exact_port, spec_matches,
  host_matches, port_matches,
}
use skimasque.Policy.Destination.Parse.{
  parse_spec, parse_host_spec, parse_host_pattern, parse_port_pattern, literal_pattern, split_spec,
  cidr_or_host, port_or_range, wildcard_or_literal, address_or_literal,
}
use skimasque.Policy.Destination.NameBytes.{IsNameByte, contains_none, differs, no_hyphen}
use skimasque.Policy.Destination.RoundTrip.{
  IsPlainHost, IsPort, IsPlain, host_text, host_text-IsNameByte, host_text_starts, with_port,
  show-with_port, show_nat-IsNameByte, trim-with_port, split_host_port-with_port,
  is_empty-with_port, nonzero-parse_u16, parse_host_literal-host_text,
}

abbrev pub exactly : Destination → DestinationSpec
exactly d = record { host = literal_pattern d.host; port = exact_port d.port; raw = show d }

-- A text of name bytes holds none of the separators and is no wildcard.
module _ (t : Text) (h : All IsNameByte t) (c : ℕ) (s : Text) (e : t ≡ c ∷ s) where
  first : IsNameByte c
  first = (subst (All IsNameByte) e h).0

  no_star : text_eq t (codes "*") ≡ false
  no_star =
      ap (λ (x : Text). text_eq x (codes "*")) e
      ∙ text_eq_other c b'*' s [] (differs b'*' refl c first)

  no_wildcard : strip_prefix t (codes "*.") ≡ none
  no_wildcard =
      ap (λ (x : Text). strip_prefix x (codes "*.")) e
      ∙ strip_prefix_other c b'*' s (codes ".") (differs b'*' refl c first)

port_or_range-show_nat :
    (p : ℕ)
    → IsPort p
    → port_or_range (show_nat p) (split_once b'-' (show_nat p)) ≡ ok (exact_port p)
unfolding port_or_range
port_or_range-show_nat p h =
    ap (port_or_range (show_nat p))
      (split_once_absent b'-' (show_nat p) (no_hyphen (show_nat p) (digits_of-IsDigit (suc p) p)))
    ∙ rw (nonzero-parse_u16 p h) refl

parse_port_pattern-show_nat :
    (p : ℕ) → IsPort p → parse_port_pattern (show_nat p) ≡ ok (exact_port p)
unfolding parse_port_pattern
parse_port_pattern-show_nat p h =
    let (c, s, e) = digits_of_starts (suc p) p (omega arith) in
    ap
      (λ (b : Bool).
        if b then ok any_port else port_or_range (show_nat p) (split_once b'-' (show_nat p)))
      (no_star (show_nat p) (show_nat-IsNameByte p) c s e)
    ∙ port_or_range-show_nat p h

address_or_literal-host_text :
    (h : Host)
    → IsPlainHost h
    → address_or_literal (host_text h) (parse_ip (host_text h)) ≡ ok (literal_pattern h)
unfolding address_or_literal literal_pattern show_ip
address_or_literal-host_text (name n) k =
    let (_, _, e) = k in
    ap (address_or_literal n) e ∙ rw (parse_host_literal-host_text (name n) k) refl
address_or_literal-host_text (ip (v4 a)) (_, k) =
    ap (address_or_literal (show_v4 a)) (parse_ip-show_v4 a k)
address_or_literal-host_text (ip (v6 a)) (h, _) = absurd (cc (h))

parse_host_pattern-host_text :
    (input : Text) (h : Host)
    → IsPlainHost h
    → parse_host_pattern input (host_text h) ≡ ok (literal_pattern h)
unfolding parse_host_pattern wildcard_or_literal
parse_host_pattern-host_text input h k =
    let (c, s, e) = host_text_starts h k in
    let l = host_text-IsNameByte h k in
    rw (no_star (host_text h) l c s e, no_wildcard (host_text h) l c s e)
      (address_or_literal-host_text h k)

module _ (h : Host) (p : ℕ) (k : IsPlainHost h) (l : IsPort p) where
  parse_host_spec-with_port :
      (input : Text)
      → parse_host_spec input (with_port h p)
        ≡ ok (record { host = literal_pattern h; port = exact_port p; raw = with_port h p })
  unfolding parse_host_spec split_spec
  parse_host_spec-with_port input =
      rw
        (
          split_host_port-with_port h p k,
          parse_port_pattern-show_nat p l,
          parse_host_pattern-host_text input h k,
        )
        refl

  no_slash : split_once b'/' (with_port h p) ≡ none
  no_slash = split_once_absent b'/' (with_port h p) (
      contains-append b'/' (host_text h) (b':' ∷ show_nat p)
        (contains_none b'/' refl (host_text h) (host_text-IsNameByte h k))
        (contains_none b'/' refl (show_nat p) (show_nat-IsNameByte p)))

  not_star : text_eq (with_port h p) (codes "*") ≡ false
  not_star =
      let (c, s, e) = host_text_starts h k in
      ap (λ (x : Text). text_eq (x ++ (b':' ∷ show_nat p)) (codes "*")) e
      ∙ text_eq_other c b'*' (s ++ (b':' ∷ show_nat p)) []
          (differs b'*' refl c (first (host_text h) (host_text-IsNameByte h k) c s e))

  parse_spec-with_port :
      parse_spec (with_port h p)
      ≡ ok (record { host = literal_pattern h; port = exact_port p; raw = with_port h p })
  unfolding parse_spec cidr_or_host
  parse_spec-with_port =
      rw (trim-with_port h p k, is_empty-with_port h p k, not_star, no_slash)
        (parse_host_spec-with_port (with_port h p))

pub parse_spec-show : (d : Destination) → IsPlain d → parse_spec (show d) ≡ ok (exactly d)
parse_spec-show d (k, l) =
    let e = show-with_port d.host d.port k in
    ap parse_spec e
    ∙ parse_spec-with_port d.host d.port k l
    ∙ ap
        (λ (t : Text).
          ok (record { host = literal_pattern d.host; port = exact_port d.port; raw = t }))
        (sym e)

host_matches-literal : (h g : Host) → (host_matches (literal_pattern h) g ≡ true) ↔ (g ≡ h)
unfolding host_matches literal_pattern
host_matches-literal (name n) (name m) =
    (λ e. ap name (sym ((text_eq_iff n m).0 e)), λ e. (text_eq_iff n m).1 (cc (e)))
host_matches-literal (name n) (ip a) = ((λ e. cc), (λ e. cc))
host_matches-literal (ip a) (name n) = ((λ e. cc), (λ e. cc))
host_matches-literal (ip (v4 a)) (ip (v4 b)) =
    (λ e. ap (λ (x : ℕ). ip (v4 x)) (sym ((==_iff a b).0 e)), λ e. (==_iff a b).1 (cc (e)))
host_matches-literal (ip (v6 a)) (ip (v6 b)) =
    (λ e. ap (λ (x : ℕ). ip (v6 x)) (sym ((==_iff a b).0 e)), λ e. (==_iff a b).1 (cc (e)))
host_matches-literal (ip (v4 a)) (ip (v6 b)) = ((λ e. cc), (λ e. cc))
host_matches-literal (ip (v6 a)) (ip (v4 b)) = ((λ e. cc), (λ e. cc))

pub spec_matches-exactly : (d e : Destination) → (spec_matches (exactly d) e ≡ true) ↔ (e ≡ d)
unfolding spec_matches port_matches
spec_matches-exactly d e = (
  λ h.
      let (p, q) =
        and_true (port_matches (exact_port d.port) e.port)
          (host_matches (literal_pattern d.host) e.host) h in
      ap₂ (λ (x : Host) (y : ℕ). record { host = x; port = y })
        ((host_matches-literal d.host e.host).0 q) (sym ((==_iff d.port e.port).0 p)),
  λ h.
      rw ((==_iff d.port e.port).1 (cc (h)))
        ((host_matches-literal d.host e.host).1 (ap (λ (x : Destination). x.host) h)),
)

-- The text of a destination is the pattern of that destination. For a destination with a port from
-- 1 to 65535 and an IPv4 host or a host name that the parser could have made and would not read as
-- an IP address: `DestinationSpec::parse` returns a pattern from what `Display` writes, it keeps
-- that text, and it matches exactly that destination.
pub parse_spec-show_matches :
    (d e : Destination)
    → IsPlain d
    → (s : DestinationSpec) × (parse_spec (show d) ≡ ok s)
      × (s.raw ≡ show d)
      × ((spec_matches s e ≡ true) ↔ (e ≡ d))
parse_spec-show_matches d e h = (exactly d, parse_spec-show d h, refl, spec_matches-exactly d e)
