-- ===== src/Policy/Destination/RoundTrip.antt =====
-- crates/skimasque-policy/src/destination.rs: a destination's text, as denials and learned
-- policies write it, parsed again as a destination.
use skimasque.Prelude.{
  ℕ, suc, ◌/◌, ◌%◌, ◌^◌, ◌<◌, [], ◌∷◌, ◌++◌, true, false, not, none, some, any, All, All-append, ok,
  append_assoc,
}
use skimasque.Prelude.{◌≡◌, refl, ap, sym, ◌∙◌, ◌≢◌, arith}
use mathlib.Core.Path.{subst}
use skimasque.Prelude.Text.{Text, codes, strip_prefix, show_nat}
use skimasque.Prelude.Numbers.{
  digits_of-IsDigit, digits_of_starts, parse_number-show_nat, parse_u16,
}
use skimasque.Prelude.Trim.{lowercase, IsVisible, trim, trim-visible}
use skimasque.Prelude.Split.{rsplit_once-append, strip_prefix_other}
use skimasque.Net.{IpAddr, v4, v6, IsAddr, is_ipv4}
use skimasque.Net.Display.{show_v4, show_ip}
use skimasque.Net.Parse.{parse_ip}
use skimasque.Net.V4RoundTrip.{parse_ip-show_v4}
use skimasque.Policy.Destination.{Host, name, ip, Destination, show}
use skimasque.Policy.Destination.Parse.{
  is_name_byte, nonzero, parse_host_literal, name_or_ip, unbracketed, split_host_port, split_after,
  split_plain, parse, is_empty,
}
use skimasque.Policy.Destination.NameBytes.{IsNameByte, IsDigit-IsNameByte, contains_none, differs}

-- A host as the parser makes it: a name that it would not read as an address, in lowercase, or an
-- IPv4 address.
abbrev pub IsPlainHost : Host → Type 0
IsPlainHost (name n) = (n ≢ []) × All IsNameByte n × (parse_ip n ≡ none)
IsPlainHost (ip a) = (is_ipv4 a ≡ true) × IsAddr a

abbrev pub IsPort : ℕ → Type 0
IsPort p = (0 < p) × (p < 2 ^ 16)

abbrev pub IsPlain : Destination → Type 0
IsPlain d = IsPlainHost d.host × IsPort d.port

no_bad_byte : (t : Text) → All IsNameByte t → any (λ c. not (is_name_byte c)) t ≡ false
no_bad_byte [] h = refl
no_bad_byte (c ∷ t) ((e, _), h) = rw e (no_bad_byte t h)

lowercase_same : (t : Text) → All IsNameByte t → lowercase t ≡ t
lowercase_same [] h = refl
lowercase_same (c ∷ t) ((_, e), h) = rw (e, lowercase_same t h) refl

module _ (c : ℕ) (t : Text) (h : All IsNameByte (c ∷ t)) where
  unbracketed_same : unbracketed (c ∷ t) ≡ c ∷ t
  unfolding unbracketed
  unbracketed_same = rw (strip_prefix_other c b'[' t [] (differs b'[' refl c h.0)) refl

  parse_host_literal-name : parse_ip (c ∷ t) ≡ none → parse_host_literal (c ∷ t) ≡ ok (name (c ∷ t))
  unfolding parse_host_literal name_or_ip
  parse_host_literal-name e =
      rw (unbracketed_same, e, no_bad_byte (c ∷ t) h, lowercase_same (c ∷ t) h) refl

  parse_host_literal-ip :
      (a : IpAddr) → parse_ip (c ∷ t) ≡ some a → parse_host_literal (c ∷ t) ≡ ok (ip a)
  unfolding parse_host_literal name_or_ip
  parse_host_literal-ip a e = rw (unbracketed_same, e) refl

abbrev pub host_text : Host → Text
host_text (name n) = n
host_text (ip a) = show_ip a

pub show_nat-IsNameByte : (n : ℕ) → All IsNameByte (show_nat n)
show_nat-IsNameByte n = IsDigit-IsNameByte (show_nat n) (digits_of-IsDigit (suc n) n)

-- An octet's text with a dot behind what stands before it.
dotted : (t : Text) (n : ℕ) → All IsNameByte t → All IsNameByte (t ++ codes "." ++ show_nat n)
dotted t n h =
    All-append IsNameByte (t ++ codes ".") (show_nat n)
      (All-append IsNameByte t (codes ".") h ((refl, refl), tt)) (show_nat-IsNameByte n)

pub host_text-IsNameByte : (h : Host) → IsPlainHost h → All IsNameByte (host_text h)
unfolding show_ip
host_text-IsNameByte (name n) (_, k, _) = k
host_text-IsNameByte (ip (v4 a)) h =
    let x : Text = show_nat (a / 2 ^ 24 % 256) in
    let y : Text = x ++ codes "." ++ show_nat (a / 2 ^ 16 % 256) in
    let z : Text = y ++ codes "." ++ show_nat (a / 2 ^ 8 % 256) in
    dotted z (a % 256) (
      dotted y (a / 2 ^ 8 % 256)
        (dotted x (a / 2 ^ 16 % 256) (show_nat-IsNameByte (a / 2 ^ 24 % 256))))
host_text-IsNameByte (ip (v6 a)) (h, _) = absurd (cc (h))

pub host_text_starts : (h : Host) → IsPlainHost h → (c : ℕ) × (t : Text) × (host_text h ≡ c ∷ t)
unfolding show_ip
host_text_starts (name []) (h, _, _) = absurd (h refl)
host_text_starts (name (c ∷ t)) h = (c, t, refl)
host_text_starts (ip (v4 a)) h =
    let (c, t, e) = digits_of_starts (suc (a / 2 ^ 24 % 256)) (a / 2 ^ 24 % 256) (omega arith) in
    (
      c,
      t
          ++ codes "."
          ++ show_nat (a / 2 ^ 16 % 256)
          ++ codes "."
          ++ show_nat (a / 2 ^ 8 % 256)
          ++ codes "."
          ++ show_nat (a % 256),
      ap
          (λ (s : Text).
            s
            ++ codes "."
            ++ show_nat (a / 2 ^ 16 % 256)
            ++ codes "."
            ++ show_nat (a / 2 ^ 8 % 256)
            ++ codes "."
            ++ show_nat (a % 256))
          e,
    )
host_text_starts (ip (v6 a)) (h, _) = absurd (cc (h))

-- What is in front of the colon is read as the host.
pub parse_host_literal-host_text :
    (h : Host) → IsPlainHost h → parse_host_literal (host_text h) ≡ ok h
unfolding show_ip
parse_host_literal-host_text (name []) (h, _, _) = absurd (h refl)
parse_host_literal-host_text (name (c ∷ t)) (_, k, e) = parse_host_literal-name c t k e
parse_host_literal-host_text (ip (v4 a)) h =
    let (c, t, e) = host_text_starts (ip (v4 a)) h in
    let k : All IsNameByte (show_v4 a) = host_text-IsNameByte (ip (v4 a)) h in
    let i = parse_ip-show_v4 a h.1 in
    ap parse_host_literal e
    ∙ parse_host_literal-ip c t (subst (All IsNameByte) e k) (v4 a) (ap parse_ip (sym e) ∙ i)
parse_host_literal-host_text (ip (v6 a)) (h, _) = absurd (cc (h))

abbrev pub with_port : Host → ℕ → Text
with_port h p = host_text h ++ (b':' ∷ show_nat p)

pub show-with_port :
    (h : Host) (p : ℕ) → IsPlainHost h → show (record { host = h; port = p }) ≡ with_port h p
show-with_port (name n) p h = append_assoc n (codes ":") (show_nat p)
show-with_port (ip (v4 a)) p h = append_assoc (show_ip (v4 a)) (codes ":") (show_nat p)
show-with_port (ip (v6 a)) p (h, _) = absurd (cc (h))

name_bytes-IsVisible : (t : Text) → All IsNameByte t → All IsVisible t
name_bytes-IsVisible [] h = tt
name_bytes-IsVisible (c ∷ t) ((h, _), k) = (ground arith, name_bytes-IsVisible t k)

module _ (h : Host) (p : ℕ) (plain : IsPlainHost h) where
  pub trim-with_port : trim (with_port h p) ≡ with_port h p
  trim-with_port = trim-visible (with_port h p) (
      All-append IsVisible (host_text h) (b':' ∷ show_nat p)
        (name_bytes-IsVisible (host_text h) (host_text-IsNameByte h plain))
        ((omega arith, omega arith), name_bytes-IsVisible (show_nat p) (show_nat-IsNameByte p)))

  split_plain-with_port : split_plain (with_port h p) ≡ some (host_text h, show_nat p)
  unfolding split_plain
  split_plain-with_port =
      rw
        (
          rsplit_once-append b':' (host_text h) (show_nat p)
              (contains_none b':' refl (show_nat p) (show_nat-IsNameByte p)),
          contains_none b':' refl (host_text h) (host_text-IsNameByte h plain),
        )
        refl

  pub split_host_port-with_port : split_host_port (with_port h p) ≡ some (host_text h, show_nat p)
  unfolding split_host_port split_after
  split_host_port-with_port =
      let (c, t, e) = host_text_starts h plain in
      let k = subst (All IsNameByte) e (host_text-IsNameByte h plain) in
      let no_bracket : strip_prefix (with_port h p) (codes "[") ≡ none =
        ap (λ (s : Text). strip_prefix (s ++ (b':' ∷ show_nat p)) (codes "[")) e
        ∙ strip_prefix_other c b'[' (t ++ (b':' ∷ show_nat p)) [] (differs b'[' refl c k.0) in
      ap (split_after (with_port h p)) no_bracket ∙ split_plain-with_port

  pub is_empty-with_port : is_empty (with_port h p) ≡ false
  is_empty-with_port = let (c, t, e) = host_text_starts h plain in rw e refl

pub nonzero-parse_u16 : (p : ℕ) → IsPort p → nonzero (parse_u16 (show_nat p)) ≡ some p
nonzero-parse_u16 p h = rw (parse_number-show_nat 65535 p (omega arith)) (ground arith)

parse-with_port :
    (h : Host) (p : ℕ)
    → IsPlainHost h
    → IsPort p
    → parse (with_port h p) ≡ ok (record { host = h; port = p })
unfolding parse
parse-with_port h p k l =
    rw
      (
        trim-with_port h p k,
        is_empty-with_port h p k,
        split_host_port-with_port h p k,
        nonzero-parse_u16 p l,
        parse_host_literal-host_text h k,
      )
      refl

-- For a destination with a port from 1 to 65535 and an IPv4 host or a host name that the parser
-- could have made and would not read as an IP address, `Destination::parse` returns the same
-- destination from what `Display` writes.
pub parse-show : (d : Destination) → IsPlain d → parse (show d) ≡ ok d
parse-show d (k, l) = ap parse (show-with_port d.host d.port k) ∙ parse-with_port d.host d.port k l
