-- ===== src/Target/RoundTrip.antt =====
-- crates/skimasque-core/src/target.rs: the target that the proxy reads from the path of a request.
use skimasque.Prelude.{
  ℕ, [], ◌∷◌, true, false, not, ◌||◌, none, some, ◌==◌, All, Result, ok, err, Bool-cases,
}
use skimasque.Prelude.{◌≡◌, refl, ap, sym, ◌∙◌, inl, inr, or_false, arith}
use mathlib.Core.Path.{subst}
use skimasque.Prelude.Text.{Text, codes, text_eq, show_nat}
use skimasque.Prelude.Numbers.{parse_number-show_nat}
use skimasque.Prelude.Trim.{contains, white_len}
use skimasque.Prelude.Split.{strip_prefix_other}
use skimasque.Net.{IpAddr, v4, v6, IsAddr, is_ipv4}
use skimasque.Net.Display.{show_ip}
use skimasque.Net.Parse.{parse_ip}
use skimasque.Net.V4RoundTrip.{parse_ip-show_ip}
use skimasque.Policy.Destination
use skimasque.Policy.Destination.NameBytes.{IsNameByte, contains_none, differs}
use skimasque.Policy.Destination.RoundTrip.{
  IsPort, host_text-IsNameByte, host_text_starts, show_nat-IsNameByte,
}
use skimasque.Template
use skimasque.Template.{UriTemplate, Values, get, is_empty, has_name, expand_path}
use skimasque.Template.Percent.{announced, utf8_from, is_utf8}
use skimasque.Template.RoundTrip.{IsPath, AreStrings}
use skimasque.Template.Recovered.{path_names, match_path-expand_path}
use skimasque.Target.{
  TargetHost, ip, name, Target, is_control, is_illegal_front, is_illegal, unbracketed, ip_or_name,
  parse_host, to_variable, new_target, with_port, values_of, from_template, expand, from_path,
}

-- A host that is what its own text is read as: a name without structure, or an IPv4 address.
abbrev pub IsPlainHost : TargetHost → Type 0
IsPlainHost (name n) =
    (is_empty n ≡ false)
    × (contains b'%' n ≡ false)
    × (is_illegal n ≡ false)
    × (parse_ip n ≡ none)
    × (is_utf8 n ≡ true)
IsPlainHost (ip a) = (is_ipv4 a ≡ true) × IsAddr a

abbrev pub IsPlain : Target → Type 0
IsPlain target = IsPlainHost target.host × IsPort target.port

not_bracket : (c : ℕ) (t : Text) → is_illegal (c ∷ t) ≡ false → (c == b'[') ≡ false
unfolding is_illegal is_illegal_front
not_bracket c t h =
    let (front, _) = or_false (is_illegal_front (c ∷ t)) (is_illegal t) h in
    let (_, k) =
      or_false (not (white_len (c ∷ t) == 0)) (is_control c t || contains c (codes "/?#[]@:"))
        front in
    let (_, l) = or_false (is_control c t) (contains c (codes "/?#[]@:")) k in ground arith

unbracketed_same : (c : ℕ) (t : Text) → (c == b'[') ≡ false → unbracketed (c ∷ t) ≡ c ∷ t
unfolding unbracketed
unbracketed_same c t h = rw (strip_prefix_other c b'[' t [] h) refl

parse_host-name_bytes :
    (c : ℕ) (t : Text) (a : IpAddr)
    → All IsNameByte (c ∷ t)
    → parse_ip (c ∷ t) ≡ some a
    → parse_host (c ∷ t) ≡ ok (ip a)
unfolding parse_host ip_or_name
parse_host-name_bytes c t a k e =
    rw (contains_none b'%' refl (c ∷ t) k, unbracketed_same c t (differs b'[' refl c k.0), e) refl

parse_host-to_variable : (h : TargetHost) → IsPlainHost h → parse_host (to_variable h) ≡ ok h
unfolding parse_host to_variable ip_or_name
parse_host-to_variable (name []) (e, _, _, _, _) = absurd (cc (e))
parse_host-to_variable (name (c ∷ t)) (_, no_percent, legal, no_ip, _) =
    rw (no_percent, unbracketed_same c t (not_bracket c t legal), no_ip, legal) refl
parse_host-to_variable (ip (v6 a)) (h, _) = absurd (cc (h))
parse_host-to_variable (ip (v4 a)) h =
    let (c, t, e) = host_text_starts (Destination.ip (v4 a)) h in
    let k : All IsNameByte (show_ip (v4 a)) = host_text-IsNameByte (Destination.ip (v4 a)) h in
    let i : parse_ip (show_ip (v4 a)) ≡ some (v4 a) = parse_ip-show_ip a h.1 in
    ap parse_host e
    ∙ parse_host-name_bytes c t (v4 a) (subst (All IsNameByte) e k) (ap parse_ip (sym e) ∙ i)

pub ascii-is_utf8 : (t : Text) → All IsNameByte t → is_utf8 t ≡ true
ascii-is_utf8 [] h = refl
ascii-is_utf8 (c ∷ t) ((h, _), k) =
    let plain : announced c ≡ some ((0, 0), 0) = ground arith in
    rw (utf8_from, plain) (ascii-is_utf8 t k)

to_variable-is_utf8 : (h : TargetHost) → IsPlainHost h → is_utf8 (to_variable h) ≡ true
unfolding to_variable
to_variable-is_utf8 (name n) (_, _, _, _, u) = u
to_variable-is_utf8 (ip a) h = ascii-is_utf8 (show_ip a) (host_text-IsNameByte (Destination.ip a) h)

pub values_of-AreStrings : (target : Target) → IsPlain target → AreStrings (values_of target)
unfolding values_of
values_of-AreStrings target (h, p) n v e = elim (Bool-cases (text_eq n (codes "target_host"))) [
  | inl f ↦
      let k = rw f at e in
      let same : to_variable target.host ≡ v = cc in
      ap is_utf8 (sym same) ∙ to_variable-is_utf8 target.host h
  | inr f ↦ elim (Bool-cases (text_eq n (codes "target_port"))) [
    | inl g ↦
        let k = rw (f, g) at e in
        let same : show_nat target.port ≡ v = cc in
        ap is_utf8 (sym same)
        ∙ ascii-is_utf8 (show_nat target.port) (show_nat-IsNameByte target.port)
    | inr g ↦ absurd (let k = rw (f, g) at e in cc (k))
  ]
]

with_port-to_variable :
    (h : TargetHost) (p : ℕ)
    → IsPlainHost h
    → IsPort p
    → with_port (to_variable h) (show_nat p) ≡ ok (record { host = h; port = p })
unfolding with_port new_target
with_port-to_variable h p k l =
    let nonzero : (p == 0) ≡ false = ground arith in
    rw (parse_number-show_nat 65535 p (omega arith), parse_host-to_variable h k, nonzero) refl

from_template_ok :
    (r : Result Template.Error Text) (path : Text) → from_template r ≡ ok path → r ≡ ok path
from_template_ok (ok p) path h = let same : p ≡ path = cc in ap (λ (x : Text). ok x) same
from_template_ok (err e) path h = absurd (cc (h))

-- A template that names both variables in its path.
abbrev pub IsTargetTemplate : UriTemplate → Type 0
IsTargetTemplate template =
    IsPath template.parts
    × (has_name (path_names template.parts) (codes "target_host") ≡ true)
    × (has_name (path_names template.parts) (codes "target_port") ≡ true)

-- The proxy reads from a path the target that the client asked for. For a template of literals and
-- simple expressions in which the end, or a literal that starts with a byte no encoded value has,
-- follows each expression, and that names both variables: when `Target::expand_path` returns a
-- path for a target with a port from 1 to 65535 and an IPv4 host, or a host name in UTF-8 that has
-- no percent sign, white space, control character or delimiter and is no IP address,
-- `Target::from_path` returns the same target from that path.
pub from_path-expand :
    (template : UriTemplate) (target : Target) (path : Text)
    → IsTargetTemplate template
    → IsPlain target
    → expand target template ≡ ok path
    → from_path template path ≡ ok target
unfolding from_path expand values_of
from_path-expand template target path (t, host_there, port_there) (h, p) e =
    let (found, matched, same) =
      match_path-expand_path template (values_of target) path t (values_of-AreStrings target (h, p))
        (from_template_ok (expand_path template (values_of target)) path e) in
    rw (matched, same (codes "target_host") host_there, same (codes "target_port") port_there)
      (with_port-to_variable target.host target.port h p)
