-- ===== src/ConnectIp/ScopeRoundTrip.antt =====
-- crates/skimasque-core/src/connect_ip.rs: the scope that the proxy reads from a path.
use skimasque.Prelude.{
  ℕ, suc, ◌<◌, [], ◌∷◌, Bool, true, false, Option, none, some, if◌then◌else◌, Result, ok, err,
  Bool-cases, All,
}
use skimasque.Prelude.{◌≡◌, refl, ap, sym, ◌∙◌, inl, inr, arith}
use mathlib.Core.Path.{subst}
use skimasque.Prelude.Text.{Text, codes, text_eq, show_nat}
use skimasque.Prelude.Split.{text_eq_other}
use skimasque.Prelude.Numbers.{parse_number-show_nat, digits_of_starts}
use skimasque.Policy.Destination.NameBytes.{IsNameByte, differs}
use skimasque.Policy.Destination.RoundTrip.{show_nat-IsNameByte}
use skimasque.Template
use skimasque.Template.{UriTemplate, Values, get, has_name, expand_path}
use skimasque.Template.Percent.{is_utf8}
use skimasque.Template.RoundTrip.{IsPath, AreStrings}
use skimasque.Template.Recovered.{path_names, match_path-expand_path}
use skimasque.Target.RoundTrip.{ascii-is_utf8}
use skimasque.ConnectIp.Scope.{
  wildcard, IpScope, target_text, protocol_text, scope_values, from_template, expand,
  unless_wildcard, protocol_of, from_path,
}

-- A target that is no wildcard and UTF-8, and a protocol number of one byte.
abbrev pub IsTarget : Option Text → Type 0
IsTarget none = Unit
IsTarget (some t) = (text_eq t wildcard ≡ false) × (is_utf8 t ≡ true)

abbrev pub IsProtocol : Option ℕ → Type 0
IsProtocol none = Unit
IsProtocol (some p) = p < 256

abbrev pub IsScope : IpScope → Type 0
IsScope scope = IsTarget scope.target × IsProtocol scope.protocol

-- Both variables, among the template's and in its path.
abbrev pub IsScopeTemplate : UriTemplate → Type 0
IsScopeTemplate template =
    IsPath template.parts
    × (has_name template.variables (codes "target") ≡ true)
    × (has_name template.variables (codes "ipproto") ≡ true)
    × (has_name (path_names template.parts) (codes "target") ≡ true)
    × (has_name (path_names template.parts) (codes "ipproto") ≡ true)

unless_wildcard-target_text :
    (o : Option Text) → IsTarget o → unless_wildcard (some (target_text o)) ≡ o
unfolding target_text
unless_wildcard-target_text none h = refl
unless_wildcard-target_text (some t) (h, _) = rw h refl

not_wildcard : (p : ℕ) → text_eq (show_nat p) wildcard ≡ false
not_wildcard p =
    let (c, t, e) = digits_of_starts (suc p) p (omega arith) in
    let k : All IsNameByte (c ∷ t) = subst (All IsNameByte) e (show_nat-IsNameByte p) in
    ap (λ (s : Text). text_eq s wildcard) e ∙ text_eq_other c b'*' t [] (differs b'*' refl c k.0)

protocol_of-protocol_text :
    (o : Option ℕ) → IsProtocol o → protocol_of (unless_wildcard (some (protocol_text o))) ≡ ok o
unfolding protocol_of protocol_text
protocol_of-protocol_text none h = refl
protocol_of-protocol_text (some p) h =
    ap (λ (b : Bool). protocol_of (if b then none else some (show_nat p))) (not_wildcard p)
    ∙ rw (parse_number-show_nat 255 p (omega (arith, h))) refl

target_text-is_utf8 : (o : Option Text) → IsTarget o → is_utf8 (target_text o) ≡ true
unfolding target_text
target_text-is_utf8 none h = refl
target_text-is_utf8 (some t) (_, u) = u

protocol_text-is_utf8 : (o : Option ℕ) → is_utf8 (protocol_text o) ≡ true
unfolding protocol_text
protocol_text-is_utf8 none = refl
protocol_text-is_utf8 (some p) = ascii-is_utf8 (show_nat p) (show_nat-IsNameByte p)

both_values : IpScope → Values
both_values scope =
    (codes "target", target_text scope.target)
    ∷ (codes "ipproto", protocol_text scope.protocol)
    ∷ []

both_values-AreStrings : (scope : IpScope) → IsScope scope → AreStrings (both_values scope)
unfolding both_values
both_values-AreStrings scope (t, _) n v e = elim (Bool-cases (text_eq n (codes "target"))) [
  | inl f ↦
      let k = rw f at e in
      let same : target_text scope.target ≡ v = cc in
      ap is_utf8 (sym same) ∙ target_text-is_utf8 scope.target t
  | inr f ↦ elim (Bool-cases (text_eq n (codes "ipproto"))) [
    | inl g ↦
        let k = rw (f, g) at e in
        let same : protocol_text scope.protocol ≡ v = cc in
        ap is_utf8 (sym same) ∙ protocol_text-is_utf8 scope.protocol
    | inr g ↦ absurd (let k = rw (f, g) at e in cc (k))
  ]
]

scope_values-both :
    (scope : IpScope) (template : UriTemplate)
    → IsScopeTemplate template
    → scope_values scope template ≡ both_values scope
unfolding scope_values both_values
scope_values-both scope template (_, t, p, _, _) = rw (t, p) refl

from_template_ok :
    (r : Result Template.Error Text) (path : Text) → from_template r ≡ ok path → r ≡ ok path
from_template_ok (ok p) path h = let same : p ≡ path = cc in ap (λ (x : Text). ok x) same
from_template_ok (err e) path h = absurd (cc (h))

-- For a template of literals and simple expressions in which the end, or a literal that starts
-- with a byte no encoded value has, follows each expression, and that has both `target` and
-- `ipproto` there and among its variables: when `IpScope::expand_path` returns a path for a scope
-- with a protocol below 256, if any, and a target, if any, that is UTF-8 and not the wildcard,
-- `IpScope::from_path` returns the same scope from that path.
pub from_path-expand_scope :
    (template : UriTemplate) (scope : IpScope) (path : Text)
    → IsScopeTemplate template
    → IsScope scope
    → expand scope template ≡ ok path
    → from_path template path ≡ ok scope
unfolding from_path expand both_values
from_path-expand_scope template scope path h k e =
    let (parts, _, _, target_there, protocol_there) = h in
    let expanded : expand_path template (both_values scope) ≡ ok path =
      ap (expand_path template) (sym (scope_values-both scope template h))
      ∙ from_template_ok (expand_path template (scope_values scope template)) path e in
    let (found, matched, same) =
      match_path-expand_path template (both_values scope) path parts
        (both_values-AreStrings scope k) expanded in
    rw
      (
        matched,
        same (codes "target") target_there,
        same (codes "ipproto") protocol_there,
        protocol_of-protocol_text scope.protocol k.1,
        unless_wildcard-target_text scope.target k.0,
      )
      refl
