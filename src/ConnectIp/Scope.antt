-- ===== src/ConnectIp/Scope.antt =====
-- crates/skimasque-core/src/connect_ip.rs: the scope of an IP proxying request in a path.
use skimasque.Prelude.{
  ℕ, [], ◌∷◌, ◌++◌, Option, none, some, if◌then◌else◌, Result, ok, err, ◌>>=◌, ok_or,
}
use skimasque.Prelude.Text.{Text, codes, text_eq, show_nat}
use skimasque.Prelude.Numbers.{parse_number}
use skimasque.Template
use skimasque.Template.{UriTemplate, Values, get, has_name, expand_path, missing_variable}
use skimasque.Template.Match.{match_path}
use skimasque.ConnectIp.{Error, bad_ip_protocol, template_error}

abbrev pub wildcard : Text
wildcard = codes "*"

pub record IpScope : Type 0 where
  pub target : Option Text
  pub protocol : Option ℕ

abbrev pub any_scope : IpScope
any_scope = record { target = none; protocol = none }

unfoldable pub target_text : Option Text → Text
target_text none = wildcard
target_text (some t) = t

unfoldable pub protocol_text : Option ℕ → Text
protocol_text none = wildcard
protocol_text (some p) = show_nat p

abbrev pub when_named : UriTemplate → Text → Text → Values
when_named template n v = if has_name template.variables n then (n, v) ∷ [] else []

unfoldable pub scope_values : IpScope → UriTemplate → Values
scope_values scope template =
    when_named template (codes "target") (target_text scope.target)
    ++ when_named template (codes "ipproto") (protocol_text scope.protocol)

abbrev pub from_template : Result Template.Error Text → Result Error Text
from_template (ok path) = ok path
from_template (err e) = err (template_error e)

-- `IpScope::expand_path`
unfoldable pub expand : IpScope → UriTemplate → Result Error Text
expand scope template = from_template (expand_path template (scope_values scope template))

abbrev pub unless_wildcard : Option Text → Option Text
unless_wildcard none = none
unless_wildcard (some t) = if text_eq t wildcard then none else some t

-- `raw.parse::<u8>()` of what is no wildcard
unfoldable pub protocol_of : Option Text → Result Error (Option ℕ)
protocol_of none = ok none
protocol_of (some raw) =
    ok_or (parse_number 255 10 raw) (bad_ip_protocol raw) >>= λ (p : ℕ). ok (some p)

-- `IpScope::from_path`
unfoldable pub from_path : UriTemplate → Text → Result Error IpScope
from_path template path =
    ok_or (match_path template path) (template_error (missing_variable (codes "target")))
    >>= λ (values : Values).
        protocol_of (unless_wildcard (get (codes "ipproto") values)) >>= λ (p : Option ℕ).
        ok (record { target = unless_wildcard (get (codes "target") values); protocol = p })
