-- ===== src/Target.antt =====
-- crates/skimasque-core/src/target.rs: the target of a proxying request, on the command line, and in
-- the path of a request.
pub mod RoundTrip
use skimasque.Prelude.{
  ℕ, [], ◌∷◌, ◌++◌, Bool, true, false, not, ◌&&◌, ◌||◌, Option, none, some, ltb, leb, ◌==◌,
  if◌then◌else◌, Result, ok, err, ◌>>=◌, ok_or,
}
use skimasque.Prelude.Text.{Text, codes, strip_prefix, rsplit_once, show_nat}
use skimasque.Prelude.Numbers.{parse_u16}
use skimasque.Prelude.Trim.{contains, strip_last, white_len}
use skimasque.Net.{IpAddr, v4, v6}
use skimasque.Net.Display.{show_ip}
use skimasque.Net.Parse.{parse_ip, and_then}
use skimasque.Template
use skimasque.Template.{UriTemplate, Values, get, is_empty, expand_path}
use skimasque.Template.Match.{match_path}

pub data Error : Type 0 where
  empty_host : Error
  invalid_port : Text → Error
  zone_identifier : Text → Error
  illegal_host : Text → Error
  path_does_not_match : Text → Error
  template_error : Template.Error → Error

pub data TargetHost : Type 0 where
  ip : IpAddr → TargetHost
  name : Text → TargetHost

pub record Target : Type 0 where
  pub host : TargetHost
  pub port : ℕ

abbrev pub is_control : ℕ → Text → Bool
is_control c [] = ltb c 32 || (c == 127)
is_control c (d ∷ t) = (ltb c 32 || (c == 127)) || ((c == 194) && (leb 128 d && leb d 159))

-- `is_whitespace`, `is_control` or one of the delimiters, for a character at the front.
unfoldable pub is_illegal_front : Text → Bool
is_illegal_front [] = false
is_illegal_front (c ∷ t) =
    not (white_len (c ∷ t) == 0) || (is_control c t || contains c (codes "/?#[]@:"))

unfoldable pub is_illegal : Text → Bool
is_illegal [] = false
is_illegal (c ∷ t) = is_illegal_front (c ∷ t) || is_illegal t

abbrev pub unwrap_or {ℓ} : {A : Type ℓ} → Option A → A → A
unwrap_or none a = a
unwrap_or (some b) a = b

unfoldable pub unbracketed : Text → Text
unbracketed host =
    unwrap_or (and_then (strip_prefix host (codes "[")) (λ (rest : Text). strip_last b']' rest))
      host

unfoldable pub ip_or_name : (host bare : Text) → Option IpAddr → Result Error TargetHost
ip_or_name host bare (some a) = ok (ip a)
ip_or_name host bare none = if is_illegal bare then err (illegal_host host) else ok (name bare)

-- `TargetHost::parse`
unfoldable pub parse_host : Text → Result Error TargetHost
parse_host host =
    if is_empty host
    then err empty_host
    else if contains b'%' host
    then err (zone_identifier host)
    else ip_or_name host (unbracketed host) (parse_ip (unbracketed host))

unfoldable pub to_variable : TargetHost → Text
to_variable (ip a) = show_ip a
to_variable (name n) = n

-- `impl Display for TargetHost` and `for Target`
unfoldable pub show_host : TargetHost → Text
show_host (ip (v6 a)) = codes "[" ++ show_ip (v6 a) ++ codes "]"
show_host (ip (v4 a)) = show_ip (v4 a)
show_host (name n) = n

unfoldable pub show : Target → Text
show target = show_host target.host ++ codes ":" ++ show_nat target.port

-- `Target::new`
unfoldable pub new_target : TargetHost → ℕ → Result Error Target
new_target h p =
    if p == 0 then err (invalid_port (codes "0")) else ok (record { host = h; port = p })

-- Behind the last closing bracket stands the port with its colon; otherwise behind the last colon.
unfoldable pub split_after_bracket : Text × Text → Result Error (Text × Text)
split_after_bracket r =
    ok_or (strip_prefix (r.1) (codes ":")) (invalid_port (r.1)) >>= λ (port : Text).
    ok (r.0 ++ codes "]", port)

unfoldable pub split_target : Text → Option (Text × Text) → Result Error (Text × Text)
split_target input (some r) = split_after_bracket r
split_target input none = ok_or (rsplit_once b':' input) (invalid_port [])

unfoldable pub with_port : Text → Text → Result Error Target
with_port host port = ok_or (parse_u16 port) (invalid_port port) >>= λ (p : ℕ).
    parse_host host >>= λ (h : TargetHost). new_target h p

-- `Target::parse`
unfoldable pub parse : Text → Result Error Target
parse input = split_target input (rsplit_once b']' input) >>= λ (parts : Text × Text).
    with_port (parts.0) (parts.1)

unfoldable pub values_of : Target → Values
values_of target =
    (codes "target_host", to_variable target.host)
    ∷ (codes "target_port", show_nat target.port)
    ∷ []

abbrev pub from_template : Result Template.Error Text → Result Error Text
from_template (ok path) = ok path
from_template (err e) = err (template_error e)

-- `Target::expand_path`
unfoldable pub expand : Target → UriTemplate → Result Error Text
expand target template = from_template (expand_path template (values_of target))

-- `Target::from_path`
unfoldable pub from_path : UriTemplate → Text → Result Error Target
from_path template path =
    ok_or (match_path template path) (path_does_not_match path) >>= λ (values : Values).
    ok_or (get (codes "target_host") values) (path_does_not_match path) >>= λ (host : Text).
    ok_or (get (codes "target_port") values) (path_does_not_match path) >>= λ (port : Text).
    with_port host port
