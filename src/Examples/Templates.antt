-- ===== src/Examples/Templates.antt =====
-- Runs of the URI template and of the targets in its paths.
use skimasque.Prelude.{[], ◌∷◌, true, some, ok, err, ◌≡◌, refl, arith}
use skimasque.Prelude.{none}
use skimasque.Prelude.Text.{Text, codes}
use skimasque.Net.Parse.{parse_ip}
use skimasque.Template.{
  UriTemplate, literal, simple, query, Values, get, has_name, lookup, expand_part, expand_parts,
  expand_path, query_expression_must_be_last,
}
use skimasque.Template.Percent.{is_unreserved, pct_encode, decoded_bytes, pct_decode}
use skimasque.Template.Parse.{
  parse, parse_scheme, parse_after_scheme, parse_parts, parse_loop, parse_expression, checked_names,
  checked_name, ordered, query_not_last,
}
use skimasque.Template.Match.{
  match_simple, match_parts, match_path, match_query, take_names, found_in,
}
use skimasque.Template.Recovered.{path_names, match_path-expand_path}
use skimasque.Template.Total.{Returns, parse-Returns}
use skimasque.Template.Defaults.{udp_parts}
use skimasque.ConnectIp.Scope
use skimasque.ConnectIp.Scope.{IpScope, scope_values, target_text, protocol_text}
use skimasque.ConnectIp.ScopeRoundTrip.{from_path-expand_scope}
use skimasque.Target.{
  Target, name, is_illegal, is_illegal_front, to_variable, values_of, expand, from_path,
}
use skimasque.Target.RoundTrip.{IsPlain, IsTargetTemplate, values_of-AreStrings, from_path-expand}

abbrev udp_template : UriTemplate
udp_template = record {
  scheme = codes "https";
  authority = codes "proxy.example";
  parts = udp_parts;
  variables = codes "target_host" ∷ codes "target_port" ∷ [];
  raw = codes "https://proxy.example/.well-known/masque/udp/{target_host}/{target_port}/";
}

abbrev server : Target
server = record { host = name (codes "a_b"); port = 443 }

abbrev server_path : Text
server_path = codes "/.well-known/masque/udp/a_b/443/"

server-IsPlain : IsPlain server
unfolding parse_ip is_illegal is_illegal_front
server-IsPlain = ((refl, refl, refl, refl, refl), (omega arith, omega arith))

udp_template-IsTargetTemplate : IsTargetTemplate udp_template
udp_template-IsTargetTemplate = ((refl, (refl, tt)), refl, refl)

server_expanded : expand server udp_template ≡ ok server_path
unfolding expand expand_path expand_parts expand_part lookup values_of to_variable pct_encode
    is_unreserved
server_expanded = refl

from_path-expand_example : from_path udp_template server_path ≡ ok server
from_path-expand_example =
    from_path-expand udp_template server server_path udp_template-IsTargetTemplate server-IsPlain
      server_expanded

server_values : expand_path udp_template (values_of server) ≡ ok server_path
unfolding expand_path expand_parts expand_part lookup values_of to_variable pct_encode is_unreserved
server_values = refl

match_path-expand_path_example :
    (found : Values) × (match_path udp_template server_path ≡ some found)
    × ((m : Text)
        → has_name (path_names udp_template.parts) m ≡ true
        → get m found ≡ get m (values_of server))
match_path-expand_path_example =
    match_path-expand_path udp_template (values_of server) server_path (refl, (refl, tt))
      (values_of-AreStrings server server-IsPlain) server_values

parse-Returns_example : Returns (parse (codes "https://p/{a}/{"))
parse-Returns_example = parse-Returns (codes "https://p/{a}/{")

-- An IPv6 target is escaped and recovered.
escaped : pct_encode (codes "2001:db8::42") ≡ codes "2001%3Adb8%3A%3A42"
unfolding pct_encode is_unreserved
escaped = refl

unescaped : pct_decode (codes "2001%3Adb8%3A%3A42") ≡ some (codes "2001:db8::42")
unfolding pct_decode decoded_bytes
unescaped = refl

-- A plus sign passes for the first digit of an escape.
plus_escape : pct_decode (codes "%+F") ≡ some (15 ∷ [])
unfolding pct_decode decoded_bytes
plus_escape = refl

query_matched :
    match_parts (literal (codes "/") ∷ query (codes "a" ∷ []) ∷ []) (codes "/?b=1&a=%3A") []
    ≡ (true, (codes "a", codes ":") ∷ [])
unfolding match_parts match_query take_names found_in pct_decode decoded_bytes
query_matched = refl

-- Without an unsafe byte behind the first variable the match is another than was expanded.
ambiguous :
    match_parts
      (simple (codes "a") ∷ literal (codes "-") ∷ simple (codes "b") ∷ [])
      (codes "1-2-3")
      []
    ≡ (true, (codes "a", codes "1-2") ∷ (codes "b", codes "3") ∷ [])
unfolding match_parts match_simple pct_decode decoded_bytes
ambiguous = refl

query_in_the_middle : parse (codes "https://p/{?a}/x") ≡ some (err query_expression_must_be_last)
unfolding parse parse_scheme parse_after_scheme parse_parts parse_loop parse_expression
    checked_names checked_name ordered query_not_last
query_in_the_middle = refl

abbrev ip_template : UriTemplate
ip_template = record {
  scheme = codes "https";
  authority = codes "p";
  parts =
      literal (codes "/")
      ∷ simple (codes "target")
      ∷ literal (codes "/")
      ∷ simple (codes "ipproto")
      ∷ literal (codes "/")
      ∷ [];
  variables = codes "target" ∷ codes "ipproto" ∷ [];
  raw = codes "https://p/{target}/{ipproto}/";
}

abbrev scope : IpScope
scope = record { target = none; protocol = some 17 }

scope_expanded : Scope.expand scope ip_template ≡ ok (codes "/%2A/17/")
unfolding Scope.expand expand_path expand_parts expand_part lookup scope_values target_text
    protocol_text pct_encode is_unreserved
scope_expanded = refl

from_path-expand_scope_example : Scope.from_path ip_template (codes "/%2A/17/") ≡ ok scope
from_path-expand_scope_example =
    from_path-expand_scope ip_template scope (codes "/%2A/17/")
      ((refl, (refl, tt)), refl, refl, refl, refl) (tt, omega arith) scope_expanded
