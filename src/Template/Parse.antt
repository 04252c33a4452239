-- ===== src/Template/Parse.antt =====
-- crates/skimasque-core/src/template.rs: the parser of templates.
use skimasque.Prelude.{
  ℕ, zero, suc, List, [], ◌∷◌, ◌++◌, Bool, true, false, not, ◌&&◌, ◌||◌, Option, none, some, leb,
  ◌==◌, if◌then◌else◌, length, Result, ok, err, ◌>>=◌,
}
use skimasque.Prelude.Text.{Text, codes, strip_prefix, split_once, split}
use skimasque.Prelude.Trim.{contains}
use skimasque.Template.{
  Error, not_absolute, empty_component, path_must_start_with_slash, illegal_character,
  unsupported_operator, unsupported_modifier, unterminated_expression, empty_expression,
  variable_outside_path_or_query, duplicate_variable, query_expression_must_be_last,
  missing_variable, Part, literal, simple, query, query_continuation, UriTemplate, is_empty,
  has_name,
}

-- The first character of a set.
abbrev pub first_of : (ℕ → Bool) → Text → Option ℕ
first_of p [] = none
first_of p (c ∷ t) = let rest = first_of p t in if p c then some c else rest

-- A name of an expression: not empty and without the modifiers of level 4.
abbrev pub refused_modifier : Text → Option ℕ → Result Error Text
refused_modifier name none = ok name
refused_modifier name (some c) = err (unsupported_modifier c)

unfoldable pub checked_name : Text → Result Error Text
checked_name name =
    if is_empty name
    then err empty_expression
    else refused_modifier name (first_of (λ c. (c == b'*') || (c == b':')) name)

-- `.collect::<Result<Vec<_>, _>>()`
unfoldable pub checked_names : List Text → Result Error (List Text)
checked_names [] = ok []
checked_names (n ∷ ns) = checked_name n >>= λ (name : Text).
    checked_names ns >>= λ (names : List Text). ok (name ∷ names)

abbrev pub is_refused_operator : ℕ → Bool
is_refused_operator c = contains c (codes "+#./;=,!@|")

abbrev pub one_name : List Text → Result Error Part
one_name (n ∷ []) = ok (simple n)
one_name _ = err (unsupported_operator b',')

unfoldable pub parse_expression : Text → Result Error Part
parse_expression [] = err empty_expression
parse_expression (first ∷ rest) =
    if first == b'?'
    then (checked_names (split b',' rest) >>= λ (names : List Text). ok (query names))
    else if first == b'&'
    then (checked_names (split b',' rest) >>= λ (names : List Text). ok (query_continuation names))
    else if is_refused_operator first
    then err (unsupported_operator first)
    else (checked_names (split b',' (first ∷ rest)) >>= one_name)

-- A literal, unless it is empty.
abbrev pub push_literal : Text → List Part → List Part
push_literal [] parts = parts
push_literal (c ∷ t) parts = literal (c ∷ t) ∷ parts

-- The parts before the rest of the text.
abbrev pub prepend :
    List Part → Option (Result Error (List Part)) → Option (Result Error (List Part))
prepend parts none = none
prepend parts (some (err e)) = some (err e)
prepend parts (some (ok more)) = some (ok (parts ++ more))

-- One round: behind an opening brace, behind the closing one, and with the expression parsed.
abbrev pub with_part :
    (next : Text → Option (Result Error (List Part))) (before rest : Text)
    → Result Error Part
    → Option (Result Error (List Part))
with_part next before rest (err x) = some (err x)
with_part next before rest (ok part) = prepend (push_literal before (part ∷ [])) (next rest)

abbrev pub after_close :
    (next : Text → Option (Result Error (List Part))) (before : Text)
    → Option (Text × Text)
    → Option (Result Error (List Part))
after_close next before none = some (err unterminated_expression)
after_close next before (some e) = with_part next before (e.1) (parse_expression (e.0))

abbrev pub after_open :
    (next : Text → Option (Result Error (List Part))) (rest : Text)
    → Option (Text × Text)
    → Option (Result Error (List Part))
after_open next rest none = some (ok (push_literal rest []))
after_open next rest (some r) = after_close next (r.0) (split_once b'}' (r.1))

-- The loop over the expressions, with fuel for its rounds; `none` is for lack of fuel.
unfoldable pub parse_loop : (fuel : ℕ) (rest : Text) → Option (Result Error (List Part))
parse_loop zero rest = none
parse_loop (suc fuel) rest = after_open (parse_loop fuel) rest (split_once b'{' rest)

-- Whether a query expression stands before the last part.
unfoldable pub query_not_last : List Part → Bool
query_not_last [] = false
query_not_last (p ∷ []) = false
query_not_last (query _ ∷ q ∷ rest) = true
query_not_last (query_continuation _ ∷ q ∷ rest) = true
query_not_last (literal _ ∷ q ∷ rest) = query_not_last (q ∷ rest)
query_not_last (simple _ ∷ q ∷ rest) = query_not_last (q ∷ rest)

unfoldable pub ordered : List Part → Result Error (List Part)
ordered parts = if query_not_last parts then err query_expression_must_be_last else ok parts

abbrev pub and_ordered : Option (Result Error (List Part)) → Option (Result Error (List Part))
and_ordered none = none
and_ordered (some r) = some (r >>= ordered)

unfoldable pub parse_parts : Text → Option (Result Error (List Part))
parse_parts input = and_ordered (parse_loop (suc (length input)) input)

abbrev pub names_of : Part → List Text
names_of (literal _) = []
names_of (simple n) = n ∷ []
names_of (query ns) = ns
names_of (query_continuation ns) = ns

-- The names in order, each once.
unfoldable pub add_names : (seen : List Text) (names : List Text) → Result Error (List Text)
add_names seen [] = ok seen
add_names seen (n ∷ ns) =
    let rest = add_names (seen ++ (n ∷ [])) ns in
    if has_name seen n then err (duplicate_variable n) else rest

unfoldable pub collect_variables : (seen : List Text) → List Part → Result Error (List Text)
collect_variables seen [] = ok seen
collect_variables seen (p ∷ ps) =
    add_names seen (names_of p) >>= λ (more : List Text). collect_variables more ps

-- `text.split_once(separator)` for a text as separator
abbrev pub split_at : (separator : Text) → Text → Option (Text × Text)
split_at separator [] = elim (strip_prefix [] separator) [
  | some rest ↦ some ([], rest)
  | none ↦ none
]
split_at separator (c ∷ t) = elim (strip_prefix (c ∷ t) separator) [
  | some rest ↦ some ([], rest)
  | none ↦ elim (split_at separator t) [ none ↦ none | some r ↦ some (c ∷ r.0, r.1) ]
]

abbrev pub starts_with : ℕ → Text → Bool
starts_with c [] = false
starts_with c (x ∷ t) = x == c

unfoldable pub with_variables :
    (template scheme authority : Text) → List Part → Result Error UriTemplate
with_variables template s a ps = collect_variables [] ps >>= λ (names : List Text).
    ok (record { scheme = s; authority = a; parts = ps; variables = names; raw = template })

abbrev pub and_parts :
    (List Part → Result Error UriTemplate)
    → Option (Result Error (List Part))
    → Option (Result Error UriTemplate)
and_parts f none = none
and_parts f (some r) = some (r >>= f)

-- The authority ends at the first slash.
unfoldable pub parse_after_scheme :
    (template scheme : Text) → Option (Text × Text) → Option (Result Error UriTemplate)
parse_after_scheme template s none = some (err (empty_component (codes "path")))
parse_after_scheme template s (some (authority, after_slash)) =
    let path = b'/' ∷ after_slash in
    if is_empty authority
    then some (err (empty_component (codes "authority")))
    else if contains b'{' s || contains b'{' authority
    then some (err variable_outside_path_or_query)
    else if not (starts_with b'/' path)
    then some (err path_must_start_with_slash)
    else and_parts (with_variables template s authority) (parse_parts path)

unfoldable pub parse_scheme :
    (template : Text) → Option (Text × Text) → Option (Result Error UriTemplate)
parse_scheme template none = some (err not_absolute)
parse_scheme template (some (s, rest)) =
    if is_empty s
    then some (err (empty_component (codes "scheme")))
    else parse_after_scheme template s (split_once b'/' rest)

abbrev pub unless_illegal : (template : Text) → Option ℕ → Option (Result Error UriTemplate)
unless_illegal template (some c) = some (err (illegal_character c))
unless_illegal template none = parse_scheme template (split_at (codes "://") template)

unfoldable pub parse : (template : Text) → Option (Result Error UriTemplate)
parse template = unless_illegal template (first_of (λ c. not (leb 33 c && leb c 126)) template)

unfoldable pub require_variables : UriTemplate → (required : List Text) → Result Error (Unit {0})
require_variables template [] = ok tt
require_variables template (n ∷ required) =
    let rest = require_variables template required in
    if has_name template.variables n then rest else err (missing_variable n)

-- The default templates of a proxy.
unfoldable pub default_connect_udp : (proxy_authority : Text) → Option (Result Error UriTemplate)
default_connect_udp authority =
    parse (
      codes "https://" ++ authority ++ codes "/.well-known/masque/udp/{target_host}/{target_port}/")

unfoldable pub default_connect_tcp : (proxy_authority : Text) → Option (Result Error UriTemplate)
default_connect_tcp authority =
    parse (
      codes "https://" ++ authority ++ codes "/.well-known/masque/tcp/{target_host}/{target_port}/")

unfoldable pub default_connect_ip : (proxy_authority : Text) → Option (Result Error UriTemplate)
default_connect_ip authority =
    parse (codes "https://" ++ authority ++ codes "/.well-known/masque/ip/{target}/{ipproto}/")
