-- ===== src/Template/Match.antt =====
-- crates/skimasque-core/src/template.rs: a request's path matched against a template.
use skimasque.Prelude.{
  ℕ, zero, suc, List, [], ◌∷◌, Bool, true, false, ◌&&◌, ◌||◌, Option, none, some, ◌==◌,
  if◌then◌else◌, take, drop,
}
use skimasque.Prelude.Text.{Text, text_eq, strip_prefix, split_once, split}
use skimasque.Prelude.Trim.{is_alphanumeric}
use skimasque.Template.{
  Part, literal, simple, query, query_continuation, UriTemplate, is_empty, Values, get,
}
use skimasque.Template.Percent.{pct_decode}

abbrev pub is_expansion_safe : ℕ → Bool
is_expansion_safe c =
    is_alphanumeric c
    || ((c == b'-') || ((c == b'.') || ((c == b'_') || ((c == b'~') || (c == b'%')))))

-- The length of the run of safe characters in front; they are single bytes.
abbrev pub span : Text → ℕ
span [] = 0
span (c ∷ t) = let rest = span t in if is_expansion_safe c then suc rest else 0

abbrev pub insert : Text → Text → Values → Values
insert n v [] = (n, v) ∷ []
insert n v ((k, x) ∷ values) =
    let rest = insert n v values in if text_eq n k then (n, v) ∷ values else (k, x) ∷ rest

abbrev pub remove : Text → Values → Values
remove n [] = []
remove n ((k, x) ∷ values) =
    let rest = remove n values in if text_eq n k then rest else (k, x) ∷ rest

abbrev pub both : Option Text → Option Text → Option (Text × Text)
both (some k) (some v) = some (k, v)
both _ _ = none

-- The pairs of a query; `none` is for a pair that does not decode.
unfoldable pub found_in : Values → List Text → Option Values
found_in found [] = some found
found_in found (pair ∷ pairs) = elim (split_once b'=' pair) [
  | none ↦ found_in found pairs
  | some r ↦ elim (both (pct_decode (r.0)) (pct_decode (r.1))) [
    | none ↦ none
    | some kv ↦ found_in (insert (kv.0) (kv.1) found) pairs
  ]
]

unfoldable pub take_names : (found : Values) → List Text → Values → Bool × Values
take_names found [] values = (true, values)
take_names found (n ∷ names) values = elim (get n found) [
  | none ↦ (false, values)
  | some v ↦ elim (is_empty v) [
    | true ↦ (false, values)
    | false ↦ take_names found names (insert n v values)
  ]
]

unfoldable pub match_query :
    (separator : ℕ) (names : List Text) (is_last : Bool) (input : Text) → Values → Bool × Values
match_query separator names is_last input values = elim (strip_prefix input (separator ∷ [])) [
  | none ↦ (false, values)
  | some text ↦ elim (found_in [] (split b'&' text)) [
    | none ↦ (false, values)
    | some found ↦ let taken = take_names found names values in (taken.0 && is_last, taken.1)
  ]
]

-- A try that failed takes its value back and goes on with the next shorter run.
abbrev pub or_shorter : Text → (Values → Bool × Values) → Bool × Values → Bool × Values
or_shorter n shorter (true, values) = (true, values)
or_shorter n shorter (false, values) = shorter (remove n values)

-- A run that does not decode is passed over.
abbrev pub try_run :
    (next : Text → Values → Bool × Values) (n rest : Text) (shorter : Values → Bool × Values)
    (values : Values)
    → Option Text
    → Bool × Values
try_run next n rest shorter values none = shorter values
try_run next n rest shorter values (some v) = or_shorter n shorter (next rest (insert n v values))

unfoldable pub match_simple :
    (next : Text → Values → Bool × Values) (n input : Text) (len : ℕ) → Values → Bool × Values
match_simple next n input zero values = (false, values)
match_simple next n input (suc len) values =
    try_run next n (drop (suc len) input) (match_simple next n input len) values
      (pct_decode (take (suc len) input))

abbrev pub no_parts : List Part → Bool
no_parts [] = true
no_parts (_ ∷ _) = false

unfoldable pub match_parts : List Part → Text → Values → Bool × Values
match_parts [] input values = (is_empty input, values)
match_parts (literal l ∷ tail) input values = elim (strip_prefix input l) [
  | none ↦ (false, values)
  | some rest ↦ match_parts tail rest values
]
match_parts (simple n ∷ tail) input values =
    match_simple (match_parts tail) n input (span input) values
match_parts (query names ∷ tail) input values = match_query b'?' names (no_parts tail) input values
match_parts (query_continuation names ∷ tail) input values =
    match_query b'&' names (no_parts tail) input values

unfoldable pub match_path : UriTemplate → Text → Option Values
match_path template path_and_query =
    let r = match_parts template.parts path_and_query [] in if r.0 then some (r.1) else none
