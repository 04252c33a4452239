-- ===== src/Template.antt =====
-- crates/skimasque-core/src/template.rs: URI templates, and their expansion to the path of a request.
pub mod Percent
pub mod PercentRoundTrip
pub mod Parse
pub mod Match
pub mod RoundTrip
pub mod Recovered
pub mod Total
pub mod Defaults
use skimasque.Prelude.{
  ℕ, zero, suc, ◌+◌, List, [], ◌∷◌, ◌++◌, Bool, true, false, not, ◌&&◌, ◌||◌, Option, none, some,
  leb, ◌==◌, if◌then◌else◌, length, any, Result, ok, err, ◌>>=◌, ok_or,
}
use skimasque.Prelude.Text.{Text, codes, text_eq, strip_prefix, split_once, split}
use skimasque.Prelude.Trim.{contains}
use skimasque.Template.Percent.{pct_encode}

pub data Error : Type 0 where
  not_absolute : Error
  empty_component : Text → Error
  path_must_start_with_slash : Error
  -- The character by its first byte.
  illegal_character : ℕ → Error
  unsupported_operator : ℕ → Error
  unsupported_modifier : ℕ → Error
  unterminated_expression : Error
  empty_expression : Error
  variable_outside_path_or_query : Error
  duplicate_variable : Text → Error
  query_expression_must_be_last : Error
  missing_variable : Text → Error
  undefined_variable : Text → Error
  empty_value : Text → Error

pub data Part : Type 0 where
  literal : Text → Part
  simple : Text → Part
  query : List Text → Part
  query_continuation : List Text → Part

pub record UriTemplate : Type 0 where
  pub scheme : Text
  pub authority : Text
  pub parts : List Part
  pub variables : List Text
  pub raw : Text

-- `is_empty` of a text
abbrev pub is_empty : Text → Bool
is_empty [] = true
is_empty (_ ∷ _) = false

abbrev pub has_name : List Text → Text → Bool
has_name names n = any (text_eq n) names

-- A map from variables to values.
abbrev pub Values : Type 0
Values = List (Text × Text)

abbrev pub get : Text → Values → Option Text
get n [] = none
get n ((k, v) ∷ values) = let rest = get n values in if text_eq n k then some v else rest

abbrev pub present : Text → Option Text → Result Error Text
present n none = err (undefined_variable n)
present n (some v) = if is_empty v then err (empty_value n) else ok v

unfoldable pub lookup : Values → Text → Result Error Text
lookup values n = present n (get n values)

-- The names from the second on have an ampersand in front.
unfoldable pub expand_query : Values → (separator : ℕ) → List Text → Result Error Text
expand_query values separator [] = ok []
expand_query values separator (n ∷ names) = lookup values n >>= λ (v : Text).
    expand_query values b'&' names >>= λ (rest : Text).
    ok ((separator ∷ n) ++ codes "=" ++ pct_encode v ++ rest)

unfoldable pub expand_part : Values → Part → Result Error Text
expand_part values (literal l) = ok l
expand_part values (simple n) = lookup values n >>= λ (v : Text). ok (pct_encode v)
expand_part values (query names) = expand_query values b'?' names
expand_part values (query_continuation names) = expand_query values b'&' names

unfoldable pub expand_parts : Values → List Part → Result Error Text
expand_parts values [] = ok []
expand_parts values (p ∷ parts) = expand_part values p >>= λ (t : Text).
    expand_parts values parts >>= λ (rest : Text). ok (t ++ rest)

unfoldable pub expand_path : UriTemplate → Values → Result Error Text
expand_path template values = expand_parts values template.parts

unfoldable pub expand_absolute : UriTemplate → Values → Result Error Text
expand_absolute template values = expand_path template values >>= λ (path : Text).
    ok (template.scheme ++ codes "://" ++ template.authority ++ path)
