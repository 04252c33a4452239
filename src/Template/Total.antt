-- ===== src/Template/Total.antt =====
-- crates/skimasque-core/src/template.rs: the loop of the template parser comes to an end.
use skimasque.Prelude.{
  ℕ, zero, suc, ◌<◌, List, [], ◌∷◌, ◌++◌, Bool, true, false, Option, none, some, ◌==◌,
  if◌then◌else◌, ◌||◌, ◌&&◌, not, leb, length, Bool-cases, Result, ok, err, ◌>>=◌,
}
use skimasque.Prelude.{◌≡◌, refl, inl, inr, arith}
use skimasque.Prelude.Text.{Text, codes, split_once}
use skimasque.Template.{
  Error, Part, UriTemplate, is_empty, unterminated_expression, illegal_character,
}
use skimasque.Prelude.Trim.{contains}
use mathlib.Core.Option.{map}
use skimasque.Template.Parse.{
  first_of, parse_expression, push_literal, prepend, parse_loop, ordered, parse_parts, and_parts,
  with_variables, parse_after_scheme, parse_scheme, parse, with_part, after_close, after_open,
  and_ordered, unless_illegal, split_at,
}

-- Behind a separator the text is shorter.
abbrev Shorter : Text → Option (Text × Text) → Type 0
Shorter t none = Unit
Shorter t (some r) = length r.1 < length t

longer :
    (x : ℕ) (t : Text) (o : Option (Text × Text))
    → Shorter t o
    → Shorter (x ∷ t) (map (λ (r : Text × Text). (x ∷ r.0, r.1)) o)
longer x t none h = tt
longer x t (some r) h = omega (arith, h)

split_once-Shorter : (c : ℕ) (t : Text) → Shorter t (split_once c t)
split_once-Shorter c [] = tt
split_once-Shorter c (x ∷ t) = elim (Bool-cases (x == c)) [
  | inl e ↦ rw e (omega arith)
  | inr e ↦ rw e (longer x t (split_once c t) (split_once-Shorter c t))
]

abbrev pub Returns {ℓ} : {A : Type ℓ} → Option A → Type ℓ
Returns o = (a : _) × (o ≡ some a)

module _ (next : Text → Option (Result Error (List Part))) (fuel : ℕ)
    (goes_on : (t : Text) → length t < fuel → Returns (next t)) where
  prepend-Returns :
      (parts : List Part) (o : Option (Result Error (List Part)))
      → Returns o
      → Returns (prepend parts o)
  prepend-Returns parts none (r, e) = absurd (cc (e))
  prepend-Returns parts (some (err x)) h = (err x, refl)
  prepend-Returns parts (some (ok more)) h = (ok (parts ++ more), refl)

  with_part-Returns :
      (before rest : Text) (r : Result Error Part)
      → length rest < fuel
      → Returns (with_part next before rest r)
  with_part-Returns before rest (err x) h = (err x, refl)
  with_part-Returns before rest (ok part) h =
      prepend-Returns (push_literal before (part ∷ [])) (next rest) (goes_on rest h)

  after_close-Returns :
      (before t : Text) (o : Option (Text × Text))
      → Shorter t o
      → length t < suc fuel
      → Returns (after_close next before o)
  after_close-Returns before t none s h = (err unterminated_expression, refl)
  after_close-Returns before t (some e) s h =
      with_part-Returns before e.1 (parse_expression e.0) (omega (arith, s, h))

  after_open-Returns :
      (rest : Text) (o : Option (Text × Text))
      → Shorter rest o
      → length rest < suc fuel
      → Returns (after_open next rest o)
  after_open-Returns rest none s h = (ok (push_literal rest []), refl)
  after_open-Returns rest (some r) s h =
      after_close-Returns r.0 r.1 (split_once b'}' r.1) (split_once-Shorter b'}' r.1)
        (omega (arith, s, h))

parse_loop-Returns : (fuel : ℕ) (t : Text) → length t < fuel → Returns (parse_loop fuel t)
unfolding parse_loop
parse_loop-Returns zero t h = absurd (omega (arith, h))
parse_loop-Returns (suc fuel) t h =
    after_open-Returns (parse_loop fuel) fuel (parse_loop-Returns fuel) t (split_once b'{' t)
      (split_once-Shorter b'{' t) h

and_ordered-Returns : (o : Option (Result Error (List Part))) → Returns o → Returns (and_ordered o)
and_ordered-Returns none (r, e) = absurd (cc (e))
and_ordered-Returns (some r) h = (r >>= ordered, refl)

parse_parts-Returns : (t : Text) → Returns (parse_parts t)
unfolding parse_parts
parse_parts-Returns t =
    and_ordered-Returns (parse_loop (suc (length t)) t)
      (parse_loop-Returns (suc (length t)) t (omega arith))

and_parts-Returns :
    (f : List Part → Result Error UriTemplate) (o : Option (Result Error (List Part)))
    → Returns o
    → Returns (and_parts f o)
and_parts-Returns f none (r, e) = absurd (cc (e))
and_parts-Returns f (some r) h = (r >>= f, refl)

if-Returns {ℓ} :
    {A : Type ℓ} (b : Bool) (x : A) (o : Option A) → Returns o → Returns (if b then some x else o)
if-Returns true x o h = (x, refl)
if-Returns false x o h = h

parse_after_scheme-Returns :
    (template s : Text) (o : Option (Text × Text)) → Returns (parse_after_scheme template s o)
unfolding parse_after_scheme
parse_after_scheme-Returns template s none = (_, refl)
parse_after_scheme-Returns template s (some (authority, rest)) =
    if-Returns (is_empty authority) _ _ (
      if-Returns (contains b'{' s || contains b'{' authority) _ _ (
        and_parts-Returns (with_variables template s authority) (parse_parts (b'/' ∷ rest))
          (parse_parts-Returns (b'/' ∷ rest))))

parse_scheme-Returns :
    (template : Text) (o : Option (Text × Text)) → Returns (parse_scheme template o)
unfolding parse_scheme
parse_scheme-Returns template none = (_, refl)
parse_scheme-Returns template (some (s, rest)) =
    if-Returns (is_empty s) _ _ (parse_after_scheme-Returns template s (split_once b'/' rest))

unless_illegal-Returns : (template : Text) (o : Option ℕ) → Returns (unless_illegal template o)
unless_illegal-Returns template (some c) = (err (illegal_character c), refl)
unless_illegal-Returns template none =
    parse_scheme-Returns template (split_at (codes "://") template)

-- For every text, the fuel of the template parser's loop over the expressions, one more than the
-- text's length, is enough: `UriTemplate::parse` returns a template or an error.
pub parse-Returns : (template : Text) → Returns (parse template)
unfolding parse
parse-Returns template =
    unless_illegal-Returns template (first_of (λ c. not (leb 33 c && leb c 126)) template)
