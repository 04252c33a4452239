-- ===== src/Template/RoundTrip.antt =====
-- crates/skimasque-core/src/template.rs: a path that a template expanded to, matched against it.
use skimasque.Prelude.{
  ℕ, suc, ◌/◌, ◌%◌, ◌<◌, List, [], ◌∷◌, ◌++◌, Bool, true, false, Option, none, some, length, take,
  drop, All, All-append, Bool-cases, ok, ◌>>=◌, >>=_ok, take-append_self, drop-append_self,
}
use skimasque.Prelude.{◌≡◌, refl, ap, ap₂, sym, ◌∙◌, inl, inr, arith}
use mathlib.Core.Path.{subst}
use skimasque.Prelude.Text.{Text}
use skimasque.Prelude.Split.{strip_prefix-append}
use skimasque.Template.{
  Part, literal, simple, query, query_continuation, is_empty, Values, get, present, lookup,
  expand_part, expand_parts,
}
use skimasque.Template.Percent.{
  is_unreserved, upper_digit, encoded_byte, pct_encode, is_utf8, pct_decode,
}
use skimasque.Template.PercentRoundTrip.{IsByte, is_utf8-IsByte, pct_decode-pct_encode}
use skimasque.Template.Match.{
  is_expansion_safe, span, insert, or_shorter, try_run, match_simple, match_parts,
}

abbrev pub IsSafe : ℕ → Type 0
IsSafe c = is_expansion_safe c ≡ true

unreserved-IsSafe : (b : ℕ) → is_unreserved b ≡ true → IsSafe b
unfolding is_unreserved
unreserved-IsSafe b h = ground arith

upper_digit-IsSafe : (d : ℕ) → d < 16 → IsSafe (upper_digit d)
upper_digit-IsSafe d h = ground arith

encoded_byte-IsSafe : (b : ℕ) → b < 256 → All IsSafe (encoded_byte b)
encoded_byte-IsSafe b h = elim (Bool-cases (is_unreserved b)) [
  | inl e ↦ rw e (unreserved-IsSafe b e, tt)
  | inr e ↦ rw e (
    refl,
    (upper_digit-IsSafe (b / 16) (omega arith), (upper_digit-IsSafe (b % 16) (omega arith), tt)),
  )
]

pub pct_encode-IsSafe : (v : Text) → All IsByte v → All IsSafe (pct_encode v)
unfolding pct_encode
pct_encode-IsSafe [] h = tt
pct_encode-IsSafe (b ∷ v) (h, k) =
    All-append IsSafe (encoded_byte b) (pct_encode v) (encoded_byte-IsSafe b h)
      (pct_encode-IsSafe v k)

-- No safe byte stands at the front.
abbrev pub Stops : Text → Type 0
Stops [] = Unit
Stops (c ∷ t) = is_expansion_safe c ≡ false

span-append : (t rest : Text) → All IsSafe t → Stops rest → span (t ++ rest) ≡ length t
span-append [] [] h s = refl
span-append [] (c ∷ rest) h s = rw s refl
span-append (c ∷ t) rest (h, k) s = rw (h, span-append t rest k s) refl

nonempty-pct_encode : (v : Text) → is_empty v ≡ false → (n : ℕ) × (length (pct_encode v) ≡ suc n)
unfolding pct_encode
nonempty-pct_encode [] h = absurd (cc (h))
nonempty-pct_encode (b ∷ v) h = elim (Bool-cases (is_unreserved b)) [
  | inl e ↦ rw e (length (pct_encode v), refl)
  | inr e ↦ rw e (suc (suc (length (pct_encode v))), refl)
]

present_ok :
    (n v : Text) (o : Option Text) → present n o ≡ ok v → (o ≡ some v) × (is_empty v ≡ false)
present_ok n v none h = absurd (cc (h))
present_ok n v (some []) h = absurd (cc (h))
present_ok n v (some (c ∷ t)) h =
    let same : c ∷ t ≡ v = cc in (ap (λ (x : Text). some x) same, ap is_empty (sym same))

-- What `lookup` returns is in the map and not empty.
pub lookup_ok :
    (values : Values) (n v : Text)
    → lookup values n ≡ ok v
    → (get n values ≡ some v) × (is_empty v ≡ false)
unfolding lookup
lookup_ok values n v h = present_ok n v (get n values) h

-- The longest run is tried first, and it is the encoded value.
match_simple-pct_encode :
    (next : Text → Values → Bool × Values) (n v rest : Text) (values found : Values)
    → is_utf8 v ≡ true
    → is_empty v ≡ false
    → Stops rest
    → next rest (insert n v values) ≡ (true, found)
    → match_simple next n (pct_encode v ++ rest) (span (pct_encode v ++ rest)) values
      ≡ (true, found)
unfolding match_simple
match_simple-pct_encode next n v rest values found u e s h =
    let (k, len) = nonempty-pct_encode v e in
    let input = pct_encode v ++ rest in
    let shorter = match_simple next n input k in
    let run = span-append (pct_encode v) rest (pct_encode-IsSafe v (is_utf8-IsByte v u)) s ∙ len in
    let front : take (suc k) input ≡ pct_encode v =
      ap (λ (m : ℕ). take m input) (sym len) ∙ take-append_self (pct_encode v) rest in
    let back : drop (suc k) input ≡ rest =
      ap (λ (m : ℕ). drop m input) (sym len) ∙ drop-append_self (pct_encode v) rest in
    ap (λ (m : ℕ). match_simple next n input m values) run
    ∙ ap₂ (λ (r : Text) (o : Option Text). try_run next n r shorter values o) back
        (ap pct_decode front ∙ pct_decode-pct_encode v u)
    ∙ ap (or_shorter n shorter) h

-- Literals and simple expressions, with an unsafe byte behind each expression.
abbrev pub Ends : List Part → Type 0
Ends [] = Unit
Ends (literal (c ∷ l) ∷ parts) = is_expansion_safe c ≡ false
Ends _ = ⊥

abbrev pub IsPath : List Part → Type 0
IsPath [] = Unit
IsPath (literal l ∷ parts) = IsPath parts
IsPath (simple n ∷ parts) = Ends parts × IsPath parts
IsPath _ = ⊥

-- The values of a map for the variables of some parts, on top of another map.
abbrev pub record_all : Values → List Part → Values → Values
record_all values (simple n ∷ parts) found = elim (get n values) [
  | none ↦ record_all values parts found
  | some v ↦ record_all values parts (insert n v found)
]
record_all values (_ ∷ parts) found = record_all values parts found
record_all values [] found = found

expand_parts-Stops :
    (values : Values) (parts : List Part) (path : Text)
    → Ends parts
    → expand_parts values parts ≡ ok path
    → Stops path
unfolding expand_parts expand_part
expand_parts-Stops values [] path h e = let k : [] ≡ path = cc in subst Stops k tt
expand_parts-Stops values (literal (c ∷ l) ∷ parts) path h e =
    let (rest, _, r) =
      >>=_ok (expand_parts values parts) (λ (t : Text). ok ((c ∷ l) ++ t)) path e in
    let k : c ∷ (l ++ rest) ≡ path = cc in subst Stops k h
expand_parts-Stops values (literal [] ∷ parts) path h e = absurd h
expand_parts-Stops values (simple n ∷ parts) path h e = absurd h
expand_parts-Stops values (query ns ∷ parts) path h e = absurd h
expand_parts-Stops values (query_continuation ns ∷ parts) path h e = absurd h

-- The strings of a map are UTF-8, as every `String` is.
abbrev pub AreStrings : Values → Type 0
AreStrings values = (n v : Text) → get n values ≡ some v → is_utf8 v ≡ true

match_parts-literal :
    (l rest : Text) (parts : List Part) (found : Values)
    → match_parts (literal l ∷ parts) (l ++ rest) found ≡ match_parts parts rest found
unfolding match_parts
match_parts-literal l rest parts found = rw (match_parts, strip_prefix-append l rest) refl

pub match_parts-expand_parts :
    (values : Values) (parts : List Part) (path : Text) (found : Values)
    → AreStrings values
    → IsPath parts
    → expand_parts values parts ≡ ok path
    → match_parts parts path found ≡ (true, record_all values parts found)
unfolding match_parts expand_parts expand_part
match_parts-expand_parts values [] path found u h e =
    let k : [] ≡ path = cc in subst (λ (t : Text). match_parts [] t found ≡ (true, found)) k refl
match_parts-expand_parts values (literal l ∷ parts) path found u h e =
    let (rest, r, p) = >>=_ok (expand_parts values parts) (λ (t : Text). ok (l ++ t)) path e in
    let k : l ++ rest ≡ path = cc in
    let goes_on = match_parts-expand_parts values parts rest found u h r in
    subst
      (λ (t : Text).
        match_parts (literal l ∷ parts) t found ≡ (true, record_all values parts found))
      k (match_parts-literal l rest parts found ∙ goes_on)
match_parts-expand_parts values (simple n ∷ parts) path found u (ends, h) e =
    let (t, first, p) =
      >>=_ok (lookup values n >>= λ (v : Text). ok (pct_encode v))
        (λ (t : Text). expand_parts values parts >>= λ (rest : Text). ok (t ++ rest)) path e in
    let (v, looked, q) = >>=_ok (lookup values n) (λ (v : Text). ok (pct_encode v)) t first in
    let (rest, r, z) =
      >>=_ok (expand_parts values parts) (λ (rest : Text). ok (t ++ rest)) path p in
    let (there, full) = lookup_ok values n v looked in
    let encoded : pct_encode v ≡ t = cc in
    let k : pct_encode v ++ rest ≡ path =
      let l : t ++ rest ≡ path = cc in ap (λ (x : Text). x ++ rest) encoded ∙ l in
    let goes_on = match_parts-expand_parts values parts rest (insert n v found) u h r in
    let recorded : record_all values (simple n ∷ parts) found
        ≡ record_all values parts (insert n v found) =
      rw (record_all, there) refl in
    subst
      (λ (x : Text).
        match_parts (simple n ∷ parts) x found ≡ (true, record_all values (simple n ∷ parts) found))
      k
      (match_simple-pct_encode (match_parts parts) n v rest found
          (record_all values parts (insert n v found)) (u n v there) full
          (expand_parts-Stops values parts rest ends r) goes_on
        ∙ ap (λ (x : Values). (true, x)) (sym recorded))
match_parts-expand_parts values (query ns ∷ parts) path found u h e = absurd h
match_parts-expand_parts values (query_continuation ns ∷ parts) path found u h e = absurd h
