-- ===== src/Template/Recovered.antt =====
-- crates/skimasque-core/src/template.rs: the values that `match_path` returns.
use skimasque.Prelude.{
  List, [], ◌∷◌, ◌++◌, true, false, some, if◌then◌else◌, Bool-cases, ok, ◌>>=◌, >>=_ok,
}
use skimasque.Prelude.{◌≡◌, refl, ap, sym, ◌∙◌, ◌⊎◌, inl, inr}
use skimasque.Prelude.Text.{Text, text_eq, text_eq_iff}
use skimasque.Template.{
  Part, literal, simple, query, query_continuation, UriTemplate, Values, get, has_name, lookup,
  expand_part, expand_parts, expand_path,
}
use skimasque.Template.Percent.{pct_encode}
use skimasque.Template.Match.{insert, match_path}
use skimasque.Template.RoundTrip.{
  IsPath, AreStrings, record_all, match_parts-expand_parts, lookup_ok,
}

text_eq_left : (m n k : Text) → text_eq m n ≡ true → text_eq m k ≡ text_eq n k
text_eq_left m n k h = ap (λ (x : Text). text_eq x k) ((text_eq_iff m n).0 h)

text_eq_right : (m n k : Text) → text_eq n k ≡ true → text_eq m k ≡ text_eq m n
text_eq_right m n k h = ap (text_eq m) (sym ((text_eq_iff n k).0 h))

get-insert :
    (m n v : Text) (found : Values)
    → get m (insert n v found) ≡ (if text_eq m n then some v else get m found)
get-insert m n v [] = refl
get-insert m n v ((k, x) ∷ found) = elim (Bool-cases (text_eq n k)) [
  | inl e ↦ elim (Bool-cases (text_eq m n)) [
    | inl f ↦ rw (e, f) refl
    | inr f ↦ let g : text_eq m k ≡ false = text_eq_right m n k e ∙ f in rw (e, f, g) refl
  ]
  | inr e ↦ elim (Bool-cases (text_eq m n)) [
    | inl f ↦
        let g : text_eq m k ≡ false = text_eq_left m n k f ∙ e in
        rw (e, f, g) (get-insert m n v found ∙ rw f refl)
    | inr f ↦ rw (e, f) (rw (get-insert m n v found, f) refl)
  ]
]

-- The variables of a path template, and that a map has them all.
abbrev pub path_names : List Part → List Text
path_names (simple n ∷ parts) = n ∷ path_names parts
path_names (_ ∷ parts) = path_names parts
path_names [] = []

abbrev AllPresent : Values → List Part → Type 0
AllPresent values (simple n ∷ parts) =
    ((v : Text) × (get n values ≡ some v)) × AllPresent values parts
AllPresent values (_ ∷ parts) = AllPresent values parts
AllPresent values [] = Unit

expand_parts-AllPresent :
    (values : Values) (parts : List Part) (path : Text)
    → IsPath parts
    → expand_parts values parts ≡ ok path
    → AllPresent values parts
unfolding expand_parts expand_part
expand_parts-AllPresent values [] path h e = tt
expand_parts-AllPresent values (literal l ∷ parts) path h e =
    let (rest, r, _) = >>=_ok (expand_parts values parts) (λ (t : Text). ok (l ++ t)) path e in
    expand_parts-AllPresent values parts rest h r
expand_parts-AllPresent values (simple n ∷ parts) path (_, h) e =
    let (t, first, p) =
      >>=_ok (lookup values n >>= λ (v : Text). ok (pct_encode v))
        (λ (t : Text). expand_parts values parts >>= λ (rest : Text). ok (t ++ rest)) path e in
    let (v, looked, _) = >>=_ok (lookup values n) (λ (v : Text). ok (pct_encode v)) t first in
    let (rest, r, _) =
      >>=_ok (expand_parts values parts) (λ (rest : Text). ok (t ++ rest)) path p in
    ((v, (lookup_ok values n v looked).0), expand_parts-AllPresent values parts rest h r)
expand_parts-AllPresent values (query ns ∷ parts) path h e = absurd h
expand_parts-AllPresent values (query_continuation ns ∷ parts) path h e = absurd h

agrees_after :
    (values : Values) (m n v : Text) (names : List Text) (found : Values)
    → get n values ≡ some v
    → (has_name (n ∷ names) m ≡ true) ⊎ (get m found ≡ get m values)
    → (has_name names m ≡ true) ⊎ (get m (insert n v found) ≡ get m values)
agrees_after values m n v names found there h = elim (Bool-cases (text_eq m n)) [
  | inl e ↦ inr (
      get-insert m n v found
      ∙ rw e (sym there ∙ ap (λ (x : Text). get x values) (sym ((text_eq_iff m n).0 e))))
  | inr e ↦ elim h [ inl k ↦ inl (rw e at k) | inr k ↦ inr (get-insert m n v found ∙ rw e k) ]
]

get-record_all :
    (values : Values) (parts : List Part) (m : Text) (found : Values)
    → AllPresent values parts
    → (has_name (path_names parts) m ≡ true) ⊎ (get m found ≡ get m values)
    → get m (record_all values parts found) ≡ get m values
get-record_all values [] m found p (inl h) = absurd (cc (h))
get-record_all values [] m found p (inr h) = h
get-record_all values (literal l ∷ parts) m found p h = get-record_all values parts m found p h
get-record_all values (simple n ∷ parts) m found ((v, there), p) h =
    let recorded : record_all values (simple n ∷ parts) found
        ≡ record_all values parts (insert n v found) =
      rw (record_all, there) refl in
    ap (get m) recorded
    ∙ get-record_all values parts m (insert n v found) p
        (agrees_after values m n v (path_names parts) found there h)
get-record_all values (query ns ∷ parts) m found p h = get-record_all values parts m found p h
get-record_all values (query_continuation ns ∷ parts) m found p h =
    get-record_all values parts m found p h

-- For a template of literals and simple expressions in which the end, or a literal that starts
-- with a byte no encoded value has, follows each expression, and UTF-8 values: when `expand_path`
-- returns a path, `match_path` matches it and returns for every variable of the template the value
-- that was given.
pub match_path-expand_path :
    (template : UriTemplate) (values : Values) (path : Text)
    → IsPath template.parts
    → AreStrings values
    → expand_path template values ≡ ok path
    → (found : Values) × (match_path template path ≡ some found)
      × ((m : Text) → has_name (path_names template.parts) m ≡ true → get m found ≡ get m values)
unfolding match_path expand_path
match_path-expand_path template values path h u e = (
  record_all values template.parts [],
  rw (match_parts-expand_parts values template.parts path [] u h e) refl,
  λ m k.
      get-record_all values template.parts m []
        (expand_parts-AllPresent values template.parts path h e) (inl k),
)
