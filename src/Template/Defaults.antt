-- ===== src/Template/Defaults.antt =====
-- crates/skimasque-core/src/template.rs: the templates of a proxy that advertises no other.
use skimasque.Prelude.{
  ℕ, ◌≤◌, List, [], ◌∷◌, ◌++◌, Bool, false, not, ◌&&◌, none, some, leb, All, ok, append_assoc,
}
use skimasque.Prelude.{◌≡◌, refl, ap, ◌∙◌, arith}
use skimasque.Prelude.Text.{Text, codes}
use skimasque.Prelude.Trim.{contains}
use skimasque.Prelude.Split.{split_once-append}
use skimasque.Template.{Part, literal, simple, UriTemplate, is_empty}
use skimasque.Template.Parse.{
  first_of, unless_illegal, parse_scheme, parse_after_scheme, parse_parts, parse_loop,
  parse_expression, checked_names, checked_name, ordered, query_not_last, collect_variables,
  add_names, with_variables, parse, default_connect_udp,
}
use skimasque.Template.RoundTrip.{IsPath}
use skimasque.Template.Recovered.{path_names}

-- A visible ASCII byte.
abbrev pub IsVisible : ℕ → Type 0
IsVisible c = (33 ≤ c) × (c ≤ 126)

abbrev is_bad : ℕ → Bool
is_bad c = not (leb 33 c && leb c 126)

first_of-append :
    (t rest : Text) → All IsVisible t → first_of is_bad (t ++ rest) ≡ first_of is_bad rest
first_of-append [] rest h = refl
first_of-append (c ∷ t) rest (h, k) =
    let fine : is_bad c ≡ false = ground arith in rw (fine) (first_of-append t rest k)

-- An authority as a template can have one.
abbrev pub IsAuthority : Text → Type 0
IsAuthority a =
    All IsVisible a × (is_empty a ≡ false) × (contains b'/' a ≡ false) × (contains b'{' a ≡ false)

abbrev pub udp_parts : List Part
udp_parts =
    literal (codes "/.well-known/masque/udp/")
    ∷ simple (codes "target_host")
    ∷ literal (codes "/")
    ∷ simple (codes "target_port")
    ∷ literal (codes "/")
    ∷ []

udp_path-parts :
    parse_parts (codes "/.well-known/masque/udp/{target_host}/{target_port}/") ≡ some (ok udp_parts)
unfolding parse_parts parse_loop parse_expression checked_names checked_name ordered query_not_last
udp_path-parts = refl

udp_parts-IsPath : IsPath udp_parts
udp_parts-IsPath = (refl, (refl, tt))

abbrev udp_path : Text
udp_path = codes ".well-known/masque/udp/{target_host}/{target_port}/"

abbrev whole_text : Text → Text
whole_text a = codes "https://" ++ (a ++ (b'/' ∷ udp_path))

abbrev template_at : Text → UriTemplate
template_at a = record {
  scheme = codes "https";
  authority = a;
  parts = udp_parts;
  variables = codes "target_host" ∷ codes "target_port" ∷ [];
  raw = whole_text a;
}

module _ (a : Text) (h : IsAuthority a) where
  whole_text_visible : first_of is_bad (whole_text a) ≡ none
  whole_text_visible = let (visible, _, _, _) = h in first_of-append a (b'/' ∷ udp_path) visible

  parse_after_scheme-udp :
      parse_after_scheme (whole_text a) (codes "https") (some (a, udp_path))
      ≡ some (ok (template_at a))
  unfolding parse_after_scheme with_variables collect_variables add_names
  parse_after_scheme-udp =
      let (_, full, _, no_brace) = h in rw (full, no_brace, udp_path-parts) refl

  parse-udp : parse (whole_text a) ≡ some (ok (template_at a))
  unfolding parse parse_scheme
  parse-udp =
      let (_, _, no_slash, _) = h in
      ap (unless_illegal (whole_text a)) whole_text_visible
      ∙ ap (parse_after_scheme (whole_text a) (codes "https"))
          (split_once-append b'/' a udp_path no_slash)
      ∙ parse_after_scheme-udp

pub default_connect_udp-IsPath :
    (a : Text)
    → IsAuthority a
    → (template : UriTemplate) × (default_connect_udp a ≡ some (ok template))
      × (template.authority ≡ a)
      × IsPath template.parts
      × (path_names template.parts ≡ codes "target_host" ∷ codes "target_port" ∷ [])
unfolding default_connect_udp
default_connect_udp-IsPath a h = (
  template_at a,
  ap parse (append_assoc (codes "https://") a (b'/' ∷ udp_path)) ∙ parse-udp a h,
  refl,
  udp_parts-IsPath,
  refl,
)
