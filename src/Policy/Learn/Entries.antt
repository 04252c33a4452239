-- ===== src/Policy/Learn/Entries.antt =====
-- crates/skimasque-policy/src/learn.rs: what the rules of gathered destinations speak to.
use skimasque.Prelude.{
  List, [], ◌∷◌, Bool, true, false, ◌&&◌, ◌||◌, some, ◌==◌, any, All, Result, ok, err, Bool-cases,
}
use skimasque.Prelude.{◌≡◌, refl, ap, ap₂, sym, ◌∙◌, inl, inr, and_true}
use skimasque.Prelude.Text.{Text, text_eq, text_eq_iff, text_le}
use skimasque.Policy.Destination.{DestinationSpec, spec_matches}
use skimasque.Policy.Destination.Parse.{ParseDestinationError, parse_spec}
use skimasque.Policy.Model.{
  Rule, allow, app_matches, transport_matches, TransportPattern, any_transport, only_tcp, only_udp,
  covers,
}
use skimasque.Policy.Eval.{RequestContext, speaks}
use skimasque.Policy.Learn.{
  Key, rank, key_eq, key_before, insert_text, insert_at, specs_of, app_pattern, rule_of, rules_of,
}

-- Whether a text is a pattern that matches the request's destination, and a key covers the request.
abbrev pub hit_of : RequestContext → Result ParseDestinationError DestinationSpec → Bool
hit_of ctx (ok s) = spec_matches s ctx.destination
hit_of ctx (err _) = false

unfoldable pub hits : RequestContext → Text → Bool
hits ctx d = hit_of ctx (parse_spec d)

pub hits_pattern :
    (ctx : RequestContext) (d : Text) (s : DestinationSpec)
    → parse_spec d ≡ ok s
    → hits ctx d ≡ spec_matches s ctx.destination
unfolding hits
hits_pattern ctx d s e = ap (hit_of ctx) e

unfoldable pub key_covers : RequestContext → Key → Bool
key_covers ctx k =
    app_matches (app_pattern k.0) ctx.application && transport_matches k.1 ctx.transport

unfoldable pub entries_speak : RequestContext → List (Key × List Text) → Bool
entries_speak ctx [] = false
entries_speak ctx ((k, ds) ∷ entries) =
    (key_covers ctx k && any (hits ctx) ds) || entries_speak ctx entries

abbrev pub IsPattern : Text → Type 0
IsPattern d = (s : DestinationSpec) × (parse_spec d ≡ ok s)

abbrev pub ArePatterns : List (Key × List Text) → Type 0
ArePatterns [] = Unit
ArePatterns ((k, ds) ∷ entries) = All IsPattern ds × ArePatterns entries

abbrev pub IsAllow : Rule → Type 0
IsAllow r = r.action ≡ allow

-- No `expect` panics, and the rules speak to what the entries do.
specs_of-hits :
    (ctx : RequestContext) (ds : List Text)
    → All IsPattern ds
    → (specs : List DestinationSpec) × (specs_of ds ≡ some specs)
      × (any (λ s. spec_matches s ctx.destination) specs ≡ any (hits ctx) ds)
unfolding specs_of
specs_of-hits ctx [] h = ([], refl, refl)
specs_of-hits ctx (d ∷ ds) ((s, e), h) =
    let (specs, f, same) = specs_of-hits ctx ds h in
    (s ∷ specs, rw (e, f) refl, ap₂ ◌||◌ (sym (hits_pattern ctx d s e)) same)

pub rules_of-entries_speak :
    (ctx : RequestContext) (entries : List (Key × List Text))
    → ArePatterns entries
    → (rules : List Rule) × (rules_of entries ≡ some rules)
      × All IsAllow rules
      × (any (speaks ctx) rules ≡ entries_speak ctx entries)
unfolding rules_of entries_speak key_covers speaks covers rule_of
rules_of-entries_speak ctx [] h = ([], refl, tt, refl)
rules_of-entries_speak ctx ((k, ds) ∷ entries) (h, t) =
    let (specs, e, hit) = specs_of-hits ctx ds h in
    let (rules, f, allows, same) = rules_of-entries_speak ctx entries t in
    (rule_of k specs ∷ rules, rw (e, f) refl, (refl, allows), rw (hit, same) refl)

-- Insertion adds what is inserted, wherever it goes.
or_swap : (a b c : Bool) → (b || (a || c)) ≡ (a || (b || c))
or_swap true true c = refl
or_swap true false c = refl
or_swap false b c = refl

or_again : (a c : Bool) → (a || c) ≡ (a || (a || c))
or_again true c = refl
or_again false c = refl

any-insert_text :
    (p : Text → Bool) (d : Text) (xs : List Text) → any p (insert_text d xs) ≡ (p d || any p xs)
unfolding insert_text
any-insert_text p d [] = refl
any-insert_text p d (x ∷ xs) = elim (Bool-cases (text_eq d x)) [
  | inl e ↦ rw e (
      or_again (p x) (any p xs)
      ∙ ap (λ (t : Text). p t || (p x || any p xs)) (sym ((text_eq_iff d x).0 e)))
  | inr e ↦ elim (Bool-cases (text_le d x)) [
    | inl f ↦ rw (e, f) refl
    | inr f ↦
        rw (e, f)
          (ap (λ (b : Bool). p x || b) (any-insert_text p d xs) ∙ or_swap (p d) (p x) (any p xs))
  ]
]

All-insert_text :
    (d : Text) (xs : List Text) → IsPattern d → All IsPattern xs → All IsPattern (insert_text d xs)
unfolding insert_text
All-insert_text d [] h t = (h, tt)
All-insert_text d (x ∷ xs) h (k, t) = elim (Bool-cases (text_eq d x)) [
  | inl e ↦ rw e (k, t)
  | inr e ↦ elim (Bool-cases (text_le d x)) [
    | inl f ↦ rw (e, f) (h, (k, t))
    | inr f ↦ rw (e, f) (k, All-insert_text d xs h t)
  ]
]

rank_equal : (a b : TransportPattern) → (rank a == rank b) ≡ true → a ≡ b
rank_equal any_transport any_transport h = refl
rank_equal only_tcp only_tcp h = refl
rank_equal only_udp only_udp h = refl
rank_equal any_transport only_tcp h = absurd (cc (h))
rank_equal any_transport only_udp h = absurd (cc (h))
rank_equal only_tcp any_transport h = absurd (cc (h))
rank_equal only_tcp only_udp h = absurd (cc (h))
rank_equal only_udp any_transport h = absurd (cc (h))
rank_equal only_udp only_tcp h = absurd (cc (h))

key_equal : (k j : Key) → key_eq k j ≡ true → k ≡ j
key_equal k j h =
    let (a, t) = and_true (text_eq k.0 j.0) (rank k.1 == rank j.1) h in
    ap₂ (λ (x : Text) (y : TransportPattern). (x, y)) ((text_eq_iff k.0 j.0).0 a)
      (rank_equal k.1 j.1 t)

under_key : (c d e r : Bool) → ((c && (d || e)) || r) ≡ ((c && d) || ((c && e) || r))
under_key true true e r = refl
under_key true false e r = refl
under_key false d e r = refl

alone : (c d : Bool) → (c && (d || false)) ≡ (c && d)
alone true true = refl
alone true false = refl
alone false d = refl

pub entries_speak-insert_at :
    (ctx : RequestContext) (k : Key) (d : Text) (entries : List (Key × List Text))
    → entries_speak ctx (insert_at k d entries)
      ≡ ((key_covers ctx k && hits ctx d) || entries_speak ctx entries)
unfolding entries_speak insert_at
entries_speak-insert_at ctx k d [] =
    ap (λ (b : Bool). b || false) (alone (key_covers ctx k) (hits ctx d))
entries_speak-insert_at ctx k d ((j, ds) ∷ entries) = elim (Bool-cases (key_eq k j)) [
  | inl e ↦ rw e (
      ap (λ (b : Bool). (key_covers ctx j && b) || entries_speak ctx entries)
        (any-insert_text (hits ctx) d ds)
      ∙ under_key (key_covers ctx j) (hits ctx d) (any (hits ctx) ds) (entries_speak ctx entries)
      ∙ ap
          (λ (i : Key).
            (key_covers ctx i && hits ctx d)
            || ((key_covers ctx j && any (hits ctx) ds) || entries_speak ctx entries))
          (sym (key_equal k j e)))
  | inr e ↦ elim (Bool-cases (key_before k j)) [
    | inl f ↦
        rw (e, f)
          (ap
            (λ (b : Bool).
              b || ((key_covers ctx j && any (hits ctx) ds) || entries_speak ctx entries))
            (alone (key_covers ctx k) (hits ctx d)))
    | inr f ↦
        rw (e, f)
          (ap (λ (b : Bool). (key_covers ctx j && any (hits ctx) ds) || b)
              (entries_speak-insert_at ctx k d entries)
            ∙ or_swap (key_covers ctx k && hits ctx d) (key_covers ctx j && any (hits ctx) ds)
                (entries_speak ctx entries))
  ]
]

pub ArePatterns-insert_at :
    (k : Key) (d : Text) (entries : List (Key × List Text))
    → IsPattern d
    → ArePatterns entries
    → ArePatterns (insert_at k d entries)
unfolding insert_at
ArePatterns-insert_at k d [] h t = ((h, tt), tt)
ArePatterns-insert_at k d ((j, ds) ∷ entries) h (t, u) = elim (Bool-cases (key_eq k j)) [
  | inl e ↦ rw e (All-insert_text d ds h t, u)
  | inr e ↦ elim (Bool-cases (key_before k j)) [
    | inl f ↦ rw (e, f) ((h, tt), (t, u))
    | inr f ↦ rw (e, f) (t, ArePatterns-insert_at k d entries h u)
  ]
]
