-- ===== src/Policy/Learn/Gathering.antt =====
-- crates/skimasque-policy/src/learn.rs: what the gathered destinations and
-- the rules made of them speak to.
use skimasque.Prelude.{
  ℕ, suc, List, [], ◌∷◌, Bool, true, false, ◌&&◌, ◌||◌, any, All, Result, ok, err, Bool-cases,
}
use skimasque.Prelude.{◌≡◌, refl, ap, sym, ◌∙◌, inl, inr}
use skimasque.Policy.Destination.{Destination, show, spec_matches}
use skimasque.Policy.Destination.Parse.{ParseDestinationError, parse}
use skimasque.Policy.Destination.RoundTrip.{IsPlain}
use skimasque.Policy.Destination.Pattern.{exactly, parse_spec-show}
use skimasque.Policy.Model.{Policy, Rule}
use skimasque.Policy.Eval.{
  RequestContext, Decision, allowed, denied, speaks, verdict, evaluate_from,
}
use skimasque.Policy.Learn.{Observation, Key, from_transport, Gathered, gather_one, gather}
use skimasque.Policy.Learn.Entries.{
  hits, hits_pattern, key_covers, entries_speak, ArePatterns, IsAllow, entries_speak-insert_at,
  ArePatterns-insert_at,
}

-- `Decision::is_allowed`
abbrev pub is_allowed : Decision → Bool
is_allowed (allowed _) = true
is_allowed (denied _) = false

verdict-IsAllow :
    (p : Policy) (ctx : RequestContext) (i : ℕ) (r : Rule)
    → IsAllow r
    → is_allowed (verdict p ctx i r) ≡ true
unfolding verdict
verdict-IsAllow p ctx i r h = rw (verdict, h) refl

-- Where every rule allows, what a rule speaks to is allowed.
pub is_allowed-evaluate_from :
    (p : Policy) (ctx : RequestContext) (i : ℕ) (rules : List Rule)
    → All IsAllow rules
    → is_allowed (evaluate_from p ctx i rules) ≡ any (speaks ctx) rules
unfolding evaluate_from
is_allowed-evaluate_from p ctx i [] h = refl
is_allowed-evaluate_from p ctx i (r ∷ rules) (h, t) = elim (Bool-cases (speaks ctx r)) [
  | inl e ↦ rw e (verdict-IsAllow p ctx i r h)
  | inr e ↦ rw e (is_allowed-evaluate_from p ctx (suc i) rules t)
]

-- The parser makes of the observed text a destination whose own text can be a pattern.
abbrev pub IsPlainObservation : Observation → Type 0
IsPlainObservation o = (d : Destination) → parse o.destination ≡ ok d → IsPlain d

abbrev pub key_of : Observation → Key
key_of o = (o.application, from_transport o.transport)

abbrev pub observed_as :
    RequestContext → Observation → Result ParseDestinationError Destination → Bool
observed_as ctx o (ok d) = key_covers ctx (key_of o) && spec_matches (exactly d) ctx.destination
observed_as ctx o (err e) = false

unfoldable pub observed : RequestContext → Observation → Bool
observed ctx o = observed_as ctx o (parse o.destination)

hits-show :
    (ctx : RequestContext) (d : Destination)
    → IsPlain d
    → hits ctx (show d) ≡ spec_matches (exactly d) ctx.destination
hits-show ctx d h = hits_pattern ctx (show d) (exactly d) (parse_spec-show d h)

module _ (ctx : RequestContext) (g : Gathered) (o : Observation) where
  gather_one-speaks :
      (r : Result ParseDestinationError Destination)
      → ((d : Destination) → r ≡ ok d → IsPlain d)
      → entries_speak ctx (gather_one g o r).by_key
        ≡ (observed_as ctx o r || entries_speak ctx g.by_key)
  unfolding gather_one
  gather_one-speaks (err e) h = refl
  gather_one-speaks (ok d) h =
      entries_speak-insert_at ctx (key_of o) (show d) g.by_key
      ∙ ap (λ (b : Bool). (key_covers ctx (key_of o) && b) || entries_speak ctx g.by_key)
          (hits-show ctx d (h d refl))

  gather_one-ArePatterns :
      (r : Result ParseDestinationError Destination)
      → ((d : Destination) → r ≡ ok d → IsPlain d)
      → ArePatterns g.by_key
      → ArePatterns (gather_one g o r).by_key
  unfolding gather_one
  gather_one-ArePatterns (err e) h t = t
  gather_one-ArePatterns (ok d) h t =
      ArePatterns-insert_at (key_of o) (show d) g.by_key (exactly d, parse_spec-show d (h d refl)) t

or_rotate : (a b c : Bool) → ((a || b) || c) ≡ (b || (a || c))
or_rotate true true c = refl
or_rotate true false c = refl
or_rotate false b c = refl

or_nothing : (a : Bool) → (a || false) ≡ a
or_nothing true = refl
or_nothing false = refl

pub gather-speaks :
    (ctx : RequestContext) (g : Gathered) (observations : List Observation)
    → All IsPlainObservation observations
    → ArePatterns g.by_key
    → ArePatterns (gather g observations).by_key
      × (entries_speak ctx (gather g observations).by_key
          ≡ (entries_speak ctx g.by_key || any (observed ctx) observations))
unfolding gather observed
gather-speaks ctx g [] h t = (t, sym (or_nothing (entries_speak ctx g.by_key)))
gather-speaks ctx g (o ∷ observations) (h, k) t =
    let next = gather_one g o (parse o.destination) in
    let (u, same) =
      gather-speaks ctx next observations k
        (gather_one-ArePatterns ctx g o (parse o.destination) h t) in
    (
      u,
      same
          ∙ ap (λ (b : Bool). b || any (observed ctx) observations)
              (gather_one-speaks ctx g o (parse o.destination) h)
          ∙ or_rotate (observed ctx o) (entries_speak ctx g.by_key)
              (any (observed ctx) observations),
    )
