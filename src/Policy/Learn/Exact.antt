-- ===== src/Policy/Learn/Exact.antt =====
-- crates/skimasque-policy/src/learn.rs: a draft allows what was observed and nothing else.
use skimasque.Prelude.{
  List, [], ◌∷◌, true, Option, none, some, any, any_iff, Some, All, Result, ok, err, Bool-cases,
}
use skimasque.Prelude.{◌≡◌, ◌↔◌, ◌⊎◌, refl, ap, sym, ◌∙◌, inl, inr, and_true}
use skimasque.Prelude.Text.{Text, codes, text_eq, text_eq_iff}
use skimasque.Prelude.Case.{SameButCase, eq_ignore_ascii_case_iff}
use skimasque.Policy.Destination.{Destination, spec_matches}
use skimasque.Policy.Destination.Parse.{ParseDestinationError, parse}
use skimasque.Policy.Destination.Pattern.{exactly, spec_matches-exactly}
use skimasque.Policy.Identity.{WorkloadIdentity}
use skimasque.Policy.Model.{Transport, tcp, udp, app_matches, transport_matches}
use skimasque.Policy.Eval.{RequestContext, evaluate_policy}
use skimasque.Policy.Learn.{
  Observation, Suggestion, from_transport, Gathered, gather, app_pattern, draft, suggestion_of,
  suggest_policy,
}
use skimasque.Policy.Learn.Gathering.{
  is_allowed, is_allowed-evaluate_from, IsPlainObservation, key_of, observed_as, observed,
  gather-speaks,
}
use skimasque.Policy.Learn.Entries.{key_covers, entries_speak, rules_of-entries_speak}

-- A draft's application covers the request's: it is recorded as none, as a star, or as the same
-- name but for the case of ASCII letters.
abbrev pub CoversApplication : (recorded asked : Text) → Type 0
CoversApplication recorded asked =
    (recorded ≡ []) ⊎ (recorded ≡ codes "*") ⊎ SameButCase recorded asked

abbrev pub CoversTransport : (recorded : Option Transport) (asked : Transport) → Type 0
CoversTransport recorded asked = (recorded ≡ none) ⊎ (recorded ≡ some asked)

-- An observation that the request repeats.
abbrev pub Observed : RequestContext → Observation → Type 0
Observed ctx o =
    (parse o.destination ≡ ok ctx.destination)
    × CoversApplication o.application ctx.application
    × CoversTransport o.transport ctx.transport

app_pattern_iff : (a b : Text) → (app_matches (app_pattern a) b ≡ true) ↔ CoversApplication a b
unfolding app_pattern
app_pattern_iff [] b = ((λ _. inl refl), (λ _. refl))
app_pattern_iff (c ∷ t) b = elim (Bool-cases (text_eq (c ∷ t) (codes "*"))) [
  | inl e ↦ rw e ((λ _. inr (inl ((text_eq_iff (c ∷ t) (codes "*")).0 e))), (λ _. refl))
  | inr e ↦ rw e (
    (λ h. inr (inr ((eq_ignore_ascii_case_iff (c ∷ t) b).0 h))),
    (λ h. elim h [
      | inl k ↦ absurd (cc (k))
      | inr (inl k) ↦ absurd (let l = (text_eq_iff (c ∷ t) (codes "*")).1 k in cc (l, e))
      | inr (inr k) ↦ (eq_ignore_ascii_case_iff (c ∷ t) b).1 k
    ]),
  )
]

from_transport_iff :
    (r : Option Transport) (t : Transport)
    → (transport_matches (from_transport r) t ≡ true) ↔ CoversTransport r t
unfolding from_transport
from_transport_iff none t = ((λ _. inl refl), (λ _. refl))
from_transport_iff (some tcp) tcp = ((λ _. inr refl), (λ _. refl))
from_transport_iff (some udp) udp = ((λ _. inr refl), (λ _. refl))
from_transport_iff (some tcp) udp = ((λ h. cc), (λ h. elim h [ inl k ↦ cc (k) | inr k ↦ cc (k) ]))
from_transport_iff (some udp) tcp = ((λ h. cc), (λ h. elim h [ inl k ↦ cc (k) | inr k ↦ cc (k) ]))

abbrev Parsed : Type 0
Parsed = Result ParseDestinationError Destination

abbrev parsed : Destination → Parsed
parsed d = ok d

abbrev unparsed : ParseDestinationError → Parsed
unparsed e = err e

refused : (e : ParseDestinationError) (d : Destination) → unparsed e ≡ parsed d → ⊥
refused e d h = cc (h)

ok_injective : (a b : Destination) → parsed a ≡ parsed b → a ≡ b
ok_injective a b h = cc

module _ (ctx : RequestContext) (o : Observation) where
  observed_as-Observed :
      (r : Result ParseDestinationError Destination)
      → parse o.destination ≡ r
      → (observed_as ctx o r ≡ true) ↔ Observed ctx o
  unfolding key_covers
  observed_as-Observed (err e) p =
      ((λ h. absurd (cc (h))), (λ h. absurd (refused e ctx.destination (sym p ∙ h.0))))
  observed_as-Observed (ok d) p =
      let app = app_pattern_iff o.application ctx.application in
      let transport = from_transport_iff o.transport ctx.transport in
      (
        λ h.
            let (k, m) =
              and_true (key_covers ctx (key_of o)) (spec_matches (exactly d) ctx.destination) h in
            let (a, t) =
              and_true (app_matches (app_pattern o.application) ctx.application)
                (transport_matches (from_transport o.transport) ctx.transport) k in
            (
              p
                  ∙ ap (λ (x : Destination). ok x)
                      (sym ((spec_matches-exactly d ctx.destination).0 m)),
              app.0 a,
              transport.0 t,
            ),
        λ h.
            let (q, a, t) = h in
            let same : ctx.destination ≡ d = ok_injective ctx.destination d (sym q ∙ p) in
            rw (app.1 a, transport.1 t) ((spec_matches-exactly d ctx.destination).1 same),
      )

any-Some :
    (ctx : RequestContext) (observations : List Observation)
    → (any (observed ctx) observations ≡ true) ↔ Some (Observed ctx) observations
unfolding observed
any-Some ctx =
    any_iff (Observed ctx) (observed ctx)
      (λ o. observed_as-Observed ctx o (parse o.destination) refl)

-- A draft allows what was observed and nothing else. For any observations whose destinations,
-- where they parse, have a port from 1 to 65535 and an IPv4 host or a host name that the parser
-- would not read as an IP address: `suggest_policy` does not panic, and `Policy::evaluate` of its
-- policy allows a request exactly when some observation has the request's destination, an
-- application that is empty, a star, or the request's up to the case of ASCII letters, and a
-- transport that is the request's or not recorded.
pub suggest_policy-evaluate_policy :
    (policy_name : Text) (identity : WorkloadIdentity) (observations : List Observation)
    (ctx : RequestContext)
    → All IsPlainObservation observations
    → (s : Suggestion) × (suggest_policy policy_name identity observations ≡ some s)
      × ((is_allowed (evaluate_policy s.policy ctx) ≡ true) ↔ Some (Observed ctx) observations)
unfolding suggest_policy evaluate_policy entries_speak
suggest_policy-evaluate_policy policy_name identity observations ctx h =
    let start : Gathered = record { by_key = []; skipped = [] } in
    let (patterns, speaking) = gather-speaks ctx start observations h tt in
    let (rules, made, allows, same) =
      rules_of-entries_speak ctx (gather start observations).by_key patterns in
    let left = (gather start observations).skipped in
    let decides =
      is_allowed-evaluate_from (draft policy_name identity rules) ctx 0 rules allows
      ∙ same
      ∙ speaking in
    let (to, from) = any-Some ctx observations in
    (
      record { policy = draft policy_name identity rules; skipped = left },
      ap (suggestion_of policy_name identity left) made,
      ((λ k. to (sym decides ∙ k)), (λ k. decides ∙ from k)),
    )
