-- ===== src/Policy/Model.antt =====
-- crates/skimasque-policy/src/model.rs: policies, their rules, and the choice among them.
use skimasque.Prelude.{
  ℕ, suc, ◌+◌, List, [], ◌∷◌, Bool, true, false, not, ◌&&◌, ◌||◌, Option, none, some, ltb, leb,
  if◌then◌else◌, filter, find,
}
use skimasque.Prelude.Text.{Text, text_eq, eq_ignore_ascii_case}
use skimasque.Policy.Destination.{DestinationSpec}
use skimasque.Policy.Units.{Duration, Rate}
use skimasque.Policy.Identity.{WorkloadIdentity, WorkloadKind, kind_eq, branch, repository_name}

pub record MatchSpec : Type 0 where
  pub organization : Option Text
  pub repository : Option Text
  pub workflow : Option Text
  pub git_ref : Option Text
  pub branch : Option Text
  pub environment : Option Text
  pub actor : Option Text
  pub kind : Option WorkloadKind

-- The closures `ci_eq` and `eq` of `matches`, and the same for the kind.
abbrev pub ci_eq : Text → Option Text → Bool
ci_eq want none = false
ci_eq want (some got) = eq_ignore_ascii_case got want

abbrev pub eq : Text → Option Text → Bool
eq want none = false
eq want (some got) = text_eq got want

abbrev pub same_kind : WorkloadKind → Option WorkloadKind → Bool
same_kind want none = false
same_kind want (some got) = kind_eq got want

-- A field that a match does not name is not checked.
unfoldable pub checked : {A : Type 0} → Option A → (A → Bool) → Bool
checked none test = true
checked (some want) test = test want

-- `MatchSpec::matches`
unfoldable pub spec_accepts : MatchSpec → WorkloadIdentity → Bool
spec_accepts m identity =
    checked m.organization (λ org. ci_eq org identity.organization)
    && checked m.repository
        (λ repo. ci_eq repo identity.repository || ci_eq repo (repository_name identity))
    && checked m.workflow (λ workflow. eq workflow identity.workflow)
    && checked m.git_ref (λ git_ref. eq git_ref identity.git_ref)
    && checked m.branch (λ want. eq want (branch identity))
    && checked m.environment (λ environment. eq environment identity.environment)
    && checked m.actor (λ actor. eq actor identity.actor)
    && checked m.kind (λ kind. same_kind kind identity.kind)

-- One for a field that is set.
abbrev pub set : {A : Type 0} → Option A → ℕ
set none = 0
set (some _) = 1

unfoldable pub specificity : MatchSpec → ℕ
specificity m =
    set m.organization
    + set m.repository
    + set m.workflow
    + set m.git_ref
    + set m.branch
    + set m.environment
    + set m.actor
    + set m.kind

pub record SessionSpec : Type 0 where
  pub max_duration : Option Duration

pub record EgressSpec : Type 0 where
  pub region : Option Text
  pub ip_pool : Option Text

pub record Limits : Type 0 where
  pub bandwidth_bits_per_sec : Option ℕ
  pub total_bytes : Option ℕ
  pub concurrent_connections : Option ℕ
  pub concurrent_destinations : Option ℕ
  pub connection_rate : Option Rate
  pub packets_per_sec : Option ℕ

pub data Transport : Type 0 where
  tcp udp : Transport

pub data TransportPattern : Type 0 where
  any_transport only_tcp only_udp : TransportPattern

-- `TransportPattern::matches`
abbrev pub transport_matches : TransportPattern → Transport → Bool
transport_matches any_transport t = true
transport_matches only_tcp tcp = true
transport_matches only_udp udp = true
transport_matches _ _ = false

pub data AppPattern : Type 0 where
  any_app : AppPattern
  app_name : Text → AppPattern

-- `AppPattern::matches`
abbrev pub app_matches : AppPattern → Text → Bool
app_matches any_app application = true
app_matches (app_name name) application = eq_ignore_ascii_case name application

pub data Action : Type 0 where
  allow deny : Action

pub record Rule : Type 0 where
  pub id : Option Text
  pub application : AppPattern
  pub transport : TransportPattern
  pub action : Action
  pub destinations : List DestinationSpec

-- `Rule::covers`
unfoldable pub covers : Rule → Text → Transport → Bool
covers rule application transport =
    app_matches rule.application application && transport_matches rule.transport transport

-- The `[[tests]]` of a policy play no part in its evaluation and are not here.
pub record Policy : Type 0 where
  pub name : Text
  pub match_spec : MatchSpec
  pub session : SessionSpec
  pub egress : Option EgressSpec
  pub limits : Limits
  pub rules : List Rule
  pub baseline : Bool

-- `PolicySet` is the list of its policies.
abbrev pub get : List Policy → Text → Option Policy
get policies name = find (λ p. text_eq p.name name) policies

-- `iter().enumerate()`
abbrev pub enumerate_from {ℓ} : {A : Type ℓ} → ℕ → List A → List (ℕ × A)
enumerate_from i [] = []
enumerate_from i (x ∷ xs) = (i, x) ∷ enumerate_from (suc i) xs

-- `a <= b` of the keys `(specificity, Reverse(index))`.
unfoldable pub key_le : ℕ × Policy → ℕ × Policy → Bool
key_le (i, p) (j, q) =
    let s = specificity p.match_spec in
    let t = specificity q.match_spec in if ltb s t then true else if ltb t s then false else leb j i

-- `max_by_key` from the first element on: a later element with a key not below takes over.
unfoldable pub max_from : ℕ × Policy → List (ℕ × Policy) → ℕ × Policy
max_from best [] = best
max_from best (x ∷ xs) = max_from (if key_le best x then x else best) xs

unfoldable pub max_by_key : List (ℕ × Policy) → Option (ℕ × Policy)
max_by_key [] = none
max_by_key (x ∷ xs) = some (max_from x xs)

unfoldable pub is_candidate : WorkloadIdentity → Policy → Bool
is_candidate identity p = not p.baseline && spec_accepts p.match_spec identity

-- `PolicySet::select`
unfoldable pub select : List Policy → WorkloadIdentity → Option Policy
select policies identity =
    elim (max_by_key (enumerate_from 0 (filter (is_candidate identity) policies))) [
      | none ↦ none
      | some best ↦ some (best.1)
    ]
