-- ===== src/Policy/Learn.antt =====
-- crates/skimasque-policy/src/learn.rs: a policy draft from observed traffic. A skipped observation
-- is kept with the error and not with the error's text; `none` is for the panic of an `expect`.

pub mod Entries
pub mod Gathering
pub mod Exact
use skimasque.Prelude.{
  ℕ, List, [], ◌∷◌, ◌++◌, Bool, true, false, not, ◌&&◌, ◌||◌, Option, none, some, ltb, leb, ◌==◌,
  if◌then◌else◌, Result, ok, err,
}
use skimasque.Prelude.Text.{Text, codes, text_eq, text_le}
use skimasque.Policy.Destination.{Destination, DestinationSpec, show}
use skimasque.Policy.Destination.Parse.{ParseDestinationError, is_empty, parse, parse_spec}
use skimasque.Policy.Identity.{WorkloadIdentity, branch}
use skimasque.Policy.Model.{
  MatchSpec, Policy, Rule, allow, Transport, tcp, udp, TransportPattern, any_transport, only_tcp,
  only_udp, AppPattern, any_app, app_name,
}

pub record Observation : Type 0 where
  pub application : Text
  pub transport : Option Transport
  pub destination : Text
  pub count : ℕ

pub record Suggestion : Type 0 where
  pub policy : Policy
  pub skipped : List (Observation × ParseDestinationError)

-- `TransportPattern::from`, its derived order, and `as_word`
unfoldable pub from_transport : Option Transport → TransportPattern
from_transport none = any_transport
from_transport (some tcp) = only_tcp
from_transport (some udp) = only_udp

abbrev pub rank : TransportPattern → ℕ
rank any_transport = 0
rank only_tcp = 1
rank only_udp = 2

abbrev pub as_word : TransportPattern → Option Text
as_word any_transport = none
as_word only_tcp = some (codes "tcp")
as_word only_udp = some (codes "udp")

abbrev pub Key : Type 0
Key = Text × TransportPattern

abbrev pub key_eq : Key → Key → Bool
key_eq k j = text_eq k.0 j.0 && (rank k.1 == rank j.1)

abbrev pub key_before : Key → Key → Bool
key_before k j = if text_eq k.0 j.0 then ltb (rank k.1) (rank j.1) else text_le k.0 j.0

-- `BTreeSet::insert`
unfoldable pub insert_text : Text → List Text → List Text
insert_text d [] = d ∷ []
insert_text d (x ∷ xs) =
    let rest = insert_text d xs in
    if text_eq d x then x ∷ xs else if text_le d x then d ∷ x ∷ xs else x ∷ rest

-- `by_key.entry(key).or_default().insert(destination)`
unfoldable pub insert_at : Key → Text → List (Key × List Text) → List (Key × List Text)
insert_at k d [] = (k, d ∷ []) ∷ []
insert_at k d ((j, ds) ∷ entries) =
    let rest = insert_at k d entries in
    if key_eq k j
    then (j, insert_text d ds) ∷ entries
    else if key_before k j
    then (k, d ∷ []) ∷ (j, ds) ∷ entries
    else (j, ds) ∷ rest

pub record Gathered : Type 0 where
  pub by_key : List (Key × List Text)
  pub skipped : List (Observation × ParseDestinationError)

unfoldable pub gather_one :
    Gathered → Observation → Result ParseDestinationError Destination → Gathered
gather_one g o (ok d) = record g {
  by_key = insert_at (o.application, from_transport o.transport) (show d) g.by_key;
}
gather_one g o (err e) = record g { skipped = g.skipped ++ ((o, e) ∷ []) }

-- The loop over the observations.
unfoldable pub gather : Gathered → List Observation → Gathered
gather g [] = g
gather g (o ∷ observations) = gather (gather_one g o (parse o.destination)) observations

abbrev pub and_spec :
    Result ParseDestinationError DestinationSpec
    → Option (List DestinationSpec)
    → Option (List DestinationSpec)
and_spec (ok s) (some specs) = some (s ∷ specs)
and_spec _ _ = none

unfoldable pub specs_of : List Text → Option (List DestinationSpec)
specs_of [] = some []
specs_of (d ∷ ds) = and_spec (parse_spec d) (specs_of ds)

unfoldable pub app_pattern : Text → AppPattern
app_pattern application =
    if is_empty application || text_eq application (codes "*")
    then any_app
    else app_name application

abbrev pub rule_id : Text → Option Text → Text
rule_id app_id (some word) = app_id ++ codes "-" ++ word ++ codes "-observed"
rule_id app_id none = app_id ++ codes "-observed"

unfoldable pub rule_of : Key → List DestinationSpec → Rule
rule_of k specs = record {
  id = some (rule_id (if is_empty k.0 then codes "any" else k.0) (as_word k.1));
  application = app_pattern k.0;
  transport = k.1;
  action = allow;
  destinations = specs;
}

abbrev pub and_rule : Key → Option (List DestinationSpec) → Option (List Rule) → Option (List Rule)
and_rule k (some specs) (some rules) = some (rule_of k specs ∷ rules)
and_rule k _ _ = none

unfoldable pub rules_of : List (Key × List Text) → Option (List Rule)
rules_of [] = some []
rules_of ((k, ds) ∷ entries) = and_rule k (specs_of ds) (rules_of entries)

-- The branch of a ref that is one, otherwise the ref.
abbrev pub ref_unless : Option Text → Option Text → Option Text
ref_unless (some _) git_ref = none
ref_unless none git_ref = git_ref

unfoldable pub match_from_identity : WorkloadIdentity → MatchSpec
match_from_identity identity = record {
  organization = identity.organization;
  repository = identity.repository;
  workflow = identity.workflow;
  git_ref = ref_unless (branch identity) identity.git_ref;
  branch = branch identity;
  environment = identity.environment;
  actor = identity.actor;
  kind = identity.kind;
}

abbrev pub draft : Text → WorkloadIdentity → List Rule → Policy
draft policy_name identity learned = record {
  name = policy_name;
  match_spec = match_from_identity identity;
  session = record { max_duration = none };
  egress = none;
  limits = record {
    bandwidth_bits_per_sec = none;
    total_bytes = none;
    concurrent_connections = none;
    concurrent_destinations = none;
    connection_rate = none;
    packets_per_sec = none;
  };
  rules = learned;
  baseline = false;
}

abbrev pub suggestion_of :
    Text
    → WorkloadIdentity
    → List (Observation × ParseDestinationError)
    → Option (List Rule)
    → Option Suggestion
suggestion_of policy_name identity left none = none
suggestion_of policy_name identity left (some learned) =
    some (record { policy = draft policy_name identity learned; skipped = left })

unfoldable pub suggest_policy : Text → WorkloadIdentity → List Observation → Option Suggestion
suggest_policy policy_name identity observations =
    let g = gather (record { by_key = []; skipped = [] }) observations in
    suggestion_of policy_name identity g.skipped (rules_of g.by_key)
