-- ===== src/Policy/Eval.antt =====
-- crates/skimasque-policy/src/eval.rs: the decision on a request.
pub mod Closest
use skimasque.Prelude.{
  ℕ, suc, ◌+◌, List, [], ◌∷◌, ◌++◌, Bool, true, false, not, ◌&&◌, Option, none, some, if◌then◌else◌,
  any, filter,
}
use skimasque.Prelude.Text.{Text, codes, text_eq, show_nat}
use skimasque.Policy.Destination.{Destination, DestinationSpec, spec_matches, show}
use skimasque.Policy.Identity.{WorkloadIdentity}
use skimasque.Policy.Model.{
  Policy, Rule, Action, allow, deny, Transport, tcp, udp, EgressSpec, Limits, SessionSpec, covers,
  spec_accepts, select, get,
}
use skimasque.Policy.Eval.Closest.{closest_destinations}

pub record RequestContext : Type 0 where
  pub workload : WorkloadIdentity
  pub application : Text
  pub transport : Transport
  pub destination : Destination
  pub requested_policy : Option Text

pub record Allowed : Type 0 where
  pub policy : Text
  pub rule : Text
  pub egress : Option EgressSpec
  pub limits : Limits
  pub session : SessionSpec

pub data DenyReason : Type 0 where
  no_policy_match : DenyReason
  no_matching_allow_rule : DenyReason
  explicit_deny : (rule : Text) → DenyReason
  policy_mismatch : (requested : Text) (selected : Option Text) → DenyReason
  baseline_deny : (policy rule : Text) → DenyReason

pub record Denied : Type 0 where
  pub policy : Option Text
  pub reason : DenyReason
  pub suggested_rule : Text
  pub closest : List Text

pub data Decision : Type 0 where
  allowed : Allowed → Decision
  denied : Denied → Decision

abbrev pub rule_label : Rule → ℕ → Text
rule_label rule index = elim rule.id [ none ↦ codes "rule #" ++ show_nat index | some id ↦ id ]

abbrev pub suggested_rule : RequestContext → Text
suggested_rule ctx =
    let app : Text = elim ctx.application [ [] ↦ codes "<app>" | c ∷ rest ↦ c ∷ rest ] in
    elim ctx.transport [
      | tcp ↦ codes "allow " ++ app ++ codes " " ++ show ctx.destination
      | udp ↦ codes "allow " ++ app ++ codes " udp " ++ show ctx.destination
    ]

-- The two tests that skip a rule in `Policy::evaluate`, and the same in `with_baseline`.
unfoldable pub speaks : RequestContext → Rule → Bool
speaks ctx rule =
    covers rule ctx.application ctx.transport
    && any (λ d. spec_matches d ctx.destination) rule.destinations

-- `Policy::deny`
abbrev pub deny_with : Policy → RequestContext → DenyReason → Denied
deny_with p ctx reason = record {
  policy = some p.name;
  reason = reason;
  suggested_rule = suggested_rule ctx;
  closest = closest_destinations p.rules ctx.application ctx.transport ctx.destination;
}

-- The `return` of the loop: the verdict of the rule at an index.
unfoldable pub verdict : Policy → RequestContext → ℕ → Rule → Decision
verdict p ctx index rule = elim rule.action [
  | allow ↦ allowed (record {
    policy = p.name;
    rule = rule_label rule index;
    egress = p.egress;
    limits = p.limits;
    session = p.session;
  })
  | deny ↦ denied (deny_with p ctx (explicit_deny (rule_label rule index)))
]

-- The loop of `Policy::evaluate` from an index on.
unfoldable pub evaluate_from : Policy → RequestContext → ℕ → List Rule → Decision
evaluate_from p ctx index [] = denied (deny_with p ctx no_matching_allow_rule)
evaluate_from p ctx index (rule ∷ rest) =
    let later = evaluate_from p ctx (suc index) rest in
    if speaks ctx rule then verdict p ctx index rule else later

-- `Policy::evaluate`
unfoldable pub evaluate_policy : Policy → RequestContext → Decision
evaluate_policy p ctx = evaluate_from p ctx 0 p.rules

abbrev pub denies : Action → Bool
denies allow = false
denies deny = true

-- The inner loop of `with_baseline`: the first denying rule of a baseline from an index on.
unfoldable pub baseline_rule : Policy → RequestContext → ℕ → List Rule → Option Denied
baseline_rule p ctx index [] = none
baseline_rule p ctx index (rule ∷ rest) =
    let later = baseline_rule p ctx (suc index) rest in
    if denies rule.action && speaks ctx rule
    then some (record {
      policy = some p.name;
      reason = baseline_deny p.name (rule_label rule index);
      suggested_rule = [];
      closest = [];
    })
    else later

abbrev pub or_else : {A : Type 0} → Option A → Option A → Option A
or_else none later = later
or_else (some a) later = some a

-- The outer loop of `with_baseline`, over the baselines that govern the workload.
unfoldable pub baseline_denial : RequestContext → List Policy → Option Denied
baseline_denial ctx [] = none
baseline_denial ctx (p ∷ rest) = or_else (baseline_rule p ctx 0 p.rules) (baseline_denial ctx rest)

unfoldable pub is_guard : WorkloadIdentity → Policy → Bool
is_guard workload p = p.baseline && spec_accepts p.match_spec workload

unfoldable pub with_baseline : List Policy → Decision → RequestContext → Decision
with_baseline policies (denied d) ctx = denied d
with_baseline policies (allowed a) ctx =
    elim (baseline_denial ctx (filter (is_guard ctx.workload) policies)) [
      | none ↦ allowed a
      | some d ↦ denied d
    ]

abbrev pub name_of : Option Policy → Option Text
name_of none = none
name_of (some p) = some p.name

abbrev pub is_named : Option Text → Text → Bool
is_named none requested = false
is_named (some name) requested = text_eq name requested

-- The denial of a requested policy that is not the selected one.
abbrev pub mismatch : RequestContext → Text → Option Policy → Denied
mismatch ctx requested selected = record {
  policy = name_of selected;
  reason = policy_mismatch requested (name_of selected);
  suggested_rule = suggested_rule ctx;
  closest = [];
}

-- The `match selected` at the end of `PolicySet::evaluate`.
unfoldable pub decide : List Policy → RequestContext → Option Policy → Decision
decide policies ctx (some p) = with_baseline policies (evaluate_policy p ctx) ctx
decide policies ctx none = denied (record {
  policy = none;
  reason = no_policy_match;
  suggested_rule = suggested_rule ctx;
  closest = [];
})

-- The `if let` on the requested policy, with what follows it.
unfoldable pub decide_pinned :
    List Policy → RequestContext → (selected : Option Policy) (requested : Option Text) → Decision
decide_pinned policies ctx selected none = decide policies ctx selected
decide_pinned policies ctx selected (some requested) =
    if is_named (name_of selected) requested
    then decide policies ctx selected
    else denied (mismatch ctx requested selected)

-- `PolicySet::evaluate`
unfoldable pub evaluate : List Policy → RequestContext → Decision
evaluate policies ctx =
    decide_pinned policies ctx (select policies ctx.workload) ctx.requested_policy

-- `PolicySet::evaluate_named`
abbrev pub evaluate_named : List Policy → Text → RequestContext → Option Decision
evaluate_named policies name ctx = elim (get policies name) [
  | none ↦ none
  | some p ↦ some (with_baseline policies (evaluate_policy p ctx) ctx)
]
