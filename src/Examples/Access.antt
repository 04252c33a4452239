-- ===== src/Examples/Access.antt =====
-- Runs of the policy engine and of the address policy on a concrete policy and request.
use skimasque.Prelude.{ℕ, ◌+◌, ◌*◌, ◌^◌, [], ◌∷◌, Bool, true, false, none, some, ok, any, length}
use skimasque.Prelude.{◌≡◌, refl, ◌⊎◌, ◌↔◌, arith}
use skimasque.Prelude.Text.{Text, codes}
use skimasque.Net.{IpAddr, v4, v6}
use skimasque.Net.Ranges.{block}
use skimasque.Policy.Destination.{name, suffix, exact_port, cidr_contains}
use skimasque.Policy.Destination.Cidr.{AgreeInPrefix, cidr_contains_iff}
use skimasque.Policy.Identity.{WorkloadIdentity, agent}
use skimasque.Policy.Model.{
  MatchSpec, Policy, Rule, allow, any_app, any_transport, tcp, is_candidate, select,
}
use skimasque.Policy.Eval.{
  RequestContext, Allowed, allowed, denied, no_matching_allow_rule, deny_with, verdict,
  evaluate_policy, evaluate,
}
use skimasque.Policy.Model.{
  max_by_key, max_from, key_le, specificity, spec_accepts, checked, covers,
}
use skimasque.Policy.Eval.{
  decide_pinned, decide, with_baseline, baseline_denial, evaluate_from, speaks, is_guard,
}
use skimasque.Policy.Destination.{spec_matches, port_matches, host_matches}
use skimasque.Policy.Select.{AreRefused, IsBest, select_cases}
use skimasque.Policy.Verdict.{AreSilent, FirstMatch, evaluate_policy_cases}
use skimasque.Policy.Grant.{Grants, evaluate-allows_iff}
use skimasque.Policy.Lint.{lints}
use skimasque.Policy.Lint.Clean.{IsScoped, lints-IsScoped}
use skimasque.AddressPolicy.{default, permits, unwrapped}
use skimasque.AddressPolicy.Permits.{PortPasses, Admits, permits_iff}

cidr_contains_iff_example :
    (cidr_contains (v4 (block 10 0)) 8 (v4 (block 10 3)) ≡ true)
    ↔ AgreeInPrefix (v4 (block 10 0)) 8 (v4 (block 10 3))
cidr_contains_iff_example =
    cidr_contains_iff (v4 (block 10 0)) 8 (v4 (block 10 3)) (omega arith) (omega arith)
      (omega arith)

abbrev any_workload : MatchSpec
any_workload = record {
  organization = none;
  repository = none;
  workflow = none;
  git_ref = none;
  branch = none;
  environment = none;
  actor = none;
  kind = none;
}

abbrev rule_for : Text → Rule
rule_for host = record {
  id = none;
  application = any_app;
  transport = any_transport;
  action = allow;
  destinations = record { host = suffix host; port = exact_port 443; raw = host } ∷ [];
}

abbrev policy : Policy
policy = record {
  name = codes "production";
  match_spec = any_workload;
  session = record { max_duration = none };
  egress = none;
  limits = record {
    bandwidth_bits_per_sec = none;
    total_bytes = none;
    concurrent_connections = none;
    concurrent_destinations = none;
    connection_rate = none;
    packets_per_sec = none;
  };
  rules = rule_for (codes ".example.com") ∷ [];
  baseline = false;
}

abbrev workload : WorkloadIdentity
workload = record {
  organization = some (codes "acme");
  repository = some (codes "acme/widget");
  workflow = none;
  git_ref = some (codes "refs/heads/main");
  environment = none;
  actor = none;
  kind = some agent;
  run_id = none;
  runtime = none;
  sid = none;
}

abbrev request : RequestContext
request = record {
  workload = workload;
  application = codes "curl";
  transport = tcp;
  destination = record { host = name (codes "api.example.com"); port = 443 };
  requested_policy = none;
}

abbrev terms : Allowed
terms = record {
  policy = codes "production";
  rule = codes "rule #0";
  egress = none;
  limits = policy.limits;
  session = policy.session;
}

select_cases_example :
    (AreRefused (is_candidate workload) (policy ∷ []) × (select (policy ∷ []) workload ≡ none))
    ⊎ ((p : Policy) × IsBest (is_candidate workload) (policy ∷ []) p
        × (select (policy ∷ []) workload ≡ some p))
select_cases_example = select_cases (policy ∷ []) workload

evaluate_policy_cases_example :
    (AreSilent request policy.rules
      × (evaluate_policy policy request ≡ denied (deny_with policy request no_matching_allow_rule)))
    ⊎ ((m : FirstMatch request policy.rules) × (evaluate_policy policy request
          ≡ verdict policy request (length m.before) m.rule))
evaluate_policy_cases_example = evaluate_policy_cases policy request

evaluate-allows_iff_example :
    (evaluate (policy ∷ []) request ≡ allowed terms) ↔ Grants (policy ∷ []) request terms
evaluate-allows_iff_example = evaluate-allows_iff (policy ∷ []) request terms

-- The networks as prefixes.
abbrev in_network : IpAddr × ℕ → IpAddr → Bool
in_network net addr = cidr_contains (net.0) (net.1) addr

permits_iff_example :
    (permits in_network default (v6 (65535 * 2 ^ 32 + block 127 0)) 443 ≡ ok tt) ↔ (
      PortPasses (default {IpNet = IpAddr × ℕ}) 443
      × ((any
              (λ net. in_network net (unwrapped (v6 (65535 * 2 ^ 32 + block 127 0))))
              (default {IpNet = IpAddr × ℕ}).allowed_cidrs
            ≡ true)
          ⊎ Admits (default {IpNet = IpAddr × ℕ}) (unwrapped (v6 (65535 * 2 ^ 32 + block 127 0)))))
permits_iff_example =
    permits_iff in_network default (v6 (65535 * 2 ^ 32 + block 127 0)) 443 (omega arith)

-- The request above, decided.
evaluate_run : evaluate (policy ∷ []) request ≡ allowed terms
unfolding evaluate select max_by_key max_from key_le is_candidate specificity spec_accepts checked
    decide_pinned decide with_baseline baseline_denial evaluate_policy evaluate_from speaks covers
    spec_matches port_matches host_matches verdict is_guard
evaluate_run = refl

lints-IsScoped_example : (lints policy ≡ []) ↔ IsScoped policy
lints-IsScoped_example = lints-IsScoped policy
