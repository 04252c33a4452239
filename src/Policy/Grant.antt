-- ===== src/Policy/Grant.antt =====
-- crates/skimasque-policy/src/eval.rs: when `PolicySet::evaluate` allows a request.
use skimasque.Prelude.{ℕ, suc, List, [], ◌∷◌, true, false, ◌&&◌, Option, none, some, filter, All}
use skimasque.Prelude.{◌≡◌, ◌≢◌, ◌↔◌, inl, inr, refl, Bool-cases, Option-cases}
use skimasque.Prelude.Text.{Text, text_eq, text_eq_iff}
use skimasque.Policy.Model.{Policy, Rule, select}
use skimasque.Policy.Eval.{
  RequestContext, Allowed, Decision, allowed, denied, speaks, evaluate_policy,
}
use skimasque.Policy.Eval.{
  denies, baseline_rule, baseline_denial, is_guard, with_baseline, decide_pinned, decide, evaluate,
}

-- No rule of the list denies the request.
abbrev pub NoneDenies : RequestContext → List Rule → Type 0
NoneDenies ctx rules = All (λ (r : Rule). (denies r.action && speaks ctx r) ≡ false) rules

-- No baseline that governs the workload has a rule that denies the request.
abbrev pub NoBaselineDenies : RequestContext → List Policy → Type 0
NoBaselineDenies ctx policies =
    All (λ (q : Policy). is_guard ctx.workload q ≡ true → NoneDenies ctx q.rules) policies

baseline_rule-none_iff :
    (p : Policy) (ctx : RequestContext) (i : ℕ) (rules : List Rule)
    → (baseline_rule p ctx i rules ≡ none) ↔ NoneDenies ctx rules
unfolding baseline_rule
baseline_rule-none_iff p ctx i [] = (λ _. tt, λ _. refl)
baseline_rule-none_iff p ctx i (r ∷ rules) =
    let later = baseline_rule-none_iff p ctx (suc i) rules in
    elim (Bool-cases (denies r.action && speaks ctx r)) [
      | inl e ↦ rw e (λ h. absurd (cc), λ h. absurd (cc (h.0)))
      | inr e ↦ rw e (λ h. (refl, later.0 h), λ h. later.1 h.1)
    ]

baseline_denial-none_iff :
    (ctx : RequestContext) (ps : List Policy)
    → (baseline_denial ctx (filter (is_guard ctx.workload) ps) ≡ none) ↔ NoBaselineDenies ctx ps
unfolding baseline_denial
baseline_denial-none_iff ctx [] = (λ _. tt, λ _. refl)
baseline_denial-none_iff ctx (p ∷ ps) =
    let later = baseline_denial-none_iff ctx ps in
    let own = baseline_rule-none_iff p ctx 0 p.rules in
    elim (Bool-cases (is_guard ctx.workload p)) [
      | inr e ↦ rw e (λ h. ((λ g. absurd (cc (g))), later.0 h), λ h. later.1 h.1)
      | inl e ↦ elim (Option-cases (baseline_rule p ctx 0 p.rules)) [
        | inl n ↦ rw (e, n) (λ h. ((λ _. own.0 n), later.0 h), λ h. later.1 h.1)
        | inr (d, n) ↦ rw (e, n) (λ h. absurd (cc (h)), λ h. absurd (cc (own.1 (h.0 refl), n)))
      ]
    ]

with_baseline-allows_iff :
    (ps : List Policy) (ctx : RequestContext) (d : Decision) (a : Allowed)
    → (with_baseline ps d ctx ≡ allowed a) ↔ ((d ≡ allowed a) × NoBaselineDenies ctx ps)
unfolding with_baseline
with_baseline-allows_iff ps ctx (denied d) a = (λ h. absurd (cc (h)), λ h. absurd (cc (h.0)))
with_baseline-allows_iff ps ctx (allowed t) a =
    let guards = baseline_denial-none_iff ctx ps in
    elim (Option-cases (baseline_denial ctx (filter (is_guard ctx.workload) ps))) [
      | inl n ↦ rw (with_baseline, n) (λ h. (h, guards.0 n), λ h. h.0)
      | inr (d, n) ↦
          rw (with_baseline, n) (λ h. absurd (cc (h)), λ h. absurd (cc (guards.1 h.1, n)))
    ]

-- No policy is requested, or the requested one has the policy's name.
abbrev pub PinHolds : Option Text → Policy → Type 0
PinHolds none p = Unit
PinHolds (some requested) p = p.name ≡ requested

-- The set selects a policy that the pin does not exclude, that policy's own rules allow the
-- request on these terms, and no baseline for the workload denies it.
pub record Grants (ps : List Policy) (ctx : RequestContext) (a : Allowed) : Type 0 where
  pub policy : Policy
  pub selected : select ps ctx.workload ≡ some policy
  pub pinned : PinHolds ctx.requested_policy policy
  pub granted : evaluate_policy policy ctx ≡ allowed a
  pub unguarded : NoBaselineDenies ctx ps

-- What is decided with a pin is what is decided without, or a denial.
decide_pinned-allows_iff :
    (ps : List Policy) (ctx : RequestContext) (a : Allowed) (p : Policy) (requested : Option Text)
    → (decide_pinned ps ctx (some p) requested ≡ allowed a)
      ↔ (PinHolds requested p × (decide ps ctx (some p) ≡ allowed a))
unfolding decide_pinned
decide_pinned-allows_iff ps ctx a p none = (λ h. (tt, h), λ h. h.1)
decide_pinned-allows_iff ps ctx a p (some requested) =
    let same = text_eq_iff p.name requested in
    elim (Bool-cases (text_eq p.name requested)) [
      | inl e ↦ rw (decide_pinned, e) (λ h. (same.0 e, h), λ h. h.1)
      | inr e ↦ rw (decide_pinned, e) (λ h. absurd (cc h), λ h. absurd (cc (e, same.1 h.0)))
    ]

decide_pinned-none :
    (ps : List Policy) (ctx : RequestContext) (a : Allowed) (requested : Option Text)
    → decide_pinned ps ctx none requested ≢ allowed a
unfolding decide_pinned decide
decide_pinned-none ps ctx a none h = cc h
decide_pinned-none ps ctx a (some requested) h = cc h

selected-allows :
    (ps : List Policy) (ctx : RequestContext) (a : Allowed) (o : Option Policy)
    → select ps ctx.workload ≡ o
    → decide_pinned ps ctx o ctx.requested_policy ≡ allowed a
    → Grants ps ctx a
unfolding decide
selected-allows ps ctx a none s h = absurd (decide_pinned-none ps ctx a ctx.requested_policy h)
selected-allows ps ctx a (some p) s h =
    let pin = (decide_pinned-allows_iff ps ctx a p ctx.requested_policy).0 h in
    let both = (with_baseline-allows_iff ps ctx (evaluate_policy p ctx) a).0 (pin.1) in
    record { policy = p; selected = s; pinned = pin.0; granted = both.0; unguarded = both.1 }

-- `PolicySet::evaluate` allows a request on given terms exactly when a policy is selected for its
-- workload, the request pins no policy or pins one of the selected policy's name, the selected
-- policy's own rules allow the request on those terms, and no deny rule of a baseline that matches
-- the workload speaks to the request.
pub evaluate-allows_iff :
    (ps : List Policy) (ctx : RequestContext) (a : Allowed)
    → (evaluate ps ctx ≡ allowed a) ↔ Grants ps ctx a
unfolding evaluate decide
evaluate-allows_iff ps ctx a = (selected-allows ps ctx a (select ps ctx.workload) refl, from)
  where
    from : Grants ps ctx a → evaluate ps ctx ≡ allowed a
    from g = rw g.selected (
        (decide_pinned-allows_iff ps ctx a g.policy ctx.requested_policy).1 (
          g.pinned,
          (with_baseline-allows_iff ps ctx (evaluate_policy g.policy ctx) a).1
              (g.granted, g.unguarded),
        ))
