-- ===== src/Policy/Verdict.antt =====
-- crates/skimasque-policy/src/eval.rs: what `Policy::evaluate` and `PolicySet::evaluate` decide.
use skimasque.Prelude.{ℕ, suc, ◌+◌, List, [], ◌∷◌, ◌++◌, true, false, length, All}
use skimasque.Prelude.{◌≡◌, ◌⊎◌, inl, inr, refl, sym, ap, ◌∙◌, Bool-cases, arith}
use skimasque.Policy.Model.{Policy, Rule}
use skimasque.Policy.Eval.{
  RequestContext, denied, no_matching_allow_rule, speaks, deny_with, verdict, evaluate_from,
  evaluate_policy,
}
use native.Mathlib.Nat.{zero-add}

-- No rule of the list speaks to the request.
abbrev pub AreSilent : RequestContext → List Rule → Type 0
AreSilent ctx rules = All (λ (r : Rule). speaks ctx r ≡ false) rules

-- The first rule of the list that speaks, with what is before and behind it.
pub record FirstMatch (ctx : RequestContext) (rules : List Rule) : Type 0 where
  pub before : List Rule
  pub rule : Rule
  pub after : List Rule
  pub split : rules ≡ before ++ (rule ∷ after)
  pub silent : AreSilent ctx before
  pub speaks_here : speaks ctx rule ≡ true

first_match :
    (ctx : RequestContext) (rules : List Rule) → AreSilent ctx rules ⊎ FirstMatch ctx rules
first_match ctx [] = inl tt
first_match ctx (r ∷ rules) = elim (Bool-cases (speaks ctx r)) [
  | inl e ↦
      inr (record {
        before = [];
        rule = r;
        after = rules;
        split = refl;
        silent = tt;
        speaks_here = e;
      })
  | inr e ↦ elim (first_match ctx rules) [
    | inl s ↦ inl (e, s)
    | inr m ↦ inr (record {
      before = r ∷ m.before;
      rule = m.rule;
      after = m.after;
      split = ap (λ (t : List Rule). r ∷ t) m.split;
      silent = (e, m.silent);
      speaks_here = m.speaks_here;
    })
  ]
]

-- Silent rules are passed over, and only count for the index.
evaluate_from-silent :
    (p : Policy) (ctx : RequestContext) (i : ℕ) (before rest : List Rule)
    → AreSilent ctx before
    → evaluate_from p ctx i (before ++ rest) ≡ evaluate_from p ctx (i + length before) rest
unfolding evaluate_from
evaluate_from-silent p ctx i [] rest s = ap (λ (j : ℕ). evaluate_from p ctx j rest) (omega arith)
evaluate_from-silent p ctx i (r ∷ before) rest (e, s) =
    let step : suc i + length before ≡ i + suc (length before) = omega arith in
    rw (e, sym step) (evaluate_from-silent p ctx (suc i) before rest s)

evaluate_from-all_silent :
    (p : Policy) (ctx : RequestContext) (i : ℕ) (rules : List Rule)
    → AreSilent ctx rules
    → evaluate_from p ctx i rules ≡ denied (deny_with p ctx no_matching_allow_rule)
unfolding evaluate_from
evaluate_from-all_silent p ctx i [] s = refl
evaluate_from-all_silent p ctx i (r ∷ rules) (e, s) =
    rw e (evaluate_from-all_silent p ctx (suc i) rules s)

evaluate_from-here :
    (p : Policy) (ctx : RequestContext) (i : ℕ) (r : Rule) (rest : List Rule)
    → speaks ctx r ≡ true
    → evaluate_from p ctx i (r ∷ rest) ≡ verdict p ctx i r
unfolding evaluate_from
evaluate_from-here p ctx i r rest e = rw e refl

-- `Policy::evaluate` gives the verdict of the first rule that covers the request's application and
-- transport and has a destination that matches, with that rule's index among all the rules. When
-- no rule does, it denies with "no matching allow rule".
pub evaluate_policy_cases :
    (p : Policy) (ctx : RequestContext)
    → (AreSilent ctx p.rules
        × (evaluate_policy p ctx ≡ denied (deny_with p ctx no_matching_allow_rule)))
      ⊎ ((m : FirstMatch ctx p.rules) × (evaluate_policy p ctx
            ≡ verdict p ctx (length m.before) m.rule))
unfolding evaluate_policy
evaluate_policy_cases p ctx = elim (first_match ctx p.rules) [
  | inl s ↦ inl (s, evaluate_from-all_silent p ctx 0 p.rules s)
  | inr m ↦ inr (
    m,
    ap (evaluate_from p ctx 0) m.split
        ∙ evaluate_from-silent p ctx 0 m.before (m.rule ∷ m.after) m.silent
        ∙ ap (λ (i : ℕ). evaluate_from p ctx i (m.rule ∷ m.after)) (zero-add (length m.before))
        ∙ evaluate_from-here p ctx (length m.before) m.rule m.after m.speaks_here,
  )
]
