-- ===== src/Policy/Lint/Clean.antt =====
-- crates/skimasque-policy/src/lint.rs: which policies no lint is about.
use skimasque.Prelude.{
  ◌≤◌, List, [], ◌∷◌, Bool, true, false, not, ◌&&◌, Option, none, some, ◌==◌, if◌then◌else◌, any,
}
use skimasque.Prelude.{◌≡◌, ◌⊎◌, ◌↔◌, refl, inl, inr, arith}
use skimasque.Policy.Model.{MatchSpec, Policy, set, specificity}
use skimasque.Policy.Lint.{
  match_governs_every_workload, match_lacks_repository, match_lacks_ref, Lint, is_allow, is_none,
  make, every_workload, any_ref, any_repository, constrained_field_names, lints,
}

-- No rule allows, or the match names a repository and a branch or a ref.
abbrev pub IsScoped : Policy → Type 0
IsScoped p =
    (any is_allow p.rules ≡ false)
    ⊎ ((is_none p.match_spec.repository ≡ false)
        × ((is_none p.match_spec.branch ≡ false) ⊎ (is_none p.match_spec.git_ref ≡ false)))

set_some : {A : Type 0} (o : Option A) → is_none o ≡ false → set o ≡ 1
set_some none h = absurd (cc (h))
set_some (some x) h = refl

repository_counts : (m : MatchSpec) → is_none m.repository ≡ false → (specificity m == 0) ≡ false
unfolding specificity
repository_counts m h =
    let one = set_some m.repository h in
    let more : 1 ≤ specificity m = omega (arith, one) in ground (arith, more)

-- The chain of tests of `lints`, each with what it returns when it holds.
chain : (grants empty no_repository no_branch no_ref : Bool) → (x y z : Lint) → List Lint
chain grants empty no_repository no_branch no_ref x y z =
    if not grants
    then []
    else if empty
    then x ∷ []
    else if no_repository
    then y ∷ []
    else if no_branch && no_ref
    then z ∷ []
    else []

Scoped : (grants no_repository no_branch no_ref : Bool) → Type 0
Scoped grants no_repository no_branch no_ref =
    (grants ≡ false) ⊎ ((no_repository ≡ false) × ((no_branch ≡ false) ⊎ (no_ref ≡ false)))

chain-Scoped :
    (grants empty no_repository no_branch no_ref : Bool) (x y z : Lint)
    → (no_repository ≡ false → empty ≡ false)
    → (chain grants empty no_repository no_branch no_ref x y z ≡ [])
      ↔ Scoped grants no_repository no_branch no_ref
unfolding chain Scoped
chain-Scoped false e r b f x y z k = ((λ _. inl refl), (λ _. refl))
chain-Scoped true true true b f x y z k = ((λ h. absurd (cc (h))), (λ h. ground arith))
chain-Scoped true true false b f x y z k =
    let no : true ≡ false = k refl in ((λ h. absurd (cc (no))), (λ h. absurd (cc (no))))
chain-Scoped true false true b f x y z k = ((λ h. absurd (cc (h))), (λ h. ground arith))
chain-Scoped true false false false f x y z k = ((λ _. inr (refl, inl refl)), (λ _. refl))
chain-Scoped true false false true false x y z k = ((λ _. inr (refl, inr refl)), (λ _. refl))
chain-Scoped true false false true true x y z k = ((λ h. absurd (cc (h))), (λ h. ground arith))

-- `Policy::lints` returns nothing exactly for a policy that has no allow rule, or whose match
-- names a repository together with a branch or a git ref.
pub lints-IsScoped : (p : Policy) → (lints p ≡ []) ↔ IsScoped p
unfolding lints chain Scoped
lints-IsScoped p =
    chain-Scoped (any is_allow p.rules) (specificity p.match_spec == 0)
      (is_none p.match_spec.repository) (is_none p.match_spec.branch) (is_none p.match_spec.git_ref)
      (make p match_governs_every_workload every_workload)
      (make p match_lacks_repository (any_repository (constrained_field_names p)))
      (make p match_lacks_ref any_ref) (repository_counts p.match_spec)
