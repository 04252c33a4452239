-- ===== src/Policy/Select.antt =====
-- crates/skimasque-policy/src/model.rs: which policy `PolicySet::select` takes.
use skimasque.Prelude.{
  ℕ, suc, ◌≤◌, ◌<◌, List, [], ◌∷◌, ◌++◌, Bool, true, false, Option, none, some, if◌then◌else◌,
  filter, All, ltb,
}
use skimasque.Prelude.{
  ◌≡◌, ◌⊎◌, inl, inr, refl, sym, ap, ◌∙◌, Bool-cases, ltb→lt, All-append, arith,
}
use mathlib.Core.Path.{subst}
use skimasque.Policy.Identity.{WorkloadIdentity}
use skimasque.Policy.Model.{
  Policy, specificity, enumerate_from, key_le, max_from, max_by_key, is_candidate, select,
}

abbrev rank : Policy → ℕ
rank p = specificity p.match_spec

-- The first of the most specific policies of a list, by recursion from the end.
pick : Policy → Option Policy → Policy
pick p none = p
pick p (some q) = if ltb (rank p) (rank q) then q else p

best : List Policy → Option Policy
best [] = none
best (p ∷ ps) = some (pick p (best ps))

-- Against a later index the key order is the strict order of the specificities.
key_le-later : (i j : ℕ) (p q : Policy) → i < j → key_le (i, p) (j, q) ≡ ltb (rank p) (rank q)
unfolding key_le
key_le-later i j p q h = ground arith

pick-less :
    (p q : Policy) (o : Option Policy)
    → ltb (rank p) (rank q) ≡ true
    → pick p (some (pick q o)) ≡ pick q o
unfolding pick
pick-less p q none h = rw h refl
pick-less p q (some r) h = ground (arith, h)

pick-not_less :
    (p q : Policy) (o : Option Policy)
    → ltb (rank p) (rank q) ≡ false
    → pick p (some (pick q o)) ≡ pick p o
unfolding pick
pick-not_less p q none h = rw h refl
pick-not_less p q (some r) h = ground (arith, h)

max_from-pick :
    (i j : ℕ) (p : Policy) (ps : List Policy)
    → i < j
    → (max_from (i, p) (enumerate_from j ps)).1 ≡ pick p (best ps)
unfolding max_from pick best
max_from-pick i j p [] h = refl
max_from-pick i j p (q ∷ ps) h = elim (Bool-cases (ltb (rank p) (rank q))) [
  | inl e ↦
      let later : key_le (i, p) (j, q) ≡ true = key_le-later i j p q h ∙ e in
      rw (max_from, later)
        (max_from-pick j (suc j) q ps (omega arith) ∙ sym (pick-less p q (best ps) e))
  | inr e ↦
      let later : key_le (i, p) (j, q) ≡ false = key_le-later i j p q h ∙ e in
      rw (max_from, later)
        (max_from-pick i (suc j) p ps (omega arith) ∙ sym (pick-not_less p q (best ps) e))
]

-- The policy stands in the list, is a candidate, is above every candidate before it in specificity
-- and not below any candidate behind it.
pub record IsBest (is_cand : Policy → Bool) (ps : List Policy) (p : Policy) : Type 0 where
  pub before : List Policy
  pub after : List Policy
  pub split : ps ≡ before ++ (p ∷ after)
  pub accepted : is_cand p ≡ true
  pub above : All (λ (q : Policy). is_cand q ≡ true → rank q < rank p) before
  pub not_below : All (λ (q : Policy). is_cand q ≡ true → rank q ≤ rank p) after

abbrev pub AreRefused : (Policy → Bool) → List Policy → Type 0
AreRefused is_cand ps = All (λ (p : Policy). is_cand p ≡ false) ps

module _ {P Q : Policy → Type 0} (f : (p : Policy) → P p → Q p) where
  All-map : (ps : List Policy) → All P ps → All Q ps
  All-map [] h = tt
  All-map (p ∷ ps) (h, hs) = (f p h, All-map ps hs)

module _ (is_cand : Policy → Bool) where
  -- Nothing of the list is above its best policy.
  IsBest-le :
      (ps : List Policy) (p : Policy)
      → IsBest is_cand ps p
      → All (λ (q : Policy). is_cand q ≡ true → rank q ≤ rank p) ps
  IsBest-le ps p b =
      let below = λ (q : Policy). is_cand q ≡ true → rank q ≤ rank p in
      subst (All below) (sym b.split) (
        All-append below b.before (p ∷ b.after)
          (All-map (λ q lt c. omega (arith, lt c)) b.before b.above)
          (λ c. omega arith, b.not_below))

  -- What the recursion returns for the candidates of a list.
  Best-cases : List Policy → Type 0
  Best-cases ps =
      (AreRefused is_cand ps × (best (filter is_cand ps) ≡ none))
      ⊎ ((p : Policy) × IsBest is_cand ps p × (best (filter is_cand ps) ≡ some p))

  best_refused :
      (q : Policy) (ps : List Policy) → is_cand q ≡ false → Best-cases ps → Best-cases (q ∷ ps)
  unfolding Best-cases
  best_refused q ps e (inl (r, h)) = inl ((e, r), rw e h)
  best_refused q ps e (inr (p, b, h)) = inr (
    p,
    record {
      before = q ∷ b.before;
      after = b.after;
      split = ap (λ (t : List Policy). q ∷ t) b.split;
      accepted = b.accepted;
      above = (λ c. absurd (cc (c, e)), b.above);
      not_below = b.not_below;
    },
    rw e h,
  )

  best_accepted :
      (q : Policy) (ps : List Policy) → is_cand q ≡ true → Best-cases ps → Best-cases (q ∷ ps)
  unfolding Best-cases best pick
  best_accepted q ps e (inl (r, h)) = inr (
    q,
    record {
      before = [];
      after = ps;
      split = refl;
      accepted = e;
      above = tt;
      not_below = All-map (λ p no c. absurd (cc (c, no))) ps r;
    },
    rw (e, h) refl,
  )
  best_accepted q ps e (inr (p, b, h)) = elim (Bool-cases (ltb (rank q) (rank p))) [
    | inl less ↦ inr (
      p,
      record {
        before = q ∷ b.before;
        after = b.after;
        split = ap (λ (t : List Policy). q ∷ t) b.split;
        accepted = b.accepted;
        above = (λ c. ltb→lt (rank q) (rank p) less, b.above);
        not_below = b.not_below;
      },
      rw (e, h, less) refl,
    )
    | inr not_less ↦
        let le : rank p ≤ rank q = ground (arith, not_less) in
        inr (
          q,
          record {
            before = [];
            after = ps;
            split = refl;
            accepted = e;
            above = tt;
            not_below = All-map (λ r no_more c. omega (arith, le, no_more c)) ps (IsBest-le ps p b);
          },
          rw (e, h, not_less) refl,
        )
  ]

  best-cases : (ps : List Policy) → Best-cases ps
  unfolding Best-cases best
  best-cases [] = inl (tt, refl)
  best-cases (q ∷ ps) = elim (Bool-cases (is_cand q)) [
    | inl e ↦ best_accepted q ps e (best-cases ps)
    | inr e ↦ best_refused q ps e (best-cases ps)
  ]

select-best :
    (ps : List Policy) (identity : WorkloadIdentity)
    → select ps identity ≡ best (filter (is_candidate identity) ps)
unfolding select max_by_key best
select-best ps identity = select_of (filter (is_candidate identity) ps)
  where
    select_of :
        (qs : List Policy)
        → elim (max_by_key (enumerate_from 0 qs)) [ none ↦ none | some best ↦ some (best.1) ]
          ≡ best qs
    select_of [] = refl
    select_of (q ∷ qs) = ap some (max_from-pick 0 1 q qs (omega arith))

-- `PolicySet::select` returns nothing exactly when every policy of the set is a baseline or does
-- not match the identity. Otherwise it returns a policy of the set that is no baseline and matches
-- the identity; every other such policy constrains fewer fields when it stands before the selected
-- one, and no more fields when it stands behind it.
pub select_cases :
    (ps : List Policy) (identity : WorkloadIdentity)
    → (AreRefused (is_candidate identity) ps × (select ps identity ≡ none))
      ⊎ ((p : Policy) × IsBest (is_candidate identity) ps p × (select ps identity ≡ some p))
unfolding Best-cases
select_cases ps identity = rw (select-best ps identity) (best-cases (is_candidate identity) ps)
