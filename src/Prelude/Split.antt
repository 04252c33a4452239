-- ===== src/Prelude/Split.antt =====
-- What `split_once` and `rsplit_once` give for a text whose separators are known.
use skimasque.Prelude.{
  ℕ, [], ◌∷◌, ◌++◌, true, false, none, some, ◌==◌, Bool-cases, ◌⊎◌, inl, inr, ap, ap₂,
}
use skimasque.Prelude.{◌≡◌, refl, arith, or_false}
use skimasque.Prelude.Text.{Text, split, split_once, rsplit_once, strip_prefix, text_eq}
use skimasque.Prelude.Trim.{contains}

==_self : (c : ℕ) → (c == c) ≡ true
==_self c = ground arith

module _ (c : ℕ) where
  pub contains_tail :
      (x : ℕ) (t : Text) → contains c (x ∷ t) ≡ false → ((x == c) ≡ false) × (contains c t ≡ false)
  contains_tail x t h = or_false (x == c) (contains c t) h

  pub split_once_absent : (t : Text) → contains c t ≡ false → split_once c t ≡ none
  split_once_absent [] h = refl
  split_once_absent (x ∷ t) h =
      let (e, k) = contains_tail x t h in rw (e, split_once_absent t k) refl

  pub rsplit_once_absent : (t : Text) → contains c t ≡ false → rsplit_once c t ≡ none
  rsplit_once_absent [] h = refl
  rsplit_once_absent (x ∷ t) h =
      let (e, k) = contains_tail x t h in rw (rsplit_once, rsplit_once_absent t k, e) refl

  -- The last separator is the one with none behind it, the first the one with none before it.
  pub rsplit_once-append :
      (t p : Text) → contains c p ≡ false → rsplit_once c (t ++ (c ∷ p)) ≡ some (t, p)
  rsplit_once-append [] p h = rw (rsplit_once, rsplit_once_absent p h, ==_self c) refl
  rsplit_once-append (x ∷ t) p h = rw (rsplit_once, rsplit_once-append t p h) refl

  pub split_once-append :
      (t p : Text) → contains c t ≡ false → split_once c (t ++ (c ∷ p)) ≡ some (t, p)
  split_once-append [] p h = rw (==_self c) refl
  split_once-append (x ∷ t) p h =
      let (e, k) = contains_tail x t h in rw (e, split_once-append t p k) refl

  pub contains-append :
      (a b : Text) → contains c a ≡ false → contains c b ≡ false → contains c (a ++ b) ≡ false
  contains-append [] b h k = k
  contains-append (x ∷ a) b h k = let (e, l) = contains_tail x a h in rw e (contains-append a b l k)

  -- The parts of `split`: the first ends at the first separator or is the whole text.
  pub split_absent : (t : Text) → contains c t ≡ false → split c t ≡ t ∷ []
  split_absent [] h = refl
  split_absent (x ∷ t) h = let (e, k) = contains_tail x t h in rw (e, split_absent t k) refl

  pub split-append : (a t : Text) → contains c a ≡ false → split c (a ++ (c ∷ t)) ≡ a ∷ split c t
  split-append [] t h = rw (==_self c) refl
  split-append (x ∷ a) t h = let (e, k) = contains_tail x a h in rw (e, split-append a t k) refl

  pub split_front :
      (t : Text)
      → (a : Text) × (contains c a ≡ false) × ((t ≡ a) ⊎ ((u : Text) × (t ≡ a ++ (c ∷ u))))
  split_front [] = ([], refl, inl refl)
  split_front (x ∷ t) = elim (Bool-cases (x == c)) [
    | inl e ↦ let same : x ≡ c = ground arith in ([], refl, inr (t, ap (λ (y : ℕ). y ∷ t) same))
    | inr e ↦
        let (a, h, whole) = split_front t in
        (
          x ∷ a,
          rw e h,
          elim whole [
            | inl k ↦ inl (ap (λ (u : Text). x ∷ u) k)
            | inr (u, k) ↦ inr (u, ap (λ (v : Text). x ∷ v) k)
          ],
        )
  ]

-- A text that starts with another byte is not stripped and not the literal.
pub strip_prefix_other :
    (x p : ℕ) (t ps : Text) → (x == p) ≡ false → strip_prefix (x ∷ t) (p ∷ ps) ≡ none
strip_prefix_other x p t ps h = rw h refl

pub text_eq_other : (x p : ℕ) (t ps : Text) → (x == p) ≡ false → text_eq (x ∷ t) (p ∷ ps) ≡ false
text_eq_other x p t ps h = rw h refl

pub strip_prefix-append : (p t : Text) → strip_prefix (p ++ t) p ≡ some t
strip_prefix-append [] t = refl
strip_prefix-append (x ∷ p) t = rw (==_self x) (strip_prefix-append p t)

pub strip_prefix-some : (t p r : Text) → strip_prefix t p ≡ some r → t ≡ p ++ r
strip_prefix-some t [] r h = cc
strip_prefix-some [] (x ∷ p) r h = absurd (cc (h))
strip_prefix-some (y ∷ t) (x ∷ p) r h = elim (Bool-cases (y == x)) [
  | inl e ↦
      let same : y ≡ x = ground arith in
      let rest = strip_prefix-some t p r (rw e at h) in ap₂ ◌∷◌ same rest
  | inr e ↦ absurd (let k : none ≡ some r = rw e at h in cc (k))
]
