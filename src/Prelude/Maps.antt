-- ===== src/Prelude/Maps.antt =====
-- Maps with number keys as association lists: `HashMap`'s `get`, `insert` and `remove`.
use Prim.Native.Nat.{ℕ, suc, ◌≤◌}
use mathlib.Core.Path.{◌≡◌, refl, ap, subst}
use mathlib.Core.Logic.{inl, inr}
use mathlib.Core.Bool.{false}
use mathlib.Core.Option.{Option, none, some}
use mathlib.Core.List.{List, [], ◌∷◌}
use native.Mathlib.Omega.{arith}
use skimasque.Prelude.Tests.{◌==◌, if◌then◌else◌, Bool-cases}
use skimasque.Prelude.Lists.{length, All}

module _ {V : Type 0} where
  abbrev pub lookup : ℕ → List (ℕ × V) → Option V
  lookup k [] = none
  lookup k (e ∷ m) = let rest = lookup k m in if e.0 == k then some e.1 else rest

  -- The value is replaced where the key stands, or added at the end.
  abbrev pub put : ℕ → V → List (ℕ × V) → List (ℕ × V)
  put k v [] = (k, v) ∷ []
  put k v (e ∷ m) = let rest = put k v m in if e.0 == k then (k, v) ∷ m else e ∷ rest

  abbrev pub remove : ℕ → List (ℕ × V) → List (ℕ × V)
  remove k [] = []
  remove k (e ∷ m) = let rest = remove k m in if e.0 == k then rest else e ∷ rest

  pub lookup-put_same : (k : ℕ) (v : V) (m : List (ℕ × V)) → lookup k (put k v m) ≡ some v
  lookup-put_same k v [] = ground arith
  lookup-put_same k v ((i, x) ∷ m) = elim (Bool-cases (i == k)) [
    | inl e ↦ ground (arith, e)
    | inr e ↦ rw (e, lookup, e) (lookup-put_same k v m)
  ]

  pub lookup-put_other :
      (k j : ℕ) (v : V) (m : List (ℕ × V)) → (k == j) ≡ false → lookup j (put k v m) ≡ lookup j m
  lookup-put_other k j v [] h = rw h refl
  lookup-put_other k j v ((i, x) ∷ m) h = elim (Bool-cases (i == k)) [
    | inl e ↦ ground (arith, e, h)
    | inr e ↦ rw (e, lookup, lookup-put_other k j v m h) refl
  ]

  pub lookup-remove_same : (k : ℕ) (m : List (ℕ × V)) → lookup k (remove k m) ≡ none
  lookup-remove_same k [] = refl
  lookup-remove_same k ((i, x) ∷ m) = elim (Bool-cases (i == k)) [
    | inl e ↦ rw e (lookup-remove_same k m)
    | inr e ↦ rw (e, lookup, e) (lookup-remove_same k m)
  ]

  pub lookup-remove_other :
      (k j : ℕ) (m : List (ℕ × V)) → (k == j) ≡ false → lookup j (remove k m) ≡ lookup j m
  lookup-remove_other k j [] h = refl
  lookup-remove_other k j ((i, x) ∷ m) h = elim (Bool-cases (i == k)) [
    | inl e ↦
        let away : (i == j) ≡ false = ground (arith, e, h) in
        rw (e, away) (lookup-remove_other k j m h)
    | inr e ↦ rw (e, lookup, lookup-remove_other k j m h) refl
  ]

  pub length-put-none :
      (k : ℕ) (v : V) (m : List (ℕ × V)) → lookup k m ≡ none → length (put k v m) ≡ suc (length m)
  length-put-none k v [] h = refl
  length-put-none k v ((i, x) ∷ m) h = elim (Bool-cases (i == k)) [
    | inl e ↦ absurd (cc (rw e at h))
    | inr e ↦ rw e (ap suc (length-put-none k v m (rw e at h)))
  ]

  pub length-put-some :
      (k : ℕ) (v w : V) (m : List (ℕ × V)) → lookup k m ≡ some w → length (put k v m) ≡ length m
  length-put-some k v w [] h = absurd (cc (h))
  length-put-some k v w ((i, x) ∷ m) h = elim (Bool-cases (i == k)) [
    | inl e ↦ rw e refl
    | inr e ↦ rw e (ap suc (length-put-some k v w m (rw e at h)))
  ]

  pub length-remove : (k : ℕ) (m : List (ℕ × V)) → length (remove k m) ≤ length m
  length-remove k [] = omega arith
  length-remove k ((i, x) ∷ m) = elim (Bool-cases (i == k)) [
    | inl e ↦ rw e (omega (arith, length-remove k m))
    | inr e ↦ rw e (omega (arith, length-remove k m))
  ]

module _ {V : Type 0} (P : V → Type 0) where
  abbrev pub AllValues : List (ℕ × V) → Type 0
  AllValues m = All (λ (e : ℕ × V). P e.1) m

  pub AllValues-put : (k : ℕ) (v : V) (m : List (ℕ × V)) → P v → AllValues m → AllValues (put k v m)
  AllValues-put k v [] hv h = (hv, tt)
  AllValues-put k v ((i, x) ∷ m) hv (hx, h) = elim (Bool-cases (i == k)) [
    | inl e ↦ rw e (hv, h)
    | inr e ↦ rw e (hx, AllValues-put k v m hv h)
  ]

  pub AllValues-remove : (k : ℕ) (m : List (ℕ × V)) → AllValues m → AllValues (remove k m)
  AllValues-remove k [] h = tt
  AllValues-remove k ((i, x) ∷ m) (hx, h) = elim (Bool-cases (i == k)) [
    | inl e ↦ rw e (AllValues-remove k m h)
    | inr e ↦ rw e (hx, AllValues-remove k m h)
  ]

  pub AllValues-lookup :
      (k : ℕ) (v : V) (m : List (ℕ × V)) → AllValues m → lookup k m ≡ some v → P v
  AllValues-lookup k v [] h e = absurd (cc (e))
  AllValues-lookup k v ((i, x) ∷ m) (hx, h) e = elim (Bool-cases (i == k)) [
    | inl t ↦ let same : x ≡ v = some-inj (rw t at e) in subst P same hx
    | inr t ↦ AllValues-lookup k v m h (rw t at e)
  ]
    where
      some-inj : {x y : V} → Path (Option V) (some x) (some y) → x ≡ y
      some-inj h = cc
