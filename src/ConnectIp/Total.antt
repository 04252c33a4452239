-- ===== src/ConnectIp/Total.antt =====
-- crates/skimasque-core/src/connect_ip.rs: the loops of `from_capsule` end within their fuel.
use skimasque.Prelude.{ℕ, zero, suc, ◌≤◌, List, [], ◌∷◌, err, ◌==◌, length}
use skimasque.Prelude.{◌≢◌, arith, Bool-cases, inl, inr}
use mathlib.Core.Path.{subst}
use skimasque.Capsule.{Capsule}
use skimasque.ConnectIp.{out_of_fuel, RequestedAddress, IpCapsule}
use skimasque.ConnectIp.Decode.{
  Parser, assigned_entry, requested_entry, range_entry, many, no_trailing, some_requests,
  from_capsule,
}
use skimasque.ConnectIp.Leaves.{
  Leaves, IsTotal, Leaves-bind, IsTotal-bind, Leaves-IsTotal, ordering-IsTotal,
  assigned_entry-Leaves, requested_entry-Leaves, range_entry-Leaves,
}

module _ {A : Type 0} (entry : Parser A) where
  Shrinks : Type 0
  Shrinks = (n : ℕ) (input : List ℕ) → length input ≤ suc n → Leaves n (entry input)

  many-Leaves :
      (fuel : ℕ) (input : List ℕ) → Shrinks → length input ≤ fuel → Leaves 0 (many entry fuel input)
  unfolding many Leaves Shrinks
  many-Leaves fuel [] s h = omega arith
  many-Leaves zero (x ∷ input) s h = absurd (omega arith)
  many-Leaves (suc fuel) (x ∷ input) s h =
      Leaves-bind fuel 0 (entry (x ∷ input)) _ (s fuel (x ∷ input) h) (λ a rest k.
        Leaves-bind 0 0 (many entry fuel rest) _ (many-Leaves fuel rest s k) (λ items rest' k'. k'))

assigned-Shrinks : Shrinks assigned_entry
unfolding Shrinks
assigned-Shrinks = assigned_entry-Leaves

requested-Shrinks : Shrinks requested_entry
unfolding Shrinks
requested-Shrinks = requested_entry-Leaves

ranges-Shrinks : Shrinks range_entry
unfolding Shrinks
ranges-Shrinks = range_entry-Leaves

no_trailing-IsTotal : (t : IpCapsule × List ℕ) → IsTotal (no_trailing t)
unfolding IsTotal
no_trailing-IsTotal (parsed, []) = tt
no_trailing-IsTotal (parsed, x ∷ rest) = tt

some_requests-IsTotal : (addresses : List RequestedAddress) → IsTotal (some_requests addresses)
unfolding IsTotal
some_requests-IsTotal [] = tt
some_requests-IsTotal (a ∷ rest) = tt

-- A loop over the whole value.
loop-IsTotal :
    {A : Type 0} (entry : Parser A) (input : List ℕ)
    → Shrinks entry
    → IsTotal (many entry (length input) input)
loop-IsTotal entry input s =
    Leaves-IsTotal 0 (many entry (length input) input)
      (many-Leaves entry (length input) input s (omega arith))

from_capsule-IsTotal : (c : Capsule) → IsTotal (from_capsule c)
unfolding from_capsule
from_capsule-IsTotal c = elim (Bool-cases (c.kind == 1)) [
  | inl e ↦
      rw (from_capsule, e)
        (IsTotal-bind _ _ (loop-IsTotal assigned_entry c.value assigned-Shrinks)
          (λ t. no_trailing-IsTotal _))
  | inr e ↦ elim (Bool-cases (c.kind == 2)) [
    | inl e' ↦
        rw (from_capsule, e, e')
          (IsTotal-bind _ _ (loop-IsTotal requested_entry c.value requested-Shrinks)
            (λ t. IsTotal-bind _ _ (some_requests-IsTotal t.0) (λ parsed. no_trailing-IsTotal _)))
    | inr e' ↦ elim (Bool-cases (c.kind == 3)) [
      | inl e'' ↦
          rw (from_capsule, e, e', e'')
            (IsTotal-bind _ _ (loop-IsTotal range_entry c.value ranges-Shrinks)
              (λ t. IsTotal-bind _ _ (ordering-IsTotal t.0) (λ _. no_trailing-IsTotal _)))
      | inr e'' ↦ rw (from_capsule, e, e', e'') (unfold IsTotal in tt)
    ]
  ]
]

-- For every capsule, the fuel of `from_capsule`'s loops, the length of the value, is enough: no
-- result is for lack of fuel.
pub from_capsule-ne-out_of_fuel : (c : Capsule) → from_capsule c ≢ err out_of_fuel
from_capsule-ne-out_of_fuel c e = unfold IsTotal in (subst IsTotal e (from_capsule-IsTotal c))
