-- ===== src/ConnectIp/Leaves.antt =====
-- crates/skimasque-core/src/connect_ip.rs: what each parser of a capsule's value leaves of it.
use skimasque.Prelude.{ℕ, suc, ◌≤◌, List, [], ◌∷◌, Result, ok, err, ◌>>=◌, ltb, ◌==◌, length}
use skimasque.Prelude.{arith, Bool-cases, inl, inr, length-drop}
use skimasque.Prelude.{Result-cases}
use skimasque.Net.{IpAddr, v4, v6, address_bits, addr_eq}
use skimasque.Varint.Decode.{decode_slice_len, take_slice_ok, take_slice_err}
use skimasque.Varint
use skimasque.ConnectIp.{
  Error, out_of_fuel, IpAddressRange, new_range, check_route_ordering, in_order,
}
use skimasque.ConnectIp.Prefix.{new_prefix, masked}
use skimasque.ConnectIp.Decode.{
  take_u8, take_varint, take_address, decode_address_of_version, decode_versioned_address,
  decode_prefix, assigned_entry, requested_entry, range_entry,
}

-- An error of the source.
abbrev pub IsSource : Error → Type 0
IsSource out_of_fuel = ⊥
IsSource _ = Unit

-- A result that is no lack of fuel, and leaves at most `n` bytes.
unfoldable pub Leaves : {A : Type 0} → ℕ → Result Error (A × List ℕ) → Type 0
Leaves n (ok (a, rest)) = length rest ≤ n
Leaves n (err e) = IsSource e

unfoldable pub IsTotal : {A : Type 0} → Result Error A → Type 0
IsTotal (ok a) = Unit
IsTotal (err e) = IsSource e

module _ {A B : Type 0} where
  pub Leaves-bind :
      (n m : ℕ) (r : Result Error (A × List ℕ)) (f : A × List ℕ → Result Error (B × List ℕ))
      → Leaves n r
      → ((a : A) (rest : List ℕ) → length rest ≤ n → Leaves m (f (a, rest)))
      → Leaves m (r >>= f)
  unfolding Leaves
  Leaves-bind n m (ok (a, rest)) f h k = k a rest h
  Leaves-bind n m (err e) f h k = h

  Leaves-total :
      (m : ℕ) (r : Result Error A) (f : A → Result Error (B × List ℕ))
      → IsTotal r
      → ((a : A) → Leaves m (f a))
      → Leaves m (r >>= f)
  unfolding Leaves IsTotal
  Leaves-total m (ok a) f h k = k a
  Leaves-total m (err e) f h k = h

  pub IsTotal-bind :
      (r : Result Error A) (f : A → Result Error B)
      → IsTotal r
      → ((a : A) → IsTotal (f a))
      → IsTotal (r >>= f)
  unfolding IsTotal
  IsTotal-bind (ok a) f h k = k a
  IsTotal-bind (err e) f h k = h

pub Leaves-IsTotal : {A : Type 0} (n : ℕ) (r : Result Error (A × List ℕ)) → Leaves n r → IsTotal r
unfolding Leaves IsTotal
Leaves-IsTotal n (ok a) h = tt
Leaves-IsTotal n (err e) h = h

take_u8-Leaves : (n : ℕ) (input : List ℕ) → length input ≤ suc n → Leaves n (take_u8 input)
unfolding Leaves take_u8
take_u8-Leaves n [] h = tt
take_u8-Leaves n (x ∷ rest) h = omega arith

take_address-Leaves :
    (f : ℕ → IpAddr) (len n : ℕ) (input : List ℕ)
    → length input ≤ n
    → Leaves n (take_address f len input)
unfolding Leaves
take_address-Leaves f len n input h = elim (Bool-cases (ltb (length input) len)) [
  | inl e ↦ rw (Leaves, e) tt
  | inr e ↦ rw (Leaves, e) (omega (arith, length-drop len input))
]

decode_address-Leaves :
    (v n : ℕ) (input : List ℕ) → length input ≤ n → Leaves n (decode_address_of_version v input)
unfolding decode_address_of_version Leaves
decode_address-Leaves v n input h = elim (Bool-cases (v == 4)) [
  | inl e ↦ rw (decode_address_of_version, e) (take_address-Leaves v4 4 n input h)
  | inr e ↦ elim (Bool-cases (v == 6)) [
    | inl e' ↦ rw (decode_address_of_version, e, e') (take_address-Leaves v6 16 n input h)
    | inr e' ↦ rw (decode_address_of_version, e, e') tt
  ]
]

new_prefix-IsTotal : (a : IpAddr) (p : ℕ) → IsTotal (new_prefix a p)
unfolding new_prefix IsTotal
new_prefix-IsTotal a p = elim (Bool-cases (ltb (address_bits a) p)) [
  | inl e ↦ rw (IsTotal, e) tt
  | inr e ↦ elim (Bool-cases (addr_eq (masked a p) a)) [
    | inl f ↦ rw (IsTotal, e, f) tt
    | inr f ↦ rw (IsTotal, e, f) tt
  ]
]

new_range-IsTotal : (s e : IpAddr) (p : ℕ) → IsTotal (new_range s e p)
unfolding new_range IsTotal
new_range-IsTotal (v4 a) (v4 b) p = elim (Bool-cases (ltb b a)) [
  | inl h ↦ rw (IsTotal, h) tt
  | inr h ↦ rw (IsTotal, h) tt
]
new_range-IsTotal (v6 a) (v6 b) p = elim (Bool-cases (ltb b a)) [
  | inl h ↦ rw (IsTotal, h) tt
  | inr h ↦ rw (IsTotal, h) tt
]
new_range-IsTotal (v4 a) (v6 b) p = tt
new_range-IsTotal (v6 a) (v4 b) p = tt

pub ordering-IsTotal : (ranges : List IpAddressRange) → IsTotal (check_route_ordering ranges)
unfolding check_route_ordering IsTotal
ordering-IsTotal [] = tt
ordering-IsTotal (a ∷ []) = tt
ordering-IsTotal (a ∷ b ∷ rest) = elim (Bool-cases (in_order a b)) [
  | inl e ↦ rw (IsTotal, e) (ordering-IsTotal (b ∷ rest))
  | inr e ↦ rw (IsTotal, e) tt
]

-- A varint takes at least its first byte.
take_varint-Leaves : (n : ℕ) (input : List ℕ) → length input ≤ suc n → Leaves n (take_varint input)
unfolding Leaves take_varint
take_varint-Leaves n input h = elim (Result-cases (Varint.decode_slice input)) [
  | inr (e, none_read) ↦ rw (take_varint, take_slice_err input none_read) tt
  | inl ((v, len), read) ↦
      let bounds = decode_slice_len input v len read in
      rw (take_varint, take_slice_ok input read) (omega (arith, length-drop len input, bounds))
]

decode_prefix-Leaves : (n : ℕ) (input : List ℕ) → length input ≤ n → Leaves n (decode_prefix input)
unfolding decode_prefix decode_versioned_address Leaves
decode_prefix-Leaves n input h =
    Leaves-bind n n (decode_versioned_address input) _
      (Leaves-bind n n (take_u8 input) _ (take_u8-Leaves n input (omega (arith, h)))
        (λ v rest k. decode_address-Leaves v n rest k))
      (λ a rest k.
        Leaves-bind n n (take_u8 rest) _ (take_u8-Leaves n rest (omega (arith, k)))
          (λ l rest' k'. Leaves-total n (new_prefix a l) _ (new_prefix-IsTotal a l) (λ p. k')))

pub assigned_entry-Leaves :
    (n : ℕ) (input : List ℕ) → length input ≤ suc n → Leaves n (assigned_entry input)
unfolding assigned_entry Leaves
assigned_entry-Leaves n input h =
    Leaves-bind n n (take_varint input) _ (take_varint-Leaves n input h) (λ id rest k.
      Leaves-bind n n (decode_prefix rest) _ (decode_prefix-Leaves n rest k) (λ p rest' k'. k'))

pub requested_entry-Leaves :
    (n : ℕ) (input : List ℕ) → length input ≤ suc n → Leaves n (requested_entry input)
unfolding requested_entry Leaves
requested_entry-Leaves n input h =
    Leaves-bind n n (take_varint input) _ (take_varint-Leaves n input h) (λ id rest k.
      elim (Bool-cases (id == 0)) [
        | inl e ↦ rw (Leaves, e) tt
        | inr e ↦
            rw (Leaves, e)
              (Leaves-bind n n (decode_prefix rest) _ (decode_prefix-Leaves n rest k)
                (λ p rest' k'. k'))
      ])

pub range_entry-Leaves :
    (n : ℕ) (input : List ℕ) → length input ≤ suc n → Leaves n (range_entry input)
unfolding range_entry Leaves
range_entry-Leaves n input h =
    Leaves-bind n n (take_u8 input) _ (take_u8-Leaves n input h) (λ v rest k.
      Leaves-bind n n (decode_address_of_version v rest) _ (decode_address-Leaves v n rest k)
        (λ s r0 k0.
          Leaves-bind n n (decode_address_of_version v r0) _ (decode_address-Leaves v n r0 k0)
            (λ e r1 k1.
              Leaves-bind n n (take_u8 r1) _ (take_u8-Leaves n r1 (omega (arith, k1))) (λ p r2 k2.
                Leaves-total n (new_range s e p) _ (new_range-IsTotal s e p) (λ r. k2)))))
