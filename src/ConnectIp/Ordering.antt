-- ===== src/ConnectIp/Ordering.antt =====
-- crates/skimasque-core/src/connect_ip.rs: what `check_route_ordering` gives a receiver.
use skimasque.Prelude.{ℕ, List, [], ◌∷◌, Bool, true, false, ok, ltb, if◌then◌else◌, All}
use skimasque.Prelude.{◌≡◌, refl, arith, Bool-cases, inl, inr}
use skimasque.Net.{IpAddr, v4, v6, addr_lt}
use skimasque.ConnectIp.{IpAddressRange, version, in_order, check_route_ordering}
use skimasque.ConnectIp.Wire.{IsRange, AreEnds}

-- Every element of the list is related to all elements behind it.
pub Pairwise : {A : Type 0} → (A → A → Type 0) → List A → Type 0
Pairwise R [] = Unit
Pairwise R (a ∷ rest) = All (R a) rest × Pairwise R rest

-- Ranges of one version and protocol do not meet: the first ends before the second starts.
abbrev pub AreApart : IpAddressRange → IpAddressRange → Type 0
AreApart a c = version a ≡ version c → a.protocol ≡ c.protocol → addr_lt a.end c.start ≡ true

abbrev InOrder : IpAddressRange → IpAddressRange → Type 0
InOrder a c = in_order a c ≡ true

addr_lt_trans :
    (a b c d : IpAddr)
    → addr_lt a b ≡ true
    → addr_lt c b ≡ false
    → addr_lt c d ≡ true
    → addr_lt a d ≡ true
addr_lt_trans (v4 a) (v4 b) (v4 c) (v4 d) h k l = ground arith
addr_lt_trans (v4 a) (v4 b) (v4 c) (v6 d) h k l = refl
addr_lt_trans (v4 a) (v4 b) (v6 c) (v4 d) h k l = absurd (cc (l))
addr_lt_trans (v4 a) (v4 b) (v6 c) (v6 d) h k l = refl
addr_lt_trans (v4 a) (v6 b) (v4 c) d h k l = absurd (cc (k))
addr_lt_trans (v4 a) (v6 b) (v6 c) (v4 d) h k l = absurd (cc (l))
addr_lt_trans (v4 a) (v6 b) (v6 c) (v6 d) h k l = refl
addr_lt_trans (v6 a) (v4 b) c d h k l = absurd (cc (h))
addr_lt_trans (v6 a) (v6 b) (v4 c) d h k l = absurd (cc (k))
addr_lt_trans (v6 a) (v6 b) (v6 c) (v4 d) h k l = absurd (cc (l))
addr_lt_trans (v6 a) (v6 b) (v6 c) (v6 d) h k l = ground arith

ends_of : (s e : IpAddr) → AreEnds s e → addr_lt e s ≡ false
ends_of (v4 a) (v4 b) h = ground arith
ends_of (v6 a) (v6 b) h = ground arith
ends_of (v4 a) (v6 b) h = absurd h
ends_of (v6 a) (v4 b) h = absurd h

-- The lexicographic test of two keys and then of a last test.
abbrev lex : (v w p q : ℕ) → Bool → Bool
lex v w p q last =
    if ltb v w
    then true
    else if ltb w v
    then false
    else if ltb p q
    then true
    else if ltb q p
    then false
    else last

lex-equal : (v w p q : ℕ) (last : Bool) → lex v w p q last ≡ true → v ≡ w → p ≡ q → last ≡ true
lex-equal v w p q last h e f = ground arith

lex_trans :
    (u v w p q r : ℕ) (l m n : Bool)
    → (l ≡ true → m ≡ true → n ≡ true)
    → lex u v p q l ≡ true
    → lex v w q r m ≡ true
    → lex u w p r n ≡ true
lex_trans u v w p q r l m n step h k = ground arith

InOrder-trans : (a b c : IpAddressRange) → IsRange b → InOrder a b → InOrder b c → InOrder a c
unfolding in_order
InOrder-trans a b c (ends, byte) =
    lex_trans (version a) (version b) (version c) a.protocol b.protocol c.protocol
      (addr_lt a.end b.start) (addr_lt b.end c.start) (addr_lt a.end c.start)
      (λ l m. addr_lt_trans a.end b.start b.end c.start l (ends_of b.start b.end ends) m)

InOrder-AreApart : (a c : IpAddressRange) → InOrder a c → AreApart a c
unfolding in_order
InOrder-AreApart a c h same same' =
    lex-equal (version a) (version c) a.protocol c.protocol (addr_lt a.end c.start) h same same'

-- What is in order behind a range that is in order behind another.
All-InOrder :
    (a b : IpAddressRange) (rest : List IpAddressRange)
    → IsRange b
    → InOrder a b
    → All (InOrder b) rest
    → All (InOrder a) rest
All-InOrder a b [] valid h k = tt
All-InOrder a b (c ∷ rest) valid h (k, ks) =
    (InOrder-trans a b c valid h k, All-InOrder a b rest valid h ks)

check-Pairwise :
    (ranges : List IpAddressRange)
    → All IsRange ranges
    → check_route_ordering ranges ≡ ok tt
    → Pairwise InOrder ranges
unfolding check_route_ordering Pairwise
check-Pairwise [] valid h = tt
check-Pairwise (a ∷ []) valid h = (tt, tt)
check-Pairwise (a ∷ b ∷ rest) (va, (vb, valid)) h = elim (Bool-cases (in_order a b)) [
  | inl e ↦
      let later = check-Pairwise (b ∷ rest) (vb, valid) (rw e at h) in
      ((e, All-InOrder a b rest vb e later.0), later)
  | inr e ↦ absurd (cc (rw e at h))
]

module _ {A : Type 0} {R S : A → A → Type 0} (f : (a b : A) → R a b → S a b) where
  Pairwise-map : (xs : List A) → Pairwise R xs → Pairwise S xs
  unfolding Pairwise
  Pairwise-map [] h = tt
  Pairwise-map (x ∷ xs) (h, hs) = (All-each x xs h, Pairwise-map xs hs)
    where
      All-each : (x : A) (ys : List A) → All (R x) ys → All (S x) ys
      All-each x [] h = tt
      All-each x (y ∷ ys) (h, hs) = (f x y h, All-each x ys hs)

-- When `check_route_ordering` accepts a list of valid ranges, any two of them that have the same
-- IP version and protocol are apart: the one that stands first in the list ends before the start
-- of the other.
pub check_route_ordering-AreApart :
    (ranges : List IpAddressRange)
    → All IsRange ranges
    → check_route_ordering ranges ≡ ok tt
    → Pairwise AreApart ranges
check_route_ordering-AreApart ranges valid h =
    Pairwise-map InOrder-AreApart ranges (check-Pairwise ranges valid h)
