-- ===== src/Prelude/Bits.antt =====
-- `bit_and` and `bit_or` at variables: a mask of ones is a remainder, and disjoint fields add up.
use Prim.Native.Nat.{ℕ, zero, suc, ◌+◌, ◌-◌, ◌*◌, ◌/◌, ◌%◌, ◌^◌, ◌≤◌, ◌<◌, min, max}
use Prim.Native.Nat.{bit_and, bit_or, digits, bit_and-bitwise, bit_or-bitwise}
use mathlib.Core.Path.{◌≡◌, refl, ap, sym, ◌∙◌, subst}
use native.Mathlib.Omega.{arith}
use native.Mathlib.Nat.{
  div-lt_iff_lt-mul, pow-zero, pow-suc, one-le-pow, div-add-mod', mod-lt, mod-eq_of_lt,
}
use native.Mathlib.Nat.{zero-add, suc-add, mul-add-mod_self_left}

-- The digit recursion reads no more of its fuel than the first number has.
module _ (last : ℕ → ℕ) (digit : ℕ → ℕ → ℕ) where
  digits_enough : (a b f g : ℕ) → a ≤ f → a ≤ g → digits last digit f a b ≡ digits last digit g a b
  digits_enough zero b zero zero hf hg = refl
  digits_enough zero b zero (suc g) hf hg = refl
  digits_enough zero b (suc f) zero hf hg = refl
  digits_enough zero b (suc f) (suc g) hf hg = refl
  digits_enough (suc a) b zero g hf hg = absurd (omega arith)
  digits_enough (suc a) b (suc f) zero hf hg = absurd (omega arith)
  digits_enough (suc a) b (suc f) (suc g) hf hg =
      ap (λ (r : ℕ). r * 2 + digit (suc a % 2) (b % 2))
        (digits_enough (suc a / 2) (b / 2) f g (omega arith) (omega arith))

and_step : (a b : ℕ) → bit_and a b ≡ bit_and (a / 2) (b / 2) * 2 + min (a % 2) (b % 2)
and_step zero b = simp bit_and-bitwise (omega arith)
and_step (suc a) b = simp bit_and-bitwise (
    omega (
      arith,
      digits_enough (λ _. 0) min (suc a / 2) (b / 2) a (suc a / 2) (omega arith) (omega arith),
    ))

or_step : (a b : ℕ) → bit_or a b ≡ bit_or (a / 2) (b / 2) * 2 + max (a % 2) (b % 2)
or_step zero b = simp bit_or-bitwise (omega arith)
or_step (suc a) b = simp bit_or-bitwise (
    omega (
      arith,
      digits_enough (λ y. y) max (suc a / 2) (b / 2) a (suc a / 2) (omega arith) (omega arith),
    ))

-- Both are neutral at 0 on the right; `k` bounds the number on the left.
or-zero_below : (k a : ℕ) → a ≤ k → bit_or a 0 ≡ a
or-zero_below k zero h = refl
or-zero_below zero (suc a) h = absurd (omega arith)
or-zero_below (suc k) (suc a) h =
    omega (arith, or_step (suc a) 0, or-zero_below k (suc a / 2) (omega arith))

and-zero_below : (k a : ℕ) → a ≤ k → bit_and a 0 ≡ 0
and-zero_below k zero h = refl
and-zero_below zero (suc a) h = absurd (omega arith)
and-zero_below (suc k) (suc a) h =
    omega (arith, and_step (suc a) 0, and-zero_below k (suc a / 2) (omega arith))

times_double : (q k : ℕ) → q * 2 ^ suc k ≡ 2 * (q * 2 ^ k)
times_double q k = omega (arith, ap (λ (t : ℕ). q * t) (pow-suc 2 k))

-- `(q << k) | r` and `r | (q << k)` are sums when `r` has no more than `k` bits.
pub or_high_low : (k q r : ℕ) → r < 2 ^ k → bit_or (q * 2 ^ k) r ≡ q * 2 ^ k + r
or_high_low zero q r h =
    let none_left : r ≡ 0 = omega arith in
    rw none_left (omega (arith, or-zero_below (q * 1) (q * 1) (omega arith)))
or_high_low (suc k) q r h = ground (
  arith,
  or_step (q * 2 ^ suc k) r,
  times_double q k,
  pow-suc 2 k,
  or_high_low k q (r / 2) (omega (arith, pow-suc 2 k)),
)

pub or_low_high : (k q r : ℕ) → r < 2 ^ k → bit_or r (q * 2 ^ k) ≡ q * 2 ^ k + r
or_low_high zero q r h =
    let none_left : r ≡ 0 = omega arith in
    rw none_left (omega (arith, ap (λ (t : ℕ). t) (bit_or-bitwise 0 (q * 1))))
or_low_high (suc k) q r h = ground (
  arith,
  or_step r (q * 2 ^ suc k),
  times_double q k,
  pow-suc 2 k,
  or_low_high k q (r / 2) (omega (arith, pow-suc 2 k)),
)

-- A number is split into the field above bit `k` and the field `r` below it.
and_low_field : (k q r : ℕ) → r < 2 ^ k → bit_and (q * 2 ^ k + r) (2 ^ k - 1) ≡ r
and_low_field zero q r h = omega (arith, and-zero_below (q * 1 + r) (q * 1 + r) (omega arith))
and_low_field (suc k) q r h = ground (
  arith,
  and_step (q * 2 ^ suc k + r) (2 ^ suc k - 1),
  times_double q k,
  pow-suc 2 k,
  one-le-pow k 2,
  and_low_field k q (r / 2) (omega (arith, pow-suc 2 k)),
)

and_high_field :
    (k c q r : ℕ) → r < 2 ^ k → bit_and (q * 2 ^ k + r) (c * 2 ^ k) ≡ bit_and q c * 2 ^ k
and_high_field zero c q r h =
    let none_left : r ≡ 0 = omega arith in
    let whole : q * 1 + 0 ≡ q = omega arith in
    let mask : c * 1 ≡ c = omega arith in rw (none_left, whole, mask) (omega arith)
and_high_field (suc k) c q r h = ground (
  arith,
  and_step (q * 2 ^ suc k + r) (c * 2 ^ suc k),
  times_double q k,
  times_double c k,
  times_double (bit_and q c) k,
  pow-suc 2 k,
  and_high_field k c q (r / 2) (omega (arith, pow-suc 2 k)),
)

-- The mask of the `k` low bits.
pub and_low_ones : (k a : ℕ) → bit_and a (2 ^ k - 1) ≡ a % 2 ^ k
and_low_ones k a =
    let size : 0 < 2 ^ k = omega (arith, one-le-pow k 2) in
    let split : a / 2 ^ k * 2 ^ k + a % 2 ^ k ≡ a = div-add-mod' a (2 ^ k) in
    subst (λ (t : ℕ). bit_and t (2 ^ k - 1) ≡ a % 2 ^ k) split
      (and_low_field k (a / 2 ^ k) (a % 2 ^ k) (mod-lt a size))

-- The mask of `w` bits above the `k` low ones: of a number of `k + w` bits it clears the low ones.
pub and_high_ones :
    (k w a : ℕ) → a / 2 ^ k < 2 ^ w → bit_and a ((2 ^ w - 1) * 2 ^ k) ≡ a / 2 ^ k * 2 ^ k
and_high_ones k w a h =
    let size : 0 < 2 ^ k = omega (arith, one-le-pow k 2) in
    let split : a / 2 ^ k * 2 ^ k + a % 2 ^ k ≡ a = div-add-mod' a (2 ^ k) in
    let field : bit_and (a / 2 ^ k) (2 ^ w - 1) ≡ a / 2 ^ k =
      and_low_ones w (a / 2 ^ k) ∙ mod-eq_of_lt h in
    subst (λ (t : ℕ). bit_and t ((2 ^ w - 1) * 2 ^ k) ≡ a / 2 ^ k * 2 ^ k) split
      (and_high_field k (2 ^ w - 1) (a / 2 ^ k) (a % 2 ^ k) (mod-lt a size)
        ∙ ap (λ (t : ℕ). t * 2 ^ k) field)

pub pow-add_base : (c p k : ℕ) → c ^ (p + k) ≡ c ^ p * c ^ k
pow-add_base c zero k = rw (zero-add, pow-zero) (omega arith)
pow-add_base c (suc p) k = rw (suc-add, pow-suc, pow-suc, pow-add_base c p k) (swap (c ^ p) (c ^ k))
  where
    swap : (x y : ℕ) → x * y * c ≡ x * c * y
    swap x y = omega arith

pub pow-add : (p k : ℕ) → 2 ^ (p + k) ≡ 2 ^ p * 2 ^ k
pow-add = pow-add_base 2

-- One less than a product, times the second factor, modulo the product.
shifted_ones_of : (x y : ℕ) → (suc x * suc y - 1) * suc y % (suc x * suc y) ≡ x * suc y
shifted_ones_of x y =
    let less : suc x * suc y - 1 ≡ x * suc y + y = omega arith in
    let split : (x * suc y + y) * suc y ≡ suc x * suc y * y + x * suc y =
      split_of (x * suc y) (suc x * suc y) (omega arith) in
    let small : x * suc y < suc x * suc y = omega arith in
    rw (less, split) (mul-add-mod_self_left (suc x * suc y) y (x * suc y) ∙ mod-eq_of_lt small)
  where
    split_of : (q m : ℕ) → m ≡ q + suc y → (q + y) * suc y ≡ m * y + q
    split_of q m h = rw h (omega arith)

-- All ones of `p + k` bits, shifted left by `k` within the width: the `p` high ones.
pub shifted_ones : (p k : ℕ) → (2 ^ (p + k) - 1) * 2 ^ k % 2 ^ (p + k) ≡ (2 ^ p - 1) * 2 ^ k
shifted_ones p k =
    let size : 0 < 2 ^ p = omega (arith, one-le-pow p 2) in
    let size' : 0 < 2 ^ k = omega (arith, one-le-pow k 2) in
    rw pow-add (shifted_ones_pos (2 ^ p) (2 ^ k) size size')
  where
    shifted_ones_pos : (x y : ℕ) → 0 < x → 0 < y → (x * y - 1) * y % (x * y) ≡ (x - 1) * y
    shifted_ones_pos zero y hx hy = absurd (omega arith)
    shifted_ones_pos (suc x) zero hx hy = absurd (omega arith)
    shifted_ones_pos (suc x) (suc y) hx hy =
        let less : suc x - 1 ≡ x = omega arith in
        shifted_ones_of x y ∙ ap (λ (t : ℕ). t * suc y) (sym less)

-- The mask of the `p` high ones of `w` bits, as a shift makes it, clears the bits below them.
pub and_high_mask :
    (w p a : ℕ)
    → p ≤ w
    → a < 2 ^ w
    → bit_and a ((2 ^ w - 1) * 2 ^ (w - p) % 2 ^ w) ≡ a / 2 ^ (w - p) * 2 ^ (w - p)
and_high_mask w p a hp ha =
    let same : p + (w - p) ≡ w = omega arith in
    let mask : (2 ^ w - 1) * 2 ^ (w - p) % 2 ^ w ≡ (2 ^ p - 1) * 2 ^ (w - p) =
      subst (λ (t : ℕ). (2 ^ t - 1) * 2 ^ (w - p) % 2 ^ t ≡ (2 ^ p - 1) * 2 ^ (w - p)) same
        (shifted_ones p (w - p)) in
    let small : a < 2 ^ p * 2 ^ (w - p) =
      subst (λ (t : ℕ). a < t) (pow-add p (w - p)) (subst (λ (t : ℕ). a < 2 ^ t) (sym same) ha) in
    rw mask
      (and_high_ones (w - p) p a ((div-lt_iff_lt-mul (one-le-pow (w - p) 2 (omega arith))).1 small))
