-- ===== src/Policy/Units/Sums.antt =====
-- crates/skimasque-policy/src/units.rs: sums of durations as sums of milliseconds.
use skimasque.Prelude.{
  ℕ, ◌+◌, ◌-◌, ◌*◌, ◌/◌, ◌%◌, ◌≤◌, ◌<◌, true, false, Option, none, some, leb, if◌then◌else◌,
  Bool-cases, Result, ok, ok_or, ◌>>=◌, ◌≡◌, refl, arith,
}
use skimasque.Prelude.{inl, inr}
use skimasque.Prelude.Text.{Text, codes}
use skimasque.Policy.Units.{
  ParseUnitError, overflow, Duration, duration, max_u64, checked_add, carry, segment_of,
  from_millis, from_secs, within_u64,
}

-- The duration of so many milliseconds, if its seconds are in 64 bits.
abbrev pub fits : ℕ → Option Duration
fits m = if leb (m / 1000) max_u64 then some (from_millis m) else none

duration_eq : {a b c d : ℕ} → a ≡ c → b ≡ d → duration a b ≡ duration c d
duration_eq h k = cc

add_secs : (m n : ℕ) → leb 1000 (m % 1000 + n % 1000) ≡ false → (m + n) / 1000 ≡ m / 1000 + n / 1000
add_secs m n h = let k : m % 1000 + n % 1000 < 1000 = ground arith in omega arith

add_secs_carry :
    (m n : ℕ) → leb 1000 (m % 1000 + n % 1000) ≡ true → (m + n) / 1000 ≡ m / 1000 + n / 1000 + 1
add_secs_carry m n h = let k : 1000 ≤ m % 1000 + n % 1000 = ground arith in omega arith

add_nanos :
    (m n : ℕ)
    → leb 1000 (m % 1000 + n % 1000) ≡ false
    → m % 1000 * 1000000 + n % 1000 * 1000000 ≡ (m + n) % 1000 * 1000000
add_nanos m n h = let k : m % 1000 + n % 1000 < 1000 = ground arith in omega arith

add_nanos_carry :
    (m n : ℕ)
    → leb 1000 (m % 1000 + n % 1000) ≡ true
    → m % 1000 * 1000000 + n % 1000 * 1000000 - 1000000000 ≡ (m + n) % 1000 * 1000000
add_nanos_carry m n h = let k : 1000 ≤ m % 1000 + n % 1000 = ground arith in omega arith

carries :
    (m n : ℕ)
    → leb 1000000000 (m % 1000 * 1000000 + n % 1000 * 1000000) ≡ leb 1000 (m % 1000 + n % 1000)
carries m n = ground arith

leb_twice :
    (s : ℕ) (x : Option Duration)
    → (if leb s max_u64 then (if leb (s + 1) max_u64 then x else none) else none)
      ≡ (if leb (s + 1) max_u64 then x else none)
leb_twice s x = elim (Bool-cases (leb (s + 1) max_u64)) [
  | inl e ↦ let k : leb s max_u64 ≡ true = ground arith in rw (e, k) refl
  | inr e ↦ elim (Bool-cases (leb s max_u64)) [ inl k ↦ rw (k, e) refl | inr k ↦ rw (k, e) refl ]
]

pub add_millis : (m n : ℕ) → checked_add (from_millis m) (from_millis n) ≡ fits (m + n)
unfolding checked_add
add_millis m n = elim (Bool-cases (leb 1000 (m % 1000 + n % 1000))) [
  | inl e ↦
      rw (carry, carries m n, e, add_secs_carry m n e, add_nanos_carry m n e)
        (leb_twice (m / 1000 + n / 1000) _)
  | inr e ↦ rw (carry, carries m n, e, add_secs m n e, add_nanos m n e) refl
]

-- A segment that overflows makes the total overflow too.
pub fits_less : (m n : ℕ) → fits n ≡ none → fits (m + n) ≡ none
fits_less m n h = elim (Bool-cases (leb (n / 1000) max_u64)) [
  | inl e ↦ absurd (let k : some (from_millis n) ≡ none = rw e at h in cc (k))
  | inr e ↦ let k : leb ((m + n) / 1000) max_u64 ≡ false = ground arith in rw k refl
]

pub data TimeUnit : Type 0 where
  millis seconds minutes hours days : TimeUnit

abbrev pub name_of : TimeUnit → Text
name_of millis = codes "ms"
name_of seconds = codes "s"
name_of minutes = codes "m"
name_of hours = codes "h"
name_of days = codes "d"

abbrev pub millis_of : TimeUnit → ℕ
millis_of millis = 1
millis_of seconds = 1000
millis_of minutes = 60000
millis_of hours = 3600000
millis_of days = 86400000

secs_as_millis : (s : ℕ) → from_secs s ≡ from_millis (s * 1000)
secs_as_millis s = duration_eq (omega arith) (omega arith)

-- A segment that fits is added, and one that does not would not fit either in the sum.
pub add_fits :
    {B : Type 0} (m n : ℕ) (e : ParseUnitError) (f : Duration → Result ParseUnitError B)
    → ok_or (fits n) e >>= (λ (s : Duration). ok_or (checked_add (from_millis m) s) e >>= f)
      ≡ ok_or (fits (m + n)) e >>= f
add_fits m n e f = elim (Bool-cases (leb (n / 1000) max_u64)) [
  | inl k ↦ rw (k, add_millis m n) refl
  | inr k ↦ let l : fits n ≡ none = rw k refl in rw (k, fits_less m n l) refl
]

module _ (input : Text) where
  in_seconds :
      (v m : ℕ)
      → v ≡ m / 1000
      → m % 1000 ≡ 0
      → ok_or (within_u64 v) (overflow input) >>= (λ (n : ℕ). ok (from_secs n))
        ≡ ok_or (fits m) (overflow input)
  in_seconds v m h k = elim (Bool-cases (leb (m / 1000) max_u64)) [
    | inl e ↦ rw (h, k, e) refl
    | inr e ↦ rw (h, e) refl
  ]

  pub segment_of-name :
      (u : TimeUnit) (v : ℕ)
      → v ≤ max_u64
      → segment_of input (name_of u) v ≡ ok_or (fits (v * millis_of u)) (overflow input)
  unfolding segment_of
  segment_of-name millis v h =
      let e : leb (v / 1000) max_u64 ≡ true = ground arith in
      let k : v * 1 ≡ v = omega arith in rw (k, e) refl
  segment_of-name seconds v h =
      let e : leb (v * 1000 / 1000) max_u64 ≡ true = ground arith in rw (e, secs_as_millis v) refl
  segment_of-name minutes v h = in_seconds (v * 60) (v * 60000) (omega arith) (omega arith)
  segment_of-name hours v h = in_seconds (v * 3600) (v * 3600000) (omega arith) (omega arith)
  segment_of-name days v h = in_seconds (v * 86400) (v * 86400000) (omega arith) (omega arith)
