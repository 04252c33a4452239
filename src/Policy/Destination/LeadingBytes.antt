-- ===== src/Policy/Destination/LeadingBytes.antt =====
-- crates/skimasque-policy/src/destination.rs: the leading bytes of an address as digits of its number.
use skimasque.Prelude.{ℕ, zero, suc, ◌+◌, ◌/◌, ◌%◌, ◌*◌, ◌-◌, ◌^◌, ◌≤◌, ◌<◌, true, ◌==◌, take}
use skimasque.Prelude.{◌≡◌, ◌↔◌, refl, sym, ap, ◌∙◌, arith, Bool-cases, inl, inr}
use mathlib.Core.Path.{subst}
use native.Mathlib.Nat.{div-div-eq-div-mul, pow-suc}
use skimasque.Prelude.Text.{text_eq}
use skimasque.Prelude.Bytes.{be_bytes}
use skimasque.Prelude.Bits.{pow-add_base}
use skimasque.Policy.Destination.{byte_at}

-- The byte at an index is a base-256 digit.
pub byte_at-be_bytes : (n w a : ℕ) → w < n → byte_at (be_bytes n a) w ≡ a / 256 ^ (n - suc w) % 256
byte_at-be_bytes zero w a h = absurd (omega arith)
byte_at-be_bytes (suc n) zero a h = rw (the_index n) refl
  where
    the_index : (n : ℕ) → suc n - 1 ≡ n
    the_index n = omega arith
byte_at-be_bytes (suc n) (suc w) a h =
    let same : suc n - suc (suc w) ≡ n - suc w = omega arith in
    rw same (byte_at-be_bytes n w a (omega arith))

-- Numbers that agree above a power agree above each higher power.
pub agree_above :
    (c n w a b : ℕ) → w ≤ n → a / c ^ (n - w) ≡ b / c ^ (n - w) → a / c ^ n ≡ b / c ^ n
agree_above c n w a b h same =
    let sum : n - w + w ≡ n = omega arith in
    let cut = λ (t : ℕ).
      ap (λ (m : ℕ). t / c ^ m) (sym sum)
      ∙ ap (λ (m : ℕ). t / m) (pow-add-c (n - w) w)
      ∙ sym (div-div-eq-div-mul t (c ^ (n - w)) (c ^ w)) in
    cut a ∙ ap (λ (t : ℕ). t / c ^ w) same ∙ sym (cut b)
  where
    pow-add-c : (p k : ℕ) → c ^ (p + k) ≡ c ^ p * c ^ k
    pow-add-c p k = pow-add_base c p k

-- One more digit on a number.
pub next_digit : (c n a : ℕ) → a / c ^ suc n ≡ a / c ^ n / c
next_digit c n a = ap (λ (m : ℕ). a / m) (pow-suc' c n) ∙ sym (div-div-eq-div-mul a (c ^ n) c)
  where
    pow-suc' : (c n : ℕ) → c ^ suc n ≡ c ^ n * c
    pow-suc' c n = omega (arith, pow-suc c n)

-- Equal leading bytes of two numbers below a power are equal leading digits.
pub take-be_bytes_iff :
    (n w a b : ℕ)
    → w ≤ n
    → a / 256 ^ n ≡ b / 256 ^ n
    → (text_eq (take w (be_bytes n a)) (take w (be_bytes n b)) ≡ true)
      ↔ (a / 256 ^ (n - w) ≡ b / 256 ^ (n - w))
take-be_bytes_iff n zero a b h same =
    (λ _. subst (λ (m : ℕ). a / 256 ^ m ≡ b / 256 ^ m) (omega arith) same, λ _. refl)
take-be_bytes_iff zero (suc w) a b h same = absurd (omega arith)
take-be_bytes_iff (suc n) (suc w) a b h same =
    let less : suc n - suc w ≡ n - w = omega arith in
    let high : a / 256 ^ n / 256 ≡ b / 256 ^ n / 256 =
      sym (next_digit 256 n a) ∙ same ∙ next_digit 256 n b in
    rw less (elim (Bool-cases (a / 256 ^ n % 256 == b / 256 ^ n % 256)) [
      | inl e ↦
          let top : a / 256 ^ n ≡ b / 256 ^ n = ground (arith, e, high) in
          rw e (take-be_bytes_iff n w a b (omega arith) top)
      | inr e ↦ rw e (
        λ h'. absurd (cc (h')),
        λ h'.
            let top : a / 256 ^ n ≡ b / 256 ^ n = agree_above 256 n w a b (omega arith) h' in
            absurd (ground (arith, e, top)),
      )
    ])
