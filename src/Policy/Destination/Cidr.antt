-- ===== src/Policy/Destination/Cidr.antt =====
-- crates/skimasque-policy/src/destination.rs: `cidr_contains` compares the leading bits.
use skimasque.Prelude.{
  ℕ, zero, suc, ◌+◌, ◌/◌, ◌%◌, ◌*◌, ◌-◌, ◌^◌, ◌≤◌, ◌<◌, true, false, ◌==◌, if◌then◌else◌, bit_and,
  take,
}
use skimasque.Prelude.{◌≡◌, ◌↔◌, refl, sym, ap, ◌∙◌, arith, Bool-cases, inl, inr, ==_iff}
use mathlib.Core.Path.{subst}
use native.Mathlib.Nat.{div-eq_of_lt, div-div-eq-div-mul, pow-suc}
use skimasque.Prelude.Text.{text_eq}
use skimasque.Prelude.Bytes.{be_bytes}
use skimasque.Prelude.Bits.{and_high_mask, pow-add}
use skimasque.Net.{IpAddr, v4, v6, IsAddr, address_bits}
use skimasque.Policy.Destination.{byte_at, bits_match, cidr_contains}
use skimasque.Policy.Destination.LeadingBytes.{
  byte_at-be_bytes, agree_above, next_digit, take-be_bytes_iff,
}

-- The leading bits of the last byte that count, among the leading bits of the number.
field_iff :
    (r x y : ℕ)
    → r < 8
    → x / 256 ≡ y / 256
    → (x % 256 / 2 ^ (8 - r) * 2 ^ (8 - r) ≡ y % 256 / 2 ^ (8 - r) * 2 ^ (8 - r))
      ↔ (x / 2 ^ (8 - r) ≡ y / 2 ^ (8 - r))
field_iff zero x y h e = (λ t. omega (arith, t, e), λ t. omega (arith, t, e))
field_iff (suc zero) x y h e = (λ t. omega (arith, t, e), λ t. omega (arith, t, e))
field_iff (suc (suc zero)) x y h e = (λ t. omega (arith, t, e), λ t. omega (arith, t, e))
field_iff (suc (suc (suc zero))) x y h e = (λ t. omega (arith, t, e), λ t. omega (arith, t, e))
field_iff (suc (suc (suc (suc zero)))) x y h e =
    (λ t. omega (arith, t, e), λ t. omega (arith, t, e))
field_iff (suc (suc (suc (suc (suc zero))))) x y h e =
    (λ t. omega (arith, t, e), λ t. omega (arith, t, e))
field_iff (suc (suc (suc (suc (suc (suc zero)))))) x y h e =
    (λ t. omega (arith, t, e), λ t. omega (arith, t, e))
field_iff (suc (suc (suc (suc (suc (suc (suc zero))))))) x y h e =
    (λ t. omega (arith, t, e), λ t. omega (arith, t, e))
field_iff (suc (suc (suc (suc (suc (suc (suc (suc r)))))))) x y h e = absurd (omega arith)

bytes_pow : (m : ℕ) → 2 ^ (8 * m) ≡ 256 ^ m
bytes_pow zero = refl
bytes_pow (suc m) =
    let next : 8 * suc m ≡ 8 * m + 8 = omega arith in
    rw (next, pow-add (8 * m) 8, bytes_pow m) (sym (pow-suc 256 m))

-- A shift by whole bytes, and by bytes and bits.
shift_whole : (m a : ℕ) → a / 2 ^ (8 * m) ≡ a / 256 ^ m
shift_whole m a = ap (λ (t : ℕ). a / t) (bytes_pow m)

shift_bytes : (m k a : ℕ) → a / 2 ^ (8 * m + k) ≡ a / 256 ^ m / 2 ^ k
shift_bytes m k a =
    ap (λ (t : ℕ). a / t) (pow-add (8 * m) k ∙ ap (λ (t : ℕ). t * 2 ^ k) (bytes_pow m))
    ∙ sym (div-div-eq-div-mul a (256 ^ m) (2 ^ k))

-- The last byte that counts, under the mask of its `r` high bits.
last_byte_iff :
    (n w r a b : ℕ)
    → w < n
    → r < 8
    → a / 256 ^ (n - w) ≡ b / 256 ^ (n - w)
    → ((bit_and (byte_at (be_bytes n a) w) (255 * 2 ^ (8 - r) % 2 ^ 8)
          == bit_and (byte_at (be_bytes n b) w) (255 * 2 ^ (8 - r) % 2 ^ 8))
        ≡ true)
      ↔ (a / 256 ^ (n - suc w) / 2 ^ (8 - r) ≡ b / 256 ^ (n - suc w) / 2 ^ (8 - r))
last_byte_iff n w r a b h hr same =
    let m : ℕ = n - suc w in
    let count : n - w ≡ suc m = omega arith in
    let above : a / 256 ^ m / 256 ≡ b / 256 ^ m / 256 =
      sym (next_digit 256 m a)
      ∙ subst (λ (t : ℕ). a / 256 ^ t ≡ b / 256 ^ t) count same
      ∙ next_digit 256 m b in
    let masks = λ (x : ℕ). and_high_mask 8 r (x % 256) (omega arith) (omega arith) in
    let fields = field_iff r (a / 256 ^ m) (b / 256 ^ m) hr above in
    let test =
      ==_iff (a / 256 ^ m % 256 / 2 ^ (8 - r) * 2 ^ (8 - r))
        (b / 256 ^ m % 256 / 2 ^ (8 - r) * 2 ^ (8 - r)) in
    rw
      (byte_at-be_bytes n w a h, byte_at-be_bytes n w b h, masks (a / 256 ^ m), masks (b / 256 ^ m))
      (λ t. fields.0 (test.0 t), λ t. test.1 (fields.1 t))

bits_match-be_bytes_iff :
    (n w r a b : ℕ)
    → 8 * w + r ≤ 8 * n
    → r < 8
    → a / 256 ^ n ≡ b / 256 ^ n
    → (bits_match (be_bytes n a) (be_bytes n b) (8 * w + r) ≡ true)
      ↔ (a / 2 ^ (8 * n - (8 * w + r)) ≡ b / 2 ^ (8 * n - (8 * w + r)))
unfolding bits_match
bits_match-be_bytes_iff n w r a b h hr same =
    let whole : (8 * w + r) / 8 ≡ w = omega arith in
    let rest : (8 * w + r) % 8 ≡ r = omega arith in
    let bytes = take-be_bytes_iff n w a b (omega arith) same in
    rw (whole, rest)
      (elim (Bool-cases (text_eq (take w (be_bytes n a)) (take w (be_bytes n b)))) [
        | inl e ↦ rw e (by_rest r (omega arith) hr (bytes.0 e))
        | inr e ↦ rw e (λ t. absurd (cc (t)), λ t. absurd (cc (e, bytes.1 (coarser t))))
      ])
  where
    coarser :
        a / 2 ^ (8 * n - (8 * w + r)) ≡ b / 2 ^ (8 * n - (8 * w + r))
        → a / 256 ^ (n - w) ≡ b / 256 ^ (n - w)
    coarser t =
        let count : 8 * n - (8 * w + r) ≡ 8 * (n - w) - r = omega arith in
        let fine = subst (λ (e : ℕ). a / 2 ^ e ≡ b / 2 ^ e) count t in
        sym (shift_whole (n - w) a)
        ∙ agree_above 2 (8 * (n - w)) r a b (omega arith) fine
        ∙ shift_whole (n - w) b

    by_rest :
        (r : ℕ)
        → 8 * w + r ≤ 8 * n
        → r < 8
        → a / 256 ^ (n - w) ≡ b / 256 ^ (n - w)
        → ((if r == 0
              then true
              else bit_and (byte_at (be_bytes n a) w) (255 * 2 ^ (8 - r) % 2 ^ 8)
                == bit_and (byte_at (be_bytes n b) w) (255 * 2 ^ (8 - r) % 2 ^ 8))
            ≡ true)
          ↔ (a / 2 ^ (8 * n - (8 * w + r)) ≡ b / 2 ^ (8 * n - (8 * w + r)))
    by_rest zero h hr t =
        let count : 8 * n - (8 * w + 0) ≡ 8 * (n - w) = omega arith in
        (λ _. rw (count, shift_whole (n - w) a, shift_whole (n - w) b) t, λ _. refl)
    by_rest (suc r) h hr t =
        let count : 8 * n - (8 * w + suc r) ≡ 8 * (n - suc w) + (8 - suc r) = omega arith in
        let last = last_byte_iff n w (suc r) a b (omega arith) hr t in
        let some_rest : (suc r == 0) ≡ false = ground arith in
        rw
          (
            some_rest,
            count,
            shift_bytes (n - suc w) (8 - suc r) a,
            shift_bytes (n - suc w) (8 - suc r) b,
          )
          last

octets_iff :
    (n len a b : ℕ)
    → len ≤ 8 * n
    → a < 256 ^ n
    → b < 256 ^ n
    → (bits_match (be_bytes n a) (be_bytes n b) len ≡ true)
      ↔ (a / 2 ^ (8 * n - len) ≡ b / 2 ^ (8 * n - len))
octets_iff n len a b h ha hb =
    let split : 8 * (len / 8) + len % 8 ≡ len = omega arith in
    let high : a / 256 ^ n ≡ b / 256 ^ n =
      none_above a (256 ^ n) ha ∙ sym (none_above b (256 ^ n) hb) in
    subst
      (λ (t : ℕ).
        (bits_match (be_bytes n a) (be_bytes n b) t ≡ true)
        ↔ (a / 2 ^ (8 * n - t) ≡ b / 2 ^ (8 * n - t)))
      split (bits_match-be_bytes_iff n (len / 8) (len % 8) a b (omega arith) (omega arith) high)
  where
    none_above : (x m : ℕ) → x < m → x / m ≡ 0
    none_above x m h = div-eq_of_lt h

-- Whether two addresses are of one family and agree above the low bits that the length leaves.
abbrev pub AgreeInPrefix : IpAddr → ℕ → IpAddr → Type 0
AgreeInPrefix (v4 net) len (v4 got) = net / 2 ^ (32 - len) ≡ got / 2 ^ (32 - len)
AgreeInPrefix (v6 net) len (v6 got) = net / 2 ^ (128 - len) ≡ got / 2 ^ (128 - len)
AgreeInPrefix _ len _ = ⊥

-- For addresses that fit their families and a length within the network's bits, `cidr_contains`
-- holds exactly when both addresses are of one family and equal in their leading `len` bits, as
-- numbers divided by the power of two of the bits below.
pub cidr_contains_iff :
    (net : IpAddr) (len : ℕ) (got : IpAddr)
    → IsAddr net
    → IsAddr got
    → len ≤ address_bits net
    → (cidr_contains net len got ≡ true) ↔ AgreeInPrefix net len got
unfolding cidr_contains
cidr_contains_iff (v4 net) len (v4 got) hn hg h = octets_iff 4 len net got h hn hg
cidr_contains_iff (v6 net) len (v6 got) hn hg h = octets_iff 16 len net got h hn hg
cidr_contains_iff (v4 net) len (v6 got) hn hg h = (λ t. absurd (cc (t)), λ t. absurd t)
cidr_contains_iff (v6 net) len (v4 got) hn hg h = (λ t. absurd (cc (t)), λ t. absurd t)
