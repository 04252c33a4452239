-- ===== src/Net/V4RoundTrip.antt =====
-- The parser of IP addresses reads the text of an IPv4 address back.
use skimasque.Prelude.{
  ℕ, zero, suc, ◌+◌, ◌*◌, ◌/◌, ◌%◌, ◌^◌, ◌<◌, [], ◌∷◌, ◌++◌, Bool, true, false, Option, none, some,
  ltb, append_assoc, append-nil,
}
use skimasque.Prelude.{◌≡◌, refl, ap, ◌∙◌, ◌⊎◌, inl, inr, Bool-cases, arith}
use mathlib.Core.Path.{subst}
use skimasque.Prelude.Text.{Text, codes, digit, show_nat}
use skimasque.Prelude.Numbers.{digit_value, digit_value-digit, digits_of_one, digits_of_more}
use skimasque.Net.{v4}
use skimasque.Net.Display.{show_v4, show_ip}
use skimasque.Net.Parse.{
  take_digits, accept_number, starts_with, and_then, read_octet, next_octet, read_v4, parse_ip,
}

-- No digit stands at the front.
abbrev pub Stops : Text → Type 0
Stops [] = Unit
Stops (c ∷ t) = digit_value 10 c ≡ none

take_digits_stop :
    (count r : ℕ) (t : Text) → Stops t → take_digits 10 3 r count t ≡ some ((r, count), t)
take_digits_stop count r [] h = refl
take_digits_stop count r (c ∷ t) h = rw (take_digits, h) refl

take_digits_next :
    (d r count : ℕ) (t : Text)
    → d < 10
    → count < 3
    → take_digits 10 3 r count (digit d ∷ t) ≡ take_digits 10 3 (r * 10 + d) (count + 1) t
take_digits_next d r count t h k =
    let room : ltb 3 (count + 1) ≡ false = ground arith in
    rw (take_digits, digit_value-digit d h, room) refl

one_digit : (n : ℕ) → n < 10 → show_nat n ≡ digit n ∷ []
one_digit n h = digits_of_one n n (ground arith)

two_digits : (n : ℕ) → 9 < n → n < 100 → show_nat n ≡ digit (n / 10) ∷ digit (n % 10) ∷ []
two_digits zero h k = absurd (omega arith)
two_digits (suc n) h k =
    rw (digits_of_more (suc n) (suc n) (ground arith), digits_of_one n (suc n / 10) (ground arith))
      refl

three_digits :
    (n : ℕ)
    → 99 < n
    → n < 1000
    → show_nat n ≡ digit (n / 10 / 10) ∷ digit (n / 10 % 10) ∷ digit (n % 10) ∷ []
three_digits zero h k = absurd (omega arith)
three_digits (suc zero) h k = absurd (omega arith)
three_digits (suc (suc n)) h k =
    rw
      (
        digits_of_more (suc (suc n)) (suc (suc n)) (ground arith),
        digits_of_more (suc n) (suc (suc n) / 10) (ground arith),
        digits_of_one n (suc (suc n) / 10 / 10) (ground arith),
      )
      refl

accepted :
    (n k : ℕ) (leading_zero : Bool) (rest : Text)
    → n < 256
    → 0 < k
    → (leading_zero ≡ false) ⊎ (k ≡ 1)
    → accept_number 255 false leading_zero (some ((n, k), rest)) ≡ some (n, rest)
accepted n k leading_zero rest h p (inl e) = rw e (ground arith)
accepted n k true rest h p (inr e) = rw e (ground arith)
accepted n k false rest h p (inr e) = rw e (ground arith)

read_octet-accepted :
    (n k : ℕ) (t rest : Text)
    → n < 256
    → 0 < k
    → take_digits 10 3 0 0 t ≡ some ((n, k), rest)
    → (starts_with b'0' t ≡ false) ⊎ (k ≡ 1)
    → read_octet t ≡ some (n, rest)
read_octet-accepted n k t rest h p e z = rw e (accepted n k (starts_with b'0' t) rest h p z)

starts_with-digit : (d : ℕ) (t : Text) → 0 < d → d < 10 → starts_with b'0' (digit d ∷ t) ≡ false
starts_with-digit d t h k = ground arith

module _ (n : ℕ) (rest : Text) (s : Stops rest) where
  take_one : n < 10 → take_digits 10 3 0 0 (show_nat n ++ rest) ≡ some ((n, 1), rest)
  take_one h =
      let sum : 0 * 10 + n ≡ n = omega arith in
      rw
        (
          one_digit n h,
          take_digits_next n 0 0 rest h (omega arith),
          sum,
          take_digits_stop 1 n rest s,
        )
        refl

  take_two : 9 < n → n < 100 → take_digits 10 3 0 0 (show_nat n ++ rest) ≡ some ((n, 2), rest)
  take_two l h =
      let sum : (0 * 10 + n / 10) * 10 + n % 10 ≡ n = omega arith in
      rw
        (
          two_digits n l h,
          take_digits_next (n / 10) 0 0 (digit (n % 10) ∷ rest) (omega arith) (omega arith),
          take_digits_next (n % 10) (0 * 10 + n / 10) 1 rest (omega arith) (omega arith),
          sum,
          take_digits_stop 2 n rest s,
        )
        refl

  take_three : 99 < n → n < 256 → take_digits 10 3 0 0 (show_nat n ++ rest) ≡ some ((n, 3), rest)
  take_three l h =
      let sum : ((0 * 10 + n / 10 / 10) * 10 + n / 10 % 10) * 10 + n % 10 ≡ n = omega arith in
      rw
        (
          three_digits n l (omega arith),
          take_digits_next (n / 10 / 10) 0 0 (digit (n / 10 % 10) ∷ digit (n % 10) ∷ rest)
              (omega arith) (omega arith),
          take_digits_next (n / 10 % 10) (0 * 10 + n / 10 / 10) 1 (digit (n % 10) ∷ rest)
              (omega arith) (omega arith),
          take_digits_next (n % 10) ((0 * 10 + n / 10 / 10) * 10 + n / 10 % 10) 2 rest (omega arith)
              (omega arith),
          sum,
          take_digits_stop 3 n rest s,
        )
        refl

  -- An octet's text and what may follow it.
  read_octet-show_nat : n < 256 → read_octet (show_nat n ++ rest) ≡ some (n, rest)
  read_octet-show_nat h = elim (Bool-cases (ltb n 10)) [
    | inl e ↦
        read_octet-accepted n 1 (show_nat n ++ rest) rest h (omega arith) (take_one (ground arith))
          (inr refl)
    | inr e ↦ elim (Bool-cases (ltb n 100)) [
      | inl f ↦
          read_octet-accepted n 2 (show_nat n ++ rest) rest h (omega arith)
            (take_two (ground arith) (ground arith))
            (inl (
              rw (two_digits n (ground arith) (ground arith))
                (starts_with-digit (n / 10) (digit (n % 10) ∷ rest) (ground arith) (ground arith))))
      | inr f ↦
          read_octet-accepted n 3 (show_nat n ++ rest) rest h (omega arith)
            (take_three (ground arith) h)
            (inl (
              rw (three_digits n (ground arith) (omega arith)) (
                starts_with-digit (n / 10 / 10) (digit (n / 10 % 10) ∷ digit (n % 10) ∷ rest)
                  (ground arith) (ground arith))))
    ]
  ]

next_octet-show_nat :
    (before n : ℕ) (rest : Text)
    → n < 256
    → Stops rest
    → next_octet (before, b'.' ∷ show_nat n ++ rest) ≡ some (before * 256 + n, rest)
next_octet-show_nat before n rest h s = rw (read_octet-show_nat n rest s h) refl

next_octet-show_nat_end :
    (before n : ℕ) → n < 256 → next_octet (before, b'.' ∷ show_nat n) ≡ some (before * 256 + n, [])
next_octet-show_nat_end before n h =
    subst (λ (t : Text). next_octet (before, b'.' ∷ t) ≡ some (before * 256 + n, []))
      (append-nil (show_nat n)) (next_octet-show_nat before n [] h tt)

read_v4-chain :
    (t : Text) (p q r s : ℕ × Text)
    → read_octet t ≡ some p
    → next_octet p ≡ some q
    → next_octet q ≡ some r
    → next_octet r ≡ some s
    → read_v4 t ≡ some s
read_v4-chain t p q r s e f g h =
    ap
      (λ (o : Option (ℕ × Text)). and_then (and_then (and_then o next_octet) next_octet) next_octet)
      e
    ∙ ap (λ (o : Option (ℕ × Text)). and_then (and_then o next_octet) next_octet) f
    ∙ ap (λ (o : Option (ℕ × Text)). and_then o next_octet) g
    ∙ h

joined :
    (a b c d : Text)
    → a ++ codes "." ++ b ++ codes "." ++ c ++ codes "." ++ d
      ≡ a ++ (b'.' ∷ (b ++ (b'.' ∷ (c ++ (b'.' ∷ d)))))
joined a b c d = simp (append_assoc)

read_v4-octets :
    (a b c d : ℕ)
    → a < 256
    → b < 256
    → c < 256
    → d < 256
    → read_v4 (
        show_nat a ++ codes "." ++ show_nat b ++ codes "." ++ show_nat c ++ codes "." ++ show_nat d)
      ≡ some (((a * 256 + b) * 256 + c) * 256 + d, [])
read_v4-octets a b c d ha hb hc hd =
    let from_d : Text = b'.' ∷ show_nat d in
    let from_c : Text = b'.' ∷ (show_nat c ++ from_d) in
    let from_b : Text = b'.' ∷ (show_nat b ++ from_c) in
    ap read_v4 (joined (show_nat a) (show_nat b) (show_nat c) (show_nat d))
    ∙ read_v4-chain (show_nat a ++ from_b) (a, from_b) (a * 256 + b, from_c)
        ((a * 256 + b) * 256 + c, from_d) (((a * 256 + b) * 256 + c) * 256 + d, [])
        (read_octet-show_nat a from_b refl ha) (next_octet-show_nat a b from_c hb refl)
        (next_octet-show_nat (a * 256 + b) c from_d hc refl)
        (next_octet-show_nat_end ((a * 256 + b) * 256 + c) d hd)

pub read_v4-show_v4 : (a : ℕ) → a < 2 ^ 32 → read_v4 (show_v4 a) ≡ some (a, [])
read_v4-show_v4 a h =
    let sum : ((a / 2 ^ 24 % 256 * 256 + a / 2 ^ 16 % 256) * 256 + a / 2 ^ 8 % 256) * 256 + a % 256
        ≡ a =
      omega arith in
    read_v4-octets (a / 2 ^ 24 % 256) (a / 2 ^ 16 % 256) (a / 2 ^ 8 % 256) (a % 256) (omega arith)
      (omega arith) (omega arith) (omega arith)
    ∙ ap (λ (n : ℕ). some (n, [])) sum

pub parse_ip-show_v4 : (a : ℕ) → a < 2 ^ 32 → parse_ip (show_v4 a) ≡ some (v4 a)
unfolding parse_ip
parse_ip-show_v4 a h = rw (read_v4-show_v4 a h) refl

pub parse_ip-show_ip : (a : ℕ) → a < 2 ^ 32 → parse_ip (show_ip (v4 a)) ≡ some (v4 a)
unfolding show_ip
parse_ip-show_ip a h = parse_ip-show_v4 a h
