-- ===== src/Prelude/Numbers.antt =====
-- `str::parse` and `from_str_radix` of the unsigned integers, and their text read back.
use skimasque.Prelude.{
  ℕ, zero, suc, ◌+◌, ◌-◌, ◌*◌, ◌/◌, ◌%◌, ◌<◌, ◌≤◌, [], ◌∷◌, ◌++◌, true, false, ◌&&◌, Option, none,
  some, ltb, leb, ◌==◌, if◌then◌else◌, Bool-cases, All, All-append,
}
use skimasque.Prelude.{◌≡◌, refl, inl, inr, arith}
use skimasque.Prelude.Text.{Text, digit, digits_of, show_nat}

-- `char::to_digit`
abbrev pub digit_value : (base c : ℕ) → Option ℕ
digit_value base c =
    let d =
      if leb b'0' c && leb c b'9'
      then c - b'0'
      else if leb b'a' c && leb c b'z'
      then c - b'a' + 10
      else if leb b'A' c && leb c b'Z'
      then c - b'A' + 10
      else base in
    if ltb d base then some d else none

-- One digit behind the number so far, refused above the type's greatest number.
abbrev pub add_digit : (max base acc : ℕ) → Option ℕ → Option ℕ
add_digit max base acc none = none
add_digit max base acc (some d) = if leb (acc * base + d) max then some (acc * base + d) else none

abbrev pub read_more : (max base c : ℕ) → Option ℕ → Option ℕ
read_more max base c none = none
read_more max base c (some acc) = add_digit max base acc (digit_value base c)

abbrev pub read_digits : (max base : ℕ) → Option ℕ → Text → Option ℕ
read_digits max base acc [] = acc
read_digits max base acc (c ∷ t) = read_digits max base (read_more max base c acc) t

abbrev pub parse_digits : (max base : ℕ) → Text → Option ℕ
parse_digits max base [] = none
parse_digits max base (c ∷ t) = read_digits max base (some 0) (c ∷ t)

-- `from_str_radix`: one leading plus sign is passed over.
abbrev pub parse_number : (max base : ℕ) → Text → Option ℕ
parse_number max base [] = none
parse_number max base (c ∷ t) =
    if c == b'+' then parse_digits max base t else parse_digits max base (c ∷ t)

-- `text.parse::<u16>()`
abbrev pub parse_u16 : Text → Option ℕ
parse_u16 t = parse_number 65535 10 t

module _ (max base : ℕ) where
  read_digits-append :
      (acc : Option ℕ) (xs ys : Text)
      → read_digits max base acc (xs ++ ys) ≡ read_digits max base (read_digits max base acc xs) ys
  read_digits-append acc [] ys = refl
  read_digits-append acc (x ∷ xs) ys = read_digits-append (read_more max base x acc) xs ys

pub digit_value-digit : (d : ℕ) → d < 10 → digit_value 10 (digit d) ≡ some d
digit_value-digit d h = ground arith

div_lt : (n f : ℕ) → n < suc f → ltb n 10 ≡ false → n / 10 < f
div_lt n f h e = ground arith

read_more-digit : (max n : ℕ) → n ≤ max → read_more max 10 (digit (n % 10)) (some (n / 10)) ≡ some n
read_more-digit max n h = rw (digit_value-digit (n % 10) (omega arith)) (ground arith)

pub digits_of_one : (fuel n : ℕ) → ltb n 10 ≡ true → digits_of 10 (suc fuel) n ≡ digit n ∷ []
digits_of_one fuel n e = rw (digits_of, e, digit, e) refl

pub digits_of_more :
    (fuel n : ℕ)
    → ltb n 10 ≡ false
    → digits_of 10 (suc fuel) n ≡ digits_of 10 fuel (n / 10) ++ (digit (n % 10) ∷ [])
digits_of_more fuel n e = rw (digits_of, e) refl

pub read_digits-digits_of :
    (max fuel n : ℕ)
    → n < fuel
    → n ≤ max
    → read_digits max 10 (some 0) (digits_of 10 fuel n) ≡ some n
read_digits-digits_of max zero n h k = absurd (omega arith)
read_digits-digits_of max (suc fuel) n h k = elim (Bool-cases (ltb n 10)) [
  | inl e ↦ rw (digits_of_one fuel n e, digit_value-digit n (ground arith)) (ground arith)
  | inr e ↦
      rw
        (
          digits_of_more fuel n e,
          read_digits-append max 10 (some 0) (digits_of 10 fuel (n / 10)) (digit (n % 10) ∷ []),
          read_digits-digits_of max fuel (n / 10) (div_lt n fuel h e) (omega arith),
        )
        (read_more-digit max n k)
]

-- What a number's text is made of.
abbrev pub IsDigit : ℕ → Type 0
IsDigit c = (b'0' ≤ c) × (c ≤ b'9')

pub digits_of-IsDigit : (fuel n : ℕ) → All IsDigit (digits_of 10 fuel n)
digits_of-IsDigit zero n = tt
digits_of-IsDigit (suc fuel) n = elim (Bool-cases (ltb n 10)) [
  | inl e ↦ rw (digits_of_one fuel n e) (ground arith, tt)
  | inr e ↦ rw (digits_of_more fuel n e) (
      All-append IsDigit (digits_of 10 fuel (n / 10)) (digit (n % 10) ∷ [])
        (digits_of-IsDigit fuel (n / 10)) (ground arith, tt))
]

pub digits_of_starts :
    (fuel n : ℕ) → n < fuel → (c : ℕ) × (t : Text) × (digits_of 10 fuel n ≡ c ∷ t)
digits_of_starts zero n h = absurd (omega arith)
digits_of_starts (suc fuel) n h = elim (Bool-cases (ltb n 10)) [
  | inl e ↦ (digit n, [], digits_of_one fuel n e)
  | inr e ↦
      let (c, t, r) = digits_of_starts fuel (n / 10) (div_lt n fuel h e) in
      (c, t ++ (digit (n % 10) ∷ []), rw (digits_of_more fuel n e, r) refl)
]

parse_number-digits :
    (max n : ℕ) (t : Text)
    → All IsDigit t
    → read_digits max 10 (some 0) t ≡ some n
    → (c : ℕ) × (s : Text) × (t ≡ c ∷ s)
    → parse_number max 10 t ≡ some n
parse_number-digits max n [] h r (c, s, e) = cc
parse_number-digits max n (c ∷ t) (h, _) r e =
    let no_plus : (c == b'+') ≡ false = ground arith in rw no_plus r

pub parse_number-show_nat : (max n : ℕ) → n ≤ max → parse_number max 10 (show_nat n) ≡ some n
parse_number-show_nat max n h =
    parse_number-digits max n (show_nat n) (digits_of-IsDigit (suc n) n)
      (read_digits-digits_of max (suc n) n (omega arith) h)
      (digits_of_starts (suc n) n (omega arith))

-- What is read is within the type.
abbrev IsUpTo : ℕ → Option ℕ → Type 0
IsUpTo max none = Unit
IsUpTo max (some n) = n ≤ max

add_digit-IsUpTo : (max base acc : ℕ) (d : Option ℕ) → IsUpTo max (add_digit max base acc d)
add_digit-IsUpTo max base acc none = tt
add_digit-IsUpTo max base acc (some d) = elim (Bool-cases (leb (acc * base + d) max)) [
  | inl e ↦ rw e (ground arith)
  | inr e ↦ rw e tt
]

read_digits-IsUpTo :
    (max base : ℕ) (acc : Option ℕ) (t : Text)
    → IsUpTo max acc
    → IsUpTo max (read_digits max base acc t)
read_digits-IsUpTo max base acc [] h = h
read_digits-IsUpTo max base none (c ∷ t) h = read_digits-IsUpTo max base none t tt
read_digits-IsUpTo max base (some a) (c ∷ t) h =
    read_digits-IsUpTo max base (read_more max base c (some a)) t
      (add_digit-IsUpTo max base a (digit_value base c))

parse_digits-IsUpTo : (max base : ℕ) (t : Text) → IsUpTo max (parse_digits max base t)
parse_digits-IsUpTo max base [] = tt
parse_digits-IsUpTo max base (c ∷ t) = read_digits-IsUpTo max base (some 0) (c ∷ t) (omega arith)

parse_number-IsUpTo : (max base : ℕ) (t : Text) → IsUpTo max (parse_number max base t)
parse_number-IsUpTo max base [] = tt
parse_number-IsUpTo max base (c ∷ t) = elim (Bool-cases (c == b'+')) [
  | inl e ↦ rw e (parse_digits-IsUpTo max base t)
  | inr e ↦ rw e (parse_digits-IsUpTo max base (c ∷ t))
]

pub parse_number_bound :
    (max base : ℕ) (t : Text) (n : ℕ) → parse_number max base t ≡ some n → n ≤ max
parse_number_bound max base t n e = let h = parse_number-IsUpTo max base t in rw e at h
