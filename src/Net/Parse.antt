-- ===== src/Net/Parse.antt =====
-- The standard library's parser of IP addresses, `IpAddr::from_str`: it tries an IPv4 address
-- first, then an IPv6 one, and wants the whole text used.
use skimasque.Prelude.{
  ℕ, zero, suc, ◌+◌, ◌-◌, ◌*◌, ◌/◌, ◌%◌, ◌^◌, List, [], ◌∷◌, ◌++◌, Bool, true, false, not, ◌&&◌,
  Option, none, some, ltb, leb, ◌==◌, if◌then◌else◌, length,
}
use skimasque.Prelude.Text.{Text}
use skimasque.Prelude.Numbers.{digit_value}
use skimasque.Net.{IpAddr, v4, v6}

-- The digits in front, with the number they make and their count.
abbrev pub take_digits : (base max_digits result count : ℕ) → Text → Option ((ℕ × ℕ) × Text)
take_digits base max_digits result count [] = some ((result, count), [])
take_digits base max_digits result count (c ∷ t) = elim (digit_value base c) [
  | none ↦ some ((result, count), c ∷ t)
  | some d ↦ elim (ltb max_digits (count + 1)) [
    | true ↦ none
    | false ↦ take_digits base max_digits (result * base + d) (count + 1) t
  ]
]

abbrev pub starts_with : ℕ → Text → Bool
starts_with c [] = false
starts_with c (x ∷ t) = x == c

abbrev pub accept_number :
    (top : ℕ) (allow_zero_prefix leading_zero : Bool) → Option ((ℕ × ℕ) × Text) → Option (ℕ × Text)
accept_number top allow_zero_prefix leading_zero none = none
accept_number top allow_zero_prefix leading_zero (some ((result, count), rest)) =
    if count == 0
    then none
    else if not allow_zero_prefix && (leading_zero && ltb 1 count)
    then none
    else if leb result top
    then some (result, rest)
    else none

-- `Parser::read_number`
abbrev pub read_number :
    (base max_digits top : ℕ) (allow_zero_prefix : Bool) → Text → Option (ℕ × Text)
read_number base max_digits top allow_zero_prefix t =
    accept_number top allow_zero_prefix (starts_with b'0' t) (take_digits base max_digits 0 0 t)

-- `read_given_char`
abbrev pub given : ℕ → Text → Option Text
given c [] = none
given c (x ∷ t) = if x == c then some t else none

abbrev pub and_then {ℓ κ} : {A : Type ℓ} {B : Type κ} → Option A → (A → Option B) → Option B
and_then none f = none
and_then (some a) f = f a

abbrev pub read_octet : Text → Option (ℕ × Text)
read_octet t = read_number 10 3 255 false t

-- An octet behind the octets before it.
abbrev pub next_octet : (ℕ × Text) → Option (ℕ × Text)
next_octet (before, t) =
    and_then (given b'.' t) (λ u. and_then (read_octet u) (λ r. some (before * 256 + r.0, r.1)))

-- `read_ipv4_addr`
abbrev pub read_v4 : Text → Option (ℕ × Text)
read_v4 t = and_then (and_then (and_then (read_octet t) next_octet) next_octet) next_octet

-- `read_separator`: a colon in front, but for the first group.
abbrev pub separated : (first : Bool) → Text → Option Text
separated true t = some t
separated false t = given b':' t

pub record Groups : Type 0 where
  pub list : List ℕ
  pub ends_in_v4 : Bool
  pub rest : Text

-- `read_groups` with a number of groups left to read; at the last one no IPv4 address fits.
abbrev read_groups : (left : ℕ) (first : Bool) → Text → Groups
read_groups zero first t = record { list = []; ends_in_v4 = false; rest = t }
read_groups (suc left) first t =
    let embedded = if left == 0 then none else and_then (separated first t) read_v4 in
    elim embedded [
      | some a ↦ record { list = a.0 / 2 ^ 16 ∷ a.0 % 2 ^ 16 ∷ []; ends_in_v4 = true; rest = a.1 }
      | none ↦ elim (and_then (separated first t) (read_number 16 4 65535 true)) [
        | none ↦ record { list = []; ends_in_v4 = false; rest = t }
        | some g ↦
            let more = read_groups left false g.1 in
            record { list = g.0 ∷ more.list; ends_in_v4 = more.ends_in_v4; rest = more.rest }
      ]
    ]

abbrev zeros : ℕ → List ℕ
zeros zero = []
zeros (suc n) = 0 ∷ zeros n

abbrev from_groups : ℕ → List ℕ → ℕ
from_groups acc [] = acc
from_groups acc (g ∷ gs) = from_groups (acc * 2 ^ 16 + g) gs

-- `read_ipv6_addr`
abbrev read_v6 : Text → Option (ℕ × Text)
read_v6 t =
    let head = read_groups 8 true t in
    let head_size = length head.list in
    if head_size == 8
    then some (from_groups 0 head.list, head.rest)
    else if head.ends_in_v4
    then none
    else and_then (and_then (given b':' head.rest) (given b':')) (λ u.
      let tail = read_groups (8 - (head_size + 1)) true u in
      let gap = zeros (8 - head_size - length tail.list) in
      some (from_groups 0 (head.list ++ gap ++ tail.list), tail.rest))

abbrev pub whole : Option (IpAddr × Text) → Option IpAddr
whole none = none
whole (some (a, [])) = some a
whole (some (a, c ∷ t)) = none

abbrev or_v6 : Text → Option (ℕ × Text) → Option (IpAddr × Text)
or_v6 t (some (a, rest)) = some (v4 a, rest)
or_v6 t none = and_then (read_v6 t) (λ r. some (v6 r.0, r.1))

-- `text.parse::<IpAddr>()`
unfoldable pub parse_ip : Text → Option IpAddr
parse_ip t = whole (or_v6 t (read_v4 t))
