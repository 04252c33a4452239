-- ===== src/Template/Percent.antt =====
-- crates/skimasque-core/src/template.rs: percent-encoding of values, and back.
use skimasque.Prelude.{
  ℕ, zero, suc, ◌+◌, ◌-◌, ◌*◌, ◌/◌, ◌%◌, ◌<◌, [], ◌∷◌, ◌++◌, Bool, true, false, ◌&&◌, ◌||◌, Option,
  none, some, ltb, leb, ◌==◌, if◌then◌else◌,
}
use skimasque.Prelude.{◌≡◌, refl, arith}
use skimasque.Prelude.Text.{Text}
use skimasque.Prelude.Numbers.{parse_number, digit_value}
use skimasque.Prelude.Trim.{is_alphanumeric}

unfoldable pub is_unreserved : ℕ → Bool
is_unreserved b =
    is_alphanumeric b || ((b == b'-') || ((b == b'.') || ((b == b'_') || (b == b'~'))))

-- A digit of `{byte:02X}`.
abbrev pub upper_digit : ℕ → ℕ
upper_digit d = if ltb d 10 then b'0' + d else b'A' + (d - 10)

abbrev pub encoded_byte : ℕ → Text
encoded_byte b =
    if is_unreserved b then b ∷ [] else b'%' ∷ upper_digit (b / 16) ∷ upper_digit (b % 16) ∷ []

unfoldable pub pct_encode : Text → Text
pct_encode [] = []
pct_encode (b ∷ t) = encoded_byte b ++ pct_encode t

-- What a leading byte announces: the number of continuation bytes and the bounds of the first.
abbrev pub announced : ℕ → Option ((ℕ × ℕ) × ℕ)
announced c =
    if ltb c 128
    then some ((0, 0), 0)
    else if leb 194 c && leb c 223
    then some ((1, 128), 191)
    else if c == 224
    then some ((2, 160), 191)
    else if c == 237
    then some ((2, 128), 159)
    else if leb 225 c && leb c 239
    then some ((2, 128), 191)
    else if c == 240
    then some ((3, 144), 191)
    else if leb 241 c && leb c 243
    then some ((3, 128), 191)
    else if c == 244
    then some ((3, 128), 143)
    else none

-- `String::from_utf8` accepts the bytes.
abbrev pub utf8_from : (pending lo hi : ℕ) → Text → Bool
utf8_from pending lo hi [] = pending == 0
utf8_from (suc n) lo hi (c ∷ t) = leb lo c && (leb c hi && utf8_from n 128 191 t)
utf8_from zero lo hi (c ∷ t) = elim (announced c) [
  | none ↦ false
  | some ((n, l), h) ↦ utf8_from n l h t
]

abbrev pub is_utf8 : Text → Bool
is_utf8 t = utf8_from 0 0 0 t

abbrev pub and_cons : Option ℕ → Option Text → Option Text
and_cons (some b) (some t) = some (b ∷ t)
and_cons _ _ = none

-- `u8::from_str_radix` of the two bytes behind a percent sign
unfoldable pub decoded_bytes : Text → Option Text
decoded_bytes [] = some []
decoded_bytes (c ∷ []) = if c == b'%' then none else some (c ∷ [])
decoded_bytes (c ∷ a ∷ []) = if c == b'%' then none else and_cons (some c) (decoded_bytes (a ∷ []))
decoded_bytes (c ∷ a ∷ b ∷ t) = elim (c == b'%') [
  | true ↦ and_cons (parse_number 255 16 (a ∷ b ∷ [])) (decoded_bytes t)
  | false ↦ and_cons (some c) (decoded_bytes (a ∷ b ∷ t))
]

abbrev pub when_utf8 : Option Text → Option Text
when_utf8 none = none
when_utf8 (some t) = if is_utf8 t then some t else none

unfoldable pub pct_decode : Text → Option Text
pct_decode value = when_utf8 (decoded_bytes value)

digit_value-upper_digit : (d : ℕ) → d < 16 → digit_value 16 (upper_digit d) ≡ some d
digit_value-upper_digit d h = ground arith

pub escape_read :
    (b : ℕ)
    → b < 256
    → parse_number 255 16 (upper_digit (b / 16) ∷ upper_digit (b % 16) ∷ []) ≡ some b
escape_read b h =
    let no_plus : (upper_digit (b / 16) == b'+') ≡ false = ground arith in
    let high : b / 16 < 16 = omega arith in
    let low : leb (0 * 16 + b / 16) 255 ≡ true = ground arith in
    let sum : 0 * 16 + b / 16 ≡ b / 16 = omega arith in
    let all : b / 16 * 16 + b % 16 ≡ b = omega arith in
    let top : leb b 255 ≡ true = ground arith in
    rw
      (
        no_plus,
        digit_value-upper_digit (b / 16) high,
        low,
        sum,
        digit_value-upper_digit (b % 16) (omega arith),
        all,
        top,
      )
      refl
