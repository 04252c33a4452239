-- ===== src/Policy/Units.antt =====
-- crates/skimasque-policy/src/units.rs: durations and rates as a policy spells them. Byte sizes
-- and bit rates go through floating point and are not modelled. A duration is its whole seconds
-- and the nanoseconds beyond them, as `std::time::Duration` keeps it.
use skimasque.Prelude.{
  ℕ, zero, suc, ◌+◌, ◌-◌, ◌*◌, ◌/◌, ◌%◌, [], ◌∷◌, Bool, true, false, ◌&&◌, ◌||◌, Option, none, some,
  ltb, leb, if◌then◌else◌, length, Result, ok, err, ok_or, ◌>>=◌,
}
use skimasque.Prelude.Text.{Text, codes, text_eq, split_once}
use skimasque.Prelude.Numbers.{parse_number}
use skimasque.Prelude.Trim.{trim}
pub mod Sums
pub mod Spelling
pub mod Durations
pub mod Total
pub mod Rates

pub data ParseUnitError : Type 0 where
  empty : Text → ParseUnitError
  malformed : (kind value reason : Text) → ParseUnitError
  overflow : Text → ParseUnitError

pub record Duration : Type 0 where
  pub secs : ℕ
  pub nanos : ℕ

abbrev pub duration : (secs nanos : ℕ) → Duration
duration s n = record { secs = s; nanos = n }

abbrev pub max_u64 : ℕ
max_u64 = 18446744073709551615

abbrev pub from_secs : ℕ → Duration
from_secs s = duration s 0

abbrev pub from_millis : ℕ → Duration
from_millis v = duration (v / 1000) (v % 1000 * 1000000)

-- `u64::checked_add` and `u64::checked_mul`
abbrev pub within_u64 : ℕ → Option ℕ
within_u64 n = if leb n max_u64 then some n else none

-- `Duration::checked_add`: a second is carried from the nanoseconds.
abbrev pub carry : (secs nanos : ℕ) → Option Duration
carry secs nanos =
    if leb 1000000000 nanos
    then if leb (secs + 1) max_u64 then some (duration (secs + 1) (nanos - 1000000000)) else none
    else some (duration secs nanos)

unfoldable pub checked_add : Duration → Duration → Option Duration
checked_add a b =
    if leb (a.secs + b.secs) max_u64 then carry (a.secs + b.secs) (a.nanos + b.nanos) else none

-- `rest.find(|c| !test(c))`: what stands before the place found, and from it on.
abbrev pub span : (test : ℕ → Bool) → Text → Text × Text
span test [] = ([], [])
span test (c ∷ t) = let r = span test t in if test c then (c ∷ r.0, r.1) else ([], c ∷ t)

abbrev pub is_digit : ℕ → Bool
is_digit c = leb b'0' c && leb c b'9'

abbrev pub is_letter : ℕ → Bool
is_letter c = (leb b'A' c && leb c b'Z') || (leb b'a' c && leb c b'z')

-- `value.checked_mul(factor)` in seconds
abbrev pub scaled : (input : Text) (value factor : ℕ) → Result ParseUnitError Duration
scaled input value factor =
    ok_or (within_u64 (value * factor)) (overflow input) >>= λ (n : ℕ). ok (from_secs n)

unfoldable pub segment_of : (input unit : Text) (value : ℕ) → Result ParseUnitError Duration
segment_of input unit value =
    if text_eq unit (codes "ms")
    then ok (from_millis value)
    else if text_eq unit (codes "s")
    then ok (from_secs value)
    else if text_eq unit (codes "m")
    then scaled input value 60
    else if text_eq unit (codes "h")
    then scaled input value 3600
    else if text_eq unit (codes "d")
    then scaled input value 86400
    else if text_eq unit []
    then err (malformed (codes "duration") input (codes "a number with no unit"))
    else err (malformed (codes "duration") input (codes "unknown unit"))

-- The unit behind a number that was read, and the new total with what is left.
unfoldable pub read_unit :
    (input : Text) (total : Duration) (value : ℕ) → Text → Result ParseUnitError (Duration × Text)
read_unit input total value after =
    segment_of input ((span is_letter after).0) value >>= λ (segment : Duration).
    ok_or (checked_add total segment) (overflow input) >>= λ (next : Duration).
    ok (next, (span is_letter after).1)

abbrev pub number_and_unit :
    (input : Text) (total : Duration) → Text → Text → Result ParseUnitError (Duration × Text)
number_and_unit input total digits [] =
    err (malformed (codes "duration") input (codes "a number with no unit"))
number_and_unit input total [] (c ∷ after) =
    err (malformed (codes "duration") input (codes "expected a number"))
number_and_unit input total (d ∷ digits) (c ∷ after) =
    ok_or (parse_number max_u64 10 (d ∷ digits)) (overflow input) >>= λ (value : ℕ).
    read_unit input total value (c ∷ after)

-- One turn of the loop.
abbrev pub read_segment :
    (input : Text) (total : Duration) → Text → Result ParseUnitError (Duration × Text)
read_segment input total rest =
    number_and_unit input total ((span is_digit rest).0) ((span is_digit rest).1)

-- The loop, `none` when it runs out of fuel.
unfoldable pub read_segments :
    (input : Text) (fuel : ℕ) (saw_segment : Bool) (total : Duration)
    → Text
    → Option (Result ParseUnitError Duration)
read_segments input fuel saw_segment total [] = some (
    if saw_segment
    then ok total
    else err (malformed (codes "duration") input (codes "expected a number and a unit")))
read_segments input zero saw_segment total (c ∷ t) = none
read_segments input (suc fuel) saw_segment total (c ∷ t) = elim (read_segment input total (c ∷ t)) [
  | err e ↦ some (err e)
  | ok (next, rest) ↦ read_segments input fuel true next rest
]

unfoldable pub parse_trimmed : (input text : Text) → Option (Result ParseUnitError Duration)
parse_trimmed input [] = some (err (empty input))
parse_trimmed input (c ∷ t) = read_segments input (length (c ∷ t)) false (duration 0 0) (c ∷ t)

unfoldable pub parse_duration : Text → Option (Result ParseUnitError Duration)
parse_duration input = parse_trimmed input (trim input)

pub record Rate : Type 0 where
  pub count : ℕ
  pub per : Duration

abbrev pub window_of : (input unit : Text) → Result ParseUnitError Duration
window_of input unit =
    if text_eq unit (codes "s") || (text_eq unit (codes "sec") || text_eq unit (codes "second"))
    then ok (from_secs 1)
    else if text_eq unit (codes "m")
        || (text_eq unit (codes "min") || text_eq unit (codes "minute"))
    then ok (from_secs 60)
    else if text_eq unit (codes "h") || text_eq unit (codes "hour")
    then ok (from_secs 3600)
    else err (malformed (codes "rate") input (codes "the unit must be s, m or h"))

unfoldable pub parse_rate : Text → Result ParseUnitError Rate
parse_rate input =
    ok_or (split_once b'/' (trim input))
      (malformed (codes "rate") input (codes "expected <count>/<unit>, e.g. 10/s"))
    >>= λ (parts : Text × Text).
        ok_or (parse_number max_u64 10 (trim (parts.0)))
          (malformed (codes "rate") input (codes "the count is not a number"))
        >>= λ (count : ℕ). window_of input (trim (parts.1)) >>= λ (per : Duration).
            ok (record { count = count; per = per })
