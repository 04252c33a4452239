-- ===== src/Policy/Units/Durations.antt =====
-- crates/skimasque-policy/src/units.rs: `parse_duration` against the sum of the segments in
-- milliseconds.
use skimasque.Prelude.{
  ℕ, zero, suc, ◌+◌, ◌*◌, ◌/◌, ◌≤◌, List, [], ◌∷◌, ◌++◌, Bool, true, false, none, some, leb, length,
  Bool-cases, ok, err, ok_or, ◌>>=◌, All, ◌≡◌, refl, ◌∙◌, arith,
}
use skimasque.Prelude.{inl, inr}
use mathlib.Core.Path.{subst}
use skimasque.Prelude.Text.{Text, show_nat}
use skimasque.Prelude.Numbers.{
  IsDigit, parse_number, parse_number-show_nat, digits_of-IsDigit, digits_of_starts,
}
use skimasque.Prelude.Trim.{trim-visible}
use skimasque.Policy.Units.{
  ParseUnitError, overflow, Duration, duration, max_u64, from_millis, is_letter, read_unit,
  number_and_unit, read_segment, read_segments, parse_trimmed, parse_duration,
}
use skimasque.Policy.Units.Spelling.{
  spell, total_millis, IsU64, Stops, span-digits, name_of-digits, span-name_of, spell-Stops,
  spell-IsVisible, spell_longer, starts_with_digit,
}
use skimasque.Policy.Units.Sums.{
  fits, fits_less, add_fits, TimeUnit, name_of, millis_of, segment_of-name, millis, seconds,
  minutes, hours, days,
}

sum_assoc : (a b c : ℕ) → a + b + c ≡ a + (b + c)
sum_assoc a b c = omega arith

zero_add : (n : ℕ) → 0 + n ≡ n
zero_add n = omega arith

sum_swap : (a b c : ℕ) → a + (b + c) ≡ c + (a + b)
sum_swap a b c = omega arith

module _ (input : Text) where
  -- A segment's unit is read and the segment is added.
  read_unit-name_of :
      (u : TimeUnit) (m v : ℕ) (t : Text)
      → v ≤ max_u64
      → Stops is_letter t
      → read_unit input (from_millis m) v (name_of u ++ t)
        ≡ ok_or (fits (m + v * millis_of u)) (overflow input) >>= (λ (d : Duration). ok (d, t))
  unfolding read_unit
  read_unit-name_of u m v t h k =
      rw (span-name_of u t k, segment_of-name input u v h)
        (add_fits m (v * millis_of u) (overflow input) _)

  number_and_unit-name_of :
      (u : TimeUnit) (total : Duration) (c : ℕ) (s t : Text)
      → number_and_unit input total (c ∷ s) (name_of u ++ t)
        ≡ ok_or (parse_number max_u64 10 (c ∷ s)) (overflow input)
          >>= (λ (v : ℕ). read_unit input total v (name_of u ++ t))
  number_and_unit-name_of millis total c s t = refl
  number_and_unit-name_of seconds total c s t = refl
  number_and_unit-name_of minutes total c s t = refl
  number_and_unit-name_of hours total c s t = refl
  number_and_unit-name_of days total c s t = refl

  segment_read :
      (u : TimeUnit) (m v c : ℕ) (s t : Text)
      → v ≤ max_u64
      → Stops is_letter t
      → show_nat v ≡ c ∷ s
      → read_segment input (from_millis m) (c ∷ (s ++ (name_of u ++ t)))
        ≡ ok_or (fits (m + v * millis_of u)) (overflow input) >>= (λ (d : Duration). ok (d, t))
  segment_read u m v c s t h k e =
      let digits : All IsDigit (c ∷ s) = subst (All IsDigit) e (digits_of-IsDigit (suc v) v) in
      let number : parse_number max_u64 10 (c ∷ s) ≡ some v =
        subst (λ x. parse_number max_u64 10 x ≡ some v) e (parse_number-show_nat max_u64 v h) in
      rw
        (
          span-digits (c ∷ s) (name_of u ++ t) digits (name_of-digits u t),
          number_and_unit-name_of u (from_millis m) c s t,
          number,
        )
        (read_unit-name_of u m v t h k)

  module _ (fuel : ℕ) (saw : Bool) (total : Duration) (c : ℕ) (t : Text) where
    read_segments-on :
        (next : Duration) (rest : Text)
        → read_segment input total (c ∷ t) ≡ ok (next, rest)
        → read_segments input (suc fuel) saw total (c ∷ t) ≡ read_segments input fuel true next rest
    unfolding read_segments
    read_segments-on next rest h = rw (read_segments, h) refl

    read_segments-stop :
        (e : ParseUnitError)
        → read_segment input total (c ∷ t) ≡ err e
        → read_segments input (suc fuel) saw total (c ∷ t) ≡ some (err e)
    unfolding read_segments
    read_segments-stop e h = rw (read_segments, h) refl

  -- One turn of the loop, when what is left comes to n milliseconds.
  read_segments-step :
      (fuel : ℕ) (saw : Bool) (u : TimeUnit) (m v n : ℕ) (t : Text)
      → v ≤ max_u64
      → Stops is_letter t
      → ((k : ℕ)
          → k / 1000 ≤ max_u64
          → read_segments input fuel true (from_millis k) t
            ≡ some (ok_or (fits (k + n)) (overflow input)))
      → read_segments input (suc fuel) saw (from_millis m) (show_nat v ++ (name_of u ++ t))
        ≡ some (ok_or (fits (m + (v * millis_of u + n))) (overflow input))
  unfolding read_segments
  read_segments-step fuel saw u m v n t h k rest =
      let (c, s, e) = digits_of_starts (suc v) v (omega arith) in
      let step = segment_read u m v c s t h k e in
      let total = from_millis m in
      elim (Bool-cases (leb ((m + v * millis_of u) / 1000) max_u64)) [
        | inl l ↦
            let turn = rw l at step in
            rw
              (
                e,
                read_segments-on fuel saw total c (s ++ (name_of u ++ t))
                    (from_millis (m + v * millis_of u)) t turn,
              )
              (let left = rest (m + v * millis_of u) (ground arith) in
                rw (sum_assoc m (v * millis_of u) n) at left)
        | inr l ↦
            let turn = rw l at step in
            let over : fits (m + (v * millis_of u + n)) ≡ none =
              rw (sum_swap m (v * millis_of u) n) (fits_less n (m + v * millis_of u) (rw l refl)) in
            rw
              (
                e,
                read_segments-stop fuel saw total c (s ++ (name_of u ++ t)) (overflow input) turn,
                over,
              )
              refl
      ]

  read_segments-spell :
      (fuel m : ℕ) (segments : List (ℕ × TimeUnit))
      → length segments ≤ fuel
      → All IsU64 segments
      → m / 1000 ≤ max_u64
      → read_segments input fuel true (from_millis m) (spell segments)
        ≡ some (ok_or (fits (m + total_millis segments)) (overflow input))
  unfolding read_segments
  read_segments-spell fuel m [] h a b =
      let e : m + 0 ≡ m = omega arith in
      let k : leb (m / 1000) max_u64 ≡ true = ground arith in rw (e, k) refl
  read_segments-spell zero m (x ∷ segments) h a b = absurd (omega arith)
  read_segments-spell (suc fuel) m ((v, u) ∷ segments) h (k, a) b =
      read_segments-step fuel true u m v (total_millis segments) (spell segments) k
        (spell-Stops segments) (λ n c. read_segments-spell fuel n segments (omega arith) a c)

parse_trimmed-more :
    (input t : Text) (c : ℕ) (s : Text)
    → t ≡ c ∷ s
    → parse_trimmed input t ≡ read_segments input (length t) false (duration 0 0) t
unfolding parse_trimmed
parse_trimmed-more input [] c s e = absurd (cc (e))
parse_trimmed-more input (d ∷ t) c s e = refl

read_segments_first :
    (input : Text) (fuel v : ℕ) (u : TimeUnit) (segments : List (ℕ × TimeUnit))
    → suc (length segments) ≤ fuel
    → All IsU64 ((v, u) ∷ segments)
    → read_segments input fuel false (duration 0 0) (spell ((v, u) ∷ segments))
      ≡ some (ok_or (fits (total_millis ((v, u) ∷ segments))) (overflow input))
read_segments_first input zero v u segments h a = absurd (omega arith)
read_segments_first input (suc fuel) v u segments h (k, a) =
    let h =
      read_segments-step input fuel false u 0 v (total_millis segments) (spell segments) k
        (spell-Stops segments)
        (λ n c. read_segments-spell input fuel n segments (omega arith) a c) in
    rw (zero_add (v * millis_of u + total_millis segments)) at h

-- `parse_duration` of one or more segments, each a count in 64 bits followed by `ms`, `s`, `m`,
-- `h` or `d`, ends with the duration of their sum in milliseconds when the whole seconds of that
-- sum are in 64 bits, and with the overflow error for the text otherwise.
pub parse_duration-spell :
    (v : ℕ) (u : TimeUnit) (segments : List (ℕ × TimeUnit))
    → All IsU64 ((v, u) ∷ segments)
    → parse_duration (spell ((v, u) ∷ segments))
      ≡ some
          (ok_or (fits (total_millis ((v, u) ∷ segments))) (overflow (spell ((v, u) ∷ segments))))
unfolding parse_duration
parse_duration-spell v u segments (h, a) =
    rw (trim-visible (spell ((v, u) ∷ segments)) (spell-IsVisible ((v, u) ∷ segments))) (
      let input = spell ((v, u) ∷ segments) in
      let (c, s, e) = digits_of_starts (suc v) v (omega arith) in
      let t = name_of u ++ spell segments in
      parse_trimmed-more input input c (s ++ t) (starts_with_digit (show_nat v) t c s e)
      ∙ read_segments_first input (length input) v u segments (spell_longer ((v, u) ∷ segments))
          (h, a))
