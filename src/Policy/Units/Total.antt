-- ===== src/Policy/Units/Total.antt =====
-- crates/skimasque-policy/src/units.rs: the loop of `parse_duration` ends.
use skimasque.Prelude.{
  ℕ, zero, suc, ◌≤◌, [], ◌∷◌, Bool, true, false, some, length, Bool-cases, Result, err, ok_or,
  Result-cases, Post, Post-skip, Post_returns, ◌≡◌, refl, arith,
}
use skimasque.Prelude.{inl, inr}
use skimasque.Prelude.Text.{Text}
use skimasque.Prelude.Trim.{trim}
use skimasque.Prelude.Numbers.{parse_number}
use skimasque.Policy.Units.{
  ParseUnitError, overflow, empty, Duration, duration, max_u64, span, is_digit, is_letter,
  read_unit, number_and_unit, read_segment, read_segments, parse_trimmed, parse_duration,
  checked_add, segment_of,
}

span_shorter : (test : ℕ → Bool) (t : Text) → length ((span test t).1) ≤ length t
span_shorter test [] = omega arith
span_shorter test (c ∷ t) = elim (Bool-cases (test c)) [
  | inl e ↦ let h = span_shorter test t in rw e (omega arith)
  | inr e ↦ rw e (omega arith)
]

-- A digit was passed over when there is one.
span_passes :
    (test : ℕ → Bool) (c : ℕ) (t : Text) (d : ℕ) (ds : Text)
    → (span test (c ∷ t)).0 ≡ d ∷ ds
    → length ((span test (c ∷ t)).1) ≤ length t
span_passes test c t d ds h = elim (Bool-cases (test c)) [
  | inl e ↦ rw e (span_shorter test t)
  | inr e ↦ absurd (let k = rw e at h in cc (k))
]

module _ (input : Text) where
  abbrev IsShorter : (n : ℕ) → Duration × Text → Type 0
  IsShorter n r = length (r.1) ≤ n

  read_unit-IsShorter :
      (total : Duration) (value n : ℕ) (t : Text)
      → length t ≤ n
      → Post (IsShorter n) (read_unit input total value t)
  unfolding read_unit
  read_unit-IsShorter total value n t h =
      let k = span_shorter is_letter t in
      Post-skip (IsShorter n) (segment_of input ((span is_letter t).0) value) _ (λ segment.
        Post-skip (IsShorter n) (ok_or (checked_add total segment) (overflow input)) _
          (λ next. omega arith))

  number_and_unit-IsShorter :
      (total : Duration) (n : ℕ) (ds t : Text)
      → ((d : ℕ) (s : Text) → ds ≡ d ∷ s → length t ≤ n)
      → Post (IsShorter n) (number_and_unit input total ds t)
  number_and_unit-IsShorter total n ds [] h = tt
  number_and_unit-IsShorter total n [] (c ∷ t) h = tt
  number_and_unit-IsShorter total n (d ∷ ds) (c ∷ t) h =
      Post-skip (IsShorter n) (ok_or (parse_number max_u64 10 (d ∷ ds)) (overflow input)) _
        (λ value. read_unit-IsShorter total value n (c ∷ t) (h d ds refl))

  read_segment-IsShorter :
      (total : Duration) (c : ℕ) (t : Text)
      → Post (IsShorter (length t)) (read_segment input total (c ∷ t))
  read_segment-IsShorter total c t =
      number_and_unit-IsShorter total (length t) ((span is_digit (c ∷ t)).0)
        ((span is_digit (c ∷ t)).1) (span_passes is_digit c t)

  read_segments-Returns :
      (fuel : ℕ) (saw : Bool) (total : Duration) (t : Text)
      → length t ≤ fuel
      → (r : Result ParseUnitError Duration) × (read_segments input fuel saw total t ≡ some r)
  unfolding read_segments
  read_segments-Returns fuel saw total [] h = (_, refl)
  read_segments-Returns zero saw total (c ∷ t) h = absurd (omega arith)
  read_segments-Returns (suc fuel) saw total (c ∷ t) h =
      elim (Result-cases (read_segment input total (c ∷ t))) [
        | inr (e, k) ↦ (err e, rw (read_segments, k) refl)
        | inl ((next, rest), k) ↦
            let l =
              Post_returns (IsShorter (length t)) (read_segment input total (c ∷ t)) (next, rest)
                (read_segment-IsShorter total c t) k in
            let (r, e) = read_segments-Returns fuel true next rest (omega arith) in
            (r, rw (read_segments, k) e)
      ]

parse_trimmed-Returns :
    (input t : Text) → (r : Result ParseUnitError Duration) × (parse_trimmed input t ≡ some r)
unfolding parse_trimmed
parse_trimmed-Returns input [] = (err (empty input), refl)
parse_trimmed-Returns input (c ∷ t) =
    read_segments-Returns input (length (c ∷ t)) false (duration 0 0) (c ∷ t) (omega arith)

-- `parse_duration` answers every text: the loop ends, with an error or a duration.
pub parse_duration-Returns :
    (input : Text) → (r : Result ParseUnitError Duration) × (parse_duration input ≡ some r)
unfolding parse_duration
parse_duration-Returns input = parse_trimmed-Returns input (trim input)
