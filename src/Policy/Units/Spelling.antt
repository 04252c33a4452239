-- ===== src/Policy/Units/Spelling.antt =====
-- crates/skimasque-policy/src/units.rs: durations as they are written, and their parts
-- found again.
use skimasque.Prelude.{
  ℕ, suc, ◌+◌, ◌*◌, ◌≤◌, List, [], ◌∷◌, ◌++◌, Bool, true, false, length, All, ◌≡◌, refl, arith,
}
use skimasque.Prelude.Text.{Text, show_nat}
use skimasque.Prelude.Numbers.{IsDigit, digits_of-IsDigit, digits_of_starts}
use skimasque.Prelude.Trim.{IsVisible}
use skimasque.Policy.Units.{max_u64, span, is_digit, is_letter}
use skimasque.Policy.Units.Sums.{
  TimeUnit, name_of, millis_of, millis, seconds, minutes, hours, days,
}

-- A duration as a policy writes it, and what it comes to in milliseconds.
abbrev pub spell : List (ℕ × TimeUnit) → Text
spell [] = []
spell ((v, u) ∷ segments) = show_nat v ++ (name_of u ++ spell segments)

abbrev pub total_millis : List (ℕ × TimeUnit) → ℕ
total_millis [] = 0
total_millis ((v, u) ∷ segments) = v * millis_of u + total_millis segments

abbrev pub IsU64 : (ℕ × TimeUnit) → Type 0
IsU64 s = s.0 ≤ max_u64

abbrev pub Stops : (test : ℕ → Bool) → Text → Type 0
Stops test [] = Unit
Stops test (c ∷ t) = test c ≡ false

span-Stops : (test : ℕ → Bool) (t : Text) → Stops test t → span test t ≡ ([], t)
span-Stops test [] h = refl
span-Stops test (c ∷ t) h = rw h refl

pub span-digits :
    (ds t : Text) → All IsDigit ds → Stops is_digit t → span is_digit (ds ++ t) ≡ (ds, t)
span-digits [] t h k = span-Stops is_digit t k
span-digits (d ∷ ds) t (h, hs) k =
    let e : is_digit d ≡ true = ground arith in rw (e, span-digits ds t hs k) refl

pub name_of-digits : (u : TimeUnit) (t : Text) → Stops is_digit (name_of u ++ t)
name_of-digits millis t = refl
name_of-digits seconds t = refl
name_of-digits minutes t = refl
name_of-digits hours t = refl
name_of-digits days t = refl

pub span-name_of :
    (u : TimeUnit) (t : Text) → Stops is_letter t → span is_letter (name_of u ++ t) ≡ (name_of u, t)
span-name_of millis t h = rw (span-Stops is_letter t h) refl
span-name_of seconds t h = rw (span-Stops is_letter t h) refl
span-name_of minutes t h = rw (span-Stops is_letter t h) refl
span-name_of hours t h = rw (span-Stops is_letter t h) refl
span-name_of days t h = rw (span-Stops is_letter t h) refl

-- The next segment starts with a digit.
digits-Stops :
    (ds t : Text) (c : ℕ) (s : Text) → ds ≡ c ∷ s → All IsDigit ds → Stops is_letter (ds ++ t)
digits-Stops [] t c s e h = absurd (cc (e))
digits-Stops (d ∷ ds) t c s e (h, _) = ground arith

name-Stops : (v : ℕ) (t : Text) → Stops is_letter (show_nat v ++ t)
name-Stops v t =
    let (c, s, e) = digits_of_starts (suc v) v (omega arith) in
    digits-Stops (show_nat v) t c s e (digits_of-IsDigit (suc v) v)

pub spell-Stops : (segments : List (ℕ × TimeUnit)) → Stops is_letter (spell segments)
spell-Stops [] = tt
spell-Stops ((v, u) ∷ segments) = name-Stops v (name_of u ++ spell segments)

-- What a duration is written with is not trimmed, and takes no less room than one byte a segment.
name_of-IsVisible : (u : TimeUnit) (t : Text) → All IsVisible t → All IsVisible (name_of u ++ t)
name_of-IsVisible millis t h = (ground arith, (ground arith, h))
name_of-IsVisible seconds t h = (ground arith, h)
name_of-IsVisible minutes t h = (ground arith, h)
name_of-IsVisible hours t h = (ground arith, h)
name_of-IsVisible days t h = (ground arith, h)

digits-IsVisible : (ds t : Text) → All IsDigit ds → All IsVisible t → All IsVisible (ds ++ t)
digits-IsVisible [] t h k = k
digits-IsVisible (d ∷ ds) t (h, hs) k = (ground arith, digits-IsVisible ds t hs k)

pub spell-IsVisible : (segments : List (ℕ × TimeUnit)) → All IsVisible (spell segments)
spell-IsVisible [] = tt
spell-IsVisible ((v, u) ∷ segments) =
    digits-IsVisible (show_nat v) (name_of u ++ spell segments) (digits_of-IsDigit (suc v) v)
      (name_of-IsVisible u (spell segments) (spell-IsVisible segments))

length-behind : (ds t : Text) → length t ≤ length (ds ++ t)
length-behind [] t = omega arith
length-behind (d ∷ ds) t = let h = length-behind ds t in omega arith

name_of_longer : (u : TimeUnit) (t : Text) → suc (length t) ≤ length (name_of u ++ t)
name_of_longer millis t = omega arith
name_of_longer seconds t = omega arith
name_of_longer minutes t = omega arith
name_of_longer hours t = omega arith
name_of_longer days t = omega arith

pub spell_longer : (segments : List (ℕ × TimeUnit)) → length segments ≤ length (spell segments)
spell_longer [] = omega arith
spell_longer ((v, u) ∷ segments) =
    let h = spell_longer segments in
    let k = name_of_longer u (spell segments) in
    let l = length-behind (show_nat v) (name_of u ++ spell segments) in omega arith

pub starts_with_digit : (ds t : Text) (c : ℕ) (s : Text) → ds ≡ c ∷ s → ds ++ t ≡ c ∷ (s ++ t)
starts_with_digit ds t c s e = rw e refl
