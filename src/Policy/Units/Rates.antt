-- ===== src/Policy/Units/Rates.antt =====
-- crates/skimasque-policy/src/units.rs: `parse_rate` on a rate as a policy writes it.
use skimasque.Prelude.{
  ℕ, suc, ◌≤◌, [], ◌∷◌, ◌++◌, false, ok, ◌>>=◌, All, All-append, ◌==◌, ◌≡◌, refl, arith,
}
use skimasque.Prelude.Text.{Text, show_nat}
use skimasque.Prelude.Numbers.{IsDigit, digits_of-IsDigit, parse_number-show_nat}
use skimasque.Prelude.Trim.{IsVisible, trim-visible, contains}
use skimasque.Prelude.Split.{split_once-append}
use skimasque.Policy.Units.{max_u64, Duration, window_of, parse_rate}

digits-IsVisible : (ds : Text) → All IsDigit ds → All IsVisible ds
digits-IsVisible [] h = tt
digits-IsVisible (d ∷ ds) (h, hs) = (ground arith, digits-IsVisible ds hs)

digits_no_slash : (ds : Text) → All IsDigit ds → contains b'/' ds ≡ false
digits_no_slash [] h = refl
digits_no_slash (d ∷ ds) (h, hs) =
    let e : (d == b'/') ≡ false = ground arith in rw e (digits_no_slash ds hs)

-- The count before the slash is read back, and the window is the one the unit names.
parse_rate-show :
    (n : ℕ) (unit : Text)
    → n ≤ max_u64
    → All IsVisible unit
    → parse_rate (show_nat n ++ (b'/' ∷ unit))
      ≡ window_of (show_nat n ++ (b'/' ∷ unit)) unit
        >>= (λ (per : Duration). ok (record { count = n; per = per }))
unfolding parse_rate
parse_rate-show n unit h k =
    let digits = digits_of-IsDigit (suc n) n in
    let v = digits-IsVisible (show_nat n) digits in
    let whole = All-append IsVisible (show_nat n) (b'/' ∷ unit) v (ground arith, k) in
    rw
      (
        trim-visible (show_nat n ++ (b'/' ∷ unit)) whole,
        split_once-append b'/' (show_nat n) unit (digits_no_slash (show_nat n) digits),
        trim-visible (show_nat n) v,
        trim-visible unit k,
        parse_number-show_nat max_u64 n h,
      )
      refl
