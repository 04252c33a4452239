-- ===== src/Policy/Destination/NameBytes.antt =====
-- Texts of the bytes that host names have, through the searches of the destination parsers.
use skimasque.Prelude.{ℕ, [], ◌∷◌, true, false, ◌==◌, All, All}
use skimasque.Prelude.{◌≡◌, refl, arith}
use skimasque.Prelude.Text.{Text, lower}
use skimasque.Prelude.Numbers.{IsDigit}
use skimasque.Prelude.Trim.{contains}
use skimasque.Policy.Destination.Parse.{is_name_byte}

-- A byte of a name in the form that the parser makes.
abbrev pub IsNameByte : ℕ → Type 0
IsNameByte c = (is_name_byte c ≡ true) × (lower c ≡ c)

pub IsDigit-IsNameByte : (t : Text) → All IsDigit t → All IsNameByte t
IsDigit-IsNameByte [] h = tt
IsDigit-IsNameByte (c ∷ t) (h, k) = ((ground arith, ground arith), IsDigit-IsNameByte t k)

-- A byte that no name has, as the colon, the slash, the star and the bracket are.
module _ (c : ℕ) (h : is_name_byte c ≡ false) where
  pub differs : (x : ℕ) → IsNameByte x → (x == c) ≡ false
  differs x (k, _) = ground arith

  pub contains_none : (t : Text) → All IsNameByte t → contains c t ≡ false
  contains_none [] k = refl
  contains_none (x ∷ t) (k, l) = rw (differs x k) (contains_none t l)

pub no_hyphen : (t : Text) → All IsDigit t → contains b'-' t ≡ false
no_hyphen [] h = refl
no_hyphen (c ∷ t) (h, k) = let e : (c == b'-') ≡ false = ground arith in rw e (no_hyphen t k)
