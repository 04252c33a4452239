-- ===== src/Prelude/Text.antt =====
-- Text as the list of its bytes, which is how the source's `==`, prefixes and suffixes read it.
use Prim.Native.Nat.{ℕ, zero, suc, ◌+◌, ◌-◌, ◌/◌, ◌%◌}
use Prim.Native.Char.{code}
use Prim.Native.String.{String}
use mathlib.Core.Path.{◌≡◌, refl, ap₂}
use mathlib.Core.Logic.{◌↔◌}
use mathlib.Core.Bool.{Bool, true, false, ◌&&◌}
use mathlib.Core.Option.{Option, none, some, map}
use mathlib.Core.List.{List, [], ◌∷◌, ◌++◌}
use native.Mathlib.Omega.{arith}
use skimasque.Prelude.Tests.{ltb, leb, ◌==◌, if◌then◌else◌}
use skimasque.Prelude.Lists.{length, drop}

abbrev pub Text : Type 0
Text = List ℕ

-- The bytes of an ASCII literal.
abbrev pub codes : String → Text
codes String.[] = []
codes (String.◌∷◌ c s) = code c ∷ codes s

-- `a == b`
abbrev pub text_eq : Text → Text → Bool
text_eq [] [] = true
text_eq (a ∷ xs) (b ∷ ys) = (a == b) && text_eq xs ys
text_eq _ _ = false

-- `u8::to_ascii_lowercase`
abbrev pub lower : ℕ → ℕ
lower c = if leb b'A' c && leb c b'Z' then c + 32 else c

-- `a.eq_ignore_ascii_case(b)`
abbrev pub eq_ignore_ascii_case : Text → Text → Bool
eq_ignore_ascii_case [] [] = true
eq_ignore_ascii_case (a ∷ xs) (b ∷ ys) = (lower a == lower b) && eq_ignore_ascii_case xs ys
eq_ignore_ascii_case _ _ = false

-- `text.strip_prefix(prefix)`
abbrev pub strip_prefix : Text → Text → Option Text
strip_prefix t [] = some t
strip_prefix [] (p ∷ ps) = none
strip_prefix (c ∷ t) (p ∷ ps) = if c == p then strip_prefix t ps else none

-- `text.ends_with(suffix)`
abbrev pub ends_with : Text → Text → Bool
ends_with t suffix =
    leb (length suffix) (length t) && text_eq (drop (length t - length suffix) t) suffix

-- `split_once(c)`, `rsplit_once(c)` and `split(c)` for one ASCII character.
abbrev pub split_once : ℕ → Text → Option (Text × Text)
split_once c [] = none
split_once c (x ∷ t) =
    let rest = split_once c t in
    if x == c then some ([], t) else map (λ (r : Text × Text). (x ∷ r.0, r.1)) rest

abbrev pub rsplit_once : ℕ → Text → Option (Text × Text)
rsplit_once c [] = none
rsplit_once c (x ∷ t) = elim (rsplit_once c t) [
  | some r ↦ some (x ∷ r.0, r.1)
  | none ↦ if x == c then some ([], t) else none
]

abbrev pub cons_to_first : ℕ → List Text → List Text
cons_to_first x [] = (x ∷ []) ∷ []
cons_to_first x (t ∷ ts) = (x ∷ t) ∷ ts

abbrev pub split : ℕ → Text → List Text
split c [] = [] ∷ []
split c (x ∷ t) = let rest = split c t in if x == c then [] ∷ rest else cons_to_first x rest

-- The byte order of `str`: `a <= b`.
abbrev pub text_le : Text → Text → Bool
text_le [] b = true
text_le (a ∷ xs) [] = false
text_le (a ∷ xs) (b ∷ ys) =
    let rest = text_le xs ys in if ltb a b then true else if ltb b a then false else rest

-- A digit of a base up to 16, lowercase.
abbrev pub digit : ℕ → ℕ
digit d = if ltb d 10 then b'0' + d else b'a' + (d - 10)

-- `{n}` and `{n:x}`; a number has fewer digits than the fuel, which is one more than itself.
abbrev pub digits_of : (base fuel n : ℕ) → Text
digits_of base zero n = []
digits_of base (suc fuel) n = elim (ltb n base) [
  | true ↦ digit n ∷ []
  | false ↦ digits_of base fuel (n / base) ++ (digit (n % base) ∷ [])
]

abbrev pub show_nat : ℕ → Text
show_nat n = digits_of 10 (suc n) n

abbrev pub show_hex : ℕ → Text
show_hex n = digits_of 16 (suc n) n

pub text_eq_iff : (a b : Text) → (text_eq a b ≡ true) ↔ (a ≡ b)
text_eq_iff [] [] = (λ _. refl, λ _. refl)
text_eq_iff [] (b ∷ ys) = ((λ h. cc), (λ h. cc))
text_eq_iff (a ∷ xs) [] = ((λ h. cc), (λ h. cc))
text_eq_iff (a ∷ xs) (b ∷ ys) = (
  λ h. ap₂ ◌∷◌ (ground arith) ((text_eq_iff xs ys).0 (ground arith)),
  λ h. let rest : text_eq xs ys ≡ true = (text_eq_iff xs ys).1 (cc) in ground arith,
)
