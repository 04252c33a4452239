-- ===== src/Prelude/Case.antt =====
-- `eq_ignore_ascii_case` as a relation: the same letters, each in either case.
use skimasque.Prelude.{ℕ, ◌+◌, ◌≤◌, [], ◌∷◌, true, ◌==◌, ◌≡◌, ◌⊎◌, ◌↔◌, refl, arith, and_true}
use skimasque.Prelude.Text.{Text, lower, eq_ignore_ascii_case}

-- The same byte, or one an ASCII capital and the other its small letter.
abbrev pub SameLetter : (a b : ℕ) → Type 0
SameLetter a b =
    (a ≡ b) ⊎ ((b'A' ≤ a) × (a ≤ b'Z') × (b ≡ a + 32)) ⊎ ((b'A' ≤ b) × (b ≤ b'Z') × (a ≡ b + 32))

abbrev pub SameButCase : Text → Text → Type 0
SameButCase [] [] = Unit
SameButCase (a ∷ xs) (b ∷ ys) = SameLetter a b × SameButCase xs ys
SameButCase _ _ = ⊥

lower_iff : (a b : ℕ) → ((lower a == lower b) ≡ true) ↔ SameLetter a b
lower_iff a b = (λ h. ground arith, λ h. ground arith)

pub eq_ignore_ascii_case_iff : (a b : Text) → (eq_ignore_ascii_case a b ≡ true) ↔ SameButCase a b
eq_ignore_ascii_case_iff [] [] = ((λ _. tt), (λ _. refl))
eq_ignore_ascii_case_iff [] (b ∷ ys) = ((λ h. cc), (λ h. absurd h))
eq_ignore_ascii_case_iff (a ∷ xs) [] = ((λ h. cc), (λ h. absurd h))
eq_ignore_ascii_case_iff (a ∷ xs) (b ∷ ys) = (
  λ h.
      let (x, t) = and_true (lower a == lower b) (eq_ignore_ascii_case xs ys) h in
      ((lower_iff a b).0 x, (eq_ignore_ascii_case_iff xs ys).0 t),
  λ h. rw ((lower_iff a b).1 h.0) ((eq_ignore_ascii_case_iff xs ys).1 h.1),
)
