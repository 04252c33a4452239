-- ===== src/Net/Display.antt =====
-- The standard library's text of an IP address, which the policy engine puts into its denials.
use skimasque.Prelude.{
  ℕ, zero, suc, ◌+◌, ◌-◌, ◌*◌, ◌/◌, ◌%◌, ◌^◌, List, [], ◌∷◌, ◌++◌, true, false, ltb, ◌==◌,
  if◌then◌else◌, take, drop,
}
use skimasque.Prelude.Text.{Text, codes, show_nat, show_hex}
use skimasque.Net.{IpAddr, v4, v6}

abbrev pub show_v4 : ℕ → Text
show_v4 a =
    show_nat (a / 2 ^ 24 % 256)
    ++ codes "."
    ++ show_nat (a / 2 ^ 16 % 256)
    ++ codes "."
    ++ show_nat (a / 2 ^ 8 % 256)
    ++ codes "."
    ++ show_nat (a % 256)

-- The `n` low 16-bit groups of an address, the highest first.
abbrev pub segments : ℕ → ℕ → List ℕ
segments zero a = []
segments (suc n) a = a / 2 ^ (16 * n) % 2 ^ 16 ∷ segments n a

pub record Span : Type 0 where
  pub start : ℕ
  pub len : ℕ

-- The first of the longest runs of zero groups.
abbrev pub longest_zeros : (i : ℕ) (current longest : Span) → List ℕ → Span
longest_zeros i current longest [] = longest
longest_zeros i current longest (s ∷ rest) =
    let run : Span = record {
      start = if current.len == 0 then i else current.start;
      len = current.len + 1;
    } in
    let best : Span = if ltb longest.len run.len then run else longest in
    elim (s == 0) [
      | true ↦ longest_zeros (i + 1) run best rest
      | false ↦ longest_zeros (i + 1) (record { start = 0; len = 0 }) longest rest
    ]

abbrev pub show_groups : List ℕ → Text
show_groups [] = []
show_groups (s ∷ []) = show_hex s
show_groups (s ∷ t ∷ rest) = show_hex s ++ codes ":" ++ show_groups (t ∷ rest)

abbrev pub show_v6 : ℕ → Text
show_v6 a =
    let groups = segments 8 a in
    let none_yet : Span = record { start = 0; len = 0 } in
    let zeros : Span = longest_zeros 0 none_yet none_yet groups in
    if a / 2 ^ 32 == 2 ^ 16 - 1
    then codes "::ffff:" ++ show_v4 (a % 2 ^ 32)
    else if ltb 1 zeros.len
    then show_groups (take zeros.start groups)
      ++ codes "::"
      ++ show_groups (drop (zeros.start + zeros.len) groups)
    else show_groups groups

unfoldable pub show_ip : IpAddr → Text
show_ip (v4 a) = show_v4 a
show_ip (v6 a) = show_v6 a
