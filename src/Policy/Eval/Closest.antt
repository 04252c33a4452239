-- ===== src/Policy/Eval/Closest.antt =====
-- crates/skimasque-policy/src/eval.rs: the closest rules that a denial names.
use skimasque.Prelude.{
  ℕ, suc, ◌+◌, ◌*◌, List, [], ◌∷◌, ◌++◌, Bool, true, false, not, ◌&&◌, none, some, ltb,
  if◌then◌else◌, take,
}
use skimasque.Prelude.Text.{Text, text_eq, text_le, eq_ignore_ascii_case, rsplit_once, split}
use skimasque.Policy.Destination.{Destination, DestinationSpec, show}
use skimasque.Policy.Model.{Rule, Action, allow, deny, Transport, covers}
use mathlib.Core.List.{reverse}

-- `text.rsplit_once(':').unwrap_or((text, ""))`
abbrev host_and_port : Text → Text × Text
host_and_port text = elim (rsplit_once b':' text) [ none ↦ (text, []) | some r ↦ r ]

abbrev is_empty : Text → Bool
is_empty [] = true
is_empty (c ∷ t) = false

-- How many labels agree before the first two that differ.
abbrev shared_labels : List Text → List Text → ℕ
shared_labels (a ∷ xs) (b ∷ ys) =
    let rest = shared_labels xs ys in if eq_ignore_ascii_case a b then suc rest else 0
shared_labels _ _ = 0

abbrev pub proximity : Text → Destination → ℕ
proximity spec destination =
    let s : Text × Text = host_and_port spec in
    let w : Text × Text = host_and_port (show destination) in
    let port = if not (is_empty s.1) && text_eq s.1 w.1 then 3 else 0 in
    let shared = shared_labels (reverse (split b'.' s.0)) (reverse (split b'.' w.0)) in
    port + shared * 2

abbrev allows : Action → Bool
allows allow = true
allows deny = false

abbrev score_all : List DestinationSpec → Destination → List (ℕ × Text)
score_all [] destination = []
score_all (d ∷ ds) destination = (proximity d.raw destination, d.raw) ∷ score_all ds destination

-- The destinations of the allow rules for the application, with their scores.
abbrev scored : List Rule → Text → Transport → Destination → List (ℕ × Text)
scored [] application transport destination = []
scored (rule ∷ rest) application transport destination =
    let later = scored rest application transport destination in
    if allows rule.action && covers rule application transport
    then score_all rule.destinations destination ++ later
    else later

-- The comparison of `sort_by`: the higher score first, then the text.
abbrev before : ℕ × Text → ℕ × Text → Bool
before (s, a) (t, b) = if ltb t s then true else if ltb s t then false else text_le a b

-- `sort_by` is stable: equal elements keep their order.
abbrev insert : ℕ × Text → List (ℕ × Text) → List (ℕ × Text)
insert x [] = x ∷ []
insert x (y ∷ ys) = let later = insert x ys in if before x y then x ∷ y ∷ ys else y ∷ later

abbrev sort : List (ℕ × Text) → List (ℕ × Text)
sort [] = []
sort (x ∷ xs) = insert x (sort xs)

-- `dedup_by_key`: of neighbours with one text only the first stays.
abbrev dedup_after : ℕ × Text → List (ℕ × Text) → List (ℕ × Text)
dedup_after x [] = []
dedup_after x (y ∷ ys) = elim (text_eq x.1 y.1) [
  | true ↦ dedup_after x ys
  | false ↦ y ∷ dedup_after y ys
]

abbrev dedup : List (ℕ × Text) → List (ℕ × Text)
dedup [] = []
dedup (x ∷ xs) = x ∷ dedup_after x xs

abbrev texts : List (ℕ × Text) → List Text
texts [] = []
texts (x ∷ xs) = x.1 ∷ texts xs

abbrev pub closest_destinations : List Rule → Text → Transport → Destination → List Text
closest_destinations rules application transport destination =
    texts (take 3 (dedup (sort (scored rules application transport destination))))
