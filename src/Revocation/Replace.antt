-- ===== src/Revocation/Replace.antt =====
-- crates/skimasque/src/revocation.rs: the revoked set is the one last given, whatever it was.
use skimasque.Prelude.{List, [], ◌∷◌, Bool, true, false, ◌||◌, Bool-cases}
use skimasque.Prelude.{◌≡◌, refl, sym, ap, ◌∙◌, ◌⊎◌, inl, inr, and_true}
use skimasque.Prelude.Text.{Text, text_eq, text_eq_iff}
use skimasque.Revocation.{
  Set, has, is_subset, set_eq, collect, Watch, exchange, replace, is_revoked,
}

text_eq_refl : (t : Text) → text_eq t t ≡ true
text_eq_refl t = (text_eq_iff t t).1 refl

-- Equal texts are members alike.
has_equal :
    (set : Set) (sid x : Text) → text_eq sid x ≡ true → has set x ≡ true → has set sid ≡ true
has_equal set sid x e h = ap (has set) ((text_eq_iff sid x).0 e) ∙ h

absorbed : (a b : Bool) → (a ≡ true → b ≡ true) → b ≡ (a || b)
absorbed true b h = h refl
absorbed false b h = refl

has-collect : (sids : List Text) (sid : Text) → has (collect sids) sid ≡ has sids sid
has-collect [] sid = refl
has-collect (x ∷ rest) sid =
    let more = ap (λ (b : Bool). text_eq sid x || b) (has-collect rest sid) in
    elim (Bool-cases (has (collect rest) x)) [
      | inl e ↦ rw e (
          absorbed (text_eq sid x) (has (collect rest) sid)
            (λ same. has_equal (collect rest) sid x same e)
          ∙ more)
      | inr e ↦ rw e more
    ]

or_cases : (a b : Bool) → (a || b) ≡ true → (a ≡ true) ⊎ (b ≡ true)
or_cases true b h = inl refl
or_cases false b h = inr h

has-is_subset :
    (a b : Set) (sid : Text) → is_subset a b ≡ true → has a sid ≡ true → has b sid ≡ true
has-is_subset [] b sid h k = absurd (cc (k))
has-is_subset (x ∷ a) b sid h k =
    let (here, rest) = and_true (has b x) (is_subset a b) h in
    elim (or_cases (text_eq sid x) (has a sid) k) [
      | inl same ↦ has_equal b sid x same here
      | inr later ↦ has-is_subset a b sid rest later
    ]

both_ways : (a b : Bool) → (a ≡ true → b ≡ true) → (b ≡ true → a ≡ true) → a ≡ b
both_ways true b h k = sym (h refl)
both_ways false true h k = k refl
both_ways false false h k = refl

pub has-set_eq : (a b : Set) (sid : Text) → set_eq a b ≡ true → has a sid ≡ has b sid
has-set_eq a b sid h =
    let (to, back) = and_true (is_subset a b) (is_subset b a) h in
    both_ways (has a sid) (has b sid) (has-is_subset a b sid to) (has-is_subset b a sid back)

has-exchange : (next current : Set) (sid : Text) → has (exchange next current).0 sid ≡ has next sid
unfolding exchange
has-exchange next current sid = elim (Bool-cases (set_eq current next)) [
  | inl e ↦ rw e (has-set_eq current next sid e)
  | inr e ↦ rw e refl
]

module _ ⦃w : Watch⦄ where
  pub is_revoked-replace :
      (sids : List Text) (tx : w.Sender) (sid : Text)
      → is_revoked (replace sids tx) sid ≡ has sids sid
  unfolding is_revoked replace
  is_revoked-replace sids tx sid =
      ap (λ (s : Set). has s sid) (w.borrow-send_if_modified (exchange (collect sids)) tx)
      ∙ has-exchange (collect sids) (w.borrow tx) sid
      ∙ has-collect sids sid
