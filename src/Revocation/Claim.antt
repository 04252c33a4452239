-- ===== src/Revocation/Claim.antt =====
-- crates/skimasque/src/revocation.rs: which `exp` claim `credential_expiry` reads from a request.
use skimasque.Prelude.{
  ℕ, List, [], ◌∷◌, ◌++◌, false, Option, none, some, append-nil, ◌≡◌, ◌⊎◌, refl, ap, sym, ◌∙◌, inl,
  inr,
}
use mathlib.Core.Path.{subst}
use skimasque.Prelude.Text.{Text, codes, split, strip_prefix}
use skimasque.Prelude.Trim.{contains}
use skimasque.Prelude.Split.{split_absent, split-append, split_front, strip_prefix-some}
use skimasque.Revocation.Layer.{TokenCrates, TunnelRequest, nth_1, and_then, exp_claim}

-- The second of the parts of a token between its dots.
abbrev pub IsPayload : (token part : Text) → Type 0
IsPayload token part =
    (first : Text) × (rest : Text) × (contains b'.' first ≡ false)
    × (contains b'.' part ≡ false)
    × (token ≡ first ++ (b'.' ∷ (part ++ rest)))
    × ((rest ≡ []) ⊎ ((more : Text) × (rest ≡ b'.' ∷ more)))

-- The request carries a bearer token whose payload has this `exp` claim.
abbrev pub HasExp : {R : Type 0} → TokenCrates → TunnelRequest R → ℕ → Type 0
HasExp t request exp =
    (header : List ℕ) × (token : Text) × (part : Text) × (payload : List ℕ)
    × (request.proxy_authorization ≡ some header)
    × (t.to_str header ≡ some (codes "Bearer " ++ token))
    × IsPayload token part
    × (t.decode part ≡ some payload)
    × (t.exp_of payload ≡ some exp)

first_part :
    (u part rest : Text)
    → contains b'.' part ≡ false
    → u ≡ part ++ rest
    → (rest ≡ []) ⊎ ((more : Text) × (rest ≡ b'.' ∷ more))
    → (ts : List Text) × (split b'.' u ≡ part ∷ ts)
first_part u part rest h e (inl k) =
    let whole : u ≡ part = e ∙ ap (λ (r : Text). part ++ r) k ∙ append-nil part in
    ([], ap (split b'.') whole ∙ split_absent b'.' part h)
first_part u part rest h e (inr (more, k)) =
    let whole : u ≡ part ++ (b'.' ∷ more) = e ∙ ap (λ (r : Text). part ++ r) k in
    (split b'.' more, ap (split b'.') whole ∙ split-append b'.' part more h)

nth_1-IsPayload : (token part : Text) → IsPayload token part → nth_1 (split b'.' token) ≡ some part
nth_1-IsPayload token part (first, rest, h, k, e, end) =
    let (ts, f) = first_part (part ++ rest) part rest k refl end in
    rw (e, split-append b'.' first (part ++ rest) h, f) refl

some_injective : (a b : Text) → (let o : Option Text = some a in o ≡ some b) → a ≡ b
some_injective a b h = cc

-- What follows the first dot, cut at its own first dot.
behind_dot :
    (first u part : Text)
    → contains b'.' first ≡ false
    → nth_1 (first ∷ split b'.' u) ≡ some part
    → IsPayload (first ++ (b'.' ∷ u)) part
behind_dot first u part h e =
    let (a, k, whole) = split_front b'.' u in
    elim whole [
      | inl l ↦
          let (ts, f) = first_part u a [] k (l ∙ sym (append-nil a)) (inl refl) in
          let same : a ≡ part = some_injective a part (rw f at e) in
          (
            first,
            [],
            h,
            subst (λ (x : Text). contains b'.' x ≡ false) same k,
            ap (λ (x : Text). first ++ (b'.' ∷ x)) (l ∙ same ∙ sym (append-nil part)),
            inl refl,
          )
      | inr (more, l) ↦
          let (ts, f) = first_part u a (b'.' ∷ more) k l (inr (more, refl)) in
          let same : a ≡ part = some_injective a part (rw f at e) in
          (
            first,
            b'.' ∷ more,
            h,
            subst (λ (x : Text). contains b'.' x ≡ false) same k,
            ap (λ (x : Text). first ++ (b'.' ∷ x)) (l ∙ ap (λ (x : Text). x ++ (b'.' ∷ more)) same),
            inr (more, refl),
          )
    ]

IsPayload-nth_1 : (token part : Text) → nth_1 (split b'.' token) ≡ some part → IsPayload token part
IsPayload-nth_1 token part e =
    let (first, h, whole) = split_front b'.' token in
    elim whole [
      | inl l ↦ absurd (
          let f : split b'.' token ≡ first ∷ [] = ap (split b'.') l ∙ split_absent b'.' first h in
          let k : none ≡ some part = rw f at e in cc (k))
      | inr (u, l) ↦
          let f : split b'.' token ≡ first ∷ split b'.' u =
            ap (split b'.') l ∙ split-append b'.' first u h in
          subst (λ (x : Text). IsPayload x part) (sym l) (behind_dot first u part h (rw f at e))
    ]

and_then-some {ℓ κ} :
    {A : Type ℓ} {B : Type κ} (o : Option A) (f : A → Option B) (b : B)
    → and_then o f ≡ some b
    → (a : A) × (o ≡ some a) × (f a ≡ some b)
and_then-some none f b h = absurd (cc (h))
and_then-some (some a) f b h = (a, refl, h)

module _ {R : Type 0} (t : TokenCrates) (request : TunnelRequest R) where
  pub exp_claim-HasExp : (exp : ℕ) → exp_claim t request ≡ some exp → HasExp t request exp
  unfolding exp_claim
  exp_claim-HasExp exp h =
      let (header, a, h1) = and_then-some request.proxy_authorization _ exp h in
      let (value, b, h2) = and_then-some (t.to_str header) _ exp h1 in
      let (token, c, h3) = and_then-some (strip_prefix value (codes "Bearer ")) _ exp h2 in
      let (part, d, h4) = and_then-some (nth_1 (split b'.' token)) _ exp h3 in
      let (payload, e, h5) = and_then-some (t.decode part) _ exp h4 in
      (
        header,
        token,
        part,
        payload,
        a,
        b ∙ ap (λ (x : Text). some x) (strip_prefix-some value (codes "Bearer ") token c),
        IsPayload-nth_1 token part d,
        e,
        h5,
      )

  pub HasExp-exp_claim : (exp : ℕ) → HasExp t request exp → exp_claim t request ≡ some exp
  unfolding exp_claim
  HasExp-exp_claim exp (header, token, part, payload, a, b, c, d, e) =
      rw (a, b, nth_1-IsPayload token part c, d) e
