-- ===== src/Prelude/Results.antt =====
-- Rust's `Result<A, E>` with the error type first, its `?` as bind, and `map_err`.
use mathlib.Core.Path.{◌≡◌, refl, subst}
use mathlib.Core.Option.{Option, none, some}
use mathlib.Core.Logic.{◌⊎◌, inl, inr}
use mathlib.Core.Bool.{Bool, true, false}
use skimasque.Prelude.Tests.{if◌then◌else◌}

pub data Result {ℓ κ} (E : Type κ) (A : Type ℓ) : Type (ℓ ⊔ κ) where
  ok : A → Result E A
  err : E → Result E A

infixl 5 ◌>>=◌
abbrev pub ◌>>=◌ {ℓ κ ι} :
    {E : Type ι} {A : Type ℓ} {B : Type κ} → Result E A → (A → Result E B) → Result E B
ok a >>= f = f a
err e >>= f = err e

-- `r.map_err(|_| e)`
abbrev pub or_err {ℓ κ ι} : {E : Type ι} {F : Type κ} {A : Type ℓ} → Result E A → F → Result F A
or_err (ok a) e = ok a
or_err (err _) e = err e

-- `o.ok_or(e)`
abbrev pub ok_or {ℓ κ} : {E : Type κ} {A : Type ℓ} → Option A → E → Result E A
ok_or (some a) e = ok a
ok_or none e = err e

pub Result-cases {ℓ κ} :
    {E : Type κ} {A : Type ℓ} (r : Result E A) → ((a : A) × (r ≡ ok a)) ⊎ ((e : E) × (r ≡ err e))
Result-cases (ok a) = inl (a, refl)
Result-cases (err e) = inr (e, refl)

-- What holds of the value if there is one, rule by rule along a chain.
abbrev pub Post {ℓ κ ι} : {E : Type κ} {A : Type ℓ} → (A → Type ι) → Result E A → Type ι
Post P (ok a) = P a
Post P (err _) = Unit

pub Post-bind {ℓ κ ι μ ν} :
    {E : Type κ} {A : Type ℓ} {B : Type ι} (Q : A → Type μ) (P : B → Type ν) (r : Result E A)
    (f : A → Result E B)
    → Post Q r
    → ((a : A) → Q a → Post P (f a))
    → Post P (r >>= f)
Post-bind Q P (ok a) f h k = k a h
Post-bind Q P (err e) f h k = tt

-- A step that the property asks nothing of.
pub Post-skip {ℓ κ ι μ} :
    {E : Type κ} {A : Type ℓ} {B : Type ι} (P : B → Type μ) (r : Result E A) (f : A → Result E B)
    → ((a : A) → Post P (f a))
    → Post P (r >>= f)
Post-skip P (ok a) f k = k a
Post-skip P (err e) f k = tt

module _ {ℓ κ ι} {E : Type κ} {A : Type ℓ} (P : A → Type ι) where
  pub Post-ok_or : (o : Option A) (e : E) → ((a : A) → o ≡ some a → P a) → Post P (ok_or o e)
  Post-ok_or (some a) e h = h a refl
  Post-ok_or none e h = tt

  pub Post-if :
      (b : Bool) (r s : Result E A)
      → (b ≡ true → Post P r)
      → (b ≡ false → Post P s)
      → Post P (if b then r else s)
  Post-if true r s h k = h refl
  Post-if false r s h k = k refl

  pub Post_returns : (r : Result E A) (a : A) → Post P r → r ≡ ok a → P a
  Post_returns (ok b) a h e = subst P (let k : b ≡ a = cc in k) h
  Post_returns (err x) a h e = absurd (cc (e))

-- A chain that returned went through its first step.
pub >>=_ok {ℓ κ ι} :
    {E : Type κ} {A : Type ℓ} {B : Type ι} (r : Result E A) (f : A → Result E B) (b : B)
    → (r >>= f) ≡ ok b
    → (a : A) × (r ≡ ok a) × (f a ≡ ok b)
>>=_ok (ok a) f b h = (a, refl, h)
>>=_ok (err e) f b h = absurd (cc (h))
