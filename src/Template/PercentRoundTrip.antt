-- ===== src/Template/PercentRoundTrip.antt =====
-- crates/skimasque-core/src/template.rs: `pct_decode` after `pct_encode`.
use skimasque.Prelude.{
  ℕ, zero, suc, ◌/◌, ◌%◌, ◌<◌, [], ◌∷◌, ◌++◌, true, false, ◌&&◌, Option, none, some, leb, ◌==◌, All,
  Bool-cases, Option-cases,
}
use skimasque.Prelude.{◌≡◌, refl, ap, ◌∙◌, inl, inr, and_true, arith}
use skimasque.Prelude.Text.{Text}
use skimasque.Prelude.Numbers.{parse_number}
use skimasque.Template.Percent.{
  is_unreserved, upper_digit, encoded_byte, pct_encode, announced, utf8_from, is_utf8, and_cons,
  decoded_bytes, when_utf8, pct_decode, escape_read,
}

abbrev pub IsByte : ℕ → Type 0
IsByte b = b < 256

announced-IsByte : (c : ℕ) (r : (ℕ × ℕ) × ℕ) → announced c ≡ some r → IsByte c
announced-IsByte c r h = elim (Bool-cases (leb c 255)) [
  | inl e ↦ ground arith
  | inr e ↦ absurd (let k : announced c ≡ none = ground arith in cc (h, k))
]

announced_bound : (c : ℕ) (r : (ℕ × ℕ) × ℕ) → announced c ≡ some r → r.1 < 256
announced_bound c r h = ground arith

utf8_from-IsByte : (n lo hi : ℕ) (t : Text) → hi < 256 → utf8_from n lo hi t ≡ true → All IsByte t
utf8_from-IsByte n lo hi [] b h = tt
utf8_from-IsByte (suc n) lo hi (c ∷ t) b h =
    let (_, k) = and_true (leb lo c) (leb c hi && utf8_from n 128 191 t) h in
    let (l, m) = and_true (leb c hi) (utf8_from n 128 191 t) k in
    (ground arith, utf8_from-IsByte n 128 191 t (omega arith) m)
utf8_from-IsByte zero lo hi (c ∷ t) b h = elim (Option-cases (announced c)) [
  | inl e ↦ absurd (let k = rw (utf8_from, e) at h in cc (k))
  | inr (r, e) ↦
      let k : utf8_from r.0.0 r.0.1 r.1 t ≡ true = rw (utf8_from, e) at h in
      (announced-IsByte c r e, utf8_from-IsByte r.0.0 r.0.1 r.1 t (announced_bound c r e) k)
]

decoded_bytes_nil : decoded_bytes [] ≡ some []
unfolding decoded_bytes
decoded_bytes_nil = refl

decoded_bytes_plain :
    (b : ℕ) (t : Text)
    → (b == b'%') ≡ false
    → decoded_bytes (b ∷ t) ≡ and_cons (some b) (decoded_bytes t)
unfolding decoded_bytes
decoded_bytes_plain b [] h = rw h refl
decoded_bytes_plain b (a ∷ []) h = rw h refl
decoded_bytes_plain b (a ∷ c ∷ t) h = rw (decoded_bytes, h) refl

decoded_bytes_escape :
    (a b : ℕ) (t : Text)
    → decoded_bytes (b'%' ∷ a ∷ b ∷ t)
      ≡ and_cons (parse_number 255 16 (a ∷ b ∷ [])) (decoded_bytes t)
unfolding decoded_bytes
decoded_bytes_escape a b t = refl

unreserved_not_percent : (b : ℕ) → is_unreserved b ≡ true → (b == b'%') ≡ false
unfolding is_unreserved
unreserved_not_percent b h = ground arith

decoded_bytes-encoded_byte :
    (b : ℕ) (t : Text)
    → b < 256
    → decoded_bytes (encoded_byte b ++ t) ≡ and_cons (some b) (decoded_bytes t)
decoded_bytes-encoded_byte b t h = elim (Bool-cases (is_unreserved b)) [
  | inl e ↦ rw e (decoded_bytes_plain b t (unreserved_not_percent b e))
  | inr e ↦ rw e (
      decoded_bytes_escape (upper_digit (b / 16)) (upper_digit (b % 16)) t
      ∙ ap (λ (o : Option ℕ). and_cons o (decoded_bytes t)) (escape_read b h))
]

decoded_bytes-pct_encode : (v : Text) → All IsByte v → decoded_bytes (pct_encode v) ≡ some v
unfolding pct_encode
decoded_bytes-pct_encode [] h = decoded_bytes_nil
decoded_bytes-pct_encode (b ∷ v) (h, k) =
    decoded_bytes-encoded_byte b (pct_encode v) h
    ∙ ap (and_cons (some b)) (decoded_bytes-pct_encode v k)

pub pct_decode-pct_encode : (v : Text) → is_utf8 v ≡ true → pct_decode (pct_encode v) ≡ some v
unfolding pct_decode
pct_decode-pct_encode v h =
    ap when_utf8 (decoded_bytes-pct_encode v (utf8_from-IsByte 0 0 0 v (omega arith) h)) ∙ rw h refl

pub is_utf8-IsByte : (t : Text) → is_utf8 t ≡ true → All IsByte t
is_utf8-IsByte t h = utf8_from-IsByte 0 0 0 t (omega arith) h
