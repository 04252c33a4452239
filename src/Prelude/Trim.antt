-- ===== src/Prelude/Trim.antt =====
-- `str::trim` on UTF-8 bytes, and the other searches of `str` that the parsers use.
use skimasque.Prelude.{
  ℕ, zero, suc, [], ◌∷◌, ◌++◌, Bool, ◌&&◌, ◌||◌, Option, none, some, leb, ◌==◌, if◌then◌else◌, any,
  All, ◌<◌, ◌≡◌, refl, ◌∙◌, append-nil, arith,
}
use skimasque.Prelude.Text.{Text, lower}

-- The length of the white space character in front, 0 when there is none.
abbrev pub white_len : Text → ℕ
white_len [] = 0
white_len (a ∷ []) = if (leb 9 a && leb a 13) || (a == 32) then 1 else 0
white_len (a ∷ b ∷ []) =
    if (leb 9 a && leb a 13) || (a == 32)
    then 1
    else if (a == 194) && ((b == 133) || (b == 160))
    then 2
    else 0
white_len (a ∷ b ∷ c ∷ t) =
    if (leb 9 a && leb a 13) || (a == 32)
    then 1
    else if (a == 194) && ((b == 133) || (b == 160))
    then 2
    else if (a == 225) && ((b == 154) && (c == 128))
    then 3
    else if (a == 226)
        && ((b == 128) && ((leb 128 c && leb c 138) || ((c == 168) || ((c == 169) || (c == 175)))))
    then 3
    else if (a == 226) && ((b == 129) && (c == 159))
    then 3
    else if (a == 227) && ((b == 128) && (c == 128))
    then 3
    else 0

abbrev reverse_onto : Text → Text → Text
reverse_onto acc [] = acc
reverse_onto acc (c ∷ t) = reverse_onto (c ∷ acc) t

-- The same, for a text whose bytes stand in reverse order.
abbrev white_len_back : Text → ℕ
white_len_back [] = 0
white_len_back (a ∷ []) = white_len (a ∷ [])
white_len_back (b ∷ a ∷ []) =
    if white_len (b ∷ []) == 1 then 1 else if white_len (a ∷ b ∷ []) == 2 then 2 else 0
white_len_back (c ∷ b ∷ a ∷ t) =
    if white_len (c ∷ []) == 1
    then 1
    else if white_len (b ∷ c ∷ []) == 2
    then 2
    else if white_len (a ∷ b ∷ c ∷ []) == 3
    then 3
    else 0

-- Drops the bytes that belong to white space characters, with a count of bytes still to drop.
abbrev trim_front : (measure : Text → ℕ) (pending : ℕ) → Text → Text
trim_front measure pending [] = []
trim_front measure (suc n) (c ∷ t) = trim_front measure n t
trim_front measure zero (c ∷ t) = elim (measure (c ∷ t)) [
  | zero ↦ c ∷ t
  | suc n ↦ trim_front measure n t
]

-- `text.trim()`
unfoldable pub trim : Text → Text
trim t = reverse_onto [] (trim_front white_len_back 0 (reverse_onto [] (trim_front white_len 0 t)))

-- `text.contains(c)`
abbrev pub contains : ℕ → Text → Bool
contains c t = any (λ x. x == c) t

-- `text.strip_suffix(c)`
abbrev pub strip_last : ℕ → Text → Option Text
strip_last c [] = none
strip_last c (x ∷ []) = if x == c then some [] else none
strip_last c (x ∷ y ∷ t) = elim (strip_last c (y ∷ t)) [ none ↦ none | some r ↦ some (x ∷ r) ]

-- `is_ascii_alphanumeric`
abbrev pub is_alphanumeric : ℕ → Bool
is_alphanumeric c =
    (leb b'0' c && leb c b'9') || ((leb b'A' c && leb c b'Z') || (leb b'a' c && leb c b'z'))

-- `to_ascii_lowercase` of a text
abbrev pub lowercase : Text → Text
lowercase [] = []
lowercase (c ∷ t) = lower c ∷ lowercase t

-- A visible ASCII byte.
abbrev pub IsVisible : ℕ → Type 0
IsVisible c = (32 < c) × (c < 127)

white_len-visible : (c : ℕ) (t : Text) → IsVisible c → white_len (c ∷ t) ≡ 0
white_len-visible c [] h = ground arith
white_len-visible c (b ∷ []) h = ground arith
white_len-visible c (b ∷ a ∷ t) h = ground arith

white_len_back-visible : (c : ℕ) (t : Text) → All IsVisible (c ∷ t) → white_len_back (c ∷ t) ≡ 0
white_len_back-visible c [] (h, _) = white_len-visible c [] h
white_len_back-visible c (b ∷ []) (h, (k, _)) =
    rw (white_len-visible c [] h, white_len-visible b (c ∷ []) k) refl
white_len_back-visible c (b ∷ a ∷ t) (h, (k, (l, _))) =
    rw
      (white_len-visible c [] h, white_len-visible b (c ∷ []) k, white_len-visible a (b ∷ c ∷ []) l)
      refl

trim_front-zero :
    (measure : Text → ℕ) (c : ℕ) (t : Text)
    → measure (c ∷ t) ≡ 0
    → trim_front measure 0 (c ∷ t) ≡ c ∷ t
trim_front-zero measure c t h = rw (trim_front, h) refl

trim_front-visible : (t : Text) → All IsVisible t → trim_front white_len 0 t ≡ t
trim_front-visible [] h = refl
trim_front-visible (c ∷ t) (h, _) = trim_front-zero white_len c t (white_len-visible c t h)

trim_front-back_visible : (t : Text) → All IsVisible t → trim_front white_len_back 0 t ≡ t
trim_front-back_visible [] h = refl
trim_front-back_visible (c ∷ t) h =
    trim_front-zero white_len_back c t (white_len_back-visible c t h)

reverse_onto-reverse_onto :
    (acc b t : Text) → reverse_onto acc (reverse_onto b t) ≡ reverse_onto (t ++ acc) b
reverse_onto-reverse_onto acc b [] = refl
reverse_onto-reverse_onto acc b (c ∷ t) = reverse_onto-reverse_onto acc (c ∷ b) t

All-reverse_onto :
    (acc t : Text) → All IsVisible acc → All IsVisible t → All IsVisible (reverse_onto acc t)
All-reverse_onto acc [] h k = h
All-reverse_onto acc (c ∷ t) h (k, l) = All-reverse_onto (c ∷ acc) t (k, h) l

-- There is nothing to trim from visible bytes.
pub trim-visible : (t : Text) → All IsVisible t → trim t ≡ t
unfolding trim
trim-visible t h =
    rw
      (
        trim_front-visible t h,
        trim_front-back_visible (reverse_onto [] t) (All-reverse_onto [] t tt h),
      )
      (reverse_onto-reverse_onto [] [] t ∙ append-nil t)
