-- ===== src/Varint/Extend.antt =====
-- `decode_slice` when bytes are added to the input or cut off it.
use skimasque.Prelude.{ℕ, suc, ◌-◌, ◌/◌, ◌^◌, ◌≤◌, ◌<◌, bit_and}
use skimasque.Prelude.{List, [], ◌∷◌, ◌++◌, length, take, drop}
use skimasque.Prelude.{◌≡◌, sym, ap, ◌∙◌, arith}
use skimasque.Prelude.{
  ok, length-append, length-take, take-append, take-append-drop, take-take_self,
}
use skimasque.Prelude.Bytes.{AreBytes}
use skimasque.Varint.{shift_in, decode_slice}
use native.Mathlib.Nat.{one-le-pow}
use skimasque.Varint.Decode.{len_of, len_of_bounds, decode_slice_long, decode_slice_enough}

-- When `decode_slice` returns a value and a length, it returns the same for the input with
-- anything behind it.
pub decode_slice-append_ok :
    (input more : List ℕ) (p : ℕ × ℕ)
    → decode_slice input ≡ ok p
    → decode_slice (input ++ more) ≡ ok p
decode_slice-append_ok [] more p e = absurd (unfold decode_slice in cc e)
decode_slice-append_ok (first ∷ rest) more p e =
    let enough : len_of first ≤ suc (length rest) = decode_slice_enough first rest p e in
    let longer : len_of first ≤ suc (length (rest ++ more)) =
      omega (arith, length-append rest more) in
    let same : take (len_of first - 1) (rest ++ more) ≡ take (len_of first - 1) rest =
      take-append (len_of first - 1) rest more (omega arith) in
    decode_slice_long first (rest ++ more) longer
    ∙ rw same (sym (decode_slice_long first rest enough))
    ∙ e

-- The announced length does not exceed what there is, when eight bytes more have come.
completes :
    (first : ℕ) (rest : List ℕ)
    → first < 256
    → 8 ≤ suc (length rest)
    → (p : ℕ × ℕ) × (decode_slice (first ∷ rest) ≡ ok p)
completes first rest h room =
    let (least, most) = len_of_bounds first h in
    (
      (shift_in (bit_and first 0x3f) (take (len_of first - 1) rest), len_of first),
      decode_slice_long first rest (omega arith),
    )

-- Whatever bytes the input holds, with eight or more bytes behind it `decode_slice` returns a
-- value.
pub decode_slice_completes :
    (input more : List ℕ)
    → AreBytes input
    → AreBytes more
    → 8 ≤ length more
    → (p : ℕ × ℕ) × (decode_slice (input ++ more) ≡ ok p)
decode_slice_completes [] [] h k room = absurd (omega arith)
decode_slice_completes [] (m ∷ more) h k room = completes m more k.0 room
decode_slice_completes (first ∷ rest) more h k room =
    completes first (rest ++ more) h.0 (omega (arith, length-append rest more))

-- A decoded varint is cut off the input: its bytes alone decode to the same value.
pub decode_slice_front :
    (input : List ℕ) (v len : ℕ)
    → decode_slice input ≡ ok (v, len)
    → (front : List ℕ) × (front ++ drop len input ≡ input)
      × (length front ≡ len)
      × (decode_slice front ≡ ok (v, len))
decode_slice_front [] v len e = absurd (unfold decode_slice in cc e)
decode_slice_front (first ∷ rest) v len e =
    let enough : len_of first ≤ suc (length rest) = decode_slice_enough first rest (v, len) e in
    let n : ℕ = len_of first - 1 in
    let some_bytes : 1 ≤ len_of first = omega (arith, one-le-pow (first / 2 ^ 6) 2 (omega arith)) in
    let long : decode_slice (first ∷ rest)
        ≡ ok (shift_in (bit_and first 0x3f) (take n rest), len_of first) =
      decode_slice_long first rest enough in
    let size : len ≡ suc n = omega (arith, len_eq long) in
    let cut : length (take n rest) ≡ n = length-take n rest (omega arith) in
    (
      first ∷ take n rest,
      rw size (ap (λ (t : List ℕ). first ∷ t) (take-append-drop n rest)),
      omega arith,
      decode_slice_long first (take n rest) (omega arith)
          ∙ rw (take-take_self n rest) (sym long)
          ∙ e,
    )
  where
    len_eq : {w : ℕ} → decode_slice (first ∷ rest) ≡ ok (w, len_of first) → len ≡ len_of first
    len_eq r = cc (e, r)
