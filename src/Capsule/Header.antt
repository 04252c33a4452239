-- ===== src/Capsule/Header.antt =====
-- The header that `next_capsule` reads, on any buffer: when it is there, and what more input changes.
use skimasque.Prelude.{ℕ, ◌+◌, ◌-◌, ◌≤◌, ◌<◌, List, [], ◌++◌, length, drop, ◌≡◌, refl, arith}
use skimasque.Prelude.{some, none, Option, ok, err}
use skimasque.Prelude.{Result-cases, inl, inr, ◌⊎◌, length-drop, All-drop, drop-append}
use skimasque.Prelude.Bytes.{AreBytes, IsByte}
use native.Mathlib.Decide.{dec_lt}
use skimasque.Varint
use skimasque.Varint.Decode.{decode_slice_len, decode_slice_bounds}
use skimasque.Varint.Extend.{decode_slice-append_ok, decode_slice_completes}

-- Type, value length and header length, when the buffer holds the whole header.
unfoldable pub read_header : List ℕ → Option (ℕ × ℕ × ℕ)
read_header buf = elim (Varint.decode_slice buf) [
  | err _ ↦ none
  | ok (kind, type_len) ↦ elim (Varint.decode_slice (drop type_len buf)) [
    | err _ ↦ none
    | ok (value_len, len_len) ↦ some (kind, value_len, type_len + len_len)
  ]
]

-- How a header comes about.
pub read_header_intro :
    (buf : List ℕ) (kind type_len value_len len_len : ℕ)
    → Varint.decode_slice buf ≡ ok (kind, type_len)
    → Varint.decode_slice (drop type_len buf) ≡ ok (value_len, len_len)
    → read_header buf ≡ some (kind, value_len, type_len + len_len)
unfolding read_header
read_header_intro buf kind type_len value_len len_len e f = rw (e, read_header, f)

read_header_no_type :
    (buf : List ℕ) {x : Varint.Error} → Varint.decode_slice buf ≡ err x → read_header buf ≡ none
unfolding read_header
read_header_no_type buf e = rw (e, read_header)

read_header_no_len :
    (buf : List ℕ) {kind type_len : ℕ} {x : Varint.Error}
    → Varint.decode_slice buf ≡ ok (kind, type_len)
    → Varint.decode_slice (drop type_len buf) ≡ err x
    → read_header buf ≡ none
unfolding read_header
read_header_no_len buf e f = rw (e, read_header, f)

-- What a header that was read is made of.
pub record Header (buf : List ℕ) (kind value_len header_len : ℕ) : Type 0 where
  pub type_len : ℕ
  pub len_len : ℕ
  pub type_read : Varint.decode_slice buf ≡ ok (kind, type_len)
  pub len_read : Varint.decode_slice (drop type_len buf) ≡ ok (value_len, len_len)
  pub total : header_len ≡ type_len + len_len

pub read_header_cases :
    (buf : List ℕ)
    → ((kind value_len header_len : ℕ) × (read_header buf ≡ some (kind, value_len, header_len))
        × Header buf kind value_len header_len)
      ⊎ (read_header buf ≡ none)
read_header_cases buf = elim (Result-cases (Varint.decode_slice buf)) [
  | inr (x, e) ↦ inr (read_header_no_type buf e)
  | inl ((kind, type_len), e) ↦ elim (Result-cases (Varint.decode_slice (drop type_len buf))) [
    | inr (x, f) ↦ inr (read_header_no_len buf e f)
    | inl ((value_len, len_len), f) ↦ inl (
      kind,
      value_len,
      type_len + len_len,
      read_header_intro buf kind type_len value_len len_len e f,
      record { type_len = type_len; len_len = len_len; type_read = e; len_read = f; total = refl },
    )
  ]
]

-- A header lies within the buffer and is not empty.
pub Header-bounds :
    {buf : List ℕ} {kind value_len header_len : ℕ}
    → Header buf kind value_len header_len
    → (2 ≤ header_len) × (header_len ≤ length buf)
Header-bounds {buf} {kind} {value_len} {header_len} h =
    let (t0, t1) = decode_slice_len buf kind h.type_len h.type_read in
    let (l0, l1) = decode_slice_len (drop h.type_len buf) value_len h.len_len h.len_read in
    let left : length (drop h.type_len buf) ≡ length buf - h.type_len =
      length-drop h.type_len buf in
    let total : header_len ≡ h.type_len + h.len_len = h.total in (omega arith, omega arith)

-- Of bytes, a header has sixteen at most, and its two numbers fit a varint.
pub Header-size :
    {buf : List ℕ} {kind value_len header_len : ℕ}
    → AreBytes buf
    → Header buf kind value_len header_len
    → (header_len ≤ 16) × (kind ≤ Varint.max) × (value_len ≤ Varint.max)
Header-size {buf} {kind} {value_len} {header_len} bytes h =
    let (_, k, _, short, _) = decode_slice_bounds buf kind h.type_len bytes h.type_read in
    let (_, v, _, short', _) =
      decode_slice_bounds (drop h.type_len buf) value_len h.len_len
        (All-drop IsByte h.type_len buf bytes) h.len_read in
    let total : header_len ≡ h.type_len + h.len_len = h.total in (omega arith, k, v)

-- More input does not change a header.
pub Header-append :
    {buf : List ℕ} {kind value_len header_len : ℕ} (more : List ℕ)
    → Header buf kind value_len header_len
    → Header (buf ++ more) kind value_len header_len
Header-append {buf} {kind} {value_len} {header_len} more h =
    let (t0, t1) = decode_slice_len buf kind h.type_len h.type_read in
    let behind : drop h.type_len (buf ++ more) ≡ drop h.type_len buf ++ more =
      drop-append h.type_len buf more t1 in
    record {
      type_len = h.type_len;
      len_len = h.len_len;
      type_read = decode_slice-append_ok buf more _ h.type_read;
      len_read = rw behind (decode_slice-append_ok (drop h.type_len buf) more _ h.len_read);
      total = h.total;
    }

-- Sixteen bytes always hold a header.
read_header_ready :
    (buf : List ℕ) → AreBytes buf → 16 ≤ length buf → (p : ℕ × ℕ × ℕ) × (read_header buf ≡ some p)
read_header_ready buf h room =
    let ((kind, type_len), e) = decode_slice_completes [] buf tt h (omega arith) in
    let (_, _, _, short, _) = decode_slice_bounds buf kind type_len h e in
    let left : length (drop type_len buf) ≡ length buf - type_len = length-drop type_len buf in
    let rest : AreBytes (drop type_len buf) = All-drop IsByte type_len buf h in
    let ((value_len, len_len), f) =
      decode_slice_completes [] (drop type_len buf) tt rest (omega arith) in
    (
      (kind, value_len, type_len + len_len),
      read_header_intro buf kind type_len value_len len_len e f,
    )

pub read_header_waits : (buf : List ℕ) → AreBytes buf → read_header buf ≡ none → length buf < 16
read_header_waits buf h e = elim (dec_lt (length buf) 16) [
  | yes short ↦ short
  | no long ↦ let (p, found) = read_header_ready buf h (omega arith) in absurd (cc (e, found))
]
