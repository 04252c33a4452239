-- ===== src/Prelude/Bytes.antt =====
-- Byte strings, and what the wire code uses of the `bytes` crate.
-- A buffer (`Bytes`, `BytesMut`, any `BufMut`) is the list of its bytes, so `freeze`,
-- `with_capacity`, `chunk` and `copy_from_slice`, which keep the contents, are not written.
use Prim.Native.Nat.{ℕ, zero, suc, ◌+◌, ◌*◌, ◌/◌, ◌%◌, ◌^◌, ◌≤◌, ◌<◌}
use mathlib.Core.Path.{◌≡◌, refl, ap, ◌∙◌}
use mathlib.Core.List.{List, [], ◌∷◌, ◌++◌}
use native.Mathlib.Omega.{arith}
use native.Mathlib.Nat.{pow-suc, one-le-pow, mod-lt, mod-eq_of_lt, div-add-mod'}
use native.Mathlib.Nat.{mul-add-mod_self_left}
use skimasque.Prelude.Lists.{length, take, drop, All}

abbrev pub IsByte : ℕ → Type 0
IsByte b = b < 256

abbrev pub AreBytes : List ℕ → Type 0
AreBytes = All IsByte

-- The last `n` bytes of `v`, the highest first.
abbrev pub be_bytes : ℕ → ℕ → List ℕ
be_bytes zero v = []
be_bytes (suc n) v = (v / 256 ^ n % 256) ∷ be_bytes n v

-- The number that `acc` becomes when the bytes are appended to its base-256 digits.
abbrev pub from_be : ℕ → List ℕ → ℕ
from_be acc [] = acc
from_be acc (b ∷ bs) = from_be (acc * 256 + b) bs

-- The documented behaviour of the crate: the `put_*` methods of `BufMut` append, numbers in
-- big-endian order; `advance` and `split_to` cut a buffer that is long enough.
pub record BytesCrate : Type 0 where
  pub put_u8 : List ℕ → ℕ → List ℕ
  pub put_u16 : List ℕ → ℕ → List ℕ
  pub put_u32 : List ℕ → ℕ → List ℕ
  pub put_u64 : List ℕ → ℕ → List ℕ
  pub put_slice : List ℕ → List ℕ → List ℕ
  pub advance : List ℕ → ℕ → List ℕ
  pub split_to : List ℕ → ℕ → List ℕ × List ℕ
  pub put_u8-eq : (out : List ℕ) (v : ℕ) → put_u8 out v ≡ out ++ be_bytes 1 v
  pub put_u16-eq : (out : List ℕ) (v : ℕ) → put_u16 out v ≡ out ++ be_bytes 2 v
  pub put_u32-eq : (out : List ℕ) (v : ℕ) → put_u32 out v ≡ out ++ be_bytes 4 v
  pub put_u64-eq : (out : List ℕ) (v : ℕ) → put_u64 out v ≡ out ++ be_bytes 8 v
  pub put_slice-eq : (out bs : List ℕ) → put_slice out bs ≡ out ++ bs
  pub advance-eq : (buf : List ℕ) (n : ℕ) → n ≤ length buf → advance buf n ≡ drop n buf
  pub split_to-eq :
      (buf : List ℕ) (n : ℕ) → n ≤ length buf → split_to buf n ≡ (take n buf, drop n buf)

-- The crate's methods on lists.
instance abbrev pub list_bytes : BytesCrate
list_bytes = record {
  put_u8 = λ out v. out ++ be_bytes 1 v;
  put_u16 = λ out v. out ++ be_bytes 2 v;
  put_u32 = λ out v. out ++ be_bytes 4 v;
  put_u64 = λ out v. out ++ be_bytes 8 v;
  put_slice = λ out bs. out ++ bs;
  advance = λ buf n. drop n buf;
  split_to = λ buf n. (take n buf, drop n buf);
  put_u8-eq = λ out v. refl;
  put_u16-eq = λ out v. refl;
  put_u32-eq = λ out v. refl;
  put_u64-eq = λ out v. refl;
  put_slice-eq = λ out bs. refl;
  advance-eq = λ buf n h. refl;
  split_to-eq = λ buf n h. refl;
}

pub length-be_bytes : (n v : ℕ) → length (be_bytes n v) ≡ n
length-be_bytes zero v = refl
length-be_bytes (suc n) v = ap suc (length-be_bytes n v)

pub AreBytes-be_bytes : (n v : ℕ) → AreBytes (be_bytes n v)
AreBytes-be_bytes zero v = tt
AreBytes-be_bytes (suc n) v = (omega arith, AreBytes-be_bytes n v)

-- The next base-256 digit of `v` above its part below `p`.
mod_digit : (v p : ℕ) → 0 < p → v % (p * 256) ≡ v / p % 256 * p + v % p
mod_digit v p h =
    let q : ℕ = v / p / 256 in
    let low : ℕ = v / p % 256 * p + v % p in
    let whole : v ≡ p * 256 * q + low =
      omega (arith, div-add-mod' v p, ap (λ (t : ℕ). t * p) (div-add-mod' (v / p) 256)) in
    let room : low < p * 256 = grind (arith, mod-lt v h) in
    ap (λ (t : ℕ). t % (p * 256)) whole ∙ mul-add-mod_self_left (p * 256) q low ∙ mod-eq_of_lt room

pub from_be-be_bytes : (n acc v : ℕ) → from_be acc (be_bytes n v) ≡ acc * 256 ^ n + v % 256 ^ n
from_be-be_bytes zero acc v = omega arith
from_be-be_bytes (suc n) acc v = omega (
  arith,
  from_be-be_bytes n (acc * 256 + v / 256 ^ n % 256) v,
  mod_digit v (256 ^ n) (one-le-pow n 256 (omega arith)),
  pow-suc 256 n,
  ap (λ (t : ℕ). acc * t) (pow-suc 256 n),
  ap (λ (t : ℕ). v % t) (pow-suc 256 n),
)

one_more_digit : (acc b p x : ℕ) → b < 256 → x < (acc * 256 + b + 1) * p → x < (acc + 1) * (p * 256)
one_more_digit acc b p x hb h = grind arith

pub from_be-lt :
    (bs : List ℕ) (acc : ℕ) → AreBytes bs → from_be acc bs < (acc + 1) * 256 ^ length bs
from_be-lt [] acc h = omega arith
from_be-lt (b ∷ bs) acc (hb, h) = rw pow-suc (
    one_more_digit acc b (256 ^ length bs) (from_be (acc * 256 + b) bs) hb
      (from_be-lt bs (acc * 256 + b) h))
