-- ===== src/Varint/Length.antt =====
-- `encoded_len`: the four sizes, and which values take which.
use skimasque.Prelude.{ℕ, zero, suc, ◌-◌, ◌*◌, ◌^◌, ◌≤◌, ◌<◌, ◌≡◌, ltb, if◌then◌else◌, arith}
use skimasque.Varint.{max, encoded_len}

-- The two-bit prefix with which a value is sent.
abbrev pub size_class : ℕ → ℕ
size_class v =
    if ltb v (2 ^ 6) then 0 else if ltb v (2 ^ 14) then 1 else if ltb v (2 ^ 30) then 2 else 3

-- How many bytes follow the first one, in each class.
abbrev pub tail_len : ℕ → ℕ
tail_len t = 2 ^ t - 1

pub encoded_len-size_class : (v : ℕ) → encoded_len v ≡ 2 ^ size_class v
unfolding encoded_len
encoded_len-size_class v = ground arith

-- A value fits what its class has room for.
pub size_class_fits :
    (v : ℕ) → v ≤ max → (size_class v ≤ 3) × (v < 64 * 256 ^ tail_len (size_class v))
size_class_fits v h = ground arith

-- A class that has room for a value is no smaller than the value's own.
pub size_class_least : (v t : ℕ) → v < 64 * 256 ^ tail_len t → t ≤ 3 → size_class v ≤ t
size_class_least v zero fits h = ground arith
size_class_least v (suc zero) fits h = ground arith
size_class_least v (suc (suc zero)) fits h = ground arith
size_class_least v (suc (suc (suc t))) fits h = ground arith
