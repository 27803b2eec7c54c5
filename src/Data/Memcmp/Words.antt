-- ===== src/Data/Memcmp/Words.antt =====
-- The words that stand for numbers in a key: `order_encode_i64`, `order_decode_i64`,
-- `order_encode_f64` and `order_decode_f64` (retia-core/src/data/memcmp.rs). A u64 is a number below
-- `2 ^ 64`, and an f64 is the u64 of its bits.
use retia.Prelude.{
  ℕ, ◌+◌, ◌-◌, ◌<◌, ltb, Ordering, lt, gt, compare, ◌≡◌, if◌then◌else◌, arith, Bool, not,
}
use retia.Data.Value.{ℤ, pos, negsuc}
use retia.Data.Value.NumOrder.{cmp_int}

-- The highest bit of a u64.
abbrev pub sign_mark : ℕ
sign_mark = 0x8000000000000000

-- The number of values of a u64.
abbrev pub word_size : ℕ
word_size = 0x10000000000000000

abbrev pub IsWord : ℕ → Type 0
IsWord u = u < word_size

-- The range of an i64.
abbrev pub IsI64 : ℤ → Type 0
IsI64 (pos n) = n < sign_mark
IsI64 (negsuc n) = n < sign_mark

-- `u & SIGN_MARK > 0`, for a u64.
abbrev pub is_marked : ℕ → Bool
is_marked u = not (ltb u sign_mark)

-- `u ^ SIGN_MARK`, for a u64: the highest bit changes.
abbrev pub flip_sign : ℕ → ℕ
flip_sign u = if is_marked u then u - sign_mark else u + sign_mark

-- `!u`, for a u64.
abbrev pub complement : ℕ → ℕ
complement u = word_size - 1 - u

-- `v as u64`: two's complement.
abbrev pub as_u64 : ℤ → ℕ
as_u64 (pos n) = n
as_u64 (negsuc n) = word_size - 1 - n

-- `u as i64`
abbrev pub as_i64 : ℕ → ℤ
as_i64 u = if is_marked u then negsuc (word_size - 1 - u) else pos u

unfoldable pub order_encode_i64 : ℤ → ℕ
order_encode_i64 v = flip_sign (as_u64 v)

unfoldable pub order_decode_i64 : ℕ → ℤ
order_decode_i64 u = as_i64 (flip_sign u)

-- `is_sign_positive` reads the highest bit, and `u | SIGN_MARK` sets it where it is clear.
unfoldable pub order_encode_f64 : ℕ → ℕ
order_encode_f64 u = if is_marked u then complement u else u + sign_mark

-- `u & !SIGN_MARK` clears the highest bit where it is set.
unfoldable pub order_decode_f64 : ℕ → ℕ
order_decode_f64 u = if is_marked u then u - sign_mark else complement u

-- IEEE 754's total order of two floats by their bits: a negative one comes first, and of two negative
-- ones the one of greater magnitude.
abbrev pub total_cmp : ℕ → ℕ → Ordering
total_cmp u v =
    if is_marked u
    then (if is_marked v then compare (v - sign_mark) (u - sign_mark) else lt)
    else (if is_marked v then gt else compare u v)

-- An i64 that is encoded decodes to itself, and its code is a u64.
pub order_decode_i64-order_encode_i64 :
    (v : ℤ) → IsI64 v → (order_decode_i64 (order_encode_i64 v) ≡ v) × IsWord (order_encode_i64 v)
unfolding order_decode_i64 order_encode_i64
order_decode_i64-order_encode_i64 (pos n) h = ground arith
order_decode_i64-order_encode_i64 (negsuc n) h = ground arith

-- The codes of two i64s compare as the integers do.
pub order_encode_i64-cmp :
    (v w : ℤ) → IsI64 v → IsI64 w → compare (order_encode_i64 v) (order_encode_i64 w) ≡ cmp_int v w
unfolding order_encode_i64
order_encode_i64-cmp (pos m) (pos n) h k = ground arith
order_encode_i64-cmp (pos m) (negsuc n) h k = ground arith
order_encode_i64-cmp (negsuc m) (pos n) h k = ground arith
order_encode_i64-cmp (negsuc m) (negsuc n) h k = ground arith

-- The bits of an f64 that is encoded decode to themselves, a NaN's included, and the code is a u64.
pub order_decode_f64-order_encode_f64 :
    (u : ℕ) → IsWord u → (order_decode_f64 (order_encode_f64 u) ≡ u) × IsWord (order_encode_f64 u)
unfolding order_decode_f64 order_encode_f64
order_decode_f64-order_encode_f64 u h = ground arith

-- The codes of two f64s compare in IEEE 754's total order of the floats.
pub order_encode_f64-total_cmp :
    (u v : ℕ)
    → IsWord u
    → IsWord v
    → compare (order_encode_f64 u) (order_encode_f64 v) ≡ total_cmp u v
unfolding order_encode_f64
order_encode_f64-total_cmp u v h k = ground arith
