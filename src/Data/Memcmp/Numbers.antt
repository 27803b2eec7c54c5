-- ===== src/Data/Memcmp/Numbers.antt =====
-- The keys of numbers: `encode_num` and `Num::decode_from_key` (retia-core/src/data/memcmp.rs).
use retia.Prelude.{
  ℕ, zero, suc, ◌+◌, ◌*◌, ◌/◌, ◌%◌, ltb, ◌==◌, Bool, Option, none, some, [], ◌∷◌, ◌++◌,
  if◌then◌else◌,
}
use retia.Prelude.Order.{Bytes}
use retia.Data.Value.{ℤ, pos, negsuc, Externals, FloatOps, Num, int, float, num_get_float}
use retia.Data.Memcmp.Words.{order_encode_f64, order_decode_f64, order_encode_i64, order_decode_i64}

-- The low `k` bytes of a word, the highest first: `write_u64::<BigEndian>` at `k = 8`.
unfoldable pub write_be : ℕ → ℕ → Bytes
write_be zero u = []
write_be (suc k) u = write_be k (u / 256) ++ u % 256 ∷ []

-- `BigEndian::read_u64`, behind the bytes that `acc` stands for.
unfoldable pub read_be : ℕ → Bytes → ℕ
read_be acc [] = acc
read_be acc (b ∷ bs) = read_be (acc * 256 + b) bs

-- `split_at`, `none` where it panics.
unfoldable pub split_at : ℕ → Bytes → Option (Bytes × Bytes)
split_at zero bs = some ([], bs)
split_at (suc n) [] = none
split_at (suc n) (b ∷ bs) = elim (split_at n bs) [ none ↦ none | some p ↦ some (b ∷ p.0, p.1) ]

abbrev pub is_float_tag : ℕ
is_float_tag = 16

abbrev pub is_approx_int_tag : ℕ
is_approx_int_tag = 4

abbrev pub is_exact_int_tag : ℕ
is_exact_int_tag = 0

abbrev pub exact_int_bound : ℕ
exact_int_bound = 0x20000000000000

-- `i > -EXACT_INT_BOUND && i < EXACT_INT_BOUND`
abbrev pub is_exact : ℤ → Bool
is_exact (pos n) = ltb n exact_int_bound
is_exact (negsuc n) = ltb (suc n) exact_int_bound

-- How `decode_from_key` ends: the number and the data behind it, or a panic.
pub data DecodedNum (X : Externals) : Type 0 where
  decoded_num : Num X → Bytes → DecodedNum X
  panic_num : DecodedNum X

-- `to_bits` and `from_bits` are those of f64.
module _ {X : Externals} (f : FloatOps X.F64) (to_bits : X.F64 → ℕ) (from_bits : ℕ → X.F64) where
  abbrev pub encode_tag : Num X → Bytes
  encode_tag (int i) =
      if is_exact i
      then is_exact_int_tag ∷ []
      else is_approx_int_tag ∷ write_be 8 (order_encode_i64 i)
  encode_tag (float x) = is_float_tag ∷ []

  unfoldable pub encode_num : Num X → Bytes
  encode_num v = write_be 8 (order_encode_f64 (to_bits (num_get_float f v))) ++ encode_tag v

  -- An integer from the eight bytes split off, and what follows them.
  abbrev pub int_from : Option (Bytes × Bytes) → DecodedNum X
  int_from none = panic_num
  int_from (some p) = decoded_num (int (order_decode_i64 (read_be 0 p.0))) p.1

  abbrev pub decode_int : Bytes → DecodedNum X
  decode_int bs = int_from (split_at 8 bs)

  abbrev pub decode_tag : X.F64 → Bytes → DecodedNum X
  decode_tag x [] = panic_num
  decode_tag x (tag ∷ rest) =
      if tag == is_float_tag
      then decoded_num (float x) rest
      else if tag == is_exact_int_tag
      then decoded_num (int (f.to_int x)) rest
      else if tag == is_approx_int_tag
      then decode_int rest
      else panic_num

  -- What follows the eight bytes of the float, split off.
  abbrev pub num_from : Option (Bytes × Bytes) → DecodedNum X
  num_from none = panic_num
  num_from (some p) = decode_tag (from_bits (order_decode_f64 (read_be 0 p.0))) p.1

  unfoldable pub decode_num : Bytes → DecodedNum X
  decode_num bs = num_from (split_at 8 bs)
